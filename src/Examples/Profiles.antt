-- ===== src/Examples/Profiles.antt =====
-- Two profiles from before policies, one managed, and one that has a policy.
use qiniu_ci_runner.Prelude.{true, false, [], ◌∷◌, ◌≡◌, none, pos, select}
use qiniu_ci_runner.Profile.Policy.{
  RunnerProfileRecord, ProfileDb, is_legacy, migrate_runner_profile_policies,
}
use qiniu_ci_runner.Profile.Migration.{migrate_idem}

abbrev custom : RunnerProfileRecord
custom = record {
  template_source = "";
  published = false;
  name = "custom";
  labels_json = "[]";
  required_labels_json = none;
  template_id = "t1";
  default_template_name = "stray";
  runner_group = "";
  max_concurrency = pos 2;
  min_idle = pos 0;
  priority = pos 0;
  enabled = true;
  default_available = false;
  managed_by = " ";
  catalog_revision = pos 0;
  created_at = 1;
  updated_at = 2;
}

abbrev three_db : ProfileDb
three_db = record {
  profiles =
      custom
      ∷ record custom { name = "base"; managed_by = "catalog"; default_template_name = "base" }
      ∷ record custom { name = "new"; template_source = "private"; default_template_name = "" }
      ∷ [];
  audit = [];
  next_audit = 1;
}

migrate_idem_example :
    (select is_legacy (migrate_runner_profile_policies 5 three_db).profiles ≡ [])
    × (migrate_runner_profile_policies 6 (migrate_runner_profile_policies 5 three_db)
        ≡ migrate_runner_profile_policies 5 three_db)
migrate_idem_example = migrate_idem 5 6 three_db
