-- ===== src/Profile/Policy.antt =====
-- `NormalizeProfilePolicy`, `ValidateProfilePolicy` and `migrateRunnerProfilePolicies`. A column holds a
-- text, never NULL.
use qiniu_ci_runner.Prelude.{
  ℕ, ◌+◌, String, Bool, true, false, not, ◌&&◌, ◌||◌, List, [], ◌∷◌, ◌++◌, Option, Result, err,
  invalid, ensure, ◌>>◌, trim_space, is_empty, str_eq, ◌==◌, if◌then◌else◌, select, count,
  update_where, ℤ, pos, negsuc,
}
use qiniu_ci_runner.Request.Types.{Time}

pub record RunnerProfile : Type 0 where
  pub template_source : String
  pub published : Bool
  pub name : String
  pub labels : List String
  pub required_labels : List String
  pub template_id : String
  pub default_template_name : String
  pub runner_group : String
  pub max_concurrency : ℤ
  pub min_idle : ℤ
  pub priority : ℤ
  pub enabled : Bool
  pub managed_by : String
  pub catalog_revision : ℤ
  pub created_at : Time
  pub updated_at : Time

pub record RunnerProfileRecord : Type 0 where
  pub template_source : String
  pub published : Bool
  pub name : String
  pub labels_json : String
  pub required_labels_json : Option String
  pub template_id : String
  pub default_template_name : String
  pub runner_group : String
  pub max_concurrency : ℤ
  pub min_idle : ℤ
  pub priority : ℤ
  pub enabled : Bool
  pub default_available : Bool
  pub managed_by : String
  pub catalog_revision : ℤ
  pub created_at : Time
  pub updated_at : Time

pub record AuditEventRecord : Type 0 where
  pub id : ℕ
  pub actor : String
  pub action : String
  pub resource_type : String
  pub resource_id : String
  pub payload_json : String
  pub created_at : Time

abbrev pub template_source_public : String
template_source_public = "public"

abbrev pub template_source_private : String
template_source_private = "private"

abbrev pub is_blank : String → Bool
is_blank s = is_empty (trim_space s)

unfoldable pub normalize_profile_policy : RunnerProfile → RunnerProfile
normalize_profile_policy p =
    if not (is_empty p.template_source)
    then p
    else if is_blank p.managed_by
    then record p { template_source = template_source_private }
    else record p {
      template_source = template_source_public;
      template_id = "";
      published = not (is_blank p.default_template_name) || p.published;
    }

abbrev has_none {ℓ} : {A : Type ℓ} → List A → Bool
has_none [] = true
has_none (x ∷ xs) = false

abbrev pub is_negative : ℤ → Bool
is_negative (pos n) = false
is_negative (negsuc n) = true

abbrev pub check_source : RunnerProfile → Result (Unit {0})
check_source p =
    if str_eq p.template_source template_source_public
    then ensure (not (has_none p.labels)) (invalid "public template specs require workflow labels")
      >> ensure (not (is_blank p.default_template_name || not (is_blank p.template_id)))
          (invalid "public templates require a stable template name and no physical template ID")
    else if str_eq p.template_source template_source_private
    then ensure (is_blank p.default_template_name)
        (invalid "ID references must use a physical template ID, not a public template name")
    else err (invalid "invalid template source")

unfoldable pub validate_profile_policy : RunnerProfile → Result (Unit {0})
validate_profile_policy p =
    check_source p
    >> ensure (not (is_negative p.max_concurrency || is_negative p.min_idle))
        (invalid "capacity values must not be negative")

-- The profiles, the audit events and the number of the next one.
pub record ProfileDb : Type 0 where
  pub profiles : List RunnerProfileRecord
  pub audit : List AuditEventRecord
  pub next_audit : ℕ

abbrev pub is_legacy : RunnerProfileRecord → Bool
is_legacy row = is_empty row.template_source

-- What the policy of a row is read from.
abbrev pub legacy_profile : RunnerProfileRecord → RunnerProfile
legacy_profile row = record {
  template_source = "";
  published = false;
  name = "";
  labels = [];
  required_labels = [];
  template_id = "";
  default_template_name = row.default_template_name;
  runner_group = "";
  max_concurrency = pos 0;
  min_idle = pos 0;
  priority = pos 0;
  enabled = false;
  managed_by = row.managed_by;
  catalog_revision = pos 0;
  created_at = 0;
  updated_at = 0;
}

-- The columns that a migrated row is given, from the row as it was read.
unfoldable pub set_policy : RunnerProfileRecord → RunnerProfileRecord → RunnerProfileRecord
unfolding normalize_profile_policy
set_policy old row =
    let p = normalize_profile_policy (legacy_profile old) in
    let is_public = str_eq p.template_source template_source_public in
    record row {
      template_source = p.template_source;
      published = p.published;
      updated_at = old.updated_at;
      template_id = if is_public then "" else row.template_id;
      default_template_name = if is_public then row.default_template_name else "";
    }

abbrev pub is_migrated : RunnerProfileRecord → RunnerProfileRecord → Bool
is_migrated old row = str_eq row.name old.name && is_legacy row

unfoldable pub migrate_one : Time → RunnerProfileRecord → ProfileDb → ProfileDb
unfolding set_policy
migrate_one now old db = if count (is_migrated old) db.profiles == 0 then db else record {
  profiles = update_where (is_migrated old) (set_policy old) db.profiles;
  audit =
      db.audit
      ++ record {
        id = db.next_audit;
        actor = "runnerd_migration";
        action = "profile.policy_migrate";
        resource_type = "runner_profile";
        resource_id = old.name;
        payload_json = "{\"version\":1}";
        created_at = now;
      }
        ∷ [];
  next_audit = db.next_audit + 1;
}

unfoldable pub migrate_all : Time → List RunnerProfileRecord → ProfileDb → ProfileDb
unfolding migrate_one
migrate_all now [] db = db
migrate_all now (old ∷ rows) db = migrate_all now rows (migrate_one now old db)

-- `migrateRunnerProfilePolicies`
unfoldable pub migrate_runner_profile_policies : Time → ProfileDb → ProfileDb
unfolding migrate_all
migrate_runner_profile_policies now db = migrate_all now (select is_legacy db.profiles) db
