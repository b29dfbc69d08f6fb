-- ===== src/Deployment/Revisions.antt =====
-- `GetDeploymentRevision`, `ListDeploymentRevisions`, `LastSuccessfulDeploymentRevisionNumber`,
-- `ListDeploymentEvents`, `ListDeploymentEventsAfter` and `ListDeploymentRevisionEvents`. A number or
-- a `before` of 0 stands for every one that is not positive.
use qiniu_ci_runner.Prelude.{
  ℕ, zero, suc, ℤ, pos, negsuc, String, Bool, true, false, not, ◌&&◌, ◌||◌, List, [], ◌∷◌, ◌++◌,
  Option, none, some, Result, ok, err, unavailable, not_found, invalid, ensure, ◌>>◌, ◌>>=◌,
  trim_space, is_empty, str_eq, ◌==◌, ltb, find, select, sort_by, take, length, map, min, max,
  has_control, byte_len,
}
use qiniu_ci_runner.Request.Convert.{pointer_to_time}
use qiniu_ci_runner.Deployment.Types.{
  Deployment, DeploymentRecord, DeploymentRevisionRecord, DeploymentEventRecord,
}
use qiniu_ci_runner.Deployment.Store.{DeploymentDb, has_id, at_number}

-- A revision with its deployment: the plan and the run are the revision's, the place the deployment's.
pub record DeploymentRevision : Type 0 where
  pub deployment : Deployment
  pub revision_id : String

unfoldable pub revision_from_record :
    DeploymentRevisionRecord → DeploymentRecord → DeploymentRevision
revision_from_record r d = record {
  deployment = record {
    create_request_hash = "";
    execution_account_id = r.execution_account_id;
    revision_number = r.number;
    id = d.id;
    account_id = d.account_id;
    scope_type = d.scope_type;
    scope_id = d.scope_id;
    github_installation_id = d.github_installation_id;
    repository_id = d.repository_id;
    repository_full_name = d.repository_full_name;
    ref = r.ref;
    commit_sha = r.commit_sha;
    config_path = r.config_path;
    snapshot_version = r.snapshot_version;
    spec_hash = r.spec_hash;
    spec_json_encrypted = r.spec_json_encrypted;
    status = r.status;
    sandbox_id = r.sandbox_id;
    attempt = 0;
    runtime_id = "";
    process_id = "";
    process_tag = "";
    sandbox_api_url = "";
    sandbox_api_key_encrypted = "";
    sandbox_config_source = "";
    sandbox_region = r.sandbox_region;
    deployment_template_id = r.template_id;
    deployment_template_name = r.template_name;
    deployment_template_cpu = r.template_cpu;
    deployment_template_memory_mb = r.template_memory_mb;
    deployment_template_disk_mb = r.template_disk_mb;
    endpoint = r.endpoint;
    failure_stage = r.failure_stage;
    failure_reason = r.failure_reason;
    error = "";
    expires_at = r.expires_at;
    created_at = r.created_at;
    planning_at = 0;
    creating_at = 0;
    running_at = pointer_to_time r.running_at;
    stopping_at = 0;
    completed_at = 0;
    failed_at = 0;
    updated_at = r.updated_at;
    version = 0;
    source_repository_id = r.source_repository_id;
    source_repository_full_name = r.source_repository_full_name;
    source_ref = r.source_ref;
    pull_request_title = r.pull_request_title;
  };
  revision_id = r.id;
}

abbrev or_not_found {ℓ} : {A : Type ℓ} → Option A → Result A
or_not_found none = err not_found
or_not_found (some a) = ok a

unfoldable pub get_deployment_revision : String → ℕ → DeploymentDb → Result DeploymentRevision
unfolding revision_from_record
get_deployment_revision id number db = do
  ensure db.available unavailable
  identity ← or_not_found (find (has_id (trim_space id)) db.deployments)
  row ← or_not_found (find (at_number (trim_space id) number) db.revisions)
  ok (revision_from_record row identity)

-- `number DESC`
abbrev pub later_number : DeploymentRevisionRecord → DeploymentRevisionRecord → Bool
later_number a b = ltb b.number a.number

abbrev pub is_before : ℕ → ℕ → Bool
is_before zero number = true
is_before (suc n) number = ltb number (suc n)

unfoldable pub list_deployment_revisions :
    String → ℕ → ℕ → DeploymentDb → Result (List DeploymentRevision × Bool)
unfolding revision_from_record
list_deployment_revisions id before limit db = do
  ensure db.available unavailable
  ensure (not (is_empty (trim_space id))) (invalid "deployment id is required")
  identity ← or_not_found (find (has_id (trim_space id)) db.deployments)
  let size = min (max limit 1) 100
  let rows = take (suc size) (
      sort_by later_number (
        select
          (λ (r : DeploymentRevisionRecord).
            str_eq r.deployment_id (trim_space id) && is_before before r.number)
          db.revisions))
  ok (map (λ r. revision_from_record r identity) (take size rows), ltb size (length rows))

abbrev has_run : DeploymentRevisionRecord → Bool
has_run r = elim r.running_at [ none ↦ false | some t ↦ true ]

abbrev first_of : List DeploymentRevisionRecord → ℕ
first_of [] = 0
first_of (r ∷ rows) = r.number

unfoldable pub last_successful_deployment_revision_number : String → DeploymentDb → Result ℕ
last_successful_deployment_revision_number id db = do
  ensure db.available unavailable
  ok (
      first_of (
        take 1 (
          sort_by later_number (
            select (λ (r : DeploymentRevisionRecord). str_eq r.deployment_id id && has_run r)
              db.revisions))))

-- `afterID` is an `int64`, and the three tests of it tell 0 from what is below 0.
abbrev pub is_past_event : ℤ → DeploymentEventRecord → Bool
is_past_event (pos zero) e = true
is_past_event (pos (suc n)) e = ltb (suc n) e.id
is_past_event (negsuc n) e = true

abbrev pub of_number : ℕ → DeploymentEventRecord → Bool
of_number zero e = true
of_number (suc n) e = e.revision_number == suc n

abbrev by_event : ℤ → DeploymentEventRecord → DeploymentEventRecord → Bool
by_event (pos zero) a b = ltb b.id a.id
by_event (pos (suc n)) a b = ltb a.id b.id
by_event (negsuc n) a b = ltb b.id a.id

abbrev backwards : List DeploymentEventRecord → List DeploymentEventRecord
backwards [] = []
backwards (e ∷ es) = backwards es ++ e ∷ []

-- `afterID == 0`: only then is a page that was read from the latest event down turned around.
abbrev in_order : ℤ → List DeploymentEventRecord → List DeploymentEventRecord
in_order (pos zero) es = backwards es
in_order (pos (suc n)) es = es
in_order (negsuc n) es = es

-- `listDeploymentEvents`
unfoldable pub list_events :
    String → ℕ → ℕ → ℤ → ℕ → DeploymentDb → Result (List DeploymentEventRecord × Bool)
list_events id number before after limit db = do
  ensure db.available unavailable
  let name = trim_space id
  ensure (not (is_empty name || (ltb 128 (byte_len name) || has_control name)))
      (invalid "deployment id is invalid")
  let size = min (max limit 1) 500
  let rows = take (suc size) (
      sort_by (by_event after) (
        select
          (λ (e : DeploymentEventRecord).
            str_eq e.deployment_id name
            && (of_number number e && (is_before before e.id && is_past_event after e)))
          db.events))
  ok (in_order after (take size rows), ltb size (length rows))

unfoldable pub list_deployment_events :
    String → ℕ → ℕ → DeploymentDb → Result (List DeploymentEventRecord × Bool)
unfolding list_events
list_deployment_events id before limit db = list_events id 0 before (pos 0) limit db

unfoldable pub list_deployment_events_after :
    String → ℤ → ℕ → DeploymentDb → Result (List DeploymentEventRecord × Bool)
unfolding list_events
list_deployment_events_after id after limit db = list_events id 0 0 after limit db

unfoldable pub list_deployment_revision_events :
    String → ℕ → ℕ → ℤ → ℕ → DeploymentDb → Result (List DeploymentEventRecord × Bool)
unfolding get_deployment_revision list_events
list_deployment_revision_events id number before after limit db = do
  revision ← get_deployment_revision id number db
  list_events id number before after limit db
