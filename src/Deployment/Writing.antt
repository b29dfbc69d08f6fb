-- ===== src/Deployment/Writing.antt =====
-- `UpdateDeployment` and `updateCurrentDeploymentRevision`. A version is a natural number, so that it
-- is never below 0.
use qiniu_ci_runner.Prelude.{
  ℕ, ◌+◌, String, Bool, not, ◌&&◌, none, some, Result, ok, err, conflict, record_not_found, invalid,
  ensure, ◌>>◌, ◌>>=◌, trim_space, is_empty, ◌==◌, if◌then◌else◌, find, count, update_where,
}
use qiniu_ci_runner.Request.Types.{Time}
use qiniu_ci_runner.Request.Convert.{zero_time_to_pointer}
use qiniu_ci_runner.Deployment.Types.{Deployment, DeploymentRecord, DeploymentRevisionRecord}
use qiniu_ci_runner.Deployment.Convert.{apply_deployment_timestamps, record_of, first_number}
use qiniu_ci_runner.Deployment.Normalize.{normalize_deployment, is_unset}
use qiniu_ci_runner.Deployment.Store.{DeploymentDb, opened, has_id, at_number}

-- The timestamps that an update writes.
unfoldable pub stamps_of : Time → Deployment → DeploymentRecord
unfolding record_of apply_deployment_timestamps
stamps_of now d =
    apply_deployment_timestamps
      (record (record_of d) {
        planning_at = zero_time_to_pointer d.planning_at;
        creating_at = zero_time_to_pointer d.creating_at;
        running_at = zero_time_to_pointer d.running_at;
        stopping_at = zero_time_to_pointer d.stopping_at;
        completed_at = zero_time_to_pointer d.completed_at;
        failed_at = zero_time_to_pointer d.failed_at;
      })
      now

unfoldable pub set_columns : Time → Deployment → DeploymentRecord → DeploymentRecord
unfolding stamps_of
set_columns now d row =
    let stamps = stamps_of now d in
    record row {
      status = d.status;
      sandbox_id = trim_space d.sandbox_id;
      attempt = d.attempt;
      runtime_id = trim_space d.runtime_id;
      process_id = trim_space d.process_id;
      process_tag = trim_space d.process_tag;
      sandbox_api_url = trim_space d.sandbox_api_url;
      sandbox_api_key_encrypted = trim_space d.sandbox_api_key_encrypted;
      sandbox_config_source = trim_space d.sandbox_config_source;
      sandbox_region = trim_space d.sandbox_region;
      deployment_template_id = trim_space d.deployment_template_id;
      deployment_template_name = trim_space d.deployment_template_name;
      deployment_template_cpu = d.deployment_template_cpu;
      deployment_template_memory_mb = d.deployment_template_memory_mb;
      deployment_template_disk_mb = d.deployment_template_disk_mb;
      endpoint = trim_space d.endpoint;
      failure_stage = trim_space d.failure_stage;
      failure_reason = trim_space d.failure_reason;
      error = d.error;
      expires_at = d.expires_at;
      planning_at = stamps.planning_at;
      creating_at = stamps.creating_at;
      running_at = stamps.running_at;
      stopping_at = stamps.stopping_at;
      completed_at = stamps.completed_at;
      failed_at = stamps.failed_at;
      updated_at = now;
      version = d.version + 1;
    }

abbrev pub at_version : String → ℕ → DeploymentRecord → Bool
at_version id version row = has_id id row && (row.version == version)

-- The columns of a revision that follow its deployment.
unfoldable pub follow : DeploymentRecord → DeploymentRevisionRecord → DeploymentRevisionRecord
follow d r = record r {
  status = d.status;
  sandbox_region = d.sandbox_region;
  template_id = d.deployment_template_id;
  template_name = d.deployment_template_name;
  template_cpu = d.deployment_template_cpu;
  template_memory_mb = d.deployment_template_memory_mb;
  template_disk_mb = d.deployment_template_disk_mb;
  endpoint = d.endpoint;
  failure_stage = d.failure_stage;
  failure_reason = d.failure_reason;
  expires_at = d.expires_at;
  running_at = d.running_at;
  updated_at = d.updated_at;
  sandbox_id = if is_empty d.sandbox_id then r.sandbox_id else d.sandbox_id;
}

unfoldable pub update_current_deployment_revision :
    DeploymentRecord → DeploymentDb → Result (DeploymentDb × Unit {0})
update_current_deployment_revision d db =
    let current = at_number d.id (first_number d.revision_number) in
    if count current db.revisions == 0
    then err conflict
    else ok (record db { revisions = update_where current (follow d) db.revisions }, tt)

-- The transaction of an update, on a normal deployment.
unfoldable pub update_row : Time → Deployment → DeploymentDb → Result (DeploymentDb × Unit {0})
unfolding update_current_deployment_revision
update_row now d db =
    let matches = at_version d.id d.version in
    let written = record db {
      deployments = update_where matches (set_columns now d) db.deployments;
    } in
    if count matches db.deployments == 0
    then err conflict
    else elim (find (has_id d.id) written.deployments) [
      | none ↦ err record_not_found
      | some saved ↦ update_current_deployment_revision saved written
    ]

unfoldable pub update_deployment :
    Time → Deployment → DeploymentDb → DeploymentDb × Result (Unit {0})
unfolding normalize_deployment update_row
update_deployment now d db = opened db (do
  normal ← normalize_deployment d
  ensure (not (is_unset normal.status)) (invalid "deployment status is required")
  update_row now normal db)
