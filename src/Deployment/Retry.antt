-- ===== src/Deployment/Retry.antt =====
-- `RetryDeployment` and `RetryDeploymentWithScopeLimit`.
use qiniu_ci_runner.Prelude.{
  ℕ, ◌+◌, Bool, not, ◌&&◌, ◌||◌, none, some, Result, ok, err, conflict, record_not_found,
  retry_not_allowed, expiry_required, ensure, ◌>>◌, ◌>>=◌, trim_space, is_empty, ◌==◌,
  if◌then◌else◌, find, count, update_where,
}
use qiniu_ci_runner.Request.Types.{Time, is_zero}
use qiniu_ci_runner.Deployment.Types.{queued, is_terminal, Deployment, DeploymentRecord}
use qiniu_ci_runner.Deployment.Convert.{revision_record_from_deployment}
use qiniu_ci_runner.Deployment.Store.{
  DeploymentDb, opened, has_id, insert_revision, check_deployment_quota,
}
use qiniu_ci_runner.Deployment.Writing.{at_version}

unfoldable pub requeued : Time → Time → Deployment → DeploymentRecord → DeploymentRecord
requeued now expires_at d row = record row {
  execution_account_id = d.execution_account_id;
  revision_number = row.revision_number + 1;
  source_repository_id = d.source_repository_id;
  source_repository_full_name = d.source_repository_full_name;
  source_ref = d.source_ref;
  pull_request_title = d.pull_request_title;
  ref = d.ref;
  commit_sha = d.commit_sha;
  config_path = d.config_path;
  snapshot_version = d.snapshot_version;
  spec_hash = d.spec_hash;
  spec_json_encrypted = d.spec_json_encrypted;
  deployment_template_id = d.deployment_template_id;
  deployment_template_name = d.deployment_template_name;
  deployment_template_cpu = d.deployment_template_cpu;
  deployment_template_memory_mb = d.deployment_template_memory_mb;
  deployment_template_disk_mb = d.deployment_template_disk_mb;
  sandbox_api_url = d.sandbox_api_url;
  sandbox_api_key_encrypted = d.sandbox_api_key_encrypted;
  sandbox_config_source = d.sandbox_config_source;
  sandbox_region = d.sandbox_region;
  status = queued;
  sandbox_id = "";
  runtime_id = "";
  process_id = "";
  process_tag = "";
  endpoint = "";
  failure_stage = "";
  failure_reason = "";
  error = "";
  expires_at = expires_at;
  planning_at = none;
  creating_at = none;
  running_at = none;
  stopping_at = none;
  completed_at = none;
  failed_at = none;
  updated_at = now;
  version = d.version + 1;
}

-- A Sandbox, a runtime or a process may still be there.
abbrev pub has_evidence : Deployment → Bool
has_evidence d =
    not (is_empty (trim_space d.sandbox_id))
    || (not (is_empty (trim_space d.runtime_id))
        || (not (is_empty (trim_space d.process_id)) || not (is_empty (trim_space d.process_tag))))

abbrev pub may_requeue : Deployment → DeploymentRecord → Bool
may_requeue d row = at_version d.id d.version row && is_terminal row.status

-- An hour, in nanoseconds.
abbrev pub hour : ℕ
hour = 3600000000000

abbrev pub requeue_row : Time → Time → Deployment → DeploymentDb → Result (DeploymentDb × Unit {0})
requeue_row now expires_at d db =
    let written = record db {
      deployments = update_where (may_requeue d) (requeued now expires_at d) db.deployments;
    } in
    if count (may_requeue d) db.deployments == 0
    then err conflict
    else elim (find (has_id d.id) written.deployments) [
      | none ↦ err record_not_found
      | some saved ↦ do
        let revision = revision_record_from_deployment saved now
        with_revision ← insert_revision (record revision { sandbox_id = ""; endpoint = "" }) written
        ok (with_revision, tt)
    ]

-- `retryDeployment`
unfoldable pub retry_row :
    Time → Deployment → Time → DeploymentDb → Result (DeploymentDb × Unit {0})
unfolding requeued insert_revision revision_record_from_deployment
retry_row now d expires_at db = do
  ensure (is_terminal d.status) retry_not_allowed
  ensure (not (has_evidence d)) conflict
  ensure (is_zero d.expires_at || not (is_zero expires_at)) expiry_required
  requeue_row now (if is_zero expires_at then now + hour else expires_at) d db

unfoldable pub retry_deployment :
    Time → Deployment → Time → DeploymentDb → DeploymentDb × Result (Unit {0})
unfolding retry_row
retry_deployment now d expires_at db = opened db (retry_row now d expires_at db)

unfoldable pub retry_deployment_with_scope_limit :
    Time → Deployment → Time → ℕ → DeploymentDb → DeploymentDb × Result (Unit {0})
unfolding check_deployment_quota retry_row
retry_deployment_with_scope_limit now d expires_at max_concurrent db =
    opened db (do check_deployment_quota d max_concurrent d.id db; retry_row now d expires_at db)
