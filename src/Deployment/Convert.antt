-- ===== src/Deployment/Convert.antt =====
-- `internal/state/deployments.go` and `internal/state/deployment_revisions.go`: a deployment as a row,
-- a row as a deployment, and the revision that a row makes.
use qiniu_ci_runner.Prelude.{ℕ, zero, suc, Option, none, some, false, append_text, decimal}
use qiniu_ci_runner.Request.Types.{Time}
use qiniu_ci_runner.Request.Convert.{pointer_to_time}
use qiniu_ci_runner.Deployment.Types.{
  Status, planning, creating, running, stopping, completed, expired, failed, Deployment,
  DeploymentRecord, DeploymentRevisionRecord,
}

-- `set` of `applyDeploymentTimestamps`
abbrev pub or_stamp : Option Time → Time → Option Time
or_stamp none now = some now
or_stamp (some t) now = some t

abbrev pub stamp : Status → DeploymentRecord → Time → DeploymentRecord
stamp planning row now = record row { planning_at = or_stamp row.planning_at now }
stamp creating row now = record row {
  planning_at = or_stamp row.planning_at now;
  creating_at = or_stamp row.creating_at now;
}
stamp running row now = record row {
  planning_at = or_stamp row.planning_at now;
  creating_at = or_stamp row.creating_at now;
  running_at = or_stamp row.running_at now;
}
stamp stopping row now = record row { stopping_at = or_stamp row.stopping_at now }
stamp completed row now = record row { completed_at = or_stamp row.completed_at now }
stamp expired row now = record row { completed_at = or_stamp row.completed_at now }
stamp failed row now = record row { failed_at = or_stamp row.failed_at now }
stamp _ row now = row

unfoldable pub apply_deployment_timestamps : DeploymentRecord → Time → DeploymentRecord
apply_deployment_timestamps row now = stamp row.status row now

-- The row of a new deployment, without its timestamps.
unfoldable pub record_of : Deployment → DeploymentRecord
record_of d = record {
  create_request_hash = d.create_request_hash;
  execution_account_id = d.execution_account_id;
  revision_number = d.revision_number;
  id = d.id;
  account_id = d.account_id;
  scope_type = d.scope_type;
  scope_id = d.scope_id;
  github_installation_id = d.github_installation_id;
  repository_id = d.repository_id;
  repository_full_name = d.repository_full_name;
  ref = d.ref;
  commit_sha = d.commit_sha;
  config_path = d.config_path;
  snapshot_version = d.snapshot_version;
  spec_hash = d.spec_hash;
  spec_json_encrypted = d.spec_json_encrypted;
  status = d.status;
  sandbox_id = d.sandbox_id;
  attempt = d.attempt;
  runtime_id = d.runtime_id;
  process_id = d.process_id;
  process_tag = d.process_tag;
  sandbox_api_url = d.sandbox_api_url;
  sandbox_api_key_encrypted = d.sandbox_api_key_encrypted;
  sandbox_config_source = d.sandbox_config_source;
  sandbox_region = d.sandbox_region;
  deployment_template_id = d.deployment_template_id;
  deployment_template_name = d.deployment_template_name;
  deployment_template_cpu = d.deployment_template_cpu;
  deployment_template_memory_mb = d.deployment_template_memory_mb;
  deployment_template_disk_mb = d.deployment_template_disk_mb;
  endpoint = d.endpoint;
  failure_stage = d.failure_stage;
  failure_reason = d.failure_reason;
  error = d.error;
  expires_at = d.expires_at;
  created_at = d.created_at;
  planning_at = none;
  creating_at = none;
  running_at = none;
  stopping_at = none;
  completed_at = none;
  failed_at = none;
  updated_at = d.updated_at;
  version = d.version;
  source_repository_id = d.source_repository_id;
  source_repository_full_name = d.source_repository_full_name;
  source_ref = d.source_ref;
  pull_request_title = d.pull_request_title;
}

unfoldable pub deployment_from_record : DeploymentRecord → Deployment
deployment_from_record row = record {
  create_request_hash = row.create_request_hash;
  execution_account_id = row.execution_account_id;
  revision_number = row.revision_number;
  id = row.id;
  account_id = row.account_id;
  scope_type = row.scope_type;
  scope_id = row.scope_id;
  github_installation_id = row.github_installation_id;
  repository_id = row.repository_id;
  repository_full_name = row.repository_full_name;
  ref = row.ref;
  commit_sha = row.commit_sha;
  config_path = row.config_path;
  snapshot_version = row.snapshot_version;
  spec_hash = row.spec_hash;
  spec_json_encrypted = row.spec_json_encrypted;
  status = row.status;
  sandbox_id = row.sandbox_id;
  attempt = row.attempt;
  runtime_id = row.runtime_id;
  process_id = row.process_id;
  process_tag = row.process_tag;
  sandbox_api_url = row.sandbox_api_url;
  sandbox_api_key_encrypted = row.sandbox_api_key_encrypted;
  sandbox_config_source = row.sandbox_config_source;
  sandbox_region = row.sandbox_region;
  deployment_template_id = row.deployment_template_id;
  deployment_template_name = row.deployment_template_name;
  deployment_template_cpu = row.deployment_template_cpu;
  deployment_template_memory_mb = row.deployment_template_memory_mb;
  deployment_template_disk_mb = row.deployment_template_disk_mb;
  endpoint = row.endpoint;
  failure_stage = row.failure_stage;
  failure_reason = row.failure_reason;
  error = row.error;
  expires_at = row.expires_at;
  created_at = row.created_at;
  planning_at = pointer_to_time row.planning_at;
  creating_at = pointer_to_time row.creating_at;
  running_at = pointer_to_time row.running_at;
  stopping_at = pointer_to_time row.stopping_at;
  completed_at = pointer_to_time row.completed_at;
  failed_at = pointer_to_time row.failed_at;
  updated_at = row.updated_at;
  version = row.version;
  source_repository_id = row.source_repository_id;
  source_repository_full_name = row.source_repository_full_name;
  source_ref = row.source_ref;
  pull_request_title = row.pull_request_title;
}

-- A number below 1 counts as 1.
abbrev pub first_number : ℕ → ℕ
first_number zero = 1
first_number (suc n) = suc n

unfoldable pub revision_record_from_deployment : DeploymentRecord → Time → DeploymentRevisionRecord
revision_record_from_deployment row created = record {
  event_count = 0;
  event_bytes = 0;
  event_budget_initialized = false;
  execution_account_id = row.execution_account_id;
  id = append_text row.id (append_text "-r" (decimal (first_number row.revision_number)));
  deployment_id = row.id;
  number = first_number row.revision_number;
  ref = row.ref;
  commit_sha = row.commit_sha;
  config_path = row.config_path;
  snapshot_version = row.snapshot_version;
  spec_hash = row.spec_hash;
  spec_json_encrypted = row.spec_json_encrypted;
  template_id = row.deployment_template_id;
  template_name = row.deployment_template_name;
  template_cpu = row.deployment_template_cpu;
  template_memory_mb = row.deployment_template_memory_mb;
  template_disk_mb = row.deployment_template_disk_mb;
  status = row.status;
  sandbox_id = row.sandbox_id;
  sandbox_region = row.sandbox_region;
  endpoint = row.endpoint;
  failure_stage = row.failure_stage;
  failure_reason = row.failure_reason;
  expires_at = row.expires_at;
  running_at = row.running_at;
  created_at = created;
  updated_at = row.updated_at;
  source_repository_id = row.source_repository_id;
  source_repository_full_name = row.source_repository_full_name;
  source_ref = row.source_ref;
  pull_request_title = row.pull_request_title;
}
