-- ===== src/Examples/Data.antt =====
-- Test data: a codec, a request and a table that holds it.
use qiniu_ci_runner.Prelude.{String, Bool, true, false, [], ◌∷◌, none, some}
use qiniu_ci_runner.Request.Types.{RunnerRequest, queued}
use qiniu_ci_runner.Request.Record.{RunnerRequestRecord, Json}
use qiniu_ci_runner.Request.Links.{zero_payload}
use qiniu_ci_runner.Request.Store.{Db}

abbrev pub codec : Json
codec = record {
  marshal = λ labels. "[]";
  unmarshal = λ text. some [];
  payload = λ text. zero_payload;
}

abbrev pub no_order : String → String → Bool
no_order s t = false

abbrev pub request : RunnerRequest
request = record {
  id = "run-7";
  source = "github_webhook";
  job_id = 7;
  pull_request_number = 0;
  github_installation_id = 3;
  repository_full_name = "octo/app";
  requested_labels = [];
  labels = "linux" ∷ [];
  profile_name = "small";
  profile_source = "global";
  profile_scope_type = "";
  profile_scope_id = 0;
  runner_group = "";
  runner_name = "";
  sandbox_api_url = "";
  sandbox_api_key_encrypted = "";
  sandbox_config_source = "";
  sponsor_installation_id = 0;
  sponsor_source_repository_id = 0;
  sponsor_source_repository_full_name = "";
  sponsor_authorization_reason = "";
  created_at = 5;
}

abbrev pub empty_db : Db
empty_db = record { available = true; rows = [] }

abbrev pub queued_row : RunnerRequestRecord
queued_row = record {
  id = "run-7";
  source = "";
  workflow_job_id = some 7;
  github_installation_id = 0;
  workflow_run_id = 0;
  workflow_name = "";
  workflow_run_attempt = 0;
  head_branch = "";
  head_sha = "";
  github_job_url = "";
  github_job_name = "";
  github_job_status = "";
  github_job_conclusion = "";
  github_job_runner_name = "";
  github_job_observed_at = none;
  pull_request_number = 0;
  github_context_backfilled = true;
  repository_full_name = "octo/app";
  requested_labels_json = "";
  labels_json = "[]";
  profile_name = "small";
  profile_source = "";
  profile_scope_type = "";
  profile_scope_id = 0;
  runner_group = "";
  runner_name = "e2b-run-7";
  status = queued;
  failure_stage = "";
  failure_reason = "";
  last_error_code = "";
  last_error_message = "";
  last_error_retryable = false;
  retry_count = 0;
  sandbox_id = "";
  sandbox_api_url = "";
  sandbox_api_key_encrypted = "";
  sandbox_config_source = "";
  sponsor_installation_id = 0;
  sponsor_source_repository_id = 0;
  sponsor_source_repository_full_name = "";
  sponsor_authorization_reason = "";
  sandbox_region = "";
  resolved_template_id = "";
  template_version = "";
  runner_version = "";
  effective_runner_version = "";
  process_pid = 0;
  assigned_job_id = 0;
  assigned_job_name = "";
  termination_source = "";
  runner_exit_code = none;
  error = "";
  github_payload_json = "";
  queued_at = 5;
  last_attempt_at = none;
  next_retry_at = none;
  creating_at = none;
  running_at = none;
  stopping_at = none;
  completed_at = none;
  failed_at = none;
  lease_owner = "";
  lease_expires_at = none;
  updated_at = 5;
  version = 0;
}

abbrev pub one_db : Db
one_db = record { available = true; rows = queued_row ∷ [] }
