-- ===== src/Request/Reading.antt =====
-- `internal/state/conversions.go`: a row read as a request or as a state.
use qiniu_ci_runner.Prelude.{String, List, [], Option, none, some, Result, ok, err, Error}
use qiniu_ci_runner.Request.Types.{RunnerRequest, RunnerState}
use qiniu_ci_runner.Request.Record.{RunnerRequestRecord, Json}
use qiniu_ci_runner.Request.Convert.{
  pointer_to_int64, pointer_to_time, labels_from_json, requested_labels_of,
}
use qiniu_ci_runner.Request.Links.{github_links_from_record}

request_of : RunnerRequestRecord → List String → List String → RunnerRequest
request_of row labels requested_labels = record {
  id = row.id;
  source = row.source;
  job_id = pointer_to_int64 row.workflow_job_id;
  pull_request_number = row.pull_request_number;
  github_installation_id = row.github_installation_id;
  repository_full_name = row.repository_full_name;
  requested_labels = requested_labels;
  labels = labels;
  profile_name = row.profile_name;
  profile_source = row.profile_source;
  profile_scope_type = row.profile_scope_type;
  profile_scope_id = row.profile_scope_id;
  runner_group = row.runner_group;
  runner_name = row.runner_name;
  sandbox_api_url = row.sandbox_api_url;
  sandbox_api_key_encrypted = row.sandbox_api_key_encrypted;
  sandbox_config_source = row.sandbox_config_source;
  sponsor_installation_id = row.sponsor_installation_id;
  sponsor_source_repository_id = row.sponsor_source_repository_id;
  sponsor_source_repository_full_name = row.sponsor_source_repository_full_name;
  sponsor_authorization_reason = row.sponsor_authorization_reason;
  created_at = row.queued_at;
}

-- A row whose labels do not decode is an error.
unfoldable pub record_to_request : Json → RunnerRequestRecord → Result RunnerRequest
unfolding request_of requested_labels_of
record_to_request json row = elim (json.unmarshal row.labels_json) [
  | none ↦ err Error.bad_json
  | some labels ↦ elim (requested_labels_of json row.requested_labels_json) [
    | none ↦ err Error.bad_json
    | some requested_labels ↦ ok (request_of row labels requested_labels)
  ]
]

-- The labels that a state shows; a text that does not decode shows none.
abbrev labels_or_none : Option (List String) → List String
labels_or_none none = []
labels_or_none (some labels) = labels

unfoldable pub record_to_state : Json → RunnerRequestRecord → RunnerState
unfolding github_links_from_record labels_from_json
record_to_state json row =
    let requested_labels = labels_or_none (labels_from_json json row.requested_labels_json) in
    let github_links = github_links_from_record json row in
    record {
      id = row.id;
      status = row.status;
      github_installation_id = row.github_installation_id;
      repository_full_name = row.repository_full_name;
      requested_labels = requested_labels;
      profile_name = row.profile_name;
      profile_source = row.profile_source;
      profile_scope_type = row.profile_scope_type;
      profile_scope_id = row.profile_scope_id;
      runner_group = row.runner_group;
      runner_name = row.runner_name;
      sandbox_id = row.sandbox_id;
      sandbox_api_url = row.sandbox_api_url;
      sandbox_api_key_encrypted = row.sandbox_api_key_encrypted;
      sandbox_config_source = row.sandbox_config_source;
      sponsor_installation_id = row.sponsor_installation_id;
      sponsor_source_repository_id = row.sponsor_source_repository_id;
      sponsor_source_repository_full_name = row.sponsor_source_repository_full_name;
      sponsor_authorization_reason = row.sponsor_authorization_reason;
      sandbox_region = row.sandbox_region;
      resolved_template_id = row.resolved_template_id;
      template_version = row.template_version;
      runner_version = row.runner_version;
      effective_runner_version = row.effective_runner_version;
      process_pid = row.process_pid;
      workflow_job_id = pointer_to_int64 row.workflow_job_id;
      workflow_run_id = github_links.workflow_run_id;
      workflow_name = github_links.workflow_name;
      workflow_run_attempt = github_links.workflow_run_attempt;
      head_branch = github_links.head_branch;
      head_sha = github_links.head_sha;
      github_job_url = github_links.job_url;
      github_job_name = row.github_job_name;
      github_job_status = row.github_job_status;
      github_job_conclusion = row.github_job_conclusion;
      github_job_runner_name = row.github_job_runner_name;
      github_job_observed_at = pointer_to_time row.github_job_observed_at;
      pull_request_number = github_links.pull_request_number;
      assigned_job_id = row.assigned_job_id;
      assigned_job_name = row.assigned_job_name;
      termination_source = row.termination_source;
      runner_exit_code = row.runner_exit_code;
      error = row.error;
      failure_stage = row.failure_stage;
      failure_reason = row.failure_reason;
      last_error_code = row.last_error_code;
      last_error_message = row.last_error_message;
      last_error_retryable = row.last_error_retryable;
      retry_count = row.retry_count;
      updated_at = row.updated_at;
      created_at = row.queued_at;
      last_attempt_at = pointer_to_time row.last_attempt_at;
      next_retry_at = pointer_to_time row.next_retry_at;
      creating_at = pointer_to_time row.creating_at;
      running_at = pointer_to_time row.running_at;
      stopping_at = pointer_to_time row.stopping_at;
      completed_at = pointer_to_time row.completed_at;
      failed_at = pointer_to_time row.failed_at;
      lease_owner = row.lease_owner;
      lease_expires_at = pointer_to_time row.lease_expires_at;
      version = row.version;
    }
