-- ===== src/Request/Record.antt =====
-- A row of the table `runner_requests`, `runnerRequestRecord` of `internal/state/records.go`, and
-- the context that a webhook payload carries.
use qiniu_ci_runner.Prelude.{ℕ, ℤ, String, Bool, List, Option}
use qiniu_ci_runner.Request.Types.{Time, Status}

pub record RunnerRequestRecord : Type 0 where
  pub id : String
  pub source : String
  pub workflow_job_id : Option ℕ
  pub github_installation_id : ℕ
  pub workflow_run_id : ℕ
  pub workflow_name : String
  pub workflow_run_attempt : ℕ
  pub head_branch : String
  pub head_sha : String
  pub github_job_url : String
  pub github_job_name : String
  pub github_job_status : String
  pub github_job_conclusion : String
  pub github_job_runner_name : String
  pub github_job_observed_at : Option Time
  pub pull_request_number : ℕ
  pub github_context_backfilled : Bool
  pub repository_full_name : String
  pub requested_labels_json : String
  pub labels_json : String
  pub profile_name : String
  pub profile_source : String
  pub profile_scope_type : String
  pub profile_scope_id : ℕ
  pub runner_group : String
  pub runner_name : String
  pub status : Status
  pub failure_stage : String
  pub failure_reason : String
  pub last_error_code : String
  pub last_error_message : String
  pub last_error_retryable : Bool
  pub retry_count : ℕ
  pub sandbox_id : String
  pub sandbox_api_url : String
  pub sandbox_api_key_encrypted : String
  pub sandbox_config_source : String
  pub sponsor_installation_id : ℕ
  pub sponsor_source_repository_id : ℕ
  pub sponsor_source_repository_full_name : String
  pub sponsor_authorization_reason : String
  pub sandbox_region : String
  pub resolved_template_id : String
  pub template_version : String
  pub runner_version : String
  pub effective_runner_version : String
  pub process_pid : ℕ
  pub assigned_job_id : ℕ
  pub assigned_job_name : String
  pub termination_source : String
  pub runner_exit_code : Option ℤ
  pub error : String
  pub github_payload_json : String
  pub queued_at : Time
  pub last_attempt_at : Option Time
  pub next_retry_at : Option Time
  pub creating_at : Option Time
  pub running_at : Option Time
  pub stopping_at : Option Time
  pub completed_at : Option Time
  pub failed_at : Option Time
  pub lease_owner : String
  pub lease_expires_at : Option Time
  pub updated_at : Time
  pub version : ℕ

pub record GithubPayloadLinks : Type 0 where
  pub workflow_run_id : ℕ
  pub workflow_name : String
  pub workflow_run_attempt : ℕ
  pub head_branch : String
  pub head_sha : String
  pub job_url : String
  pub pull_request_number : ℕ

-- The fields of a webhook payload that the code decodes: those of `workflow_job`, then those of
-- `workflow_run`, then the number of `pull_request`.
pub record GithubPayload : Type 0 where
  pub job_run_id : ℕ
  pub job_workflow_name : String
  pub job_run_attempt : ℕ
  pub job_head_branch : String
  pub job_head_sha : String
  pub job_html_url : String
  pub job_pull_requests : List ℕ
  pub job_workflow_run_id : ℕ
  pub run_id : ℕ
  pub run_name : String
  pub run_run_attempt : ℕ
  pub run_head_branch : String
  pub run_head_sha : String
  pub run_pull_requests : List ℕ
  pub pull_request_number : ℕ

-- `encoding/json` on a list of texts and on a payload: a decoding error of a payload is dropped by
-- the code, so `payload` is total.
pub record Json : Type 0 where
  pub marshal : List String → String
  pub unmarshal : String → Option (List String)
  pub payload : String → GithubPayload
