-- ===== src/Request/Types.antt =====
-- The rows and messages of the runner request store, `internal/state/store.go` and
-- `internal/state/records.go`. A Go time is the number of nanoseconds since the zero time, which
-- is 0; a pointer is an option; identifiers and counters of the 64-bit types are numbers.
use qiniu_ci_runner.Prelude.{ℕ, ℤ, String, Bool, true, false, List, Option, ◌==◌}

abbrev pub Time : Type 0
Time = ℕ

-- `t.IsZero()`.
abbrev pub is_zero : Time → Bool
is_zero t = t == 0

-- The status texts of a runner request; `other` is any further text that a row may hold.
pub data Status : Type 0 where
  queued creating running stopping completed failed : Status
  other : String → Status

-- A comparison with one of the status constants.
abbrev pub is_queued : Status → Bool
is_queued queued = true
is_queued _ = false

abbrev pub is_completed : Status → Bool
is_completed completed = true
is_completed _ = false

abbrev pub is_failed : Status → Bool
is_failed failed = true
is_failed _ = false

-- `status IN ('creating', 'running', 'stopping')`.
abbrev pub is_in_flight : Status → Bool
is_in_flight creating = true
is_in_flight running = true
is_in_flight stopping = true
is_in_flight _ = false

pub record RunnerRequest : Type 0 where
  pub id : String
  pub source : String
  pub job_id : ℕ
  pub pull_request_number : ℕ
  pub github_installation_id : ℕ
  pub repository_full_name : String
  pub requested_labels : List String
  pub labels : List String
  pub profile_name : String
  pub profile_source : String
  pub profile_scope_type : String
  pub profile_scope_id : ℕ
  pub runner_group : String
  pub runner_name : String
  pub sandbox_api_url : String
  pub sandbox_api_key_encrypted : String
  pub sandbox_config_source : String
  pub sponsor_installation_id : ℕ
  pub sponsor_source_repository_id : ℕ
  pub sponsor_source_repository_full_name : String
  pub sponsor_authorization_reason : String
  pub created_at : Time

-- `RunnerState`: what the server reads and writes back.
pub record RunnerState : Type 0 where
  pub id : String
  pub status : Status
  pub github_installation_id : ℕ
  pub repository_full_name : String
  pub requested_labels : List String
  pub profile_name : String
  pub profile_source : String
  pub profile_scope_type : String
  pub profile_scope_id : ℕ
  pub runner_group : String
  pub runner_name : String
  pub sandbox_id : String
  pub sandbox_api_url : String
  pub sandbox_api_key_encrypted : String
  pub sandbox_config_source : String
  pub sponsor_installation_id : ℕ
  pub sponsor_source_repository_id : ℕ
  pub sponsor_source_repository_full_name : String
  pub sponsor_authorization_reason : String
  pub sandbox_region : String
  pub resolved_template_id : String
  pub template_version : String
  pub runner_version : String
  pub effective_runner_version : String
  pub process_pid : ℕ
  pub workflow_job_id : ℕ
  pub workflow_run_id : ℕ
  pub workflow_name : String
  pub workflow_run_attempt : ℕ
  pub head_branch : String
  pub head_sha : String
  pub github_job_url : String
  pub github_job_name : String
  pub github_job_status : String
  pub github_job_conclusion : String
  pub github_job_runner_name : String
  pub github_job_observed_at : Time
  pub pull_request_number : ℕ
  pub assigned_job_id : ℕ
  pub assigned_job_name : String
  pub termination_source : String
  pub runner_exit_code : Option ℤ
  pub error : String
  pub failure_stage : String
  pub failure_reason : String
  pub last_error_code : String
  pub last_error_message : String
  pub last_error_retryable : Bool
  pub retry_count : ℕ
  pub updated_at : Time
  pub created_at : Time
  pub last_attempt_at : Time
  pub next_retry_at : Time
  pub creating_at : Time
  pub running_at : Time
  pub stopping_at : Time
  pub completed_at : Time
  pub failed_at : Time
  pub lease_owner : String
  pub lease_expires_at : Time
  pub version : ℕ
