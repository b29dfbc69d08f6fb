-- ===== src/Deployment/Types.antt =====
-- `internal/state/store.go` and `internal/state/records.go`: a deployment, its row, the rows of its
-- revisions and of its events. A message is a list of bytes.
use qiniu_ci_runner.Prelude.{ℕ, String, Bool, true, false, List, Option}
use qiniu_ci_runner.Request.Types.{Time}

-- The statuses of a deployment; `other` is any further text, the empty one included.
pub data Status : Type 0 where
  queued planning creating running stopping completed expired failed : Status
  other : String → Status

-- queued, planning, creating, running or stopping
abbrev pub is_active : Status → Bool
is_active queued = true
is_active planning = true
is_active creating = true
is_active running = true
is_active stopping = true
is_active _ = false

abbrev pub is_failed : Status → Bool
is_failed failed = true
is_failed _ = false

-- failed, completed or expired
abbrev pub is_terminal : Status → Bool
is_terminal completed = true
is_terminal expired = true
is_terminal failed = true
is_terminal _ = false

pub record Deployment : Type 0 where
  pub create_request_hash : String
  pub execution_account_id : ℕ
  pub revision_number : ℕ
  pub id : String
  pub account_id : ℕ
  pub scope_type : String
  pub scope_id : ℕ
  pub github_installation_id : ℕ
  pub repository_id : ℕ
  pub repository_full_name : String
  pub ref : String
  pub commit_sha : String
  pub config_path : String
  pub snapshot_version : ℕ
  pub spec_hash : String
  pub spec_json_encrypted : String
  pub status : Status
  pub sandbox_id : String
  pub attempt : ℕ
  pub runtime_id : String
  pub process_id : String
  pub process_tag : String
  pub sandbox_api_url : String
  pub sandbox_api_key_encrypted : String
  pub sandbox_config_source : String
  pub sandbox_region : String
  pub deployment_template_id : String
  pub deployment_template_name : String
  pub deployment_template_cpu : ℕ
  pub deployment_template_memory_mb : ℕ
  pub deployment_template_disk_mb : ℕ
  pub endpoint : String
  pub failure_stage : String
  pub failure_reason : String
  pub error : String
  pub expires_at : Time
  pub created_at : Time
  pub planning_at : Time
  pub creating_at : Time
  pub running_at : Time
  pub stopping_at : Time
  pub completed_at : Time
  pub failed_at : Time
  pub updated_at : Time
  pub version : ℕ
  pub source_repository_id : ℕ
  pub source_repository_full_name : String
  pub source_ref : String
  pub pull_request_title : String

pub record DeploymentRecord : Type 0 where
  pub create_request_hash : String
  pub execution_account_id : ℕ
  pub revision_number : ℕ
  pub id : String
  pub account_id : ℕ
  pub scope_type : String
  pub scope_id : ℕ
  pub github_installation_id : ℕ
  pub repository_id : ℕ
  pub repository_full_name : String
  pub ref : String
  pub commit_sha : String
  pub config_path : String
  pub snapshot_version : ℕ
  pub spec_hash : String
  pub spec_json_encrypted : String
  pub status : Status
  pub sandbox_id : String
  pub attempt : ℕ
  pub runtime_id : String
  pub process_id : String
  pub process_tag : String
  pub sandbox_api_url : String
  pub sandbox_api_key_encrypted : String
  pub sandbox_config_source : String
  pub sandbox_region : String
  pub deployment_template_id : String
  pub deployment_template_name : String
  pub deployment_template_cpu : ℕ
  pub deployment_template_memory_mb : ℕ
  pub deployment_template_disk_mb : ℕ
  pub endpoint : String
  pub failure_stage : String
  pub failure_reason : String
  pub error : String
  pub expires_at : Time
  pub created_at : Time
  pub planning_at : Option Time
  pub creating_at : Option Time
  pub running_at : Option Time
  pub stopping_at : Option Time
  pub completed_at : Option Time
  pub failed_at : Option Time
  pub updated_at : Time
  pub version : ℕ
  pub source_repository_id : ℕ
  pub source_repository_full_name : String
  pub source_ref : String
  pub pull_request_title : String

pub record DeploymentRevisionRecord : Type 0 where
  pub event_count : ℕ
  pub event_bytes : ℕ
  pub event_budget_initialized : Bool
  pub execution_account_id : ℕ
  pub id : String
  pub deployment_id : String
  pub number : ℕ
  pub ref : String
  pub commit_sha : String
  pub config_path : String
  pub snapshot_version : ℕ
  pub spec_hash : String
  pub spec_json_encrypted : String
  pub template_id : String
  pub template_name : String
  pub template_cpu : ℕ
  pub template_memory_mb : ℕ
  pub template_disk_mb : ℕ
  pub status : Status
  pub sandbox_id : String
  pub sandbox_region : String
  pub endpoint : String
  pub failure_stage : String
  pub failure_reason : String
  pub expires_at : Time
  pub running_at : Option Time
  pub created_at : Time
  pub updated_at : Time
  pub source_repository_id : ℕ
  pub source_repository_full_name : String
  pub source_ref : String
  pub pull_request_title : String

pub record DeploymentEventRecord : Type 0 where
  pub revision_number : ℕ
  pub id : ℕ
  pub deployment_id : String
  pub attempt : ℕ
  pub event_type : String
  pub stage : String
  pub stream : String
  pub message : List ℕ
  pub created_at : Time
