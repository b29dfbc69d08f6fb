-- ===== src/Request/Writing.antt =====
-- `internal/state/runner_requests.go`: `WriteState`, the write of a state under its version, and
-- `applyStateTimestamps`.
use qiniu_ci_runner.Prelude.{
  ℕ, ◌+◌, String, Bool, ◌&&◌, Option, none, some, ◌≡◌, refl, Error, unavailable, conflict, empty_id,
  is_empty, ◌==◌, if◌then◌else◌, trim_space, count, update_where,
}
use qiniu_ci_runner.Request.Types.{
  Time, is_zero, Status, creating, running, stopping, completed, failed, RunnerState,
}
use qiniu_ci_runner.Request.Record.{RunnerRequestRecord}
use qiniu_ci_runner.Request.Convert.{sanitize_id, sanitize_runner_name, zero_time_to_pointer}
use qiniu_ci_runner.Request.Store.{Db, has_id}

abbrev pub or_now : Time → Time → Time
or_now t now = if is_zero t then now else t

stamp : Status → Time → RunnerState → RunnerState
stamp creating now st = record st { creating_at = or_now st.creating_at now }
stamp running now st = record st {
  creating_at = or_now st.creating_at now;
  running_at = or_now st.running_at now;
}
stamp stopping now st = record st { stopping_at = or_now st.stopping_at now }
stamp completed now st = record st { completed_at = or_now st.completed_at now }
stamp failed now st = record st { failed_at = or_now st.failed_at now }
stamp _ now st = st

unfoldable pub apply_state_timestamps : RunnerState → Time → RunnerState
unfolding stamp
apply_state_timestamps st now = stamp st.status now st

-- The columns that `WriteState` sets.
unfoldable pub set_columns : RunnerState → RunnerRequestRecord → RunnerRequestRecord
set_columns st row = record row {
  status = st.status;
  repository_full_name = st.repository_full_name;
  profile_name = st.profile_name;
  profile_source = st.profile_source;
  profile_scope_type = st.profile_scope_type;
  profile_scope_id = st.profile_scope_id;
  runner_group = st.runner_group;
  runner_name = sanitize_runner_name st.runner_name;
  sandbox_id = st.sandbox_id;
  sandbox_api_url = trim_space st.sandbox_api_url;
  sandbox_api_key_encrypted = trim_space st.sandbox_api_key_encrypted;
  sandbox_config_source = trim_space st.sandbox_config_source;
  sponsor_installation_id = st.sponsor_installation_id;
  sponsor_source_repository_id = st.sponsor_source_repository_id;
  sponsor_source_repository_full_name = trim_space st.sponsor_source_repository_full_name;
  sponsor_authorization_reason = trim_space st.sponsor_authorization_reason;
  sandbox_region = trim_space st.sandbox_region;
  resolved_template_id = trim_space st.resolved_template_id;
  template_version = trim_space st.template_version;
  runner_version = trim_space st.runner_version;
  effective_runner_version = trim_space st.effective_runner_version;
  process_pid = st.process_pid;
  assigned_job_id = st.assigned_job_id;
  assigned_job_name = st.assigned_job_name;
  termination_source = trim_space st.termination_source;
  runner_exit_code = st.runner_exit_code;
  github_job_name = trim_space st.github_job_name;
  github_job_status = trim_space st.github_job_status;
  github_job_conclusion = trim_space st.github_job_conclusion;
  github_job_runner_name = trim_space st.github_job_runner_name;
  github_job_observed_at = zero_time_to_pointer st.github_job_observed_at;
  error = st.error;
  failure_stage = st.failure_stage;
  failure_reason = st.failure_reason;
  last_error_code = st.last_error_code;
  last_error_message = st.last_error_message;
  last_error_retryable = st.last_error_retryable;
  retry_count = st.retry_count;
  updated_at = st.updated_at;
  version = st.version + 1;
  last_attempt_at = zero_time_to_pointer st.last_attempt_at;
  next_retry_at = zero_time_to_pointer st.next_retry_at;
  creating_at = zero_time_to_pointer st.creating_at;
  running_at = zero_time_to_pointer st.running_at;
  stopping_at = zero_time_to_pointer st.stopping_at;
  completed_at = zero_time_to_pointer st.completed_at;
  failed_at = zero_time_to_pointer st.failed_at;
  lease_owner = st.lease_owner;
  lease_expires_at = zero_time_to_pointer st.lease_expires_at;
}

-- `id = ? AND version = ?`
abbrev pub at_version : String → ℕ → RunnerRequestRecord → Bool
at_version id version row = has_id id row && (row.version == version)

unfoldable pub write_state : Db → Time → RunnerState → Db × Option Error
write_state db now st =
    let id = sanitize_id st.id in
    let st' = apply_state_timestamps (record st { id = id; updated_at = now }) now in
    let matches = at_version id st.version in
    if db.available
    then if is_empty id
      then (db, some empty_id)
      else if count matches db.rows == 0
      then (db, some conflict)
      else (record db { rows = update_where matches (set_columns st') db.rows }, none)
    else (db, some unavailable)

version-stamp : (s : Status) (now : Time) (st : RunnerState) → (stamp s now st).version ≡ st.version
unfolding stamp
version-stamp creating now st = refl
version-stamp running now st = refl
version-stamp stopping now st = refl
version-stamp completed now st = refl
version-stamp failed now st = refl
version-stamp _ now st = refl

-- Setting the times leaves the version.
pub version-timestamps :
    (st : RunnerState) (now : Time) → (apply_state_timestamps st now).version ≡ st.version
unfolding apply_state_timestamps
version-timestamps st now = version-stamp st.status now st
