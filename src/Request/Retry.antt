-- ===== src/Request/Retry.antt =====
-- `internal/state/runner_requests.go`: `RetryRequest`, which puts a failed request, or one that waits
-- for its next attempt, back into the queue.
use qiniu_ci_runner.Prelude.{
  ◌≡◌, ◌≢◌, ◌↔◌, refl, ◌+◌, String, Bool, true, false, Option, none, some, Result, ok, err,
  unavailable, record_not_found, retry_not_allowed, if◌then◌else◌, find, update_where,
}
use qiniu_ci_runner.Request.Types.{Time, Status, queued, failed, RunnerState}
use qiniu_ci_runner.Request.Record.{RunnerRequestRecord, Json}
use qiniu_ci_runner.Request.Convert.{sanitize_id}
use qiniu_ci_runner.Request.Reading.{record_to_state}
use qiniu_ci_runner.Request.Store.{Db, has_id}
use qiniu_ci_runner.Request.Writing.{at_version}

unfoldable pub waits_for_retry : Option Time → Bool → Bool
waits_for_retry none retryable = false
waits_for_retry (some t) retryable = retryable

pub waits_for_retry_iff :
    (t : Option Time) (retryable : Bool)
    → (waits_for_retry t retryable ≡ true) ↔ ((t ≢ none) × (retryable ≡ true))
unfolding waits_for_retry
waits_for_retry_iff none retryable = (λ h. absurd (cc), λ h. absurd (h.0 refl))
waits_for_retry_iff (some t) retryable = (λ h. (λ e. cc, h), λ h. h.1)

-- The `switch` on the status.
unfoldable pub may_retry : Status → RunnerRequestRecord → Bool
unfolding waits_for_retry
may_retry failed row = true
may_retry queued row = waits_for_retry row.next_retry_at row.last_error_retryable
may_retry _ row = false

-- The fields that the transaction assigns.
unfoldable pub requeued : Time → RunnerRequestRecord → RunnerRequestRecord
requeued now row = record row {
  status = queued;
  error = "";
  failure_stage = "";
  failure_reason = "";
  last_error_code = "";
  last_error_message = "";
  last_error_retryable = false;
  sandbox_id = "";
  sandbox_region = "";
  resolved_template_id = "";
  template_version = "";
  runner_version = "";
  effective_runner_version = "";
  process_pid = 0;
  assigned_job_id = 0;
  assigned_job_name = "";
  termination_source = "";
  runner_exit_code = none;
  next_retry_at = none;
  lease_owner = "";
  lease_expires_at = none;
  creating_at = none;
  running_at = none;
  stopping_at = none;
  completed_at = none;
  failed_at = none;
  sandbox_api_url = "";
  sandbox_api_key_encrypted = "";
  sandbox_config_source = "";
  sponsor_installation_id = 0;
  sponsor_source_repository_id = 0;
  sponsor_source_repository_full_name = "";
  sponsor_authorization_reason = "";
  updated_at = now;
  version = row.version + 1;
}

-- The columns that the transaction writes.
unfoldable pub write_requeued : RunnerRequestRecord → RunnerRequestRecord → RunnerRequestRecord
write_requeued saved row = record row {
  status = saved.status;
  error = saved.error;
  failure_stage = saved.failure_stage;
  failure_reason = saved.failure_reason;
  last_error_code = saved.last_error_code;
  last_error_message = saved.last_error_message;
  last_error_retryable = saved.last_error_retryable;
  sandbox_id = saved.sandbox_id;
  sandbox_region = saved.sandbox_region;
  resolved_template_id = saved.resolved_template_id;
  template_version = saved.template_version;
  runner_version = saved.runner_version;
  effective_runner_version = saved.effective_runner_version;
  process_pid = saved.process_pid;
  assigned_job_id = saved.assigned_job_id;
  assigned_job_name = saved.assigned_job_name;
  termination_source = saved.termination_source;
  runner_exit_code = saved.runner_exit_code;
  next_retry_at = none;
  lease_owner = saved.lease_owner;
  lease_expires_at = none;
  creating_at = none;
  running_at = none;
  stopping_at = none;
  completed_at = none;
  failed_at = none;
  sandbox_api_url = saved.sandbox_api_url;
  sandbox_api_key_encrypted = saved.sandbox_api_key_encrypted;
  sandbox_config_source = saved.sandbox_config_source;
  sponsor_installation_id = saved.sponsor_installation_id;
  sponsor_source_repository_id = saved.sponsor_source_repository_id;
  sponsor_source_repository_full_name = saved.sponsor_source_repository_full_name;
  sponsor_authorization_reason = saved.sponsor_authorization_reason;
  updated_at = saved.updated_at;
  version = saved.version;
}

unfoldable pub retry_row : Json → Db → Time → RunnerRequestRecord → Db × Result RunnerState
retry_row json db now row =
    let saved = requeued now row in
    let rows = update_where (at_version row.id row.version) (write_requeued saved) db.rows in
    if may_retry row.status row
    then elim (find (has_id row.id) rows) [
      | none ↦ (db, err record_not_found)
      | some r ↦ (record db { rows = rows }, ok (record_to_state json r))
    ]
    else (db, err retry_not_allowed)

unfoldable pub retry_request : Json → Db → String → Time → Db × Result RunnerState
retry_request json db id now =
    if db.available
    then elim (find (has_id (sanitize_id id)) db.rows) [
      | none ↦ (db, err record_not_found)
      | some row ↦ retry_row json db now row
    ]
    else (db, err unavailable)
