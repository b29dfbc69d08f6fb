-- ===== src/Request/Store.antt =====
-- `internal/state/runner_requests.go`: the table of runner requests, and creating, reading and
-- writing a row. A statement of the database is a function on the list of rows; `available` says
-- whether the database opens, and an opened database answers every statement.
use qiniu_ci_runner.Prelude.{
  ℕ, String, Bool, true, false, List, [], ◌∷◌, ◌++◌, none, some, Result, ok, err, Error,
  unavailable, not_found, record_not_found, empty_id, str_eq, is_empty, ◌==◌, if◌then◌else◌,
  trim_space, append_text, find,
}
use qiniu_ci_runner.Request.Types.{
  Time, is_zero, Status, queued, failed, is_failed, RunnerRequest, RunnerState,
}
use qiniu_ci_runner.Request.Record.{RunnerRequestRecord, GithubPayloadLinks, Json}
use qiniu_ci_runner.Request.Convert.{sanitize_id, sanitize_runner_name}
use qiniu_ci_runner.Request.Links.{github_links_from_payload_bytes, or_number}
use qiniu_ci_runner.Request.Reading.{record_to_request, record_to_state}

pub record Db : Type 0 where
  pub available : Bool
  pub rows : List RunnerRequestRecord

abbrev pub has_id : String → RunnerRequestRecord → Bool
has_id id row = str_eq row.id id

-- `workflow_job_id = ?`, which no missing number satisfies.
abbrev pub has_job : ℕ → RunnerRequestRecord → Bool
has_job job_id row = elim row.workflow_job_id [ none ↦ false | some n ↦ n == job_id ]

-- `readRecord`.
unfoldable pub read_record : Db → String → Result RunnerRequestRecord
read_record db id =
    if db.available
    then elim (find (has_id (sanitize_id id)) db.rows) [
      | none ↦ err record_not_found
      | some row ↦ ok row
    ]
    else err unavailable

unfoldable pub read_request : Json → Db → String → Result RunnerRequest
unfolding read_record
read_request json db id = elim (read_record db id) [
  | err e ↦ err e
  | ok row ↦ record_to_request json row
]

-- `ReadState` gives the store's own error for a row that is not there.
abbrev as_not_found : Error → Error
as_not_found record_not_found = not_found
as_not_found e = e

unfoldable pub read_state : Json → Db → String → Result RunnerState
unfolding read_record
read_state json db id = elim (read_record db id) [
  | err e ↦ err (as_not_found e)
  | ok row ↦ ok (record_to_state json row)
]

-- What `createRequest` returns: a new row, the row that was there, the row of another id that holds
-- the same job (with `ErrConflict`), or an error alone.
pub data Creation : Type 0 where
  created existing conflicting : RunnerState → Creation
  refused : Error → Creation

-- The request with the id, the runner's name, the time and the labels that the row is made of.
unfoldable pub prepared : Time → RunnerRequest → RunnerRequest
prepared now req =
    let id = sanitize_id req.id in
    let runner_name = sanitize_runner_name req.runner_name in
    record req {
      id = id;
      runner_name = if is_empty runner_name then append_text "e2b-" id else runner_name;
      created_at = if is_zero req.created_at then now else req.created_at;
      requested_labels = elim req.requested_labels [ [] ↦ req.labels | l ∷ ls ↦ l ∷ ls ];
    }

unfoldable pub links_for : Json → RunnerRequest → String → GithubPayloadLinks
links_for json req payload =
    let links = github_links_from_payload_bytes json payload req.repository_full_name req.job_id in
    record links {
      pull_request_number = or_number links.pull_request_number req.pull_request_number;
    }

unfoldable pub new_row :
    Json
    → Time
    → RunnerRequest
    → GithubPayloadLinks
    → Status
    → String
    → String
    → String
    → RunnerRequestRecord
new_row json now req links status failure_stage failure_reason error_message = record {
  id = req.id;
  source = req.source;
  workflow_job_id = if req.job_id == 0 then none else some req.job_id;
  github_installation_id = req.github_installation_id;
  workflow_run_id = links.workflow_run_id;
  workflow_name = links.workflow_name;
  workflow_run_attempt = links.workflow_run_attempt;
  head_branch = links.head_branch;
  head_sha = links.head_sha;
  github_job_url = links.job_url;
  github_job_name = "";
  github_job_status = "";
  github_job_conclusion = "";
  github_job_runner_name = "";
  github_job_observed_at = none;
  pull_request_number = links.pull_request_number;
  github_context_backfilled = true;
  repository_full_name = req.repository_full_name;
  requested_labels_json = json.marshal req.requested_labels;
  labels_json = json.marshal req.labels;
  profile_name = req.profile_name;
  profile_source = req.profile_source;
  profile_scope_type = req.profile_scope_type;
  profile_scope_id = req.profile_scope_id;
  runner_group = req.runner_group;
  runner_name = req.runner_name;
  status = status;
  failure_stage = failure_stage;
  failure_reason = failure_reason;
  last_error_code = "";
  last_error_message = "";
  last_error_retryable = false;
  retry_count = 0;
  sandbox_id = "";
  sandbox_api_url = trim_space req.sandbox_api_url;
  sandbox_api_key_encrypted = trim_space req.sandbox_api_key_encrypted;
  sandbox_config_source = trim_space req.sandbox_config_source;
  sponsor_installation_id = req.sponsor_installation_id;
  sponsor_source_repository_id = req.sponsor_source_repository_id;
  sponsor_source_repository_full_name = trim_space req.sponsor_source_repository_full_name;
  sponsor_authorization_reason = trim_space req.sponsor_authorization_reason;
  sandbox_region = "";
  resolved_template_id = "";
  template_version = "";
  runner_version = "";
  effective_runner_version = "";
  process_pid = 0;
  assigned_job_id = 0;
  assigned_job_name = "";
  termination_source = "";
  runner_exit_code = none;
  error = error_message;
  github_payload_json = "";
  queued_at = req.created_at;
  last_attempt_at = none;
  next_retry_at = none;
  creating_at = none;
  running_at = none;
  stopping_at = none;
  completed_at = none;
  failed_at = if is_failed status then some now else none;
  lease_owner = "";
  lease_expires_at = none;
  updated_at = now;
  version = 0;
}

-- A unique key, the id or the job number, is taken.
abbrev pub taken : RunnerRequestRecord → List RunnerRequestRecord → Bool
taken row rows = elim (find (has_id row.id) rows) [
  | some _ ↦ true
  | none ↦ elim row.workflow_job_id [
    | none ↦ false
    | some n ↦ elim (find (has_job n) rows) [ some _ ↦ true | none ↦ false ]
  ]
]

-- No row was inserted: the row of that id, or else the row of that job.
found_instead : Json → Db → RunnerRequest → Creation
unfolding read_state
found_instead json db req = elim (find (has_id (sanitize_id req.id)) db.rows) [
  | some row ↦ existing (record_to_state json row)
  | none ↦ if req.job_id == 0 then refused not_found else elim (find (has_job req.job_id) db.rows) [
    | some row ↦ conflicting (record_to_state json row)
    | none ↦ refused not_found
  ]
]

unfoldable pub insert_or_find : Json → Db → RunnerRequest → RunnerRequestRecord → Db × Creation
unfolding found_instead
insert_or_find json db req row =
    if taken row db.rows
    then (db, found_instead json db req)
    else (record db { rows = db.rows ++ row ∷ [] }, created (record_to_state json row))

unfoldable pub create_request_with :
    Json → Db → Time → RunnerRequest → String → Status → String → String → String → Db × Creation
create_request_with json db now req payload status failure_stage failure_reason error_message =
    let req' = prepared now req in
    let row =
      new_row json now req' (links_for json req' payload) status failure_stage failure_reason
        error_message in
    if db.available
    then if is_empty (sanitize_id req.id)
      then (db, refused empty_id)
      else insert_or_find json db req' row
    else (db, refused unavailable)

unfoldable pub create_request : Json → Db → Time → RunnerRequest → String → Db × Creation
unfolding create_request_with
create_request json db now req payload = create_request_with json db now req payload queued "" "" ""

unfoldable pub create_rejected_request :
    Json → Db → Time → RunnerRequest → String → String → Db × Creation
unfolding create_request_with
create_rejected_request json db now req payload reason =
    create_request_with json db now req payload failed "admission" (trim_space reason)
      "runner admission rejected"
