-- ===== src/Request/Listing.antt =====
-- `internal/state/runner_requests.go`: the lists of requests. A limit of 0 stands for every limit that
-- is not positive; rows that a statement's order ties stay in the order of the table.
use qiniu_ci_runner.Prelude.{
  ℕ, suc, String, Bool, true, false, ◌&&◌, ◌||◌, not, List, [], ◌∷◌, Option, none, some, Result, ok,
  err, unavailable, bad_cursor, bad_filter, invalid_page, if◌then◌else◌, trim_space, is_empty,
  str_eq, ltb, ◌==◌, count, take, select, sort_by, length, map, zero, ℤ, pos, negsuc,
}
use qiniu_ci_runner.Request.Types.{
  Time, is_zero, Status, creating, running, stopping, is_queued, is_completed, is_failed,
  RunnerState,
}
use qiniu_ci_runner.Request.Record.{RunnerRequestRecord, Json}
use qiniu_ci_runner.Request.Reading.{record_to_state}
use qiniu_ci_runner.Request.Store.{Db}
use qiniu_ci_runner.Request.Counts.{is_active, one_of}

pub record RunnerRequestListOptions : Type 0 where
  pub repository_full_name : String
  pub profile_name : String
  pub display_status : String
  pub limit : ℕ
  pub offset : ℤ

pub record RunnerRequestCursor : Type 0 where
  pub queued_at : Time
  pub id : String

abbrev pub or_limit : ℕ → ℕ → ℕ
or_limit zero default = default
or_limit (suc n) default = suc n

abbrev by_queued : RunnerRequestRecord → RunnerRequestRecord → Bool
by_queued a b = ltb b.queued_at a.queued_at

abbrev by_updated : RunnerRequestRecord → RunnerRequestRecord → Bool
by_updated a b = ltb b.updated_at a.updated_at

unfoldable pub list_states : Json → Db → Result (List RunnerState)
list_states json db =
    if db.available
    then ok (map (record_to_state json) (sort_by by_queued db.rows))
    else err unavailable

unfoldable pub list_active_states : Json → Db → Result (List RunnerState)
list_active_states json db =
    let rows = select (λ (r : RunnerRequestRecord). is_active r.status) db.rows in
    if db.available
    then ok (map (record_to_state json) (sort_by by_queued rows))
    else err unavailable

-- `workflow_job_id IS NOT NULL AND workflow_job_id != 0`
abbrev names_job : RunnerRequestRecord → Bool
names_job r = elim r.workflow_job_id [ none ↦ false | some n ↦ not (n == 0) ]

abbrev is_mismatched : RunnerRequestRecord → Bool
is_mismatched r =
    is_completed r.status
    && (names_job r
        && (not (r.assigned_job_id == 0)
            && (elim r.workflow_job_id [ none ↦ false | some n ↦ not (r.assigned_job_id == n) ])))

unfoldable pub list_mismatched_completed_states : Json → Db → ℕ → Result (List RunnerState)
list_mismatched_completed_states json db limit =
    let rows = take (or_limit limit 50) (sort_by by_updated (select is_mismatched db.rows)) in
    if db.available then ok (map (record_to_state json) rows) else err unavailable

abbrev is_failed_job : RunnerRequestRecord → Bool
is_failed_job r =
    is_failed r.status && (names_job r && one_of r.failure_stage ("recovery" ∷ "cleanup" ∷ []))

unfoldable pub list_failed_workflow_job_states : Json → Db → ℕ → Result (List RunnerState)
list_failed_workflow_job_states json db limit =
    let rows = take (or_limit limit 50) (sort_by by_updated (select is_failed_job db.rows)) in
    if db.available then ok (map (record_to_state json) rows) else err unavailable

-- `failure_stage = "admission" AND failure_reason = "profile_labels_not_matched"`
abbrev pub is_unmatched : RunnerRequestRecord → Bool
is_unmatched r =
    str_eq r.failure_stage "admission" && str_eq r.failure_reason "profile_labels_not_matched"

abbrev pub status_creating : Status → Bool
status_creating creating = true
status_creating _ = false

abbrev pub status_running : Status → Bool
status_running running = true
status_running _ = false

abbrev pub status_stopping : Status → Bool
status_stopping stopping = true
status_stopping _ = false

abbrev pub with_status : String → Option (Status → Bool)
with_status s =
    if str_eq s "queued"
    then some is_queued
    else if str_eq s "creating"
    then some status_creating
    else if str_eq s "running"
    then some status_running
    else if str_eq s "stopping"
    then some status_stopping
    else if str_eq s "completed"
    then some is_completed
    else none

-- The condition of a display status, already in lower case.
unfoldable pub display_filter : String → Result (RunnerRequestRecord → Bool)
display_filter status = if is_empty status then ok (λ _. true) else elim (with_status status) [
  | some p ↦ ok (λ r. p r.status)
  | none ↦
      if str_eq status "unmatched"
      then ok (λ r. is_failed r.status && is_unmatched r)
      else if str_eq status "failed"
      then ok (λ r. is_failed r.status && not (is_unmatched r))
      else err bad_filter
]

unfoldable pub filter_runner_request_list :
    (String → String) → RunnerRequestListOptions → Result (RunnerRequestRecord → Bool)
filter_runner_request_list to_lower options =
    let repository = trim_space options.repository_full_name in
    let profile = trim_space options.profile_name in
    elim (display_filter (to_lower (trim_space options.display_status))) [
      | err e ↦ err e
      | ok p ↦ ok (λ r.
          (is_empty repository || str_eq r.repository_full_name repository)
          && ((is_empty profile || str_eq r.profile_name profile) && p r))
    ]

-- `queued_at DESC, id ASC`
abbrev pub newest : (String → String → Bool) → RunnerRequestRecord → RunnerRequestRecord → Bool
newest by_id a b = ltb b.queued_at a.queued_at || ((b.queued_at == a.queued_at) && by_id a.id b.id)

abbrev pub drop_rows {ℓ} : {A : Type ℓ} → ℕ → List A → List A
drop_rows zero rows = rows
drop_rows (suc n) [] = []
drop_rows (suc n) (r ∷ rows) = drop_rows n rows

unfoldable pub list_states_page :
    Json
    → (String → String)
    → (String → String → Bool)
    → Db
    → RunnerRequestListOptions
    → Result (List RunnerState × ℕ)
list_states_page json to_lower by_id db options =
    if not db.available then err unavailable else elim options.offset [
      | negsuc _ ↦ err invalid_page
      | pos offset ↦ elim (filter_runner_request_list to_lower options) [
        | err e ↦ err e
        | ok p ↦
            let rows = drop_rows offset (sort_by (newest by_id) (select p db.rows)) in
            ok
              (map (record_to_state json) (take (or_limit options.limit 100) rows), count p db.rows)
      ]
    ]

-- `queued_at < ? OR (queued_at = ? AND id > ?)`
abbrev pub is_after : (String → String → Bool) → RunnerRequestCursor → RunnerRequestRecord → Bool
is_after by_id c r =
    ltb r.queued_at c.queued_at || ((r.queued_at == c.queued_at) && by_id c.id r.id)

-- The rows of a page, and whether there are more.
unfoldable pub cursor_rows :
    (String → String → Bool)
    → List RunnerRequestRecord
    → (RunnerRequestRecord → Bool)
    → ℕ
    → List RunnerRequestRecord × Bool
cursor_rows by_id rows p limit =
    let found = take (suc limit) (sort_by (newest by_id) (select p rows)) in
    (take limit found, ltb limit (length found))

abbrev pub past_cursor :
    (String → String → Bool) → Option RunnerRequestCursor → RunnerRequestRecord → Bool
past_cursor by_id none r = true
past_cursor by_id (some c) r = is_after by_id c r

abbrev pub is_bad_cursor : Option RunnerRequestCursor → Bool
is_bad_cursor none = false
is_bad_cursor (some c) = is_empty c.id || is_zero c.queued_at

unfoldable pub list_states_cursor :
    Json
    → (String → String)
    → (String → String → Bool)
    → Db
    → RunnerRequestListOptions
    → Option RunnerRequestCursor
    → Result (List RunnerState × Bool)
list_states_cursor json to_lower by_id db options after =
    if not db.available
    then err unavailable
    else elim (filter_runner_request_list to_lower options) [
      | err e ↦ err e
      | ok p ↦
          let (rows, more) =
            cursor_rows by_id db.rows (λ r. p r && past_cursor by_id after r)
              (or_limit options.limit 100) in
          if is_bad_cursor after then err bad_cursor else ok (map (record_to_state json) rows, more)
    ]
