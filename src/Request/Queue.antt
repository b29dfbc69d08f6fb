-- ===== src/Request/Queue.antt =====
-- `internal/state/runner_requests.go`: the queue that the workers share. A worker claims the oldest
-- runnable request under a lease, gives the lease back, and a retry puts a request into the queue
-- again. A transaction that returns an error leaves the rows as they were.
use qiniu_ci_runner.Prelude.{
  ℕ, ◌+◌, String, Bool, true, ◌&&◌, ◌||◌, Option, none, some, Result, ok, err, Error, unavailable,
  worker_id_required, is_empty, ltb, leb, ◌==◌, str_eq, if◌then◌else◌, trim_space, select, count,
  find, least, update_where,
}
use qiniu_ci_runner.Request.Types.{Time, is_queued, RunnerRequest, RunnerState}
use qiniu_ci_runner.Request.Record.{RunnerRequestRecord, Json}
use qiniu_ci_runner.Request.Convert.{sanitize_id}
use qiniu_ci_runner.Request.Reading.{record_to_request, record_to_state}
use qiniu_ci_runner.Request.Store.{Db, has_id}

-- `t IS NULL OR t <= ?`
abbrev pub is_past : Option Time → Time → Bool
is_past none now = true
is_past (some t) now = leb t now

abbrev pub is_runnable : Time → RunnerRequestRecord → Bool
is_runnable now row =
    is_queued row.status && (is_past row.next_retry_at now && is_past row.lease_expires_at now)

-- `COALESCE(next_retry_at, queued_at)`
abbrev pub turn : RunnerRequestRecord → Time
turn row = elim row.next_retry_at [ none ↦ row.queued_at | some t ↦ t ]

-- The order of the candidates; `First` breaks the last ties by the primary key, whose order is the
-- database's.
abbrev pub goes_before : (String → String → Bool) → RunnerRequestRecord → RunnerRequestRecord → Bool
goes_before by_id a b =
    ltb (turn a) (turn b)
    || ((turn a == turn b)
        && (ltb a.queued_at b.queued_at || ((a.queued_at == b.queued_at) && by_id a.id b.id)))

-- The columns that a claim sets; `version` is that of the candidate.
abbrev pub lease_to : String → Time → Time → ℕ → RunnerRequestRecord → RunnerRequestRecord
lease_to worker now expires version row = record row {
  lease_owner = worker;
  lease_expires_at = some expires;
  last_attempt_at = some now;
  updated_at = now;
  version = version + 1;
}

-- The second condition of the claim, on the candidate's row as it is then.
abbrev pub is_still_free : String → Time → RunnerRequestRecord → Bool
is_still_free id now row =
    has_id id row && (is_queued row.status && is_past row.lease_expires_at now)

-- What the transaction of a claim leaves: the rows, and the claimed row, if there is one.
unfoldable pub claim_rows :
    (String → String → Bool) → Db → String → Time → ℕ → Db × Option RunnerRequestRecord
claim_rows by_id db worker now ttl =
    elim (least (goes_before by_id) (select (is_runnable now) db.rows)) [
      | none ↦ (db, none)
      | some candidate ↦
          let free = is_still_free candidate.id now in
          let rows =
            update_where free (lease_to worker now (now + ttl) candidate.version) db.rows in
          if count free db.rows == 0 then (db, none) else elim (find (has_id candidate.id) rows) [
            | none ↦ (db, none)
            | some claimed ↦ (record db { rows = rows }, some claimed)
          ]
    ]

claim_result : Json → Option RunnerRequestRecord → Result (Option (RunnerRequest × RunnerState))
claim_result json none = ok none
claim_result json (some row) = elim (record_to_request json row) [
  | err e ↦ err e
  | ok req ↦ ok (some (req, record_to_state json row))
]

unfoldable pub claim_next_runnable :
    Json
    → (String → String → Bool)
    → Db
    → String
    → Time
    → ℕ
    → Db × Result (Option (RunnerRequest × RunnerState))
unfolding claim_rows claim_result
claim_next_runnable json by_id db worker now ttl =
    let worker' = trim_space worker in
    let (db', claimed) = claim_rows by_id db worker' now ttl in
    if db.available
    then if is_empty worker' then (db, err worker_id_required) else (db', claim_result json claimed)
    else (db, err unavailable)

abbrev pub owned_by : String → String → RunnerRequestRecord → Bool
owned_by id worker row = has_id id row && str_eq row.lease_owner worker

abbrev pub without_lease : RunnerRequestRecord → RunnerRequestRecord
without_lease row = record row { lease_owner = ""; lease_expires_at = none }

unfoldable pub release_lease : Db → String → String → Db × Option Error
release_lease db id worker =
    let owned = owned_by (sanitize_id id) (trim_space worker) in
    if db.available
    then (record db { rows = update_where owned without_lease db.rows }, none)
    else (db, some unavailable)
