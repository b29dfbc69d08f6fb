-- ===== src/Request/Frames.antt =====
-- What each operation of `internal/state/runner_requests.go` leaves of the rows: the rows of before,
-- or those with one insertion or one update.
use qiniu_ci_runner.Prelude.{
  ℕ, String, Bool, ◌≡◌, ◌⊎◌, inl, inr, arith, ◌+◌, Bool-cases, ◌==◌, update_where, count, find,
  least, select, Option-cases, trim_space,
}
use qiniu_ci_runner.Request.Types.{Time, Status, RunnerRequest, RunnerState}
use qiniu_ci_runner.Request.Record.{RunnerRequestRecord, Json}
use qiniu_ci_runner.Request.Convert.{sanitize_id}
use qiniu_ci_runner.Request.Store.{
  Db, has_id, create_request_with, insert_or_find, prepared, links_for, new_row,
}
use qiniu_ci_runner.Request.Writing.{write_state, at_version, set_columns, apply_state_timestamps}
use qiniu_ci_runner.Request.Queue.{
  claim_rows, claim_next_runnable, release_lease, is_runnable, goes_before, is_still_free, owned_by,
  without_lease, lease_to,
}
use qiniu_ci_runner.Request.Retry.{retry_request, requeued, write_requeued, retry_row}

-- The rows that a write leaves: those of before, or those of before with one column set.
pub rows-write_state :
    (db : Db) (now : Time) (st : RunnerState)
    → ((write_state db now st).0.rows ≡ db.rows)
      ⊎ ((write_state db now st).0.rows
          ≡ update_where
              (at_version (sanitize_id st.id) st.version)
              (set_columns (
                apply_state_timestamps
                  (record st { id = sanitize_id st.id; updated_at = now })
                  now))
              db.rows)
unfolding write_state
rows-write_state db now st = ground arith

-- The rows that a claim leaves.
pub rows-claim_rows :
    (by_id : String → String → Bool) (db : Db) (worker : String) (now : Time) (ttl : ℕ)
    → ((claim_rows by_id db worker now ttl).0.rows ≡ db.rows)
      ⊎ ((c : RunnerRequestRecord) × ((claim_rows by_id db worker now ttl).0.rows
            ≡ update_where
                (is_still_free c.id now)
                (lease_to worker now (now + ttl) c.version)
                db.rows))
unfolding claim_rows
rows-claim_rows by_id db worker now ttl =
    elim (Option-cases (least (goes_before by_id) (select (is_runnable now) db.rows))) [
      | inl e ↦ inl (rw (e, claim_rows))
      | inr (c, e) ↦
          rw (e, claim_rows)
            (elim (Option-cases (
              find (has_id c.id) (
                update_where (is_still_free c.id now) (lease_to worker now (now + ttl) c.version)
                  db.rows))) [
                    | inl q ↦ inl (ground arith)
                    | inr (r, q) ↦ elim (Bool-cases (count (is_still_free c.id now) db.rows == 0)) [
                      | inl z ↦ inl (ground arith)
                      | inr z ↦ inr (c, ground arith)
                    ]
                  ])
    ]

pub rows-retry_row :
    (json : Json) (db : Db) (now : Time) (row : RunnerRequestRecord)
    → ((retry_row json db now row).0.rows ≡ db.rows)
      ⊎ ((retry_row json db now row).0.rows
          ≡ update_where
              (at_version row.id row.version)
              (write_requeued (requeued now row))
              db.rows)
unfolding retry_row
rows-retry_row json db now row = ground arith

-- The rows that a creation leaves: those of before, or what inserting the new row leaves.
pub rows-create_with :
    (json : Json) (db : Db) (now : Time) (req : RunnerRequest) (payload : String) (status : Status)
    (stage reason message : String)
    → let db' = (create_request_with json db now req payload status stage reason message).0 in
      (db' ≡ db)
      ⊎ (db'
          ≡ (insert_or_find json db (prepared now req) (
              new_row json now
                (prepared now req)
                (links_for json (prepared now req) payload)
                status
                stage
                reason
                message)).0)
unfolding create_request_with
rows-create_with json db now req payload status stage reason message = ground arith

pub rows-claim :
    (json : Json) (by_id : String → String → Bool) (db : Db) (worker : String) (now : Time)
    (ttl : ℕ)
    → let db' = (claim_next_runnable json by_id db worker now ttl).0 in
      (db' ≡ db) ⊎ (db' ≡ (claim_rows by_id db (trim_space worker) now ttl).0)
unfolding claim_next_runnable
rows-claim json by_id db worker now ttl = ground arith

pub rows-release :
    (db : Db) (id worker : String)
    → ((release_lease db id worker).0.rows ≡ db.rows)
      ⊎ ((release_lease db id worker).0.rows
          ≡ update_where (owned_by (sanitize_id id) (trim_space worker)) without_lease db.rows)
unfolding release_lease
rows-release db id worker = ground arith

pub rows-retry :
    (json : Json) (db : Db) (id : String) (now : Time)
    → let db' = (retry_request json db id now).0 in
      (db' ≡ db) ⊎ ((row : RunnerRequestRecord) × (db' ≡ (retry_row json db now row).0))
unfolding retry_request
rows-retry json db id now = elim (Option-cases (find (has_id (sanitize_id id)) db.rows)) [
  | inl d ↦ inl (ground arith)
  | inr (row, d) ↦ elim (Bool-cases db.available) [
    | inl e ↦ inr (row, ground arith)
    | inr e ↦ inl (ground arith)
  ]
]
