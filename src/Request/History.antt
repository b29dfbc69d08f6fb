-- ===== src/Request/History.antt =====
-- Histories of the table of runner requests: every call of `internal/state/runner_requests.go` that
-- changes a row, in any order, from any number of workers.
use qiniu_ci_runner.Prelude.{ℕ, String, Bool, List, [], ◌∷◌, refl, inl, inr, ◌+◌, trim_space}
use qiniu_ci_runner.Request.Types.{Time, Status, RunnerRequest, RunnerState}
use qiniu_ci_runner.Request.Record.{RunnerRequestRecord, Json}
use qiniu_ci_runner.Request.Convert.{sanitize_id}
use qiniu_ci_runner.Request.Store.{Db, create_request, create_rejected_request, create_request_with}
use qiniu_ci_runner.Request.Writing.{write_state, at_version, set_columns, apply_state_timestamps}
use qiniu_ci_runner.Request.Queue.{
  claim_rows, claim_next_runnable, release_lease, is_still_free, owned_by, without_lease, lease_to,
}
use qiniu_ci_runner.Request.Retry.{retry_request, requeued, write_requeued, retry_row}
use qiniu_ci_runner.Request.Frames.{
  rows-write_state, rows-claim_rows, rows-retry_row, rows-create_with, rows-claim, rows-release,
  rows-retry,
}
use qiniu_ci_runner.Request.Keys.{IsKeyed, keeps_both, insert-IsKeyed}

pub data Call : Type 0 where
  creates : Time → RunnerRequest → String → Call
  rejects : Time → RunnerRequest → String → String → Call
  writes : Time → RunnerState → Call
  claims : String → Time → ℕ → Call
  releases : String → String → Call
  retries : String → Time → Call

-- The calls take what the code does not fix: `json`, and the order of the ids.
module _ (json : Json) (by_id : String → String → Bool) where
  unfoldable pub step : Db → Call → Db
  step db (creates now req payload) = (create_request json db now req payload).0
  step db (rejects now req payload reason) =
      (create_rejected_request json db now req payload reason).0
  step db (writes now st) = (write_state db now st).0
  step db (claims worker now ttl) = (claim_next_runnable json by_id db worker now ttl).0
  step db (releases id worker) = (release_lease db id worker).0
  step db (retries id now) = (retry_request json db id now).0

  unfoldable pub run : Db → List Call → Db
  run db [] = db
  run db (c ∷ cs) = run (step db c) cs

create_with-IsKeyed :
    (json : Json) (db : Db) (now : Time) (req : RunnerRequest) (payload : String) (status : Status)
    (stage reason message : String)
    → IsKeyed db.rows
    → IsKeyed (create_request_with json db now req payload status stage reason message).0.rows
create_with-IsKeyed json db now req payload status stage reason message k =
    elim (rows-create_with json db now req payload status stage reason message) [
      | inl e ↦ rw e k
      | inr e ↦ rw e (insert-IsKeyed json db _ _ k)
    ]

write-IsKeyed :
    (db : Db) (now : Time) (st : RunnerState)
    → IsKeyed db.rows
    → IsKeyed (write_state db now st).0.rows
unfolding set_columns
write-IsKeyed db now st k = elim (rows-write_state db now st) [
  | inl e ↦ rw e k
  | inr e ↦ rw e (
      keeps_both
        (set_columns
          (apply_state_timestamps (record st { id = sanitize_id st.id; updated_at = now }) now))
        (λ r. refl) (λ r. refl) (at_version _ _) db.rows k)
]

pub claim_rows-IsKeyed :
    (by_id : String → String → Bool) (db : Db) (worker : String) (now : Time) (ttl : ℕ)
    → IsKeyed db.rows
    → IsKeyed (claim_rows by_id db worker now ttl).0.rows
claim_rows-IsKeyed by_id db worker now ttl k = elim (rows-claim_rows by_id db worker now ttl) [
  | inl e ↦ rw e k
  | inr (c, e) ↦ rw e (
      keeps_both (lease_to worker now (now + ttl) c.version) (λ r. refl) (λ r. refl)
        (is_still_free c.id now) db.rows k)
]

claim-IsKeyed :
    (json : Json) (by_id : String → String → Bool) (db : Db) (worker : String) (now : Time)
    (ttl : ℕ)
    → IsKeyed db.rows
    → IsKeyed (claim_next_runnable json by_id db worker now ttl).0.rows
claim-IsKeyed json by_id db worker now ttl k = elim (rows-claim json by_id db worker now ttl) [
  | inl e ↦ rw e k
  | inr e ↦ rw e (claim_rows-IsKeyed by_id db (trim_space worker) now ttl k)
]

release-IsKeyed :
    (db : Db) (id worker : String) → IsKeyed db.rows → IsKeyed (release_lease db id worker).0.rows
release-IsKeyed db id worker k = elim (rows-release db id worker) [
  | inl e ↦ rw e k
  | inr e ↦ rw e (keeps_both without_lease (λ r. refl) (λ r. refl) (owned_by _ _) db.rows k)
]

retry_row-IsKeyed :
    (json : Json) (db : Db) (now : Time) (row : RunnerRequestRecord)
    → IsKeyed db.rows
    → IsKeyed (retry_row json db now row).0.rows
unfolding write_requeued
retry_row-IsKeyed json db now row k = elim (rows-retry_row json db now row) [
  | inl e ↦ rw e k
  | inr e ↦ rw e (
      keeps_both (write_requeued (requeued now row)) (λ r. refl) (λ r. refl)
        (at_version row.id row.version) db.rows k)
]

retry-IsKeyed :
    (json : Json) (db : Db) (id : String) (now : Time)
    → IsKeyed db.rows
    → IsKeyed (retry_request json db id now).0.rows
retry-IsKeyed json db id now k = elim (rows-retry json db id now) [
  | inl e ↦ rw e k
  | inr (row, e) ↦ rw e (retry_row-IsKeyed json db now row k)
]

pub step-IsKeyed :
    (json : Json) (by_id : String → String → Bool) (db : Db) (c : Call)
    → IsKeyed db.rows
    → IsKeyed (step json by_id db c).rows
unfolding step create_request create_rejected_request
step-IsKeyed json by_id db (creates now req payload) k =
    create_with-IsKeyed json db now req payload _ _ _ _ k
step-IsKeyed json by_id db (rejects now req payload reason) k =
    create_with-IsKeyed json db now req payload _ _ _ _ k
step-IsKeyed json by_id db (writes now st) k = write-IsKeyed db now st k
step-IsKeyed json by_id db (claims worker now ttl) k = claim-IsKeyed json by_id db worker now ttl k
step-IsKeyed json by_id db (releases id worker) k = release-IsKeyed db id worker k
step-IsKeyed json by_id db (retries id now) k = retry-IsKeyed json db id now k

-- If no two rows share an id or a job, then none do after any history of creations, rejections,
-- state writes, claims, releases and retries.
pub run-IsKeyed :
    (json : Json) (by_id : String → String → Bool) (db : Db) (cs : List Call)
    → IsKeyed db.rows
    → IsKeyed (run json by_id db cs).rows
unfolding run
run-IsKeyed json by_id db [] k = k
run-IsKeyed json by_id db (c ∷ cs) k =
    run-IsKeyed json by_id (step json by_id db c) cs (step-IsKeyed json by_id db c k)
