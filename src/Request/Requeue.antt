-- ===== src/Request/Requeue.antt =====
-- What `RetryRequest` of `internal/state/runner_requests.go` allows, and what it leaves.
use qiniu_ci_runner.Prelude.{
  ◌+◌, String, true, List, none, some, ◌≡◌, refl, subst, ◌⊎◌, inl, inr, ◌≢◌, ◌↔◌, arith,
  if◌then◌else◌, update_where, find, find_sound, Bool-cases, In, ok, err, retry_not_allowed,
}
use qiniu_ci_runner.Prelude.Table.{find-update}
use qiniu_ci_runner.Request.Types.{Time, Status, queued, failed, creating}
use qiniu_ci_runner.Request.Record.{RunnerRequestRecord, Json}
use qiniu_ci_runner.Request.Convert.{sanitize_id}
use qiniu_ci_runner.Request.Reading.{record_to_state}
use qiniu_ci_runner.Request.Store.{Db, has_id}
use qiniu_ci_runner.Request.Writing.{at_version}
use qiniu_ci_runner.Request.Queue.{is_runnable, turn}
use qiniu_ci_runner.Request.Retry.{
  retry_request, retry_row, may_retry, requeued, write_requeued, waits_for_retry_iff,
}
use qiniu_ci_runner.Request.Keys.{IsKeyed, same_id, same_id-swap, same_id_self, keeps_id}

-- A retry is for a failed request, and for a queued one that waits for its next attempt after an
-- error that may be retried.
abbrev pub IsRetryable : RunnerRequestRecord → Type 0
IsRetryable row =
    (row.status ≡ failed)
    ⊎ ((row.status ≡ queued) × (row.next_retry_at ≢ none) × (row.last_error_retryable ≡ true))

queued_part :
    (row : RunnerRequestRecord)
    → row.status ≡ queued
    → IsRetryable row
    → (row.next_retry_at ≢ none) × (row.last_error_retryable ≡ true)
queued_part row e (inl f) = absurd (ground arith)
queued_part row e (inr (_, n, r)) = (n, r)

may_retry_iff :
    (s : Status) (row : RunnerRequestRecord)
    → row.status ≡ s
    → (may_retry s row ≡ true) ↔ IsRetryable row
unfolding may_retry
may_retry_iff queued row e =
    let waits = waits_for_retry_iff row.next_retry_at row.last_error_retryable in
    (λ h. inr (e, (waits.0 h).0, (waits.0 h).1), λ h. waits.1 (queued_part row e h))
may_retry_iff failed row e = (λ h. inl e, λ h. refl)
may_retry_iff creating row e = (λ h. absurd (cc), λ h. absurd (ground arith))
may_retry_iff _ row e = (λ h. absurd (cc), λ h. absurd (ground arith))

module _ (json : Json) (db : Db) (now : Time) (row : RunnerRequestRecord) (k : IsKeyed db.rows)
    (m : In row db.rows) where
  saved : RunnerRequestRecord
  saved = write_requeued (requeued now row) row

  requeued_rows : List RunnerRequestRecord
  requeued_rows =
      update_where (at_version row.id row.version) (write_requeued (requeued now row)) db.rows

  at_self : at_version row.id row.version row ≡ true
  at_self = ground (arith, same_id_self row)

  requeued_rows-found : find (has_id row.id) requeued_rows ≡ some saved
  unfolding saved requeued_rows write_requeued
  requeued_rows-found =
      subst
        (λ b.
          find (has_id row.id) requeued_rows
          ≡ some (if b then write_requeued (requeued now row) row else row))
        at_self
        (find-update same_id (at_version row.id row.version) (write_requeued (requeued now row))
          (keeps_id (write_requeued (requeued now row)) (λ r. refl)) same_id-swap same_id_self row
          db.rows k.ids m)

  retry_row-allowed :
      may_retry row.status row ≡ true
      → retry_row json db now row
        ≡ (record db { rows = requeued_rows }, ok (record_to_state json saved))
  unfolding retry_row requeued_rows
  retry_row-allowed h = ground (arith, requeued_rows-found)

  saved-IsFresh :
      (saved.status ≡ queued)
      × (saved.version ≡ row.version + 1)
      × (saved.queued_at ≡ row.queued_at)
      × (turn saved ≡ row.queued_at)
      × (saved.sandbox_id ≡ "")
      × (saved.lease_owner ≡ "")
      × ((at : Time) → is_runnable at saved ≡ true)
  unfolding saved write_requeued requeued
  saved-IsFresh = (refl, refl, refl, refl, refl, refl, λ at. refl)

-- If the table opens and a row is found for the id, then a retry fails with
-- `ErrRetryNotAllowed` and changes nothing unless the row is retryable.
pub retry-refused :
    (json : Json) (db : Db) (id : String) (now : Time) (row : RunnerRequestRecord)
    → db.available ≡ true
    → find (has_id (sanitize_id id)) db.rows ≡ some row
    → ¬ IsRetryable row
    → retry_request json db id now ≡ (db, err retry_not_allowed)
unfolding retry_request retry_row
retry-refused json db id now row open_ found no_way = elim (Bool-cases (may_retry row.status row)) [
  | inl t ↦ absurd (no_way ((may_retry_iff row.status row refl).0 t))
  | inr f ↦ ground arith
]

retry-made :
    (json : Json) (db : Db) (id : String) (now : Time) (row : RunnerRequestRecord)
    (k : IsKeyed db.rows)
    → db.available ≡ true
    → find (has_id (sanitize_id id)) db.rows ≡ some row
    → (m : In row db.rows) → may_retry row.status row ≡ true
    → retry_request json db id now ≡ (
      record db { rows = requeued_rows json db now row k m },
      ok (record_to_state json (saved json db now row k m)),
    )
unfolding retry_request
retry-made json db id now row k open_ found m h =
    ground (arith, retry_row-allowed json db now row k m h)

-- If no two rows share a key, the table opens and a retryable row is found for the id, then a retry
-- returns the state of a row that is now the row of that id: it is queued under the next version,
-- with its queueing time as before and that time as its turn, without Sandbox or lease, and runnable
-- at every time.
pub retry-effect :
    (json : Json) (db : Db) (id : String) (now : Time) (row : RunnerRequestRecord)
    → IsKeyed db.rows
    → db.available ≡ true
    → find (has_id (sanitize_id id)) db.rows ≡ some row
    → IsRetryable row
    → (next : RunnerRequestRecord) × ((retry_request json db id now).1
        ≡ ok (record_to_state json next))
      × (find (has_id row.id) (retry_request json db id now).0.rows ≡ some next)
      × (next.status ≡ queued)
      × (next.version ≡ row.version + 1)
      × (next.queued_at ≡ row.queued_at)
      × (turn next ≡ row.queued_at)
      × (next.sandbox_id ≡ "")
      × (next.lease_owner ≡ "")
      × ((at : Time) → is_runnable at next ≡ true)
retry-effect json db id now row k open_ found way =
    let m = (find_sound (has_id (sanitize_id id)) db.rows row found).0 in
    let made =
      retry-made json db id now row k open_ found m ((may_retry_iff row.status row refl).1 way) in
    let (q, v, t, u, s, l, r) = saved-IsFresh json db now row k m in
    (
      saved json db now row k m,
      rw made,
      rw made (requeued_rows-found json db now row k m),
      q,
      v,
      t,
      u,
      s,
      l,
      r,
    )
