-- ===== src/Examples/Requests.antt =====
-- Runner requests: a created request is claimed once, written under its version and retried.
use qiniu_ci_runner.Prelude.{
  replace_dots, replace_char, trim_space, ℕ, ◌+◌, String, true, false, List, [], ◌∷◌, none, some,
  ◌≡◌, refl, inl, inr, In, find, All, arith, ok, err, conflict, retry_not_allowed, str_eq,
}
use qiniu_ci_runner.Request.Types.{queued, failed, running, RunnerState}
use qiniu_ci_runner.Request.Record.{RunnerRequestRecord}
use qiniu_ci_runner.Request.Convert.{sanitize_id}
use qiniu_ci_runner.Request.Reading.{record_to_state}
use qiniu_ci_runner.Request.Store.{Db, has_id}
use qiniu_ci_runner.Request.Writing.{write_state, set_columns}
use qiniu_ci_runner.Request.Queue.{claim_rows, is_runnable, lease_to, turn}
use qiniu_ci_runner.Request.Retry.{retry_request}
use qiniu_ci_runner.Request.Keys.{IsKeyed}
use qiniu_ci_runner.Request.History.{Call, creates, claims, releases, run, run-IsKeyed}
use qiniu_ci_runner.Request.Lease.{claim_sound, claim_complete, claim_all}
use qiniu_ci_runner.Request.Exclusion.{claim-exclusive, Avoids}
use qiniu_ci_runner.Request.Versions.{write-conflict, write-effect, stamped}
use qiniu_ci_runner.Request.Requeue.{retry-refused, retry-effect}
use qiniu_ci_runner.Examples.Data.{codec, no_order, request, empty_db, queued_row, one_db}

empty-IsKeyed : IsKeyed empty_db.rows
empty-IsKeyed = record { ids = tt; jobs = tt }

one-IsKeyed : IsKeyed one_db.rows
one-IsKeyed = record { ids = (tt, tt); jobs = (tt, tt) }

abbrev calls : List Call
calls = creates 5 request "" ∷ creates 6 request "" ∷ claims "w1" 9 30 ∷ releases "run-7" "w1" ∷ []

run-IsKeyed_example : IsKeyed (run codec no_order empty_db calls).rows
run-IsKeyed_example = run-IsKeyed codec no_order empty_db calls empty-IsKeyed

abbrev leased : RunnerRequestRecord
leased = lease_to "w1" 9 39 0 queued_row

claim_one : (claim_rows no_order one_db "w1" 9 30).1 ≡ some leased
unfolding claim_rows
claim_one = refl

claim_sound_example :
    (c : RunnerRequestRecord) × In c one_db.rows
    × (is_runnable 9 c ≡ true)
    × (leased ≡ lease_to "w1" 9 39 c.version c)
    × (find (has_id "run-7") (claim_rows no_order one_db "w1" 9 30).0.rows ≡ some leased)
claim_sound_example = claim_sound no_order one_db "w1" 9 30 leased one-IsKeyed claim_one

-- The same row under a lease that lasts until 40.
abbrev one_held : Db
one_held = record { available = true; rows = record queued_row { lease_expires_at = some 40 } ∷ [] }

held-IsKeyed : IsKeyed one_held.rows
held-IsKeyed = record { ids = (tt, tt); jobs = (tt, tt) }

claim_early : (claim_rows no_order one_held "w2" 9 30).1 ≡ none
unfolding claim_rows
claim_early = refl

claim_complete_example :
    ((claim_rows no_order one_held "w2" 9 30).0 ≡ one_held)
    × ((c : RunnerRequestRecord) → In c one_held.rows → is_runnable 9 c ≡ false)
claim_complete_example = claim_complete no_order one_held "w2" 9 30 held-IsKeyed claim_early

claim-exclusive_example :
    All
      (Avoids "run-7")
      (claim_all no_order (claim_rows no_order one_db "w1" 9 30).0 (("w2", 20, 30) ∷ [])).1
claim-exclusive_example =
    claim-exclusive no_order one_db "w1" 9 30 leased (("w2", 20, 30) ∷ []) one-IsKeyed claim_one
      (omega arith, tt)

abbrev running_state : RunnerState
running_state = record (record_to_state codec queued_row) { status = running }

wrote : (write_state one_db 9 running_state).1 ≡ none
unfolding write_state record_to_state sanitize_id replace_dots replace_char trim_space
wrote = refl

write-conflict_example :
    write_state (write_state one_db 9 running_state).0 10 (record running_state { status = failed })
    ≡ ((write_state one_db 9 running_state).0, some conflict)
write-conflict_example =
    write-conflict one_db 9 10 running_state (record running_state { status = failed }) wrote refl
      refl

write-effect_example :
    (old : RunnerRequestRecord) × (find (has_id (sanitize_id running_state.id)) one_db.rows
      ≡ some old)
    × (old.version ≡ running_state.version)
    × (find (has_id (sanitize_id running_state.id)) (write_state one_db 9 running_state).0.rows
        ≡ some (set_columns (stamped 9 running_state) old))
    × ((id : String)
        → str_eq (sanitize_id running_state.id) id ≡ false
        → find (has_id id) (write_state one_db 9 running_state).0.rows
          ≡ find (has_id id) one_db.rows)
write-effect_example = write-effect one_db 9 running_state one-IsKeyed wrote

retry-refused_example : retry_request codec one_db "run-7" 9 ≡ (one_db, err retry_not_allowed)
unfolding sanitize_id replace_dots replace_char trim_space
retry-refused_example =
    retry-refused codec one_db "run-7" 9 queued_row refl refl
      (λ w. elim w [ inl e ↦ cc e | inr (_, n, _) ↦ n refl ])

abbrev failed_row : RunnerRequestRecord
failed_row = record queued_row { status = failed; sandbox_id = "sb-1" }

abbrev failed_db : Db
failed_db = record { available = true; rows = failed_row ∷ [] }

failed-IsKeyed : IsKeyed failed_db.rows
failed-IsKeyed = record { ids = (tt, tt); jobs = (tt, tt) }

retry-effect_example :
    (next : RunnerRequestRecord) × ((retry_request codec failed_db "run-7" 9).1
      ≡ ok (record_to_state codec next))
    × (find (has_id "run-7") (retry_request codec failed_db "run-7" 9).0.rows ≡ some next)
    × (next.status ≡ queued)
    × (next.version ≡ 0 + 1)
    × (next.queued_at ≡ 5)
    × (turn next ≡ 5)
    × (next.sandbox_id ≡ "")
    × (next.lease_owner ≡ "")
    × ((at : ℕ) → is_runnable at next ≡ true)
unfolding sanitize_id replace_dots replace_char trim_space
retry-effect_example =
    retry-effect codec failed_db "run-7" 9 failed_row failed-IsKeyed refl refl (inl refl)
