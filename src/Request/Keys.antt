-- ===== src/Request/Keys.antt =====
-- The keys of the table of runner requests, its primary key `id` and its unique index on
-- `workflow_job_id`, and the operations of `internal/state/runner_requests.go` on them.
use qiniu_ci_runner.Prelude.{
  ℕ, Bool, true, false, List, [], ◌∷◌, none, some, ◌≡◌, refl, inl, inr, arith, eq_iff, find,
  update_where, Option-cases, Bool-cases,
}
use qiniu_ci_runner.Prelude.Table.{IsFresh, KeepsKey, update-IsKeyed, append-IsKeyed}
use qiniu_ci_runner.Prelude.Table
use qiniu_ci_runner.Request.Types.{RunnerRequest}
use qiniu_ci_runner.Request.Record.{RunnerRequestRecord, Json}
use qiniu_ci_runner.Request.Store.{Db, has_id, has_job, taken, insert_or_find}

abbrev pub same_id : RunnerRequestRecord → RunnerRequestRecord → Bool
same_id a b = has_id a.id b

abbrev pub same_job : RunnerRequestRecord → RunnerRequestRecord → Bool
same_job a b = elim a.workflow_job_id [ none ↦ false | some n ↦ has_job n b ]

-- No two rows share an id, and no two rows share a job.
pub record IsKeyed (rows : List RunnerRequestRecord) : Type 0 where
  pub ids : Table.IsKeyed same_id rows
  pub jobs : Table.IsKeyed same_job rows

pub same_id-swap : (a b : RunnerRequestRecord) → same_id a b ≡ same_id b a
same_id-swap a b = ground (arith, eq_iff a.id b.id, eq_iff b.id a.id)

pub same_id_self : (a : RunnerRequestRecord) → same_id a a ≡ true
same_id_self a = (eq_iff a.id a.id).1 refl

pub same_job-swap : (a b : RunnerRequestRecord) → same_job a b ≡ same_job b a
same_job-swap a b = ground arith

-- An update that leaves the two key columns alone keeps both keys.
module _ (f : RunnerRequestRecord → RunnerRequestRecord)
    (ids : (r : RunnerRequestRecord) → (f r).id ≡ r.id) where
  pub keeps_id : KeepsKey same_id f
  keeps_id = record { left = λ a b. ground (arith, ids a); right = λ a b. ground (arith, ids b) }

  pub keeps_both :
      ((r : RunnerRequestRecord) → (f r).workflow_job_id ≡ r.workflow_job_id)
      → (p : RunnerRequestRecord → Bool) (rows : List RunnerRequestRecord) → IsKeyed rows
      → IsKeyed (update_where p f rows)
  keeps_both jobs p rows k = record {
    ids = update-IsKeyed same_id p f keeps_id rows k.ids;
    jobs =
        update-IsKeyed same_job p f
          (record { left = λ a b. ground (arith, jobs a); right = λ a b. ground (arith, jobs b) })
          rows k.jobs;
  }

find-IsFresh_id :
    (r : RunnerRequestRecord) (rows : List RunnerRequestRecord)
    → find (has_id r.id) rows ≡ none
    → IsFresh same_id r rows
find-IsFresh_id r [] h = tt
find-IsFresh_id r (x ∷ rows) h = (ground arith, find-IsFresh_id r rows (ground arith))

find-IsFresh_job :
    (r : RunnerRequestRecord) (n : ℕ) (rows : List RunnerRequestRecord)
    → r.workflow_job_id ≡ some n
    → find (has_job n) rows ≡ none
    → IsFresh same_job r rows
find-IsFresh_job r n [] e h = tt
find-IsFresh_job r n (x ∷ rows) e h = (ground arith, find-IsFresh_job r n rows e (ground arith))

no_job-IsFresh :
    (r : RunnerRequestRecord) (rows : List RunnerRequestRecord)
    → r.workflow_job_id ≡ none
    → IsFresh same_job r rows
no_job-IsFresh r [] e = tt
no_job-IsFresh r (x ∷ rows) e = (ground arith, no_job-IsFresh r rows e)

taken-IsFresh :
    (r : RunnerRequestRecord) (rows : List RunnerRequestRecord)
    → taken r rows ≡ false
    → IsFresh same_id r rows × IsFresh same_job r rows
taken-IsFresh r rows h = elim (Option-cases r.workflow_job_id) [
  | inl e ↦ (find-IsFresh_id r rows (ground arith), no_job-IsFresh r rows e)
  | inr (n, e) ↦ (find-IsFresh_id r rows (ground arith), find-IsFresh_job r n rows e (ground arith))
]

pub insert-IsKeyed :
    (json : Json) (db : Db) (req : RunnerRequest) (r : RunnerRequestRecord)
    → IsKeyed db.rows
    → IsKeyed (insert_or_find json db req r).0.rows
unfolding insert_or_find
insert-IsKeyed json db req r k = elim (Bool-cases (taken r db.rows)) [
  | inl e ↦ rw (e, insert_or_find) k
  | inr e ↦
      let fresh = taken-IsFresh r db.rows e in
      rw (e, insert_or_find)
        (record {
          ids = append-IsKeyed same_id same_id-swap db.rows r k.ids fresh.0;
          jobs = append-IsKeyed same_job same_job-swap db.rows r k.jobs fresh.1;
        })
]
