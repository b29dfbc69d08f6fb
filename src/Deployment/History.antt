-- ===== src/Deployment/History.antt =====
-- Histories of calls of the store of deployments, in any order, failed calls included.
use qiniu_ci_runner.Prelude.{
  ℕ, String, Bool, true, false, not, List, [], ◌∷◌, ◌≡◌, sym, subst, inl, inr, Result, ok, err,
  ensure, ◌>>◌, ◌>>=◌, >>=-eq-ok, invalid, if◌then◌else◌, select, sort_by, take, unavailable,
}
use qiniu_ci_runner.Request.Types.{Time, is_zero}
use qiniu_ci_runner.Deployment.Types.{Deployment, DeploymentRecord, DeploymentEventRecord}
use qiniu_ci_runner.Deployment.Normalize.{normalize_deployment, is_unset}
use qiniu_ci_runner.Deployment.Store.{
  DeploymentDb, opened, create_row, create_deployment, check_deployment_quota,
  create_deployment_with_scope_limit,
}
use qiniu_ci_runner.Deployment.Writing.{update_row, update_deployment}
use qiniu_ci_runner.Deployment.Retry.{
  retry_row, retry_deployment, retry_deployment_with_scope_limit,
}
use qiniu_ci_runner.Deployment.Pruning.{
  prune_all, prune_limit, least_recent, is_prunable, prune_deployments,
}
use qiniu_ci_runner.Deployment.Titles.{fill_deployment_pull_request_title}
use qiniu_ci_runner.Deployment.Budget.{append_deployment_event}
use qiniu_ci_runner.Deployment.Frames.{>>-eq-ok}
use qiniu_ci_runner.Deployment.Changes.{opened-cases}

-- The calls that write, with the time at which each is made. The candidates of a pruning are read
-- from any table, as the query that reads them stands outside its transaction.
pub data Call : Type 0 where
  create : Time → Deployment → Call
  create_limited : Time → Deployment → ℕ → Call
  update : Time → Deployment → Call
  retry : Time → Deployment → Time → Call
  retry_limited : Time → Deployment → Time → ℕ → Call
  prune : (String → String → Bool) → Time → ℕ → List DeploymentRecord → Call
  append : Time → DeploymentEventRecord → Call
  fill : String → String → String → Call

unfoldable pub run_call : Call → DeploymentDb → DeploymentDb
unfolding fill_deployment_pull_request_title create_deployment create_deployment_with_scope_limit
    update_deployment retry_deployment retry_deployment_with_scope_limit prune_deployments
    append_deployment_event
run_call (create now d) db = (create_deployment now d db).0
run_call (create_limited now d places) db = (create_deployment_with_scope_limit now d places db).0
run_call (update now d) db = (update_deployment now d db).0
run_call (retry now d until) db = (retry_deployment now d until db).0
run_call (retry_limited now d until places) db =
    (retry_deployment_with_scope_limit now d until places db).0
run_call (prune by_id before limit seen) db = (prune_deployments by_id before limit seen db).0
run_call (append now e) db = (append_deployment_event now e db).0
run_call (fill id ref title) db = (fill_deployment_pull_request_title id ref title db).0

unfoldable pub run_calls : List Call → DeploymentDb → DeploymentDb
unfolding run_call
run_calls [] db = db
run_calls (call ∷ calls) db = run_calls calls (run_call call db)

-- A transaction that keeps a predicate, whether it ends in an error or not.
pub opened-kept :
    {A : Type 0} (P : DeploymentDb → Type 0) (db : DeploymentDb) (r : Result (DeploymentDb × A))
    → ((db' : DeploymentDb) → (a : A) → r ≡ ok (db', a) → P db')
    → P db
    → P (opened db r).0
opened-kept P db r keeps h = elim (opened-cases db r) [
  | inl e ↦ subst P (sym e) h
  | inr w ↦ let (db', a, e, left) = w in subst P (sym left) (keeps db' a e)
]

branches-kept :
    {A : Type 0} (P : DeploymentDb → Type 0) (b : Bool) (x y : DeploymentDb × A)
    → P x.0
    → P y.0
    → P (if b then x else y).0
branches-kept P true x y h g = h
branches-kept P false x y h g = g

-- What the transactions and the pruning keep, every call keeps.
module _ (P : DeploymentDb → Type 0)
    (creates : (now : Time) (d : Deployment) (db db' : DeploymentDb) (c : Deployment)
      → create_row now d db ≡ ok (db', c)
      → P db
      → P db')
    (updates : (now : Time) (d : Deployment) (db db' : DeploymentDb) (u : Unit {0})
      → update_row now d db ≡ ok (db', u)
      → P db
      → P db')
    (retries : (now : Time) (d : Deployment) (until : Time) (db db' : DeploymentDb) (u : Unit {0})
      → retry_row now d until db ≡ ok (db', u)
      → P db
      → P db')
    (prunes : (before : Time) (rows : List DeploymentRecord) (db : DeploymentDb)
      → P db
      → P (prune_all before rows db).0)
    (appends : (now : Time) (e : DeploymentEventRecord) (db : DeploymentDb)
      → P db
      → P (append_deployment_event now e db).0)
    (fills : (id ref title : String) (db : DeploymentDb)
      → P db
      → P (fill_deployment_pull_request_title id ref title db).0) where
  run_call-kept : (call : Call) (db : DeploymentDb) → P db → P (run_call call db)
  unfolding run_call
  run_call-kept (create now d) db h =
      opened-kept P db (create_row now d db) (λ db' c e. creates now d db db' c e h) h
  run_call-kept (create_limited now d places) db h =
      opened-kept P db (do check_deployment_quota d places "" db; create_row now d db)
        (λ db' c e.
          creates now d db db' c
            (>>-eq-ok (check_deployment_quota d places "" db) (create_row now d db) e) h)
        h
  run_call-kept (update now d) db h =
      opened-kept P db
        (do
          normal ← normalize_deployment d
          ensure (not (is_unset normal.status)) (invalid "deployment status is required")
          update_row now normal db)
        (λ db' u e.
          let (n, x, e1) = >>=-eq-ok (normalize_deployment d) _ e in
          updates now n db db' u
            (>>-eq-ok (ensure (not (is_unset n.status)) (invalid "deployment status is required"))
              (update_row now n db) e1)
            h)
        h
  run_call-kept (retry now d until) db h =
      opened-kept P db (retry_row now d until db) (λ db' u e. retries now d until db db' u e h) h
  run_call-kept (retry_limited now d until places) db h =
      opened-kept P db (do check_deployment_quota d places d.id db; retry_row now d until db)
        (λ db' u e.
          retries now d until db db' u
            (>>-eq-ok (check_deployment_quota d places d.id db) (retry_row now d until db) e) h)
        h
  run_call-kept (prune by_id before limit seen) db h =
      let rows =
        take (prune_limit limit)
          (sort_by (least_recent by_id) (select (is_prunable before) seen)) in
      let done = prune_all before rows db in
      branches-kept P (not db.available) (db, err unavailable)
        (if is_zero before
          then (db, err (invalid "deployment retention cutoff is required"))
          else (done.0, ok done.1))
        h
        (branches-kept P (is_zero before)
          (db, err (invalid "deployment retention cutoff is required")) (done.0, ok done.1) h
          (prunes before rows db h))
  run_call-kept (append now e) db h = appends now e db h
  run_call-kept (fill id ref title) db h = fills id ref title db h

  pub run_calls-kept : (calls : List Call) (db : DeploymentDb) → P db → P (run_calls calls db)
  unfolding run_calls
  run_calls-kept [] db h = h
  run_calls-kept (call ∷ calls) db h =
      run_calls-kept calls (run_call call db) (run_call-kept call db h)
