-- ===== src/Deployment/Pruning.antt =====
-- `PruneDeployments`. The order of ids is the database's.
use qiniu_ci_runner.Prelude.{
  ℕ, zero, suc, String, Bool, true, false, not, ◌&&◌, ◌||◌, List, [], ◌∷◌, Result, ok, err, invalid,
  unavailable, is_empty, str_eq, ◌==◌, ltb, if◌then◌else◌, count, select, sort_by, take, min,
}
use qiniu_ci_runner.Request.Types.{Time, is_zero}
use qiniu_ci_runner.Deployment.Types.{
  is_terminal, DeploymentRecord, DeploymentRevisionRecord, DeploymentEventRecord,
}
use qiniu_ci_runner.Deployment.Store.{DeploymentDb}
use qiniu_ci_runner.Deployment.Writing.{at_version}

abbrev pub is_prunable : Time → DeploymentRecord → Bool
is_prunable before row =
    is_terminal row.status && (is_empty row.sandbox_id && ltb row.updated_at before)

-- `updated_at ASC, id ASC`
abbrev pub least_recent : (String → String → Bool) → DeploymentRecord → DeploymentRecord → Bool
least_recent by_id a b =
    ltb a.updated_at b.updated_at || ((a.updated_at == b.updated_at) && by_id a.id b.id)

-- The condition of a deletion, on the row as it is then.
abbrev pub is_pruned : Time → DeploymentRecord → DeploymentRecord → Bool
is_pruned before old row = at_version old.id old.version row && is_prunable before row

unfoldable pub prune_one : Time → DeploymentRecord → DeploymentDb → DeploymentDb × Bool
prune_one before old db =
    if count (is_pruned before old) db.deployments == 0 then (db, false) else (
      record db {
        deployments =
            select (λ (row : DeploymentRecord). not (is_pruned before old row)) db.deployments;
        events =
            select (λ (e : DeploymentEventRecord). not (str_eq e.deployment_id old.id)) db.events;
        revisions =
            select (λ (r : DeploymentRevisionRecord). not (str_eq r.deployment_id old.id))
              db.revisions;
      },
      true,
    )

-- The loop over the rows that the query found, with the number of deletions.
unfoldable pub prune_all : Time → List DeploymentRecord → DeploymentDb → DeploymentDb × ℕ
unfolding prune_one
prune_all before [] db = (db, 0)
prune_all before (old ∷ rows) db =
    let (db', done) = prune_one before old db in
    let (last, pruned) = prune_all before rows db' in (last, if done then suc pruned else pruned)

abbrev pub prune_limit : ℕ → ℕ
prune_limit zero = 100
prune_limit (suc n) = min (suc n) 1000

-- The candidates are read before the transaction: `seen` is the table of deployments as that query
-- finds it, and `db` what the transaction finds, when other calls may have changed it.
unfoldable pub prune_deployments :
    (String → String → Bool)
    → Time
    → ℕ
    → List DeploymentRecord
    → DeploymentDb
    → DeploymentDb × Result ℕ
unfolding prune_all
prune_deployments by_id before limit seen db =
    let rows =
      take (prune_limit limit) (sort_by (least_recent by_id) (select (is_prunable before) seen)) in
    let (db', pruned) = prune_all before rows db in
    if not db.available
    then (db, err unavailable)
    else if is_zero before
    then (db, err (invalid "deployment retention cutoff is required"))
    else (db', ok pruned)
