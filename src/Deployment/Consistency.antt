-- ===== src/Deployment/Consistency.antt =====
-- What holds in every history of the store of deployments, and what an update relies on.
use qiniu_ci_runner.Prelude.{
  ℕ, String, true, false, List, ◌≡◌, ◌⊎◌, ap, subst, ◌∙◌, inl, inr, arith, ok, err, conflict, ◌==◌,
  str_eq, if◌then◌else◌, find, find_sound, find-none, count, update_where, In, All-In, Bool-cases,
  Option-cases, ◌<◌,
}
use qiniu_ci_runner.Prelude.Table.{count-some, count-pos}
use qiniu_ci_runner.Prelude.Rows.{update-In}
use qiniu_ci_runner.Request.Types.{Time}
use qiniu_ci_runner.Deployment.Types.{Deployment, DeploymentRecord}
use qiniu_ci_runner.Deployment.Convert.{first_number}
use qiniu_ci_runner.Deployment.Normalize.{normalize_deployment, is_unset}
use qiniu_ci_runner.Deployment.Store.{DeploymentDb, has_id, at_number}
use qiniu_ci_runner.Deployment.Writing.{
  at_version, set_columns, follow, update_row, update_current_deployment_revision,
  update_deployment,
}
use qiniu_ci_runner.Deployment.Sound.{IsSound, HasCurrent}
use qiniu_ci_runner.Deployment.Kept.{
  create_row-IsSound, update_row-IsSound, rows-current, set_columns-place,
}
use qiniu_ci_runner.Deployment.SoundRetry.{retry_row-IsSound}
use qiniu_ci_runner.Deployment.SoundPruning.{prune_all-IsSound}
use qiniu_ci_runner.Deployment.SoundAppending.{
  append_deployment_event-IsSound, append_deployment_event-IsCounted,
}
use qiniu_ci_runner.Deployment.Appending.{IsCounted}
use qiniu_ci_runner.Deployment.SoundTitles.{fill-IsSound, fill-IsCounted}
use qiniu_ci_runner.Deployment.Counting.{
  create_row-IsCounted, update_row-IsCounted, retry_row-IsCounted, prune_all-IsCounted,
}
use qiniu_ci_runner.Deployment.History.{Call, run_calls, run_calls-kept}

-- In every history of creations, updates, retries, prunings, events and titles, failed calls included, the
-- ids of deployments stay distinct, a revision number occurs once in a deployment, every deployment
-- has the revision that it is at, and every revision has a deployment that is at it or past it.
pub run_calls-IsSound :
    (calls : List Call) (db : DeploymentDb) → IsSound db → IsSound (run_calls calls db)
run_calls-IsSound =
    run_calls-kept IsSound create_row-IsSound update_row-IsSound retry_row-IsSound prune_all-IsSound
      append_deployment_event-IsSound fill-IsSound

-- In every such history the ids of the events increase, and the counters of a revision, once they are
-- set, are the number of its events and the bytes of their messages.
pub run_calls-IsCounted :
    (calls : List Call) (db : DeploymentDb) → IsCounted db → IsCounted (run_calls calls db)
run_calls-IsCounted =
    run_calls-kept IsCounted create_row-IsCounted update_row-IsCounted retry_row-IsCounted
      prune_all-IsCounted append_deployment_event-IsCounted fill-IsCounted

positive : (n : ℕ) → 0 < n → (n == 0) ≡ false
positive n h = ground (arith, h)

at_version-has_id :
    (id : String) (version : ℕ) (row : DeploymentRecord)
    → at_version id version row ≡ true
    → has_id id row ≡ true
at_version-has_id id version row h = ground (arith, h)

-- A row at the version that an update expects, in sound tables.
update_row-runs :
    (now : Time) (n : Deployment) (db : DeploymentDb) (row : DeploymentRecord)
    → IsSound db
    → In row db.deployments
    → at_version n.id n.version row ≡ true
    → (db' : DeploymentDb) × (update_row now n db ≡ ok (db', tt))
      × In (set_columns now n row) db'.deployments
unfolding update_row update_current_deployment_revision
update_row-runs now n db row s m h =
    let p = at_version n.id n.version in
    let f = set_columns now n in
    let rows = update_where p f db.deployments in
    let written : In (f row) rows =
      subst (λ b. In (if b then f row else row) rows) h (update-In p f db.deployments row m) in
    let some_row : (count p db.deployments == 0) ≡ false =
      positive (count p db.deployments) (count-pos p db.deployments row m h) in
    elim (Option-cases (find (has_id n.id) rows)) [
      | inl e ↦ absurd (
          let own : has_id n.id (f row) ≡ true =
            ap (λ x. str_eq x n.id) (set_columns-place now n row).0
            ∙ at_version-has_id n.id n.version row h in
          cc (find-none (has_id n.id) rows (f row) e written))
      | inr (saved, e) ↦
          let (i, _) = find_sound (has_id n.id) rows saved e in
          let (r, j, a) =
            All-In (HasCurrent db.revisions) rows saved
              (rows-current f (λ x. (set_columns-place now n x).0)
                (λ x. (set_columns-place now n x).1) p db.revisions db.deployments s.current)
              i in
          let q = at_number saved.id (first_number saved.revision_number) in
          let some_revision : (count q db.revisions == 0) ≡ false =
            positive (count q db.revisions) (count-pos q db.revisions r j a) in
          (
            record db {
              deployments = rows;
              revisions = update_where q (follow saved) db.revisions;
            },
            simp (some_row, e, some_revision),
            written,
          )
    ]

updates :
    (now : Time) (d n : Deployment) (db db' : DeploymentDb)
    → db.available ≡ true
    → normalize_deployment d ≡ ok n
    → is_unset n.status ≡ false
    → update_row now n db ≡ ok (db', tt)
    → update_deployment now d db ≡ (db', ok tt)
unfolding update_deployment
updates now d n db db' ready normal set run = simp (ready, normal, set, run)

-- In sound tables an accepted update writes the row when its version is the stored one, and never
-- fails for a revision; when no row is at that version it ends in a conflict and changes nothing.
pub update_deployment_outcome :
    (now : Time) (d n : Deployment) (db : DeploymentDb)
    → IsSound db
    → db.available ≡ true
    → normalize_deployment d ≡ ok n
    → is_unset n.status ≡ false
    → ((row : DeploymentRecord) × (db' : DeploymentDb) × In row db.deployments
        × (at_version n.id n.version row ≡ true)
        × (update_deployment now d db ≡ (db', ok tt))
        × In (set_columns now n row) db'.deployments)
      ⊎ ((count (at_version n.id n.version) db.deployments ≡ 0)
          × (update_deployment now d db ≡ (db, err conflict)))
unfolding update_deployment update_row
update_deployment_outcome now d n db s ready normal set =
    let p = at_version n.id n.version in
    elim (Bool-cases (count p db.deployments == 0)) [
      | inl t ↦ inr (ground (arith, t), simp (ready, normal, set, t))
      | inr f ↦
          let (row, m, h) = count-some p db.deployments (λ z. ground (arith, z, f)) in
          let (db', run, written) = update_row-runs now n db row s m h in
          inl (row, db', m, h, updates now d n db db' ready normal set run, written)
    ]
