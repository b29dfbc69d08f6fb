-- ===== src/Deployment/Reading.antt =====
-- The revision that a stored deployment is at can be read.
use qiniu_ci_runner.Prelude.{
  true, ◌≡◌, inl, inr, ok, trim_space, find, find_sound, find-none, In, All-In, Option-cases,
}
use qiniu_ci_runner.Prelude.Table.{find-keyed}
use qiniu_ci_runner.Deployment.Types.{DeploymentRecord, DeploymentRevisionRecord}
use qiniu_ci_runner.Deployment.Convert.{first_number}
use qiniu_ci_runner.Deployment.Store.{DeploymentDb, at_number}
use qiniu_ci_runner.Deployment.Revisions.{get_deployment_revision, revision_from_record}
use qiniu_ci_runner.Deployment.Sound.{IsSound, HasCurrent, same_id, same_id-swap, same_id_self}

-- In sound tables that open, the revision that a stored deployment is at is found under the id and
-- the number of the deployment, where no space surrounds the id.
pub get_deployment_revision-current :
    (db : DeploymentDb) (row : DeploymentRecord)
    → IsSound db
    → db.available ≡ true
    → In row db.deployments
    → trim_space row.id ≡ row.id
    → (r : DeploymentRevisionRecord) × In r db.revisions
      × (at_number row.id (first_number row.revision_number) r ≡ true)
      × (get_deployment_revision row.id (first_number row.revision_number) db
          ≡ ok (revision_from_record r row))
unfolding get_deployment_revision
get_deployment_revision-current db row s ready m trimmed =
    let n = first_number row.revision_number in
    let own = find-keyed same_id same_id-swap same_id_self row db.deployments s.ids m in
    let (q, i, a) = All-In (HasCurrent db.revisions) db.deployments row s.current m in
    elim (Option-cases (find (at_number row.id n) db.revisions)) [
      | inl e ↦ absurd (cc (find-none (at_number row.id n) db.revisions q e i))
      | inr (r, e) ↦
          let (j, b) = find_sound (at_number row.id n) db.revisions r e in
          (r, j, b, simp (ready, trimmed, own, e))
    ]
