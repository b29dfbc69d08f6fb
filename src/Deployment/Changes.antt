-- ===== src/Deployment/Changes.antt =====
-- What a successful update, retry or pruning of deployments leaves.
use qiniu_ci_runner.Prelude.{
  ◌+◌, false, not, ◌||◌, [], ◌∷◌, ◌++◌, ◌≡◌, ◌≢◌, ◌⊎◌, refl, sym, ◌∙◌, inl, inr, arith, some,
  Result, ok, err, ensure, expiry_required, conflict, retry_not_allowed, >>=-eq-ok, ◌==◌,
  if◌then◌else◌, find, count, update_where, Bool-cases, Option-cases,
}
use qiniu_ci_runner.Request.Types.{Time, is_zero}
use qiniu_ci_runner.Deployment.Types.{
  is_terminal, Deployment, DeploymentRecord, DeploymentRevisionRecord,
}
use qiniu_ci_runner.Deployment.Convert.{revision_record_from_deployment, first_number}
use qiniu_ci_runner.Deployment.Store.{
  DeploymentDb, opened, insert_revision, has_id, at_number, is_found, clashes,
}
use qiniu_ci_runner.Deployment.Writing.{
  set_columns, at_version, follow, update_current_deployment_revision, update_row,
}
use qiniu_ci_runner.Deployment.Retry.{
  may_requeue, requeued, hour, requeue_row, retry_row, has_evidence,
}
use qiniu_ci_runner.Deployment.Frames.{ok_pair_inj, insert_revision-eq-ok, >>-eq-ok}

-- An operation that fails changes nothing, and one that succeeds leaves what its transaction does.
pub opened-cases :
    {A : Type 0} (db : DeploymentDb) (r : Result (DeploymentDb × A))
    → ((opened db r).0 ≡ db)
      ⊎ ((db' : DeploymentDb) × (a : A) × (r ≡ ok (db', a)) × ((opened db r).0 ≡ db'))
opened-cases db (err e) = elim (Bool-cases db.available) [
  | inl t ↦ inl (simp t)
  | inr f ↦ inl (simp f)
]
opened-cases db (ok (db', a)) = elim (Bool-cases db.available) [
  | inl t ↦ inr (db', a, refl, simp t)
  | inr f ↦ inl (simp f)
]

-- The rows and the revisions after an update.
abbrev updated : Time → Deployment → DeploymentRecord → DeploymentDb → DeploymentDb
updated now d saved db = record db {
  deployments = update_where (at_version d.id d.version) (set_columns now d) db.deployments;
  revisions =
      update_where (at_number saved.id (first_number saved.revision_number)) (follow saved)
        db.revisions;
}

pub update-eq-ok :
    (now : Time) (d : Deployment) (db db' : DeploymentDb) (u : Unit {0})
    → update_row now d db ≡ ok (db', u)
    → (saved : DeploymentRecord) × (db' ≡ updated now d saved db)
unfolding update_row update_current_deployment_revision
update-eq-ok now d db db' u h =
    let rows = update_where (at_version d.id d.version) (set_columns now d) db.deployments in
    elim (Bool-cases (count (at_version d.id d.version) db.deployments == 0)) [
      | inl t ↦ absurd (cc (rw t at h))
      | inr f ↦ elim (Option-cases (find (has_id d.id) rows)) [
        | inl e ↦ absurd (cc (rw (f, e) at h))
        | inr (saved, e) ↦
            elim (Bool-cases
              (count (at_number saved.id (first_number saved.revision_number)) db.revisions == 0)) [
                | inl t ↦ absurd (cc (rw (f, e, t) at h))
                | inr g ↦ (saved, sym (ok_pair_inj (rw (f, e, g) at h)))
              ]
      ]
    ]

-- The rows and the revisions after a retry.
abbrev retried : Time → Time → Deployment → DeploymentRevisionRecord → DeploymentDb → DeploymentDb
retried now expires_at d r db = record db {
  deployments = update_where (may_requeue d) (requeued now expires_at d) db.deployments;
  revisions = db.revisions ++ r ∷ [];
}

requeue-eq-ok :
    (now expires_at : Time) (d : Deployment) (db db' : DeploymentDb) (u : Unit {0})
    → requeue_row now expires_at d db ≡ ok (db', u)
    → (saved : DeploymentRecord) × (r : DeploymentRevisionRecord) × (find
          (has_id d.id)
          (update_where (may_requeue d) (requeued now expires_at d) db.deployments)
        ≡ some saved)
      × (r.deployment_id ≡ saved.id)
      × (r.number ≡ first_number saved.revision_number)
      × (r.event_budget_initialized ≡ false)
      × (count (may_requeue d) db.deployments ≢ 0)
      × (is_found (clashes r) db.revisions ≡ false)
      × (db' ≡ retried now expires_at d r db)
unfolding revision_record_from_deployment
requeue-eq-ok now expires_at d db db' u h =
    let rows = update_where (may_requeue d) (requeued now expires_at d) db.deployments in
    elim (Bool-cases (count (may_requeue d) db.deployments == 0)) [
      | inl t ↦ absurd (cc (rw t at h))
      | inr f ↦ elim (Option-cases (find (has_id d.id) rows)) [
        | inl e ↦ absurd (cc (rw (f, e) at h))
        | inr (saved, e) ↦
            let revision = record (revision_record_from_deployment saved now) {
              sandbox_id = "";
              endpoint = "";
            } in
            let (w, added, h1) =
              >>=-eq-ok (insert_revision revision (record db { deployments = rows })) _
                (rw (f, e) at h) in
            (
              saved,
              revision,
              e,
              refl,
              refl,
              refl,
              λ z. ground (arith, z, f),
              (insert_revision-eq-ok revision (record db { deployments = rows }) w added).0,
              sym (ok_pair_inj h1)
                  ∙ (insert_revision-eq-ok revision (record db { deployments = rows }) w added).1,
            )
      ]
    ]

pub retry-eq-ok :
    (now : Time) (d : Deployment) (until : Time) (db db' : DeploymentDb) (u : Unit {0})
    → retry_row now d until db ≡ ok (db', u)
    → (expires_at : Time) × (saved : DeploymentRecord) × (r : DeploymentRevisionRecord) × (find
          (has_id d.id)
          (update_where (may_requeue d) (requeued now expires_at d) db.deployments)
        ≡ some saved)
      × (r.deployment_id ≡ saved.id)
      × (r.number ≡ first_number saved.revision_number)
      × (r.event_budget_initialized ≡ false)
      × (count (may_requeue d) db.deployments ≢ 0)
      × (is_found (clashes r) db.revisions ≡ false)
      × (db' ≡ retried now expires_at d r db)
unfolding retry_row
retry-eq-ok now d until db db' u h =
    let expires_at = if is_zero until then now + hour else until in
    let (saved, r, found, owner, number, unset, some_row, unused, left) =
      requeue-eq-ok now expires_at d db db' u (
        >>-eq-ok (ensure (is_zero d.expires_at || not (is_zero until)) expiry_required) _ (
          >>-eq-ok (ensure (not (has_evidence d)) conflict) _
            (>>-eq-ok (ensure (is_terminal d.status) retry_not_allowed) _ h))) in
    (expires_at, saved, r, found, owner, number, unset, some_row, unused, left)
