-- ===== src/Deployment/Frames.antt =====
-- What a successful operation on deployments leaves.
use qiniu_ci_runner.Prelude.{
  false, [], ◌∷◌, ◌++◌, ◌≡◌, refl, sym, ap, subst, ◌∙◌, inl, inr, Result, ok, err, ◌>>◌, >>=-eq-ok,
  Bool-cases,
}
use qiniu_ci_runner.Request.Types.{Time}
use qiniu_ci_runner.Deployment.Types.{
  Status, Deployment, DeploymentRecord, DeploymentRevisionRecord, queued,
}
use qiniu_ci_runner.Deployment.Convert.{
  stamp, apply_deployment_timestamps, record_of, revision_record_from_deployment, stamp,
}
use qiniu_ci_runner.Deployment.Normalize.{normalize_deployment, check_deployment, normal_form}
use qiniu_ci_runner.Deployment.Store.{
  DeploymentDb, insert_deployment, insert_revision, new_record, completed_with, create_row, has_id,
  is_found, clashes,
}

pub >>-eq-ok :
    {B : Type 0} (m : Result (Unit {0})) (k : Result B) {b : B} → (m >> k) ≡ ok b → k ≡ ok b
>>-eq-ok (ok u) k h = h
>>-eq-ok (err e) k h = cc

pub normalize-eq-ok : (d n : Deployment) → normalize_deployment d ≡ ok n → n ≡ normal_form d
unfolding normalize_deployment
normalize-eq-ok d n h =
    let same : ok (normal_form d) ≡ ok n =
      >>-eq-ok (check_deployment (normal_form d)) (ok (normal_form d)) h in
    cc

-- What the quota and the revisions read of a row.
pub record SamePlace (row old : DeploymentRecord) : Type 0 where
  pub id : row.id ≡ old.id
  pub scope_type : row.scope_type ≡ old.scope_type
  pub scope_id : row.scope_id ≡ old.scope_id
  pub revision_number : row.revision_number ≡ old.revision_number

stamp-SamePlace :
    (s : Status) (row : DeploymentRecord) (now : Time) → SamePlace (stamp s row now) row
stamp-SamePlace queued row now = record {
  id = refl;
  scope_type = refl;
  scope_id = refl;
  revision_number = refl;
}
stamp-SamePlace _ row now = record {
  id = refl;
  scope_type = refl;
  scope_id = refl;
  revision_number = refl;
}

abbrev new_of : Time → Deployment → DeploymentRecord
new_of now d = new_record now (normal_form (record d { revision_number = 1 }))

new-SamePlace :
    (now : Time) (d : Deployment) → SamePlace (new_record now d) (record_of (completed_with now d))
unfolding new_record apply_deployment_timestamps record_of
new-SamePlace now d =
    stamp-SamePlace (completed_with now d).status (record_of (completed_with now d)) now

insert-eq-ok :
    (row : DeploymentRecord) (db db' : DeploymentDb)
    → insert_deployment row db ≡ ok db'
    → (is_found (has_id row.id) db.deployments ≡ false)
      × (db' ≡ record db { deployments = db.deployments ++ row ∷ [] })
unfolding insert_deployment
insert-eq-ok row db db' h = elim (Bool-cases (is_found (has_id row.id) db.deployments)) [
  | inl t ↦ absurd (cc (rw t at h))
  | inr f ↦
      let same : ok (record db { deployments = db.deployments ++ row ∷ [] }) ≡ ok db' = rw f at h in
      (f, cc)
]

pub insert_revision-eq-ok :
    (r : DeploymentRevisionRecord) (db db' : DeploymentDb)
    → insert_revision r db ≡ ok db'
    → (is_found (clashes r) db.revisions ≡ false)
      × (db' ≡ record db { revisions = db.revisions ++ r ∷ [] })
unfolding insert_revision
insert_revision-eq-ok r db db' h = elim (Bool-cases (is_found (clashes r) db.revisions)) [
  | inl t ↦ absurd (cc (rw t at h))
  | inr f ↦
      let same : ok (record db { revisions = db.revisions ++ r ∷ [] }) ≡ ok db' = rw f at h in
      (f, cc)
]

pub ok_pair_inj :
    {A B : Type 0} {a a' : A} {b b' : B}
    → ◌≡◌ {A = Result (A × B)} (ok (a, b)) (ok (a', b'))
    → a ≡ a'
ok_pair_inj h = cc

-- A creation that succeeds appends one row and its revision.
pub create-eq-ok :
    (now : Time) (d : Deployment) (db db' : DeploymentDb) (c : Deployment)
    → create_row now d db ≡ ok (db', c)
    → (row : DeploymentRecord) × (created : Time) × (SamePlace row
        (record_of (normal_form (record d { revision_number = 1 }))))
      × (is_found (has_id row.id) db.deployments ≡ false)
      × (is_found (clashes (revision_record_from_deployment row created)) db.revisions ≡ false)
      × (db' ≡ record db {
        deployments = db.deployments ++ row ∷ [];
        revisions = db.revisions ++ revision_record_from_deployment row created ∷ [];
      })
unfolding create_row record_of
create-eq-ok now d db db' c h =
    let (n, normal, h1) = >>=-eq-ok (normalize_deployment (record d { revision_number = 1 })) _ h in
    let same = normalize-eq-ok (record d { revision_number = 1 }) n normal in
    let row = new_record now n in
    let revision = revision_record_from_deployment row row.created_at in
    let (with_row, inserted, h2) = >>=-eq-ok (insert_deployment row db) _ h1 in
    let (fresh, made) = insert-eq-ok row db with_row inserted in
    let (with_revision, added, h3) = >>=-eq-ok (insert_revision revision with_row) _ h2 in
    let (unused, left) = insert_revision-eq-ok revision with_row with_revision added in
    let place = new-SamePlace now n in
    (
      row,
      row.created_at,
      record {
        id = place.id ∙ ap (λ (m : Deployment). m.id) same;
        scope_type = place.scope_type ∙ ap (λ (m : Deployment). m.scope_type) same;
        scope_id = place.scope_id ∙ ap (λ (m : Deployment). m.scope_id) same;
        revision_number = place.revision_number ∙ ap (λ (m : Deployment). m.revision_number) same;
      },
      fresh,
      subst (λ (w : DeploymentDb). is_found (clashes revision) w.revisions ≡ false) made unused,
      sym (ok_pair_inj h3)
          ∙ left
          ∙ ap (λ (w : DeploymentDb). record w { revisions = w.revisions ++ revision ∷ [] }) made,
    )
