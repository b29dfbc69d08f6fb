-- ===== src/Deployment/Kept.antt =====
-- Creations and updates keep the tables sound.
use qiniu_ci_runner.Prelude.{
  ◌≤◌, Bool, true, false, List, [], ◌∷◌, ◌++◌, ◌≡◌, refl, sym, ap, subst, ◌∙◌, arith, ok,
  if◌then◌else◌, update_where, All, All-map, All-append,
}
use qiniu_ci_runner.Request.Types.{Time}
use qiniu_ci_runner.Prelude.Table.{IsFresh, KeepsKey, update-IsKeyed, append-IsKeyed, In-unique}
use qiniu_ci_runner.Prelude.Table
use qiniu_ci_runner.Prelude.Rows.{All-update, In-last, update-In}
use qiniu_ci_runner.Deployment.Types.{Deployment, DeploymentRecord, DeploymentRevisionRecord}
use qiniu_ci_runner.Deployment.Convert.{first_number, record_of, revision_record_from_deployment}
use qiniu_ci_runner.Deployment.Store.{DeploymentDb, at_number, create_row}
use qiniu_ci_runner.Deployment.Writing.{set_columns, follow, at_version, update_row}
use qiniu_ci_runner.Deployment.Frames.{create-eq-ok}
use qiniu_ci_runner.Deployment.Changes.{update-eq-ok}
use qiniu_ci_runner.Deployment.Sound.{
  same_id, same_slot, HasCurrent, HasOwner, IsSound, same_id-swap, same_slot-swap, at_number_self,
  unfound-IsFresh, unclashed-IsFresh, current-append, owned-append, slots-update, current-update,
  owned-update,
}

revision-place :
    (row : DeploymentRecord) (created : Time)
    → ((revision_record_from_deployment row created).deployment_id ≡ row.id)
      × ((revision_record_from_deployment row created).number ≡ first_number row.revision_number)
unfolding revision_record_from_deployment
revision-place row created = (refl, refl)

pub own_revision :
    (d : DeploymentRecord) (r : DeploymentRevisionRecord)
    → r.deployment_id ≡ d.id
    → r.number ≡ first_number d.revision_number
    → at_number d.id (first_number d.revision_number) r ≡ true
own_revision d r h g =
    subst (λ x. at_number x (first_number d.revision_number) r ≡ true) h
      (subst (λ x. at_number r.deployment_id x r ≡ true) g (at_number_self r))

pub create_row-IsSound :
    (now : Time) (d : Deployment) (db db' : DeploymentDb) (c : Deployment)
    → create_row now d db ≡ ok (db', c)
    → IsSound db
    → IsSound db'
unfolding record_of
create_row-IsSound now d db db' c h s =
    let (row, created, place, fresh, unused, left) = create-eq-ok now d db db' c h in
    let r = revision_record_from_deployment row created in
    let (dep, num) = revision-place row created in
    let first : row.revision_number ≡ 1 = place.revision_number in
    subst IsSound (sym left) (record {
      ids =
          append-IsKeyed same_id same_id-swap db.deployments row s.ids
            (unfound-IsFresh row db.deployments fresh);
      slots =
          append-IsKeyed same_slot same_slot-swap db.revisions r s.slots
            (unclashed-IsFresh r db.revisions unused);
      current =
          All-append (HasCurrent (db.revisions ++ r ∷ [])) db.deployments (row ∷ [])
            (current-append db.revisions (r ∷ []) db.deployments s.current)
            ((r, In-last db.revisions r, own_revision row r dep num), tt);
      owned =
          All-append (HasOwner (db.deployments ++ row ∷ [])) db.revisions (r ∷ [])
            (owned-append db.deployments (row ∷ []) db.revisions s.owned)
            ((row, In-last db.deployments row, dep, (omega (arith, num))), tt);
    })

-- A row that is written keeps its id and its revision number.
module _ (f : DeploymentRecord → DeploymentRecord)
    (ids : (d : DeploymentRecord) → (f d).id ≡ d.id) where
  pub ids-update :
      (p : DeploymentRecord → Bool) (rows : List DeploymentRecord)
      → Table.IsKeyed same_id rows
      → Table.IsKeyed same_id (update_where p f rows)
  ids-update p rows h =
      update-IsKeyed same_id p f
        (record { left = λ a b. ground (arith, ids a); right = λ a b. ground (arith, ids b) }) rows
        h

-- An update of rows that leaves their current revision alone.
module _ (f : DeploymentRecord → DeploymentRecord) (ids : (d : DeploymentRecord) → (f d).id ≡ d.id)
    (numbers : (d : DeploymentRecord) → (f d).revision_number ≡ d.revision_number) where
  kept_id : (b : Bool) (d : DeploymentRecord) → (if b then f d else d).id ≡ d.id
  kept_id true d = ids d
  kept_id false d = refl

  kept_number :
      (b : Bool) (d : DeploymentRecord) → (if b then f d else d).revision_number ≡ d.revision_number
  kept_number true d = numbers d
  kept_number false d = refl

  pub rows-current :
      (p : DeploymentRecord → Bool) (rs : List DeploymentRevisionRecord)
      (rows : List DeploymentRecord)
      → All (HasCurrent rs) rows
      → All (HasCurrent rs) (update_where p f rows)
  rows-current p rs rows = All-update (HasCurrent rs) (HasCurrent rs) p f rows (λ d m h.
      let (r, n, e) = h in
      (
        r,
        n,
        ap (λ x. at_number x (first_number (if p d then f d else d).revision_number) r)
              (kept_id (p d) d)
            ∙ ap (λ x. at_number d.id (first_number x) r) (kept_number (p d) d)
            ∙ e,
      ))

  pub rows-owned :
      (p : DeploymentRecord → Bool) (rows : List DeploymentRecord)
      (rs : List DeploymentRevisionRecord)
      → All (HasOwner rows) rs
      → All (HasOwner (update_where p f rows)) rs
  rows-owned p rows = All-map (HasOwner rows) (HasOwner (update_where p f rows)) (λ r h.
      let (d, m, e, k) = h in
      (
        if p d then f d else d,
        update-In p f rows d m,
        e ∙ sym (kept_id (p d) d),
        subst (λ x. r.number ≤ first_number x) (sym (kept_number (p d) d)) k,
      ))

pub set_columns-place :
    (now : Time) (d : Deployment) (row : DeploymentRecord)
    → ((set_columns now d row).id ≡ row.id)
      × ((set_columns now d row).revision_number ≡ row.revision_number)
unfolding set_columns
set_columns-place now d row = (refl, refl)

follow-place :
    (d : DeploymentRecord) (r : DeploymentRevisionRecord)
    → ((follow d r).deployment_id ≡ r.deployment_id) × ((follow d r).number ≡ r.number)
unfolding follow
follow-place d r = (refl, refl)

pub update_row-IsSound :
    (now : Time) (d : Deployment) (db db' : DeploymentDb) (u : Unit {0})
    → update_row now d db ≡ ok (db', u)
    → IsSound db
    → IsSound db'
update_row-IsSound now d db db' u h s =
    let (saved, left) = update-eq-ok now d db db' u h in
    let p = at_version d.id d.version in
    let q = at_number saved.id (first_number saved.revision_number) in
    let f = set_columns now d in
    let g = follow saved in
    let ids = λ (x : DeploymentRecord). (set_columns-place now d x).0 in
    let numbers = λ (x : DeploymentRecord). (set_columns-place now d x).1 in
    let owners = λ (x : DeploymentRevisionRecord). (follow-place saved x).0 in
    let slots = λ (x : DeploymentRevisionRecord). (follow-place saved x).1 in
    subst IsSound (sym left) (record {
      ids = ids-update f ids p db.deployments s.ids;
      slots = slots-update g owners slots q db.revisions s.slots;
      current =
          rows-current f ids numbers p (update_where q g db.revisions) db.deployments
            (current-update g owners slots q db.revisions db.deployments s.current);
      owned =
          owned-update g owners slots q db.revisions (update_where p f db.deployments)
            (rows-owned f ids numbers p db.deployments db.revisions s.owned);
    })
