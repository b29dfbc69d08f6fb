-- ===== src/Deployment/Sound.antt =====
-- What holds of the tables of deployments and revisions together.
use qiniu_ci_runner.Prelude.{
  ℕ, ◌≤◌, String, Bool, true, false, ◌&&◌, List, [], ◌∷◌, ◌++◌, ◌≡◌, refl, sym, ap, subst, ◌∙◌,
  arith, eq_iff, ◌==◌, str_eq, if◌then◌else◌, update_where, In, All, All-map,
}
use qiniu_ci_runner.Prelude.Table.{IsFresh, KeepsKey, update-IsKeyed, append-IsKeyed, In-unique}
use qiniu_ci_runner.Prelude.Table
use qiniu_ci_runner.Prelude.Rows.{All-update, In-append, update-In}
use qiniu_ci_runner.Deployment.Types.{DeploymentRecord, DeploymentRevisionRecord}
use qiniu_ci_runner.Deployment.Convert.{first_number}
use qiniu_ci_runner.Deployment.Store.{DeploymentDb, has_id, at_number, is_found, clashes}

abbrev pub same_id : DeploymentRecord → DeploymentRecord → Bool
same_id a b = has_id a.id b

abbrev pub same_slot : DeploymentRevisionRecord → DeploymentRevisionRecord → Bool
same_slot a b = at_number a.deployment_id a.number b

-- The revision that a deployment is at stands in the table.
abbrev pub HasCurrent : List DeploymentRevisionRecord → DeploymentRecord → Type 0
HasCurrent revisions d =
    (r : DeploymentRevisionRecord) × In r revisions
    × (at_number d.id (first_number d.revision_number) r ≡ true)

-- A revision is of a deployment, which is at that revision or past it.
abbrev pub HasOwner : List DeploymentRecord → DeploymentRevisionRecord → Type 0
HasOwner rows r =
    (d : DeploymentRecord) × In d rows
    × (r.deployment_id ≡ d.id)
    × (r.number ≤ first_number d.revision_number)

pub record IsSound (db : DeploymentDb) : Type 0 where
  pub ids : Table.IsKeyed same_id db.deployments
  pub slots : Table.IsKeyed same_slot db.revisions
  pub current : All (HasCurrent db.revisions) db.deployments
  pub owned : All (HasOwner db.deployments) db.revisions

pub same_id-swap : (a b : DeploymentRecord) → same_id a b ≡ same_id b a
same_id-swap a b = ground (arith, eq_iff a.id b.id, eq_iff b.id a.id)

pub same_id_self : (a : DeploymentRecord) → same_id a a ≡ true
same_id_self a = (eq_iff a.id a.id).1 refl

pub same_slot-swap : (a b : DeploymentRevisionRecord) → same_slot a b ≡ same_slot b a
same_slot-swap a b =
    ground (arith, eq_iff a.deployment_id b.deployment_id, eq_iff b.deployment_id a.deployment_id)

pub at_number_self : (r : DeploymentRevisionRecord) → at_number r.deployment_id r.number r ≡ true
at_number_self r = ground (arith, eq_iff r.deployment_id r.deployment_id)

pub unfound-IsFresh :
    (row : DeploymentRecord) (rows : List DeploymentRecord)
    → is_found (has_id row.id) rows ≡ false
    → IsFresh same_id row rows
unfound-IsFresh row [] h = tt
unfound-IsFresh row (x ∷ xs) h = (ground arith, unfound-IsFresh row xs (ground arith))

pub unclashed-IsFresh :
    (r : DeploymentRevisionRecord) (rs : List DeploymentRevisionRecord)
    → is_found (clashes r) rs ≡ false
    → IsFresh same_slot r rs
unclashed-IsFresh r [] h = tt
unclashed-IsFresh r (x ∷ xs) h = (ground arith, unclashed-IsFresh r xs (ground arith))

-- More revisions, more rows.
pub current-append :
    (rs more : List DeploymentRevisionRecord) (rows : List DeploymentRecord)
    → All (HasCurrent rs) rows
    → All (HasCurrent (rs ++ more)) rows
current-append rs more =
    All-map (HasCurrent rs) (HasCurrent (rs ++ more))
      (λ d h. let (r, m, e) = h in (r, In-append rs more r m, e))

pub owned-append :
    (rows more : List DeploymentRecord) (rs : List DeploymentRevisionRecord)
    → All (HasOwner rows) rs
    → All (HasOwner (rows ++ more)) rs
owned-append rows more =
    All-map (HasOwner rows) (HasOwner (rows ++ more))
      (λ r h. let (d, m, e, n) = h in (d, In-append rows more d m, e, n))

at_number-same_place :
    (id : String) (n : ℕ) (a b : DeploymentRevisionRecord)
    → a.deployment_id ≡ b.deployment_id
    → a.number ≡ b.number
    → at_number id n a ≡ at_number id n b
at_number-same_place id n a b h g =
    ap (λ s. str_eq s id && (a.number == n)) h ∙ ap (λ m. str_eq b.deployment_id id && (m == n)) g

-- An update of revisions that leaves their place alone.
module _ (f : DeploymentRevisionRecord → DeploymentRevisionRecord)
    (ids : (r : DeploymentRevisionRecord) → (f r).deployment_id ≡ r.deployment_id)
    (numbers : (r : DeploymentRevisionRecord) → (f r).number ≡ r.number) where
  kept_id :
      (b : Bool) (r : DeploymentRevisionRecord)
      → (if b then f r else r).deployment_id ≡ r.deployment_id
  kept_id true r = ids r
  kept_id false r = refl

  kept_number : (b : Bool) (r : DeploymentRevisionRecord) → (if b then f r else r).number ≡ r.number
  kept_number true r = numbers r
  kept_number false r = refl

  pub slots-update :
      (p : DeploymentRevisionRecord → Bool) (rs : List DeploymentRevisionRecord)
      → Table.IsKeyed same_slot rs
      → Table.IsKeyed same_slot (update_where p f rs)
  slots-update p rs h =
      update-IsKeyed same_slot p f
        (record {
          left = λ a b. ground (arith, ids a, numbers a);
          right = λ a b. ground (arith, ids b, numbers b);
        })
        rs h

  pub current-update :
      (p : DeploymentRevisionRecord → Bool) (rs : List DeploymentRevisionRecord)
      (rows : List DeploymentRecord)
      → All (HasCurrent rs) rows
      → All (HasCurrent (update_where p f rs)) rows
  current-update p rs = All-map (HasCurrent rs) (HasCurrent (update_where p f rs)) (λ d h.
      let (r, m, e) = h in
      (
        if p r then f r else r,
        update-In p f rs r m,
        at_number-same_place d.id (first_number d.revision_number) (if p r then f r else r) r
              (kept_id (p r) r) (kept_number (p r) r)
            ∙ e,
      ))

  pub owned-update :
      (p : DeploymentRevisionRecord → Bool) (rs : List DeploymentRevisionRecord)
      (rows : List DeploymentRecord)
      → All (HasOwner rows) rs
      → All (HasOwner rows) (update_where p f rs)
  owned-update p rs rows = All-update (HasOwner rows) (HasOwner rows) p f rs (λ r m h.
      let (d, n, e, k) = h in
      (
        d,
        n,
        kept_id (p r) r ∙ e,
        (subst (λ x. x ≤ first_number d.revision_number) (sym (kept_number (p r) r)) k),
      ))
