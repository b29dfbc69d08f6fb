-- ===== src/Deployment/Places.antt =====
-- The places of a scope: what the quota check of a creation and of a retry leaves.
use qiniu_ci_runner.Prelude.{
  ℕ, zero, suc, ◌+◌, ◌≤◌, ◌<◌, String, Bool, true, false, not, ◌&&◌, List, [], ◌∷◌, ◌≡◌, ◌⊎◌, refl,
  sym, ap, subst, ◌∙◌, inl, inr, arith, ok, Error, ensure, >>=-eq-ok, quota_exceeded, leb, str_eq,
  str_eq_sound, trim_space, select, length, take, length-select, count, count-append, Bool-cases,
}
use qiniu_ci_runner.Request.Types.{Time}
use qiniu_ci_runner.Deployment.Types.{Deployment, DeploymentRecord}
use qiniu_ci_runner.Deployment.Convert.{record_of}
use qiniu_ci_runner.Deployment.Store.{
  DeploymentDb, lock_deployment_scope, occupies, in_scope, is_other, place_limit,
  check_deployment_quota, create_row,
}
use qiniu_ci_runner.Deployment.Frames.{create-eq-ok}

ensure-eq-ok : (b : Bool) (e : Error) → ensure b e ≡ ok tt → b ≡ true
ensure-eq-ok true e h = refl
ensure-eq-ok false e h = absurd (cc)

take-short : {A : Type 0} (n : ℕ) (xs : List A) → length (take n xs) < n → length xs < n
take-short zero xs h = absurd (omega arith)
take-short (suc n) [] h = omega arith
take-short (suc n) (x ∷ xs) h = ground (arith, take-short n xs)

-- A quota check that succeeds: the scope is known and has a place left.
pub quota-eq-ok :
    (d : Deployment) (max_concurrent : ℕ) (exclude : String) (db : DeploymentDb)
    → check_deployment_quota d max_concurrent exclude db ≡ ok tt
    → (lock_deployment_scope d db ≡ ok tt)
      × (count
            (λ (row : DeploymentRecord).
              occupies d.scope_type d.scope_id row && is_other exclude row)
            db.deployments
          < place_limit max_concurrent)
unfolding check_deployment_quota
quota-eq-ok d max_concurrent exclude db h =
    let places = place_limit max_concurrent in
    let active =
      select
        (λ (row : DeploymentRecord). occupies d.scope_type d.scope_id row && is_other exclude row)
        db.deployments in
    let (u, e, rest) = >>=-eq-ok (lock_deployment_scope d db) _ h in
    let room = ensure-eq-ok (not (leb places (length (take places active)))) quota_exceeded rest in
    let short : length (take places active) < places = ground (arith, room) in
    let few : length active < places = take-short places active short in
    (
      e,
      subst (λ n. n < places)
          (length-select
            (λ (row : DeploymentRecord).
              occupies d.scope_type d.scope_id row && is_other exclude row)
            db.deployments)
          few,
    )

-- The scope type of a known scope has no space around it.
scope-trimmed :
    (d : Deployment) (db : DeploymentDb)
    → lock_deployment_scope d db ≡ ok tt
    → trim_space d.scope_type ≡ d.scope_type
unfolding lock_deployment_scope trim_space
scope-trimmed d db h = elim (Bool-cases (str_eq d.scope_type "account")) [
  | inl t ↦ subst (λ s. trim_space s ≡ s) (sym (str_eq_sound d.scope_type "account" t)) refl
  | inr f ↦ elim (Bool-cases (str_eq d.scope_type "github_installation")) [
    | inl t ↦
        subst (λ s. trim_space s ≡ s) (sym (str_eq_sound d.scope_type "github_installation" t)) refl
    | inr g ↦ absurd (cc (rw (f, g) at h))
  ]
]

in_scope_sound :
    (t : String) (i : ℕ) (row : DeploymentRecord)
    → in_scope t i row ≡ true
    → (row.scope_type ≡ t) × (row.scope_id ≡ i)
in_scope_sound t i row h = ground (arith, str_eq_sound row.scope_type t)

-- The places after a creation, in each scope.
pub created-places :
    (now : Time) (d : Deployment) (places : ℕ) (db db' : DeploymentDb) (c : Deployment) (t : String)
    (i : ℕ)
    → lock_deployment_scope d db ≡ ok tt
    → count (occupies d.scope_type d.scope_id) db.deployments < places
    → create_row now d db ≡ ok (db', c)
    → (count (occupies t i) db'.deployments ≡ count (occupies t i) db.deployments)
      ⊎ (count (occupies t i) db'.deployments ≤ places)
unfolding record_of
created-places now d places db db' c t i known room h =
    let (row, created, place, fresh, unused, left) = create-eq-ok now d db db' c h in
    let more : count (occupies t i) db'.deployments
        ≡ count (occupies t i) db.deployments + count (occupies t i) (row ∷ []) =
      ap (λ (x : DeploymentDb). count (occupies t i) x.deployments) left
      ∙ count-append (occupies t i) db.deployments (row ∷ []) in
    elim (Bool-cases (occupies t i row)) [
      | inl e ↦
          let (a, b) = in_scope_sound t i row (ground (arith, e)) in
          let same_type : t ≡ d.scope_type = sym a ∙ place.scope_type ∙ scope-trimmed d db known in
          let same_id : i ≡ d.scope_id = sym b ∙ place.scope_id in
          let room2 : count (occupies t i) db.deployments < places =
            subst (λ x. count (occupies x i) db.deployments < places) (sym same_type)
              (subst (λ x. count (occupies d.scope_type x) db.deployments < places) (sym same_id)
                room) in
          let one : count (occupies t i) (row ∷ []) ≡ 1 = simp (e) in inr (omega arith)
      | inr f ↦ let none_more : count (occupies t i) (row ∷ []) ≡ 0 = simp (f) in inl (omega arith)
    ]
