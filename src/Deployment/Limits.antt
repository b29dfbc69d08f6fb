-- ===== src/Deployment/Limits.antt =====
-- The limit on the deployments of a scope: creations and retries stay within it.
use qiniu_ci_runner.Prelude.{
  ℕ, zero, suc, ◌+◌, ◌≤◌, ◌<◌, String, true, false, not, ◌&&◌, List, [], ◌∷◌, ◌≡◌, ◌⊎◌, refl, sym,
  ap, subst, ◌∙◌, inl, inr, arith, eq_iff, ok, err, ◌>>◌, >>=-eq-ok, quota_exceeded, leb, ltb,
  if◌then◌else◌, select, length, take, length-select, count, count-same, update_where, Bool-cases,
}
use qiniu_ci_runner.Request.Types.{Time}
use qiniu_ci_runner.Prelude.Table.{IsFresh}
use qiniu_ci_runner.Prelude.Table
use qiniu_ci_runner.Deployment.Types.{Deployment, DeploymentRecord}
use qiniu_ci_runner.Deployment.Store.{
  DeploymentDb, has_id, lock_deployment_scope, occupies, is_other, place_limit,
  check_deployment_quota, create_row, create_deployment, create_deployment_with_scope_limit,
}
use qiniu_ci_runner.Deployment.Retry.{
  may_requeue, requeued, retry_row, retry_deployment_with_scope_limit,
}
use qiniu_ci_runner.Deployment.Changes.{opened-cases, retry-eq-ok}
use qiniu_ci_runner.Deployment.Sound.{IsSound, same_id}
use qiniu_ci_runner.Deployment.Places.{quota-eq-ok, created-places}

all_others :
    (t : String) (i : ℕ) (rows : List DeploymentRecord)
    → count (λ (row : DeploymentRecord). occupies t i row && is_other "" row) rows
      ≡ count (occupies t i) rows
all_others t i rows =
    count-same (λ (row : DeploymentRecord). occupies t i row && is_other "" row) (occupies t i) rows
      (λ row. ground arith)

take-le : {A : Type 0} (n : ℕ) (xs : List A) → length (take n xs) ≤ length xs
take-le zero xs = omega arith
take-le (suc n) [] = omega arith
take-le (suc n) (x ∷ xs) = ground (arith, take-le n xs)

take-full : {A : Type 0} (n : ℕ) (xs : List A) → n ≤ length xs → length (take n xs) ≡ n
take-full zero xs h = refl
take-full (suc n) [] h = absurd (omega arith)
take-full (suc n) (x ∷ xs) h = ap suc (take-full n xs (omega arith))

has_room :
    (places n : ℕ) (rows : List DeploymentRecord)
    → length rows ≡ n
    → ltb n places ≡ true
    → not (leb places (length (take places rows))) ≡ true
has_room places n rows e h = ground (arith, take-le places rows)

no_room :
    (places n : ℕ) (rows : List DeploymentRecord)
    → length rows ≡ n
    → ltb n places ≡ false
    → not (leb places (length (take places rows))) ≡ false
no_room places n rows e h = ground (arith, take-full places rows)

-- Whether it succeeds or not, a creation with a limit leaves each scope as occupied as it was, or
-- within the limit.
pub create_deployment_with_scope_limit_bounded :
    (now : Time) (d : Deployment) (max_concurrent : ℕ) (db : DeploymentDb) (t : String) (i : ℕ)
    → let rows = (create_deployment_with_scope_limit now d max_concurrent db).0.deployments in
      (count (occupies t i) rows ≡ count (occupies t i) db.deployments)
      ⊎ (count (occupies t i) rows ≤ place_limit max_concurrent)
unfolding create_deployment_with_scope_limit
create_deployment_with_scope_limit_bounded now d max_concurrent db t i =
    let check = check_deployment_quota d max_concurrent "" db in
    elim (opened-cases db (check >> create_row now d db)) [
      | inl e ↦ inl (ap (λ (x : DeploymentDb). count (occupies t i) x.deployments) e)
      | inr w ↦
          let (db', c, run, left) = w in
          let (_, checked, made) = >>=-eq-ok check (λ _. create_row now d db) run in
          let (known, few) = quota-eq-ok d max_concurrent "" db checked in
          let room : count (occupies d.scope_type d.scope_id) db.deployments
              < place_limit max_concurrent =
            subst (λ n. n < place_limit max_concurrent)
              (all_others d.scope_type d.scope_id db.deployments) few in
          subst
            (λ (x : DeploymentDb).
              (count (occupies t i) x.deployments ≡ count (occupies t i) db.deployments)
              ⊎ (count (occupies t i) x.deployments ≤ place_limit max_concurrent))
            (sym left)
            (created-places now d (place_limit max_concurrent) db db' c t i known room made)
    ]

-- In a known scope a creation with a limit is the creation without one while a place is left, and
-- else it ends in the quota's error and changes nothing.
pub create_deployment_with_scope_limit_outcome :
    (now : Time) (d : Deployment) (max_concurrent : ℕ) (db : DeploymentDb)
    → db.available ≡ true
    → lock_deployment_scope d db ≡ ok tt
    → create_deployment_with_scope_limit now d max_concurrent db ≡ (
        if ltb
          (count (occupies d.scope_type d.scope_id) db.deployments)
          (place_limit max_concurrent)
        then create_deployment now d db
        else (db, err quota_exceeded))
unfolding create_deployment_with_scope_limit create_deployment check_deployment_quota
create_deployment_with_scope_limit_outcome now d max_concurrent db ready known =
    let p = λ (row : DeploymentRecord). occupies d.scope_type d.scope_id row && is_other "" row in
    let places = place_limit max_concurrent in
    let sel = select p db.deployments in
    let size = length-select p db.deployments ∙ all_others d.scope_type d.scope_id db.deployments in
    elim (Bool-cases (ltb (count (occupies d.scope_type d.scope_id) db.deployments) places)) [
      | inl t ↦
          let room : not (leb places (length (take places sel))) ≡ true =
            has_room places (count (occupies d.scope_type d.scope_id) db.deployments) sel size t in
          simp (ready, known, room, t)
      | inr f ↦
          let full : not (leb places (length (take places sel))) ≡ false =
            no_room places (count (occupies d.scope_type d.scope_id) db.deployments) sel size f in
          simp (ready, known, full, f)
    ]

requeued-counts :
    (now expires_at : Time) (d : Deployment) (t : String) (i : ℕ) (rows : List DeploymentRecord)
    → count (occupies t i) (update_where (may_requeue d) (requeued now expires_at d) rows)
      ≤ count (λ (row : DeploymentRecord). occupies t i row && is_other d.id row) rows
        + count (has_id d.id) rows
requeued-counts now expires_at d t i [] = omega arith
requeued-counts now expires_at d t i (row ∷ rows) =
    let rest = requeued-counts now expires_at d t i rows in
    elim (Bool-cases (may_requeue d row)) [
      | inl m ↦
          rw m (let own : has_id d.id row ≡ true = ground (arith, m) in ground (arith, rest, own))
      | inr m ↦ rw m (ground (arith, rest))
    ]

fresh-none :
    (d : Deployment) (a : DeploymentRecord) (rows : List DeploymentRecord)
    → IsFresh same_id a rows
    → has_id d.id a ≡ true
    → count (has_id d.id) rows ≡ 0
fresh-none d a [] h e = refl
fresh-none d a (x ∷ rows) h e =
    ground
      (arith, h.0, eq_iff a.id d.id, eq_iff x.id d.id, eq_iff x.id a.id, fresh-none d a rows h.1 e)

keyed-one :
    (d : Deployment) (rows : List DeploymentRecord)
    → Table.IsKeyed same_id rows
    → count (has_id d.id) rows ≤ 1
keyed-one d [] h = omega arith
keyed-one d (x ∷ rows) h = ground (arith, keyed-one d rows h.1, fresh-none d x rows h.0)

-- Where ids are distinct, a retry with a limit that changes anything leaves its scope within the limit.
pub retry_deployment_with_scope_limit_bounded :
    (now : Time) (d : Deployment) (until : Time) (max_concurrent : ℕ) (db : DeploymentDb)
    → IsSound db
    → let db' = (retry_deployment_with_scope_limit now d until max_concurrent db).0 in
      (db' ≡ db)
      ⊎ (count (occupies d.scope_type d.scope_id) db'.deployments ≤ place_limit max_concurrent)
unfolding retry_deployment_with_scope_limit
retry_deployment_with_scope_limit_bounded now d until max_concurrent db s =
    let check = check_deployment_quota d max_concurrent d.id db in
    elim (opened-cases db (check >> retry_row now d until db)) [
      | inl e ↦ inl e
      | inr w ↦
          let (db', u, run, left) = w in
          let (_, checked, made) = >>=-eq-ok check (λ _. retry_row now d until db) run in
          let few = (quota-eq-ok d max_concurrent d.id db checked).1 in
          let (expires_at, saved, r, found, owner, number, no_counters, some_row, unused, after) =
            retry-eq-ok now d until db db' u made in
          let bound = requeued-counts now expires_at d d.scope_type d.scope_id db.deployments in
          let one = keyed-one d db.deployments s.ids in
          let same =
            ap (λ (x : DeploymentDb). count (occupies d.scope_type d.scope_id) x.deployments)
              (left ∙ after) in
          inr (omega (arith, few, bound, one, same))
    ]
