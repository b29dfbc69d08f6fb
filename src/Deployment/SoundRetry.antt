-- ===== src/Deployment/SoundRetry.antt =====
-- A retry keeps the tables of deployments and revisions sound.
use qiniu_ci_runner.Prelude.{
  ℕ, zero, suc, ◌+◌, ◌≤◌, String, Bool, true, false, List, [], ◌∷◌, ◌++◌, ◌≡◌, refl, sym, ap, subst,
  ◌∙◌, inl, inr, arith, some, ok, str_eq, str_eq_sound, str_eq_complete, if◌then◌else◌, find,
  find_sound, update_where, In, All, All-map, All-append, Bool-cases,
}
use qiniu_ci_runner.Request.Types.{Time}
use qiniu_ci_runner.Prelude.Table.{append-IsKeyed, In-unique}
use qiniu_ci_runner.Prelude.Table
use qiniu_ci_runner.Prelude.Rows.{All-update, In-append, In-last, update-In}
use qiniu_ci_runner.Deployment.Types.{Deployment, DeploymentRecord, DeploymentRevisionRecord}
use qiniu_ci_runner.Deployment.Convert.{first_number}
use qiniu_ci_runner.Deployment.Store.{DeploymentDb, has_id}
use qiniu_ci_runner.Deployment.Retry.{requeued, may_requeue, retry_row}
use qiniu_ci_runner.Deployment.Changes.{retry-eq-ok}
use qiniu_ci_runner.Deployment.Sound.{
  same_id, same_slot, HasCurrent, HasOwner, IsSound, same_id-swap, same_slot-swap,
  unclashed-IsFresh,
}
use qiniu_ci_runner.Deployment.Kept.{own_revision, ids-update}

requeued-place :
    (now expires_at : Time) (d : Deployment) (row : DeploymentRecord)
    → ((requeued now expires_at d row).id ≡ row.id)
      × ((requeued now expires_at d row).revision_number ≡ row.revision_number + 1)
unfolding requeued
requeued-place now expires_at d row = (refl, refl)

first_number_mono : (m n : ℕ) → m ≤ n → first_number m ≤ first_number n
first_number_mono zero zero h = omega arith
first_number_mono zero (suc n) h = omega arith
first_number_mono (suc m) zero h = absurd (omega arith)
first_number_mono (suc m) (suc n) h = h

row-kept :
    (now expires_at : Time) (d : Deployment) (b : Bool) (row : DeploymentRecord)
    → (if b then requeued now expires_at d row else row).id ≡ row.id
row-kept now expires_at d true row = (requeued-place now expires_at d row).0
row-kept now expires_at d false row = refl

row-later :
    (now expires_at : Time) (d : Deployment) (b : Bool) (row : DeploymentRecord)
    → first_number row.revision_number
      ≤ first_number (if b then requeued now expires_at d row else row).revision_number
row-later now expires_at d true row =
    first_number_mono row.revision_number (requeued now expires_at d row).revision_number
      (omega (arith, (requeued-place now expires_at d row).1))
row-later now expires_at d false row = omega arith

may_requeue-has_id :
    (d : Deployment) (row : DeploymentRecord) → may_requeue d row ≡ true → has_id d.id row ≡ true
may_requeue-has_id d row h = ground (arith, h)

same_id-both :
    (id : String) (a b : DeploymentRecord)
    → has_id id a ≡ true
    → has_id id b ≡ true
    → same_id a b ≡ true
same_id-both id a b h g =
    str_eq_complete b.id a.id (str_eq_sound b.id id g ∙ sym (str_eq_sound a.id id h))

-- The row that a retry writes is the one that it reads back.
module _ (now expires_at : Time) (d : Deployment) (rows : List DeploymentRecord)
    (saved : DeploymentRecord)
    (found : find (has_id d.id) (update_where (may_requeue d) (requeued now expires_at d) rows)
      ≡ some saved) where
  saved_unique :
      Table.IsKeyed same_id rows
      → (row : DeploymentRecord) → In row rows
      → may_requeue d row ≡ true
      → saved ≡ requeued now expires_at d row
  saved_unique k row m h =
      let f = requeued now expires_at d in
      let p = may_requeue d in
      let (n, e) = find_sound (has_id d.id) (update_where p f rows) saved found in
      let ids = λ (x : DeploymentRecord). (requeued-place now expires_at d x).0 in
      let written : In (f row) (update_where p f rows) =
        subst (λ b. In (if b then f row else row) (update_where p f rows)) h
          (update-In p f rows row m) in
      In-unique same_id same_id-swap (update_where p f rows) saved (f row)
        (ids-update f ids p rows k) n written
        (same_id-both d.id saved (f row) e (
          ap (λ x. str_eq x d.id) (requeued-place now expires_at d row).0
          ∙ may_requeue-has_id d row h))

  retried-current :
      Table.IsKeyed same_id rows
      → (rs : List DeploymentRevisionRecord) (r : DeploymentRevisionRecord)
      → r.deployment_id ≡ saved.id
      → r.number ≡ first_number saved.revision_number
      → All (HasCurrent rs) rows
      → All
          (HasCurrent (rs ++ r ∷ []))
          (update_where (may_requeue d) (requeued now expires_at d) rows)
  retried-current k rs r h g =
      All-update (HasCurrent rs) (HasCurrent (rs ++ r ∷ [])) (may_requeue d)
        (requeued now expires_at d) rows
        (λ row m c. elim (Bool-cases (may_requeue d row)) [
          | inl t ↦ rw t (
              subst (HasCurrent (rs ++ r ∷ [])) (saved_unique k row m t)
                (r, In-last rs r, own_revision saved r h g))
          | inr e ↦ let (q, n, x) = c in rw e (q, In-append rs (r ∷ []) q n, x)
        ])

  retried-owned :
      (rs : List DeploymentRevisionRecord) (r : DeploymentRevisionRecord)
      → r.deployment_id ≡ saved.id
      → r.number ≡ first_number saved.revision_number
      → All (HasOwner rows) rs
      → All
          (HasOwner (update_where (may_requeue d) (requeued now expires_at d) rows))
          (rs ++ r ∷ [])
  retried-owned rs r h g o =
      let f = requeued now expires_at d in
      let p = may_requeue d in
      let after = update_where p f rows in
      All-append (HasOwner after) rs (r ∷ [])
        (All-map (HasOwner rows) (HasOwner after)
          (λ q c.
            let (row, m, e, n) = c in
            (
              if p row then f row else row,
              update-In p f rows row m,
              e ∙ sym (row-kept now expires_at d (p row) row),
              (omega (arith, n, row-later now expires_at d (p row) row)),
            ))
          rs o)
        ((saved, (find_sound (has_id d.id) after saved found).0, h, omega (arith, g)), tt)

pub retry_row-IsSound :
    (now : Time) (d : Deployment) (until : Time) (db db' : DeploymentDb) (u : Unit {0})
    → retry_row now d until db ≡ ok (db', u)
    → IsSound db
    → IsSound db'
retry_row-IsSound now d until db db' u h s =
    let (expires_at, saved, r, found, owner, number, no_counters, some_row, unused, left) =
      retry-eq-ok now d until db db' u h in
    let f = requeued now expires_at d in
    let p = may_requeue d in
    subst IsSound (sym left) (record {
      ids =
          ids-update f (λ (x : DeploymentRecord). (requeued-place now expires_at d x).0) p
            db.deployments s.ids;
      slots =
          append-IsKeyed same_slot same_slot-swap db.revisions r s.slots
            (unclashed-IsFresh r db.revisions unused);
      current =
          retried-current now expires_at d db.deployments saved found s.ids db.revisions r owner
            number s.current;
      owned =
          retried-owned now expires_at d db.deployments saved found db.revisions r owner number
            s.owned;
    })
