-- ===== src/Deployment/SoundPruning.antt =====
-- Prunings keep the tables of deployments and revisions sound.
use qiniu_ci_runner.Prelude.{
  Bool, true, false, not, List, [], ◌∷◌, ◌≡◌, ◌≢◌, ◌⊎◌, refl, sym, ap, subst, ◌∙◌, inl, inr, arith,
  ◌==◌, str_eq, str_eq_sound, str_eq_complete, count, select, select-In, In, Bool-cases,
}
use qiniu_ci_runner.Request.Types.{Time}
use qiniu_ci_runner.Prelude.Table.{In-unique, count-some}
use qiniu_ci_runner.Prelude.Rows.{All-selected, select-IsKeyed}
use qiniu_ci_runner.Deployment.Types.{
  DeploymentRecord, DeploymentRevisionRecord, DeploymentEventRecord,
}
use qiniu_ci_runner.Deployment.Store.{DeploymentDb}
use qiniu_ci_runner.Deployment.Pruning.{is_pruned, prune_one, prune_all}
use qiniu_ci_runner.Deployment.Sound.{
  same_id, same_slot, same_id-swap, HasCurrent, HasOwner, IsSound,
}

-- The tables after the deletion of a deployment with its events and revisions.
abbrev pub deleted : Time → DeploymentRecord → DeploymentDb → DeploymentDb
deleted before old db = record db {
  deployments = select (λ (row : DeploymentRecord). not (is_pruned before old row)) db.deployments;
  events = select (λ (e : DeploymentEventRecord). not (str_eq e.deployment_id old.id)) db.events;
  revisions =
      select (λ (r : DeploymentRevisionRecord). not (str_eq r.deployment_id old.id)) db.revisions;
}

pub prune_one-cases :
    (before : Time) (old : DeploymentRecord) (db : DeploymentDb)
    → (prune_one before old db ≡ (db, false))
      ⊎ ((prune_one before old db ≡ (deleted before old db, true))
          × ((row : DeploymentRecord) × In row db.deployments × (is_pruned before old row ≡ true)))
unfolding prune_one
prune_one-cases before old db =
    elim (Bool-cases (count (is_pruned before old) db.deployments == 0)) [
      | inl t ↦ inl (simp t)
      | inr f ↦
          inr (simp f, count-some (is_pruned before old) db.deployments (λ z. ground (arith, z, f)))
    ]

pruned-id :
    (before : Time) (old row : DeploymentRecord) → is_pruned before old row ≡ true → row.id ≡ old.id
pruned-id before old row h = str_eq_sound row.id old.id (ground (arith, h))

refuted : (b : Bool) → (b ≡ true → ⊥) → not b ≡ true
refuted true h = absurd (h refl)
refuted false h = refl

-- A row that stays is not the deleted one.
still-there :
    (before : Time) (old gone row : DeploymentRecord) (db : DeploymentDb)
    → IsSound db
    → In gone db.deployments
    → is_pruned before old gone ≡ true
    → In row db.deployments
    → not (is_pruned before old row) ≡ true
    → row.id ≢ old.id
still-there before old gone row db s m h n k e =
    let same =
      In-unique same_id same_id-swap db.deployments row gone s.ids n m
        (str_eq_complete gone.id row.id (pruned-id before old gone h ∙ sym e)) in
    cc (ap (is_pruned before old) same)

deleted-IsSound :
    (before : Time) (old gone : DeploymentRecord) (db : DeploymentDb)
    → In gone db.deployments
    → is_pruned before old gone ≡ true
    → IsSound db
    → IsSound (deleted before old db)
deleted-IsSound before old gone db m h s =
    let keeps = λ (row : DeploymentRecord). not (is_pruned before old row) in
    let stays = λ (r : DeploymentRevisionRecord). not (str_eq r.deployment_id old.id) in
    let rows = select keeps db.deployments in
    let rs = select stays db.revisions in
    record {
      ids = select-IsKeyed same_id keeps db.deployments s.ids;
      slots = select-IsKeyed same_slot stays db.revisions s.slots;
      current =
          All-selected (HasCurrent db.revisions) (HasCurrent rs) keeps db.deployments
            (λ row n k c.
              let (r, i, e) = c in
              (
                r,
                select-In stays db.revisions r i (
                    refuted (str_eq r.deployment_id old.id) (λ t.
                      still-there before old gone row db s m h n k (
                        sym (str_eq_sound r.deployment_id row.id (ground (arith, e)))
                        ∙ str_eq_sound r.deployment_id old.id t))),
                e,
              ))
            s.current;
      owned =
          All-selected (HasOwner db.deployments) (HasOwner rows) stays db.revisions
            (λ r n k c.
              let (row, i, e, b) = c in
              (
                row,
                select-In keeps db.deployments row i (
                    refuted (is_pruned before old row) (λ t. absurd (
                      cc (
                        k,
                        str_eq_complete r.deployment_id old.id (e ∙ pruned-id before old row t),
                      )))),
                e,
                b,
              ))
            s.owned;
    }

pub prune_one-IsSound :
    (before : Time) (old : DeploymentRecord) (db : DeploymentDb)
    → IsSound db
    → IsSound (prune_one before old db).0
prune_one-IsSound before old db s = elim (prune_one-cases before old db) [
  | inl e ↦ subst IsSound (sym (ap (λ x. x.0) e)) s
  | inr (e, w) ↦
      let (gone, m, h) = w in
      subst IsSound (sym (ap (λ x. x.0) e)) (deleted-IsSound before old gone db m h s)
]

pub prune_all-IsSound :
    (before : Time) (rows : List DeploymentRecord) (db : DeploymentDb)
    → IsSound db
    → IsSound (prune_all before rows db).0
unfolding prune_all
prune_all-IsSound before [] db s = s
prune_all-IsSound before (old ∷ rows) db s =
    prune_all-IsSound before rows (prune_one before old db).0 (prune_one-IsSound before old db s)
