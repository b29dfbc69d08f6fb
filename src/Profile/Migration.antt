-- ===== src/Profile/Migration.antt =====
-- The migration of profiles leaves none without a policy, and a second one does nothing.
use qiniu_ci_runner.Prelude.{
  String, Bool, true, false, ◌||◌, List, [], ◌∷◌, ◌≡◌, ◌⊎◌, refl, ap, inl, inr, arith, eq_iff,
  str_eq, ◌==◌, if◌then◌else◌, select, count, All, In, Bool-cases,
}
use qiniu_ci_runner.Prelude.Table.{count-zero}
use qiniu_ci_runner.Prelude.Rows.{All-update}
use qiniu_ci_runner.Request.Types.{Time}
use qiniu_ci_runner.Profile.Policy.{
  RunnerProfileRecord, ProfileDb, is_blank, normalize_profile_policy, is_legacy, set_policy,
  is_migrated, migrate_one, migrate_all, migrate_runner_profile_policies,
}

abbrev has_name : String → List RunnerProfileRecord → Bool
has_name n [] = false
has_name n (row ∷ rows) = str_eq n row.name || has_name n rows

-- A row has a policy, or a row of its name is still to come.
abbrev IsDone : List RunnerProfileRecord → RunnerProfileRecord → Type 0
IsDone todo row = (is_legacy row ≡ false) ⊎ (has_name row.name todo ≡ true)

set_policy-sourced : (old row : RunnerProfileRecord) → is_legacy (set_policy old row) ≡ false
unfolding set_policy normalize_profile_policy
set_policy-sourced old row = elim (Bool-cases (is_blank old.managed_by)) [
  | inl t ↦ simp (t)
  | inr f ↦ simp (f)
]

not_migrated :
    (old : RunnerProfileRecord) (todo : List RunnerProfileRecord) (row : RunnerProfileRecord)
    → is_migrated old row ≡ false
    → IsDone (old ∷ todo) row
    → IsDone todo row
not_migrated old todo row f (inl h) = inl h
not_migrated old todo row f (inr h) = elim (Bool-cases (is_legacy row)) [
  | inl t ↦ inr (ground (arith, f, h, t))
  | inr g ↦ inl g
]

migrated-IsDone :
    (old : RunnerProfileRecord) (todo : List RunnerProfileRecord) (row : RunnerProfileRecord)
    → IsDone (old ∷ todo) row
    → IsDone todo (if is_migrated old row then set_policy old row else row)
migrated-IsDone old todo row h = elim (Bool-cases (is_migrated old row)) [
  | inl t ↦ rw t (inl (set_policy-sourced old row))
  | inr f ↦ rw f (not_migrated old todo row f h)
]

unmigrated :
    (old : RunnerProfileRecord) (todo rows : List RunnerProfileRecord)
    → ((row : RunnerProfileRecord) → In row rows → is_migrated old row ≡ false)
    → All (IsDone (old ∷ todo)) rows
    → All (IsDone todo) rows
unmigrated old todo [] f h = tt
unmigrated old todo (row ∷ rows) f h = (
  not_migrated old todo row (f row (inl refl)) h.0,
  unmigrated old todo rows (λ x m. f x (inr m)) h.1,
)

migrate_one-IsDone :
    (now : Time) (old : RunnerProfileRecord) (todo : List RunnerProfileRecord) (db : ProfileDb)
    → All (IsDone (old ∷ todo)) db.profiles
    → All (IsDone todo) (migrate_one now old db).profiles
unfolding migrate_one
migrate_one-IsDone now old todo db h =
    elim (Bool-cases (count (is_migrated old) db.profiles == 0)) [
      | inl t ↦ rw t (
          unmigrated old todo db.profiles
            (λ row m. count-zero (is_migrated old) db.profiles row (ground (arith, t)) m) h)
      | inr f ↦ rw f (
          All-update (IsDone (old ∷ todo)) (IsDone todo) (is_migrated old) (set_policy old)
            db.profiles (λ row m k. migrated-IsDone old todo row k) h)
    ]

migrate_all-IsDone :
    (now : Time) (todo : List RunnerProfileRecord) (db : ProfileDb)
    → All (IsDone todo) db.profiles
    → All (IsDone []) (migrate_all now todo db).profiles
unfolding migrate_all
migrate_all-IsDone now [] db h = h
migrate_all-IsDone now (old ∷ todo) db h =
    migrate_all-IsDone now todo (migrate_one now old db) (migrate_one-IsDone now old todo db h)

-- Every row without a policy is to come at first.
legacy_to_come :
    (rows more : List RunnerProfileRecord)
    → ((row : RunnerProfileRecord)
        → In row rows
        → is_legacy row ≡ true
        → has_name row.name more ≡ true)
    → All (IsDone more) rows
legacy_to_come [] more h = tt
legacy_to_come (row ∷ rows) more h = (
  elim (Bool-cases (is_legacy row)) [ inl t ↦ inr (h row (inl refl) t) | inr f ↦ inl f ],
  legacy_to_come rows more (λ x m. h x (inr m)),
)

selected-has_name :
    (rows : List RunnerProfileRecord) (row : RunnerProfileRecord)
    → In row rows
    → is_legacy row ≡ true
    → has_name row.name (select is_legacy rows) ≡ true
selected-has_name [] row m h = absurd m
selected-has_name (x ∷ rows) row (inl e) h =
    let same = (eq_iff row.name x.name).1 (ap (λ (r : RunnerProfileRecord). r.name) e) in
    let legacy = ap is_legacy e in ground (arith, same, legacy, h)
selected-has_name (x ∷ rows) row (inr m) h = ground (arith, selected-has_name rows row m h)

none-selected :
    (rows : List RunnerProfileRecord) → All (IsDone []) rows → select is_legacy rows ≡ []
none-selected [] h = refl
none-selected (row ∷ rows) (inl f, h) = simp (f, none-selected rows h)
none-selected (row ∷ rows) (inr f, h) = absurd (cc)

-- After a migration no profile is without a policy, and a further migration, at any time, changes
-- neither the profiles nor the audit events.
pub migrate_idem :
    (now later : Time) (db : ProfileDb)
    → (select is_legacy (migrate_runner_profile_policies now db).profiles ≡ [])
      × (migrate_runner_profile_policies later (migrate_runner_profile_policies now db)
          ≡ migrate_runner_profile_policies now db)
unfolding migrate_runner_profile_policies migrate_all
migrate_idem now later db =
    let start =
      legacy_to_come db.profiles (select is_legacy db.profiles)
        (λ row m h. selected-has_name db.profiles row m h) in
    let none_left =
      none-selected (migrate_runner_profile_policies now db).profiles
        (migrate_all-IsDone now (select is_legacy db.profiles) db start) in
    (
      none_left,
      ap (λ rows. migrate_all later rows (migrate_runner_profile_policies now db)) none_left,
    )
