-- ===== src/Prelude/Branches.antt =====
-- A page of the rows that meet one of several predicates, read through the first keys of each: the
-- first `n` of each branch hold the first `m` of all, where no `n` is below `m`.
use Prim.Native.Nat.{ℕ, zero, suc, ◌-◌, ◌≤◌}
use Prim.Native.String.{String}
use mathlib.Core.Path.{◌≡◌, refl, sym, ap, ◌∙◌, subst}
use mathlib.Core.Logic.{inl, inr}
use mathlib.Core.Bool.{Bool, true, false, ◌||◌}
use mathlib.Core.List.{List, [], ◌∷◌}
use native.Mathlib.Omega.{arith}
use text.Mathlib.TextEquality.{eq_iff}
use qiniu_ci_runner.Prelude.Tests.{if◌then◌else◌, Bool-cases, str_eq}
use qiniu_ci_runner.Prelude.Lists.{All, select, take, All-select, sort_by, insert_by, In, In-select}
use qiniu_ci_runner.Prelude.Sort.{In-take}

suc-less : (n : ℕ) → suc n - 1 ≡ n
suc-less n = omega arith

module _ {A : Type 0} (key : A → String) where
  -- The keys are distinct.
  abbrev pub IsDistinct : List A → Type 0
  IsDistinct [] = Unit {0}
  IsDistinct (x ∷ xs) = All (λ y. str_eq (key y) (key x) ≡ false) xs × IsDistinct xs

  -- The key is among those of the rows.
  abbrev pub has_key : String → List A → Bool
  has_key k [] = false
  has_key k (x ∷ xs) = str_eq k (key x) || has_key k xs

  -- Some branch has a row with that key.
  abbrev pub in_branches : List ((A → Bool) × ℕ) → List A → String → Bool
  in_branches [] xs k = false
  in_branches (b ∷ bs) xs k = has_key k (take b.1 (select b.0 xs)) || in_branches bs xs k

  abbrev pub meets_one : List ((A → Bool) × ℕ) → A → Bool
  meets_one [] x = false
  meets_one (b ∷ bs) x = b.0 x || meets_one bs x

  -- The branches past a row: those that hold it have one place less.
  abbrev past : A → List ((A → Bool) × ℕ) → List ((A → Bool) × ℕ)
  past x [] = []
  past x (b ∷ bs) = (b.0, if b.0 x then b.1 - 1 else b.1) ∷ past x bs

  key-past :
      (x : A) (xs : List A) (k : String) (p : A → Bool) (n : ℕ)
      → str_eq k (key x) ≡ false
      → has_key k (take n (select p (x ∷ xs)))
        ≡ has_key k (take (if p x then n - 1 else n) (select p xs))
  key-past x xs k p zero h = elim (Bool-cases (p x)) [ inl t ↦ simp (t) | inr f ↦ simp (f) ]
  key-past x xs k p (suc n) h = elim (Bool-cases (p x)) [
    | inl t ↦ simp (t, h, suc-less n)
    | inr f ↦ simp (f)
  ]

  in_branches-past :
      (x : A) (xs : List A) (k : String) (bs : List ((A → Bool) × ℕ))
      → str_eq k (key x) ≡ false
      → in_branches bs (x ∷ xs) k ≡ in_branches (past x bs) xs k
  in_branches-past x xs k [] h = refl
  in_branches-past x xs k (b ∷ bs) h =
      ap (λ t. t || in_branches bs (x ∷ xs) k) (key-past x xs k b.0 b.1 h)
      ∙ ap (λ t. has_key k (take (if b.0 x then b.1 - 1 else b.1) (select b.0 xs)) || t)
          (in_branches-past x xs k bs h)

  meets_one-past : (x y : A) (bs : List ((A → Bool) × ℕ)) → meets_one (past x bs) y ≡ meets_one bs y
  meets_one-past x y [] = refl
  meets_one-past x y (b ∷ bs) = ap (λ t. b.0 y || t) (meets_one-past x y bs)

  unkeyed :
      (k : String) (n : ℕ) (xs : List A)
      → All (λ y. str_eq k (key y) ≡ false) xs
      → has_key k (take n xs) ≡ false
  unkeyed k zero xs h = refl
  unkeyed k (suc n) [] h = refl
  unkeyed k (suc n) (x ∷ xs) h = ground (arith, h.0, unkeyed k n xs h.1)

  turned :
      (k : String) (xs : List A)
      → All (λ y. str_eq (key y) k ≡ false) xs
      → All (λ y. str_eq k (key y) ≡ false) xs
  turned k [] h = tt
  turned k (x ∷ xs) h = (ground (arith, h.0, eq_iff k (key x), eq_iff (key x) k), turned k xs h.1)

  own-key :
      (x : A) (xs : List A) (p : A → Bool) (n : ℕ)
      → 1 ≤ n
      → All (λ y. str_eq (key y) (key x) ≡ false) xs
      → has_key (key x) (take n (select p (x ∷ xs))) ≡ p x
  own-key x xs p zero h g = absurd (omega arith)
  own-key x xs p (suc n) h g = elim (Bool-cases (p x)) [
    | inl t ↦ simp (t, (eq_iff (key x) (key x)).1 refl)
    | inr f ↦ simp (
      f,
      unkeyed (key x) (suc n) (select p xs)
          (All-select (λ y. str_eq (key x) (key y) ≡ false) p xs (turned (key x) xs g)),
    )
  ]

  -- A first row is in the branches exactly if it meets one, where each branch has a place.
  own-branches :
      (x : A) (xs : List A) (m : ℕ) (bs : List ((A → Bool) × ℕ))
      → All (λ (b : (A → Bool) × ℕ). suc m ≤ b.1) bs
      → All (λ y. str_eq (key y) (key x) ≡ false) xs
      → in_branches bs (x ∷ xs) (key x) ≡ meets_one bs x
  own-branches x xs m [] h g = refl
  own-branches x xs m (b ∷ bs) h g =
      ap (λ t. t || in_branches bs (x ∷ xs) (key x)) (own-key x xs b.0 b.1 (omega (arith, h.0)) g)
      ∙ ap (λ t. b.0 x || t) (own-branches x xs m bs h.1 g)

  places-met :
      (x : A) (m : ℕ) (bs : List ((A → Bool) × ℕ))
      → All (λ (b : (A → Bool) × ℕ). suc m ≤ b.1) bs
      → All (λ (b : (A → Bool) × ℕ). m ≤ b.1) (past x bs)
  places-met x m [] h = tt
  places-met x m (b ∷ bs) h = (ground (arith, h.0), places-met x m bs h.1)

  places-unmet :
      (x : A) (m : ℕ) (bs : List ((A → Bool) × ℕ))
      → meets_one bs x ≡ false
      → All (λ (b : (A → Bool) × ℕ). m ≤ b.1) bs
      → All (λ (b : (A → Bool) × ℕ). m ≤ b.1) (past x bs)
  places-unmet x m [] f h = tt
  places-unmet x m (b ∷ bs) f h =
      (ground (arith, h.0, f), places-unmet x m bs (ground (arith, f)) h.1)

  select-agree :
      (p q : A → Bool) (xs : List A) → All (λ y. p y ≡ q y) xs → select p xs ≡ select q xs
  select-agree p q [] h = refl
  select-agree p q (x ∷ xs) h = ground (arith, h.0, select-agree p q xs h.1)

  branches-agree :
      (x : A) (xs ys : List A) (bs : List ((A → Bool) × ℕ))
      → All (λ y. str_eq (key y) (key x) ≡ false) ys
      → All (λ y. in_branches bs (x ∷ xs) (key y) ≡ in_branches (past x bs) xs (key y)) ys
  branches-agree x xs [] bs h = tt
  branches-agree x xs (y ∷ ys) bs h =
      (in_branches-past x xs (key y) bs h.0, branches-agree x xs ys bs h.1)

  meets-agree :
      (x : A) (ys : List A) (bs : List ((A → Bool) × ℕ))
      → All (λ y. meets_one (past x bs) y ≡ meets_one bs y) ys
  meets-agree x [] bs = tt
  meets-agree x (y ∷ ys) bs = (meets_one-past x y bs, meets-agree x ys bs)

  pub take-branches :
      (m : ℕ) (xs : List A) (bs : List ((A → Bool) × ℕ))
      → IsDistinct xs
      → All (λ (b : (A → Bool) × ℕ). m ≤ b.1) bs
      → take m (select (λ y. in_branches bs xs (key y)) xs) ≡ take m (select (meets_one bs) xs)
  take-branches zero xs bs d h = refl
  take-branches (suc m) [] bs d h = refl
  take-branches (suc m) (x ∷ xs) bs d h =
      let own = own-branches x xs m bs h d.0 in
      let here =
        select-agree (λ y. in_branches bs (x ∷ xs) (key y))
          (λ y. in_branches (past x bs) xs (key y)) xs (branches-agree x xs xs bs d.0) in
      let there = select-agree (meets_one (past x bs)) (meets_one bs) xs (meets-agree x xs bs) in
      elim (Bool-cases (meets_one bs x)) [
        | inl t ↦
            let rest =
              ap (take m) here
              ∙ take-branches m xs (past x bs) d.1 (places-met x m bs h)
              ∙ ap (take m) there in
            rw (own ∙ t, t) (ap (λ zs. x ∷ zs) rest)
        | inr f ↦
            let rest =
              ap (take (suc m)) here
              ∙ take-branches (suc m) xs (past x bs) d.1 (places-unmet x (suc m) bs f h)
              ∙ ap (take (suc m)) there in
            rw (own ∙ f, f) rest
      ]

  -- Sorting keeps the keys distinct.
  module _ (before : A → A → Bool) where
    insert-unlike :
        (k : String) (a : A) (xs : List A)
        → str_eq (key a) k ≡ false
        → All (λ y. str_eq (key y) k ≡ false) xs
        → All (λ y. str_eq (key y) k ≡ false) (insert_by before a xs)
    insert-unlike k a [] h g = (h, tt)
    insert-unlike k a (x ∷ xs) h g =
        elim (before x a)
          as (λ b.
            All (λ y. str_eq (key y) k ≡ false)
              (if b then x ∷ insert_by before a xs else a ∷ x ∷ xs)) [
                | true ↦ (g.0, insert-unlike k a xs h g.1)
                | false ↦ (h, g)
              ]

    insert-IsDistinct :
        (a : A) (xs : List A)
        → All (λ y. str_eq (key y) (key a) ≡ false) xs
        → IsDistinct xs
        → IsDistinct (insert_by before a xs)
    insert-IsDistinct a [] h d = (tt, tt)
    insert-IsDistinct a (x ∷ xs) h d =
        elim (before x a)
          as (λ b. IsDistinct (if b then x ∷ insert_by before a xs else a ∷ x ∷ xs)) [
            | true ↦ (
              insert-unlike (key x) a xs
                  (ground (arith, h.0, eq_iff (key a) (key x), eq_iff (key x) (key a))) d.0,
              insert-IsDistinct a xs h.1 d.1,
            )
            | false ↦ (h, d)
          ]

    sort-unlike :
        (k : String) (xs : List A)
        → All (λ y. str_eq (key y) k ≡ false) xs
        → All (λ y. str_eq (key y) k ≡ false) (sort_by before xs)
    sort-unlike k [] h = tt
    sort-unlike k (x ∷ xs) h = insert-unlike k x (sort_by before xs) h.0 (sort-unlike k xs h.1)

    pub sort-IsDistinct : (xs : List A) → IsDistinct xs → IsDistinct (sort_by before xs)
    sort-IsDistinct [] d = tt
    sort-IsDistinct (x ∷ xs) d =
        insert-IsDistinct x (sort_by before xs) (sort-unlike (key x) xs d.0)
          (sort-IsDistinct xs d.1)

  has_key_sound : (k : String) (xs : List A) → has_key k xs ≡ true → (x : A) × In x xs × (k ≡ key x)
  has_key_sound k [] h = absurd (cc)
  has_key_sound k (x ∷ xs) h = elim (Bool-cases (str_eq k (key x))) [
    | inl t ↦ (x, inl refl, (eq_iff k (key x)).0 t)
    | inr f ↦ let (y, m, e) = has_key_sound k xs (ground (arith, h, f)) in (y, inr m, e)
  ]

  -- A key in a branch meets what the branches ask of keys.
  pub in_branches_sound :
      (q : String → Bool) (bs : List ((A → Bool) × ℕ)) (xs : List A) (k : String)
      → ((x : A) → meets_one bs x ≡ true → q (key x) ≡ true)
      → in_branches bs xs k ≡ true
      → q k ≡ true
  in_branches_sound q [] xs k g h = absurd (cc)
  in_branches_sound q (b ∷ bs) xs k g h = elim (Bool-cases (has_key k (take b.1 (select b.0 xs)))) [
    | inl t ↦
        let (x, m, e) = has_key_sound k (take b.1 (select b.0 xs)) t in
        let (_, met) = In-select b.0 xs x (In-take (λ (_ _ : A). true) b.1 (select b.0 xs) x m) in
        subst (λ s. q s ≡ true) (sym e) (g x (ground (arith, met)))
    | inr f ↦
        in_branches_sound q bs xs k (λ x met. g x (ground (arith, met))) (ground (arith, h, f))
  ]
