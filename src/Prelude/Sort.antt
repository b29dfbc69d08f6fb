-- ===== src/Prelude/Sort.antt =====
-- Sorted lists: what `ORDER BY … LIMIT` leaves out comes after what it keeps.
use Prim.Native.Nat.{◌≤◌, ℕ, zero, suc}
use mathlib.Core.Path.{◌≡◌, refl, sym, subst, ap, ◌∙◌}
use mathlib.Core.Logic.{◌⊎◌, inl, inr}
use mathlib.Core.Bool.{Bool, true, false}
use mathlib.Core.List.{List, [], ◌∷◌}
use native.Mathlib.Omega.{arith}
use qiniu_ci_runner.Prelude.Tests.{if◌then◌else◌, Bool-cases}
use qiniu_ci_runner.Prelude.Lists.{
  count, In, All, All-In, sort_by, insert_by, take, length, select, All-select,
}

module _ {A : Type 0} (before : A → A → Bool) where
  -- No element goes before one that stands to its left.
  abbrev pub IsSorted : List A → Type 0
  IsSorted [] = Unit {0}
  IsSorted (x ∷ xs) = All (λ y. before y x ≡ false) xs × IsSorted xs

  pub length-insert : (a : A) (xs : List A) → length (insert_by before a xs) ≡ suc (length xs)
  length-insert a [] = refl
  length-insert a (x ∷ xs) = ground (arith, length-insert a xs)

  pub length-sort : (xs : List A) → length (sort_by before xs) ≡ length xs
  length-sort [] = refl
  length-sort (x ∷ xs) = ground (arith, length-sort xs, length-insert x (sort_by before xs))

  pub In-insert : (a b : A) (xs : List A) → In b (insert_by before a xs) → (b ≡ a) ⊎ In b xs
  In-insert a b [] m = m
  In-insert a b (x ∷ xs) m = ground (arith, In-insert a b xs)

  pub insert-In : (a b : A) (xs : List A) → (b ≡ a) ⊎ In b xs → In b (insert_by before a xs)
  insert-In a b [] m = m
  insert-In a b (x ∷ xs) m = ground (arith, insert-In a b xs)

  pub In-sort : (b : A) (xs : List A) → In b (sort_by before xs) → In b xs
  In-sort b [] m = m
  In-sort b (x ∷ xs) m = elim (In-insert x b (sort_by before xs) m) [
    | inl e ↦ inl e
    | inr n ↦ inr (In-sort b xs n)
  ]

  pub sort-In : (b : A) (xs : List A) → In b xs → In b (sort_by before xs)
  sort-In b [] m = m
  sort-In b (x ∷ xs) (inl e) = insert-In x b (sort_by before xs) (inl e)
  sort-In b (x ∷ xs) (inr m) = insert-In x b (sort_by before xs) (inr (sort-In b xs m))

  -- A list that is sorted already stays as it is.
  pub sort-sorted : (xs : List A) → IsSorted xs → sort_by before xs ≡ xs
  sort-sorted [] h = refl
  sort-sorted (x ∷ []) h = refl
  sort-sorted (x ∷ y ∷ xs) h = ground (arith, sort-sorted (y ∷ xs) h.1, h.0)

  module _ (asym : (a b : A) → before a b ≡ true → before b a ≡ false)
      (trans : (a b c : A) → before a b ≡ false → before b c ≡ false → before a c ≡ false) where
    All-insert :
        (P : A → Type 0) (a : A) (xs : List A) → P a → All P xs → All P (insert_by before a xs)
    All-insert P a [] h g = (h, tt)
    All-insert P a (x ∷ xs) h g =
        elim (before x a) as (λ b. All P (if b then x ∷ insert_by before a xs else a ∷ x ∷ xs)) [
          | true ↦ (g.0, All-insert P a xs h g.1)
          | false ↦ (h, g)
        ]

    behind :
        (a x : A) (xs : List A)
        → before x a ≡ false
        → All (λ y. before y x ≡ false) xs
        → All (λ y. before y a ≡ false) xs
    behind a x [] h g = tt
    behind a x (y ∷ xs) h g = (trans y x a g.0 h, behind a x xs h g.1)

    insert-IsSorted : (a : A) (xs : List A) → IsSorted xs → IsSorted (insert_by before a xs)
    insert-IsSorted a [] h = (tt, tt)
    insert-IsSorted a (x ∷ xs) h = elim (Bool-cases (before x a)) [
      | inl t ↦ ground (
        arith,
        All-insert (λ y. before y x ≡ false) a xs (asym x a t) h.0,
        insert-IsSorted a xs h.1,
      )
      | inr f ↦ ground (arith, behind a x xs f h.0)
    ]

    pub sort-IsSorted : (xs : List A) → IsSorted (sort_by before xs)
    sort-IsSorted [] = tt
    sort-IsSorted (x ∷ xs) = insert-IsSorted x (sort_by before xs) (sort-IsSorted xs)

    insert-first :
        (a : A) (xs : List A) → All (λ y. before y a ≡ false) xs → insert_by before a xs ≡ a ∷ xs
    insert-first a [] h = refl
    insert-first a (x ∷ xs) h = simp (h.0)

    select-insert :
        (p : A → Bool) (a : A) (xs : List A)
        → IsSorted xs
        → select p (insert_by before a xs)
          ≡ (if p a then insert_by before a (select p xs) else select p xs)
    select-insert p a [] h = refl
    select-insert p a (x ∷ xs) h = elim (Bool-cases (before x a)) [
      | inl t ↦ ground (arith, select-insert p a xs h.1)
      | inr f ↦
          let sel = select p (x ∷ xs) in
          let first =
            insert-first a sel
              (All-select (λ y. before y a ≡ false) p (x ∷ xs) (f, behind a x xs f h.0)) in
          simp (f, first)
    ]

    -- Selecting and sorting commute.
    pub select-sort :
        (p : A → Bool) (xs : List A) → select p (sort_by before xs) ≡ sort_by before (select p xs)
    select-sort p [] = refl
    select-sort p (x ∷ xs) =
        select-insert p x (sort_by before xs) (sort-IsSorted xs) ∙ elim (Bool-cases (p x)) [
          | inl t ↦ simp (t, select-sort p xs)
          | inr f ↦ simp (f, select-sort p xs)
        ]

  pub In-take : (n : ℕ) (xs : List A) (a : A) → In a (take n xs) → In a xs
  In-take zero xs a m = absurd m
  In-take (suc n) [] a m = absurd m
  In-take (suc n) (x ∷ xs) a (inl e) = inl e
  In-take (suc n) (x ∷ xs) a (inr m) = inr (In-take n xs a m)

  -- What a page leaves out goes before nothing that it has.
  pub take-rest :
      (n : ℕ) (xs : List A) (a : A)
      → IsSorted xs
      → In a xs
      → In a (take n xs) ⊎ ((b : A) → In b (take n xs) → before a b ≡ false)
  take-rest zero xs a h m = inr (λ b n. absurd n)
  take-rest (suc n) [] a h m = absurd m
  take-rest (suc n) (x ∷ xs) a h (inl e) = inl (inl e)
  take-rest (suc n) (x ∷ xs) a h (inr m) = elim (take-rest n xs a h.1 m) [
    | inl i ↦ inl (inr i)
    | inr f ↦ inr (λ b k. elim k [
      | inl e ↦
          subst (λ y. before a y ≡ false) (sym e) (All-In (λ y. before y x ≡ false) xs a h.0 m)
      | inr i ↦ f b i
    ])
  ]

module _ {A : Type 0} where
  pub length-take : (n : ℕ) (xs : List A) → length (take n xs) ≤ n
  length-take zero xs = omega arith
  length-take (suc n) [] = omega arith
  length-take (suc n) (x ∷ xs) = omega (arith, length-take n xs)

  pub take-take : (n : ℕ) (xs : List A) → take n (take (suc n) xs) ≡ take n xs
  take-take zero [] = refl
  take-take zero (x ∷ xs) = refl
  take-take (suc n) [] = refl
  take-take (suc n) (x ∷ xs) = ap (λ ys. x ∷ ys) (take-take n xs)

  -- A row that a page leaves out shows that there are more.
  pub left-out :
      (n : ℕ) (xs : List A) (a : A) → In a xs → length (take (suc n) xs) ≤ n → In a (take n xs)
  left-out n [] a m h = absurd m
  left-out zero (x ∷ xs) a m h = absurd (omega (arith, h))
  left-out (suc n) (x ∷ xs) a (inl e) h = inl e
  left-out (suc n) (x ∷ xs) a (inr m) h = inr (left-out n xs a m (omega (arith, h)))

  -- A page that is not full has all the rows.
  pub take_all : (n : ℕ) (xs : List A) → length (take (suc n) xs) ≤ n → take (suc n) xs ≡ xs
  take_all n [] h = refl
  take_all zero (x ∷ xs) h = absurd (omega (arith, h))
  take_all (suc n) (x ∷ xs) h = ap (λ ys. x ∷ ys) (take_all n xs (omega (arith, h)))

  count-insert :
      (before : A → A → Bool) (p : A → Bool) (a : A) (xs : List A)
      → count p (insert_by before a xs) ≡ count p (a ∷ xs)
  count-insert before p a [] = refl
  count-insert before p a (x ∷ xs) = ground (arith, count-insert before p a xs)

  pub count-sort :
      (before : A → A → Bool) (p : A → Bool) (xs : List A)
      → count p (sort_by before xs) ≡ count p xs
  count-sort before p [] = refl
  count-sort before p (x ∷ xs) =
      count-insert before p x (sort_by before xs) ∙ ground (arith, count-sort before p xs)
