-- ===== src/Prelude/Rows.antt =====
-- What holds of the rows of a table after a statement: of each row, and of the keys.
use mathlib.Core.Path.{◌≡◌, refl, ap}
use mathlib.Core.Logic.{inl, inr}
use mathlib.Core.Bool.{Bool, true, false}
use mathlib.Core.List.{List, [], ◌∷◌, ◌++◌}
use qiniu_ci_runner.Prelude.Tests.{if◌then◌else◌, Bool-cases}
use qiniu_ci_runner.Prelude.Lists.{In, All, update_where, select}
use qiniu_ci_runner.Prelude.Table.{IsFresh, IsKeyed}

module _ {A : Type 0} where
  pub update-In :
      (p : A → Bool) (f : A → A) (xs : List A) (a : A)
      → In a xs
      → In (if p a then f a else a) (update_where p f xs)
  update-In p f [] a m = absurd m
  update-In p f (x ∷ xs) a (inl e) = inl (ap (λ y. if p y then f y else y) e)
  update-In p f (x ∷ xs) a (inr m) = inr (update-In p f xs a m)

  pub All-update :
      (P Q : A → Type 0) (p : A → Bool) (f : A → A)
      → (xs : List A) → ((a : A) → In a xs → P a → Q (if p a then f a else a))
      → All P xs
      → All Q (update_where p f xs)
  All-update P Q p f [] g h = tt
  All-update P Q p f (x ∷ xs) g h =
      (g x (inl refl) h.0, All-update P Q p f xs (λ a m. g a (inr m)) h.1)

  pub All-selected :
      (P Q : A → Type 0) (p : A → Bool)
      → (xs : List A) → ((a : A) → In a xs → p a ≡ true → P a → Q a)
      → All P xs
      → All Q (select p xs)
  All-selected P Q p [] g h = tt
  All-selected P Q p (x ∷ xs) g h =
      let rest = All-selected P Q p xs (λ a m. g a (inr m)) h.1 in
      elim (Bool-cases (p x)) [ inl t ↦ rw t (g x (inl refl) t h.0, rest) | inr f ↦ rw f rest ]

  pub In-append : (xs ys : List A) (a : A) → In a xs → In a (xs ++ ys)
  In-append [] ys a m = absurd m
  In-append (x ∷ xs) ys a (inl e) = inl e
  In-append (x ∷ xs) ys a (inr m) = inr (In-append xs ys a m)

  pub In-last : (xs : List A) (a : A) → In a (xs ++ a ∷ [])
  In-last [] a = inl refl
  In-last (x ∷ xs) a = inr (In-last xs a)

  pub select-IsFresh :
      (clash : A → A → Bool) (p : A → Bool) (a : A) (xs : List A)
      → IsFresh clash a xs
      → IsFresh clash a (select p xs)
  select-IsFresh clash p a [] h = tt
  select-IsFresh clash p a (x ∷ xs) h =
      let rest = select-IsFresh clash p a xs h.1 in
      elim (p x) as (λ b. IsFresh clash a (if b then x ∷ select p xs else select p xs)) [
        | true ↦ (h.0, rest)
        | false ↦ rest
      ]

  pub select-IsKeyed :
      (clash : A → A → Bool) (p : A → Bool) (xs : List A)
      → IsKeyed clash xs
      → IsKeyed clash (select p xs)
  select-IsKeyed clash p [] h = tt
  select-IsKeyed clash p (x ∷ xs) h =
      let rest = select-IsKeyed clash p xs h.1 in
      elim (p x) as (λ b. IsKeyed clash (if b then x ∷ select p xs else select p xs)) [
        | true ↦ (select-IsFresh clash p x xs h.0, rest)
        | false ↦ rest
      ]
