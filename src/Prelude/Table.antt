-- ===== src/Prelude/Table.antt =====
-- Tables with a unique key: `clash a b` says that two rows share it.
use Prim.Native.Nat.{◌<◌}
use mathlib.Core.Path.{◌≡◌, refl, sym, ◌∙◌, subst}
use mathlib.Core.Logic.{◌⊎◌, inl, inr, ◌≢◌}
use mathlib.Core.Bool.{Bool, true, false}
use mathlib.Core.List.{List, [], ◌∷◌, ◌++◌}
use mathlib.Core.Option.{none, some}
use native.Mathlib.Omega.{arith}
use qiniu_ci_runner.Prelude.Tests.{if◌then◌else◌, Option-cases, Bool-cases}
use qiniu_ci_runner.Prelude.Lists.{In, find, update_where, count, least}

module _ {A : Type 0} (clash : A → A → Bool) where
  abbrev pub IsFresh : A → List A → Type 0
  IsFresh a [] = Unit {0}
  IsFresh a (x ∷ xs) = (clash a x ≡ false) × IsFresh a xs

  abbrev pub IsKeyed : List A → Type 0
  IsKeyed [] = Unit {0}
  IsKeyed (x ∷ xs) = IsFresh x xs × IsKeyed xs

  -- An update that leaves the key alone.
  pub record KeepsKey (f : A → A) : Type 0 where
    pub left : (a b : A) → clash (f a) b ≡ clash a b
    pub right : (a b : A) → clash a (f b) ≡ clash a b

  pub IsFresh-update :
      (p : A → Bool) (f : A → A)
      → KeepsKey f
      → (a : A) (xs : List A) → IsFresh a xs
      → IsFresh a (update_where p f xs)
  IsFresh-update p f k a [] h = tt
  IsFresh-update p f k a (x ∷ xs) h = (ground (arith, k.right a x), IsFresh-update p f k a xs h.1)

  IsFresh-map : (f : A → A) → KeepsKey f → (a : A) (xs : List A) → IsFresh a xs → IsFresh (f a) xs
  IsFresh-map f k a [] h = tt
  IsFresh-map f k a (x ∷ xs) h = (ground (arith, k.left a x), IsFresh-map f k a xs h.1)

  pub update-IsKeyed :
      (p : A → Bool) (f : A → A)
      → KeepsKey f
      → (xs : List A) → IsKeyed xs
      → IsKeyed (update_where p f xs)
  update-IsKeyed p f k [] h = tt
  update-IsKeyed p f k (x ∷ xs) h = (head, update-IsKeyed p f k xs h.1)
    where
      rest : IsFresh x (update_where p f xs)
      rest = IsFresh-update p f k x xs h.0

      head : IsFresh (if p x then f x else x) (update_where p f xs)
      head = elim (p x) as (λ b. IsFresh (if b then f x else x) (update_where p f xs)) [
        | true ↦ IsFresh-map f k x (update_where p f xs) rest
        | false ↦ rest
      ]

  pub In-IsFresh : (a b : A) (xs : List A) → IsFresh a xs → In b xs → clash a b ≡ false
  In-IsFresh a b [] h m = absurd m
  In-IsFresh a b (x ∷ xs) h (inl e) = ground arith
  In-IsFresh a b (x ∷ xs) h (inr m) = In-IsFresh a b xs h.1 m

  pub append-IsKeyed :
      ((a b : A) → clash a b ≡ clash b a)
      → (xs : List A) (a : A) → IsKeyed xs
      → IsFresh a xs
      → IsKeyed (xs ++ a ∷ [])
  append-IsKeyed swap [] a k h = (tt, tt)
  append-IsKeyed swap (x ∷ xs) a k h = (fresh xs k.0, append-IsKeyed swap xs a k.1 h.1)
    where
      fresh : (ys : List A) → IsFresh x ys → IsFresh x (ys ++ a ∷ [])
      fresh [] f = (ground (arith, swap a x), tt)
      fresh (y ∷ ys) f = (f.0, fresh ys f.1)

  -- A row is found under its own key, before an update and after it.
  pub find-update :
      (p : A → Bool) (f : A → A)
      → KeepsKey f
      → ((a b : A) → clash a b ≡ clash b a)
      → ((a : A) → clash a a ≡ true)
      → (a : A) (xs : List A) → IsKeyed xs
      → In a xs
      → find (clash a) (update_where p f xs) ≡ some (if p a then f a else a)
  find-update p f k swap self a [] u m = absurd m
  find-update p f k swap self a (x ∷ xs) u (inl e) = ground (arith, k.right a x, self x, e)
  find-update p f k swap self a (x ∷ xs) u (inr m) = ground (
    arith,
    k.right a x,
    k.right x a,
    swap a x,
    In-IsFresh x a xs u.0 m,
    find-update p f k swap self a xs u.1 m,
  )

  pub find-keyed :
      ((a b : A) → clash a b ≡ clash b a)
      → ((a : A) → clash a a ≡ true)
      → (a : A) (xs : List A) → IsKeyed xs
      → In a xs
      → find (clash a) xs ≡ some a
  find-keyed swap self a [] u m = absurd m
  find-keyed swap self a (x ∷ xs) u (inl e) = ground (arith, self x, e)
  find-keyed swap self a (x ∷ xs) u (inr m) =
      ground (arith, swap a x, In-IsFresh x a xs u.0 m, find-keyed swap self a xs u.1 m)

  -- Two rows of the table that share the key are one row.
  pub In-unique :
      ((a b : A) → clash a b ≡ clash b a)
      → (xs : List A) (a b : A) → IsKeyed xs
      → In a xs
      → In b xs
      → clash a b ≡ true
      → a ≡ b
  In-unique swap [] a b u m n h = absurd m
  In-unique swap (x ∷ xs) a b u (inl e) (inl d) h = e ∙ sym d
  In-unique swap (x ∷ xs) a b u (inl e) (inr n) h = cc (In-IsFresh x b xs u.0 n)
  In-unique swap (x ∷ xs) a b u (inr m) (inl d) h = cc (In-IsFresh x a xs u.0 m, swap a b)
  In-unique swap (x ∷ xs) a b u (inr m) (inr n) h = In-unique swap xs a b u.1 m n h

  -- The rows after an update are the rows before it, each updated or left.
  pub In-update :
      (p : A → Bool) (f : A → A) (xs : List A) (b : A)
      → In b (update_where p f xs)
      → (a : A) × In a xs × (b ≡ (if p a then f a else a))
  In-update p f [] b m = absurd m
  In-update p f (x ∷ xs) b (inl e) = (x, inl refl, e)
  In-update p f (x ∷ xs) b (inr m) = let (a, n, e) = In-update p f xs b m in (a, inr n, e)

module _ {A : Type 0} where
  pub count-pos : (p : A → Bool) (xs : List A) (a : A) → In a xs → p a ≡ true → 0 < count p xs
  count-pos p [] a m h = absurd m
  count-pos p (x ∷ xs) a (inl e) h = ground (arith, e)
  count-pos p (x ∷ xs) a (inr m) h = ground (arith, count-pos p xs a m h)

  pub least-none : (before : A → A → Bool) (xs : List A) → least before xs ≡ none → xs ≡ []
  least-none before [] h = refl
  least-none before (x ∷ xs) h = ground (arith, Option-cases (least before xs))

  pub least-In : (before : A → A → Bool) (xs : List A) (a : A) → least before xs ≡ some a → In a xs
  least-In before [] a h = absurd (cc)
  least-In before (x ∷ xs) a h =
      ground (arith, least-In before xs a, Option-cases (least before xs))

  -- The least of a head and the least of a tail, whichever it is.
  least-cases :
      (before : A → A → Bool) (x y : A) (xs : List A) (a : A)
      → least before xs ≡ some y
      → least before (x ∷ xs) ≡ some a
      → ((a ≡ y) × (before y x ≡ true)) ⊎ ((a ≡ x) × (before y x ≡ false))
  least-cases before x y xs a e h = ground arith

  -- No row of the table goes before the least one, where the order is asymmetric and its negation
  -- is transitive.
  pub least-minimal :
      (before : A → A → Bool)
      → ((a : A) → before a a ≡ false)
      → ((a b : A) → before a b ≡ true → before b a ≡ false)
      → ((a b c : A) → before a b ≡ false → before b c ≡ false → before a c ≡ false)
      → (xs : List A) (a b : A) → least before xs ≡ some a
      → In b xs
      → before b a ≡ false
  least-minimal before irr asym trans [] a b h m = absurd m
  least-minimal before irr asym trans (x ∷ xs) a b h (inl e) =
      elim (Option-cases (least before xs)) [
        | inl q ↦ ground (arith, irr x)
        | inr (y, q) ↦ ground (arith, least-cases before x y xs a q h, irr x, asym y x)
      ]
  least-minimal before irr asym trans (x ∷ xs) a b h (inr m) =
      let ih = least-minimal before irr asym trans xs in
      elim (Option-cases (least before xs)) [
        | inl q ↦ absurd (subst (In b) (least-none before xs q) m)
        | inr (y, q) ↦ ground (arith, least-cases before x y xs a q h, ih y b q m, trans b y x)
      ]

  pub count-update_zero :
      (p : A → Bool) (f : A → A)
      → ((a : A) → p a ≡ true → p (f a) ≡ false)
      → (xs : List A) → count p (update_where p f xs) ≡ 0
  count-update_zero p f gone [] = refl
  count-update_zero p f gone (x ∷ xs) = ground (arith, gone x, count-update_zero p f gone xs)

  pub count-zero : (p : A → Bool) (xs : List A) (a : A) → count p xs ≡ 0 → In a xs → p a ≡ false
  count-zero p [] a h m = absurd m
  count-zero p (x ∷ xs) a h (inl e) = ground (arith, e)
  count-zero p (x ∷ xs) a h (inr m) = ground (arith, count-zero p xs a)

  pub count-some : (p : A → Bool) (xs : List A) → count p xs ≢ 0 → (a : A) × In a xs × (p a ≡ true)
  count-some p [] h = absurd (h refl)
  count-some p (x ∷ xs) h = elim (Bool-cases (p x)) [
    | inl e ↦ (x, inl refl, e)
    | inr e ↦ let (a, m, q) = count-some p xs (λ z. h (ground (arith, z))) in (a, inr m, q)
  ]

  -- A search that an update does not touch.
  pub find-update_other :
      (q p : A → Bool) (f : A → A)
      → ((a : A) → p a ≡ true → (q a ≡ false) × (q (f a) ≡ false))
      → (xs : List A) → find q (update_where p f xs) ≡ find q xs
  find-update_other q p f other [] = refl
  find-update_other q p f other (x ∷ xs) = ground (arith, other x, find-update_other q p f other xs)
