-- ===== src/Scheduler/Flight.antt =====
-- The operations in flight as a list without repetition, and how many of them a lane has.
use qiniu_ci_runner.Prelude.{
  ◌+◌, String, Bool, true, false, List, [], ◌∷◌, ◌≡◌, refl, inl, inr, arith, str_eq, str_eq_sound,
  str_eq_complete, if◌then◌else◌, length, count, In, Bool-cases, eq_refl, sym, ap, subst,
}
use qiniu_ci_runner.Scheduler.Lanes.{Kind, provision, monitor, cleanup, same_kind, is_busy, remove}

abbrev pub runs_on : Kind → String × Kind → Bool
runs_on k e = same_kind e.1 k

abbrev pub IsDistinct : List (String × Kind) → Type 0
IsDistinct [] = Unit {0}
IsDistinct (e ∷ es) = (is_busy e.0 es ≡ false) × IsDistinct es

pub same_kind_sound : (j k : Kind) → same_kind j k ≡ true → j ≡ k
same_kind_sound provision provision h = refl
same_kind_sound provision monitor h = cc
same_kind_sound provision cleanup h = cc
same_kind_sound monitor provision h = cc
same_kind_sound monitor monitor h = refl
same_kind_sound monitor cleanup h = cc
same_kind_sound cleanup provision h = cc
same_kind_sound cleanup monitor h = cc
same_kind_sound cleanup cleanup h = refl

-- An id that is in flight nowhere else is not removed anywhere else.
pub remove-free :
    (id : String) (es : List (String × Kind)) → is_busy id es ≡ false → remove id es ≡ es
remove-free id [] h = refl
remove-free id (e ∷ es) h = ground (arith, remove-free id es)

pub busy-remove :
    (id other : String) (es : List (String × Kind))
    → is_busy id es ≡ false
    → is_busy id (remove other es) ≡ false
busy-remove id other [] h = refl
busy-remove id other (e ∷ es) h = ground (arith, busy-remove id other es)

pub remove-IsDistinct :
    (id : String) (es : List (String × Kind)) → IsDistinct es → IsDistinct (remove id es)
remove-IsDistinct id [] d = tt
remove-IsDistinct id (e ∷ es) d = elim (Bool-cases (str_eq e.0 id)) [
  | inl t ↦ ground (arith, remove-IsDistinct id es d.1)
  | inr f ↦ ground (arith, remove-IsDistinct id es d.1, busy-remove e.0 id es d.0)
]

busy-In :
    (id : String) (k : Kind) (es : List (String × Kind)) → In (id, k) es → is_busy id es ≡ true
busy-In id k [] m = absurd m
busy-In id k (e ∷ es) (inl q) = ground (arith, q, eq_refl id)
busy-In id k (e ∷ es) (inr m) = ground (arith, busy-In id k es m)

-- A completion takes one operation from its own lane.
pub count-remove :
    (id : String) (k j : Kind) (es : List (String × Kind))
    → IsDistinct es
    → In (id, k) es
    → count (runs_on j) (remove id es) + (if same_kind k j then 1 else 0) ≡ count (runs_on j) es
count-remove id k j [] d m = absurd m
count-remove id k j (e ∷ es) d (inl q) = ground (
  arith,
  q,
  str_eq_complete e.0 id (sym (ap (λ (t : String × Kind). t.0) q)),
  remove-free id es
      (subst (λ i. is_busy i es ≡ false) (sym (ap (λ (t : String × Kind). t.0) q)) d.0),
  ap (λ (t : String × Kind). t.1) q,
)
count-remove id k j (e ∷ es) d (inr m) =
    ground (arith, busy-In id k es m, str_eq_sound e.0 id, d.0, count-remove id k j es d.1 m)

pub length-counts :
    (es : List (String × Kind))
    → length es
      ≡ count (runs_on provision) es + count (runs_on monitor) es + count (runs_on cleanup) es
length-counts [] = omega arith
length-counts ((id, provision) ∷ es) = ground (arith, length-counts es)
length-counts ((id, monitor) ∷ es) = ground (arith, length-counts es)
length-counts ((id, cleanup) ∷ es) = ground (arith, length-counts es)
