-- ===== src/Prelude/Order.antt =====
-- The order that a database keeps its texts in: what is asked of it, and the order by code points.
use mathlib.Core.Path.{◌≡◌, refl}
use mathlib.Core.Bool.{Bool, true, false, ◌&&◌, ◌||◌}
use Prim.Native.Char.{Char, code}
use Prim.Native.String.{String}
use text.Mathlib.TextEquality.{Char-path}
use native.Mathlib.Omega.{arith}
use qiniu_ci_runner.Prelude.Tests.{ltb, ◌==◌}

-- A strict total order, with its transitivity on the negation.
pub record IsOrder (before : String → String → Bool) : Type 0 where
  pub irr : (s : String) → before s s ≡ false
  pub asym : (s t : String) → before s t ≡ true → before t s ≡ false
  pub trans : (s t u : String) → before s t ≡ false → before t u ≡ false → before s u ≡ false
  pub total : (s t : String) → before s t ≡ false → before t s ≡ false → s ≡ t

abbrev pub text_before : String → String → Bool
text_before String.[] String.[] = false
text_before String.[] (String.◌∷◌ d t) = true
text_before (String.◌∷◌ c s) String.[] = false
text_before (String.◌∷◌ c s) (String.◌∷◌ d t) =
    ltb (code c) (code d) || ((code c == code d) && text_before s t)

text_before-irr : (s : String) → text_before s s ≡ false
text_before-irr String.[] = refl
text_before-irr (String.◌∷◌ c s) = ground (arith, text_before-irr s)

text_before-asym : (s t : String) → text_before s t ≡ true → text_before t s ≡ false
text_before-asym String.[] String.[] h = refl
text_before-asym String.[] (String.◌∷◌ d t) h = refl
text_before-asym (String.◌∷◌ c s) String.[] h = cc
text_before-asym (String.◌∷◌ c s) (String.◌∷◌ d t) h = ground (arith, text_before-asym s t)

text_before_trans :
    (s t u : String) → text_before s t ≡ false → text_before t u ≡ false → text_before s u ≡ false
text_before_trans String.[] String.[] u h g = g
text_before_trans String.[] (String.◌∷◌ d t) u h g = cc
text_before_trans (String.◌∷◌ c s) t String.[] h g = refl
text_before_trans (String.◌∷◌ c s) String.[] (String.◌∷◌ e u) h g = cc
text_before_trans (String.◌∷◌ c s) (String.◌∷◌ d t) (String.◌∷◌ e u) h g =
    ground (arith, text_before_trans s t u)

cons_path : (c d : Char) (s t : String) → c ≡ d → s ≡ t → String.◌∷◌ c s ≡ String.◌∷◌ d t
cons_path c d s t p q = λ i. String.◌∷◌ (p i) (q i)

text_before_total : (s t : String) → text_before s t ≡ false → text_before t s ≡ false → s ≡ t
text_before_total String.[] String.[] h g = refl
text_before_total String.[] (String.◌∷◌ d t) h g = cc
text_before_total (String.◌∷◌ c s) String.[] h g = cc
text_before_total (String.◌∷◌ c s) (String.◌∷◌ d t) h g =
    let same : code c ≡ code d = ground arith in
    cons_path c d s t (Char-path c d same)
      (text_before_total s t (ground (arith, same)) (ground (arith, same)))

pub text_before-IsOrder : IsOrder text_before
text_before-IsOrder = record {
  irr = text_before-irr;
  asym = text_before-asym;
  trans = text_before_trans;
  total = text_before_total;
}
