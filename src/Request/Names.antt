-- ===== src/Request/Names.antt =====
-- The ids that `sanitizeID` makes stay within one path segment.
use Prim.Native.Char.{Char, code}
use qiniu_ci_runner.Prelude.{
  ℕ, String, Bool, false, ◌&&◌, ◌||◌, ◌≡◌, refl, inl, inr, arith, ◌==◌, replace_char, replace_dots,
  trim_space, Bool-cases,
}
use qiniu_ci_runner.Request.Convert.{sanitize_id}

abbrev pub has_char : ℕ → String → Bool
has_char n String.[] = false
has_char n (String.◌∷◌ c s) = (code c == n) || has_char n s

abbrev pub starts_dot : String → Bool
starts_dot String.[] = false
starts_dot (String.◌∷◌ c s) = code c == 46

abbrev pub has_dots : String → Bool
has_dots String.[] = false
has_dots (String.◌∷◌ c s) = ((code c == 46) && starts_dot s) || has_dots s

-- A text that stands within one segment of a path.
abbrev pub IsSegment : String → Type 0
IsSegment s = (has_char 47 s ≡ false) × (has_char 92 s ≡ false) × (has_dots s ≡ false)

replaced_char :
    (n : ℕ) (new : Char) (s : String)
    → (code new == n) ≡ false
    → has_char n (replace_char n new s) ≡ false
unfolding replace_char
replaced_char n new String.[] h = refl
replaced_char n new (String.◌∷◌ c s) h = elim (Bool-cases (code c == n)) [
  | inl t ↦ ground (arith, replaced_char n new s h, t, h)
  | inr f ↦ ground (arith, replaced_char n new s h, f)
]

kept_char :
    (n m : ℕ) (new : Char) (s : String)
    → (code new == n) ≡ false
    → has_char n s ≡ false
    → has_char n (replace_char m new s) ≡ false
unfolding replace_char
kept_char n m new String.[] h g = refl
kept_char n m new (String.◌∷◌ c s) h g = elim (Bool-cases (code c == m)) [
  | inl t ↦ ground (arith, kept_char n m new s h, t, h, g)
  | inr f ↦ ground (arith, kept_char n m new s h, f, g)
]

dots-char :
    (n : ℕ) (new : Char) (s : String)
    → (code new == n) ≡ false
    → has_char n s ≡ false
    → has_char n (replace_dots new s) ≡ false
unfolding replace_dots
dots-char n new String.[] h g = refl
dots-char n new (String.◌∷◌ c String.[]) h g = g
dots-char n new (String.◌∷◌ c (String.◌∷◌ d s)) h g =
    elim (Bool-cases ((code c == 46) && (code d == 46))) [
      | inl t ↦ ground (arith, dots-char n new s h, t, h, g)
      | inr f ↦ ground (arith, dots-char n new (String.◌∷◌ d s) h, f, g)
    ]

dots-start :
    (new : Char) (s : String)
    → (code new == 46) ≡ false
    → starts_dot s ≡ false
    → starts_dot (replace_dots new s) ≡ false
unfolding replace_dots
dots-start new String.[] h g = refl
dots-start new (String.◌∷◌ c String.[]) h g = g
dots-start new (String.◌∷◌ c (String.◌∷◌ d s)) h g = ground (arith, g, h)

dots-gone :
    (new : Char) (s : String) → (code new == 46) ≡ false → has_dots (replace_dots new s) ≡ false
unfolding replace_dots
dots-gone new String.[] h = refl
dots-gone new (String.◌∷◌ c String.[]) h = ground arith
dots-gone new (String.◌∷◌ c (String.◌∷◌ d s)) h =
    elim (Bool-cases ((code c == 46) && (code d == 46))) [
      | inl t ↦ ground (arith, dots-gone new s h, t, h)
      | inr f ↦
          ground (arith, dots-gone new (String.◌∷◌ d s) h, f, dots-start new (String.◌∷◌ d s) h)
    ]

-- Whatever the id, the sanitized one has no slash, no backslash and no two dots in a row.
pub sanitize_id-IsSegment : (id : String) → IsSegment (sanitize_id id)
unfolding sanitize_id
sanitize_id-IsSegment id = (
  dots-char 47 _ _ refl (kept_char 47 92 _ _ refl (replaced_char 47 _ (trim_space id) refl)),
  dots-char 92 _ _ refl (replaced_char 92 _ _ refl),
  dots-gone _ _ refl,
)
