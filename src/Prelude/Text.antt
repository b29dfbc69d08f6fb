-- ===== src/Prelude/Text.antt =====
-- The functions of Go's `strings` package that the modelled code calls, on texts as lists of
-- characters.
use mathlib.Core.Path.{◌≡◌, refl}
use mathlib.Core.List.{List, [], ◌∷◌}
use Prim.Native.Nat.{◌+◌, ℕ, zero, suc, ◌%◌, ◌/◌}
use Prim.Native.Char.{Char, code}
use Prim.Native.String.{String}
use mathlib.Core.Bool.{Bool, true, false, ◌&&◌, ◌||◌}
use qiniu_ci_runner.Prelude.Tests.{leb, ◌==◌, if◌then◌else◌}

abbrev pub is_empty : String → Bool
is_empty String.[] = true
is_empty (String.◌∷◌ c s) = false

-- `unicode.IsSpace`: the characters with the property White_Space.
pub is_space : Char → Bool
is_space c =
    let n = code c in
    (leb 9 n && leb n 13)
    || (n == 32)
    || (n == 0x85)
    || (n == 0xA0)
    || (n == 0x1680)
    || (leb 0x2000 n && leb n 0x200A)
    || (n == 0x2028)
    || (n == 0x2029)
    || (n == 0x202F)
    || (n == 0x205F)
    || (n == 0x3000)

pub trim_left : String → String
trim_left String.[] = String.[]
trim_left (String.◌∷◌ c s) = let rest = trim_left s in if is_space c then rest else String.◌∷◌ c s

pub trim_right : String → String
trim_right String.[] = String.[]
trim_right (String.◌∷◌ c s) =
    let rest = trim_right s in if is_empty rest && is_space c then String.[] else String.◌∷◌ c rest

-- `strings.TrimSpace`.
unfoldable pub trim_space : String → String
unfolding trim_left trim_right is_space
trim_space s = trim_right (trim_left s)

-- `strings.ReplaceAll` of a one-character text by another.
unfoldable pub replace_char : ℕ → Char → String → String
replace_char old new String.[] = String.[]
replace_char old new (String.◌∷◌ c s) =
    String.◌∷◌ (if code c == old then new else c) (replace_char old new s)

-- `strings.ReplaceAll(s, "..", "-")`: two dots in a row, from the left, without overlap.
unfoldable pub replace_dots : Char → String → String
replace_dots new String.[] = String.[]
replace_dots new (String.◌∷◌ c String.[]) = String.◌∷◌ c String.[]
replace_dots new (String.◌∷◌ c (String.◌∷◌ d s)) =
    let skip = String.◌∷◌ new (replace_dots new s) in
    let keep = String.◌∷◌ c (replace_dots new (String.◌∷◌ d s)) in
    if (code c == 46) && (code d == 46) then skip else keep

abbrev pub append_text : String → String → String
append_text String.[] t = t
append_text (String.◌∷◌ c s) t = String.◌∷◌ c (append_text s t)

-- `strings.Cut` at a one-character separator: what stands before it, what stands after it, and
-- whether it was found.
unfoldable pub cut : ℕ → String → String × String × Bool
cut sep String.[] = (String.[], String.[], false)
cut sep (String.◌∷◌ c s) =
    let (before, after, found) = cut sep s in
    if code c == sep then (String.[], s, true) else (String.◌∷◌ c before, after, found)

digit : ℕ → Char
digit zero = "0"
digit (suc zero) = "1"
digit (suc (suc zero)) = "2"
digit (suc (suc (suc zero))) = "3"
digit (suc (suc (suc (suc zero)))) = "4"
digit (suc (suc (suc (suc (suc zero))))) = "5"
digit (suc (suc (suc (suc (suc (suc zero)))))) = "6"
digit (suc (suc (suc (suc (suc (suc (suc zero))))))) = "7"
digit (suc (suc (suc (suc (suc (suc (suc (suc zero)))))))) = "8"
digit _ = "9"

decimal_onto : ℕ → ℕ → String → String
decimal_onto zero n tail = tail
decimal_onto (suc fuel) n tail =
    let here = String.◌∷◌ (digit (n % 10)) tail in
    let rest = decimal_onto fuel (n / 10) here in if n / 10 == 0 then here else rest

-- The verb `%d` on a number: one round for each digit, and `n + 1` rounds are enough.
unfoldable pub decimal : ℕ → String
unfolding decimal_onto digit
decimal n = decimal_onto (suc n) n String.[]

pub is_empty→nil : (s : String) → is_empty s ≡ true → s ≡ ""
is_empty→nil String.[] h = refl
is_empty→nil (String.◌∷◌ c s) h = cc

-- `unicode.IsControl`: the characters of category Cc.
abbrev is_control : Char → Bool
is_control c = leb (code c) 0x1F || (leb 0x7F (code c) && leb (code c) 0x9F)

-- `strings.IndexFunc(s, unicode.IsControl) >= 0`
abbrev pub has_control : String → Bool
has_control String.[] = false
has_control (String.◌∷◌ c s) = is_control c || has_control s

abbrev byte_width : Char → ℕ
byte_width c =
    if leb (code c) 0x7F
    then 1
    else if leb (code c) 0x7FF
    then 2
    else if leb (code c) 0xFFFF
    then 3
    else 4

-- `len` of a text, in the bytes of UTF-8.
abbrev pub byte_len : String → ℕ
byte_len String.[] = 0
byte_len (String.◌∷◌ c s) = byte_width c + byte_len s

-- `strings.Contains` of a one-character text.
abbrev pub contains_char : ℕ → String → Bool
contains_char n String.[] = false
contains_char n (String.◌∷◌ c s) = (code c == n) || contains_char n s

-- `strings.Split` at a one-character separator.
abbrev cons_head : Char → List String → List String
cons_head c [] = String.◌∷◌ c String.[] ∷ []
cons_head c (s ∷ ss) = String.◌∷◌ c s ∷ ss

abbrev pub split : ℕ → String → List String
split sep String.[] = String.[] ∷ []
split sep (String.◌∷◌ c s) =
    let rest = split sep s in if code c == sep then String.[] ∷ rest else cons_head c rest
