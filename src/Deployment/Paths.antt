-- ===== src/Deployment/Paths.antt =====
-- The standard library's `path.Clean`, on a path as its parts between slashes.
use Prim.Native.Char.{code}
use qiniu_ci_runner.Prelude.{
  String, Bool, false, not, ◌&&◌, ◌||◌, List, [], ◌∷◌, is_empty, str_eq, ◌==◌, if◌then◌else◌,
  append_text, split,
}

-- One part of the path against the parts so far, the last of them first: an empty part and `.` change
-- nothing, `..` takes the last part back, and at the root it changes nothing.
abbrev add_part : Bool → String → List String → List String
add_part rooted part [] =
    if is_empty part || str_eq part "."
    then []
    else if str_eq part ".." && rooted
    then []
    else part ∷ []
add_part rooted part (last ∷ parts) =
    if is_empty part || str_eq part "."
    then last ∷ parts
    else if str_eq part ".." && not (str_eq last "..")
    then parts
    else part ∷ last ∷ parts

abbrev add_parts : Bool → List String → List String → List String
add_parts rooted [] parts = parts
add_parts rooted (p ∷ ps) parts = add_parts rooted ps (add_part rooted p parts)

-- The parts, the last of them first, joined by slashes in front of a text.
abbrev joined : List String → String → String
joined [] tail = tail
joined (p ∷ []) tail = append_text p tail
joined (p ∷ q ∷ ps) tail = joined (q ∷ ps) (String.◌∷◌ "/" (append_text p tail))

abbrev pub is_abs : String → Bool
is_abs String.[] = false
is_abs (String.◌∷◌ c s) = code c == 47

unfoldable pub clean : String → String
clean path =
    let text = joined (add_parts (is_abs path) (split 47 path) []) String.[] in
    if is_abs path then String.◌∷◌ "/" text else if is_empty text then "." else text
