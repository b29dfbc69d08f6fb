-- ===== src/Labels.antt =====
-- `internal/labelutil/labels.go`: the labels of a job against those of a runner.
use qiniu_ci_runner.Prelude.{
  String, Bool, true, false, ◌&&◌, ◌||◌, List, [], ◌∷◌, ◌≡◌, ◌↔◌, refl, sym, inl, inr, arith, In,
  All, trim_space, str_eq, str_eq_sound, str_eq_complete, Bool-cases, ap, ◌∙◌,
}

abbrev pub canonical : (String → String) → String → String
canonical lower label = lower (trim_space label)

-- `available[label]`
unfoldable pub is_available : (String → String) → List String → String → Bool
is_available lower [] label = false
is_available lower (r ∷ rs) label = str_eq (canonical lower r) label || is_available lower rs label

unfoldable pub match_all : (String → String) → List String → List String → Bool
unfolding is_available
match_all lower [] required = true
match_all lower (l ∷ ls) required =
    is_available lower required (canonical lower l) && match_all lower ls required

-- `labelutil.Match`
unfoldable pub matches : (String → String) → List String → List String → Bool
unfolding match_all
matches lower [] required = true
matches lower (l ∷ ls) required = match_all lower (l ∷ ls) required

-- A label of the list that differs in case and in outer space alone.
abbrev pub Has : (String → String) → List String → String → Type 0
Has lower required label =
    (r : String) × In r required × (canonical lower r ≡ canonical lower label)

available_sound :
    (lower : String → String) (required : List String) (label : String)
    → is_available lower required (canonical lower label) ≡ true
    → Has lower required label
unfolding is_available
available_sound lower [] label h = cc
available_sound lower (r ∷ rs) label h =
    elim (Bool-cases (str_eq (canonical lower r) (canonical lower label))) [
      | inl t ↦ (r, inl refl, str_eq_sound (canonical lower r) (canonical lower label) t)
      | inr f ↦
          let (x, m, e) = available_sound lower rs label (ground (arith, h, f)) in (x, inr m, e)
    ]

available_complete :
    (lower : String → String) (required : List String) (label : String)
    → Has lower required label
    → is_available lower required (canonical lower label) ≡ true
unfolding is_available
available_complete lower [] label (r, m, e) = absurd m
available_complete lower (x ∷ xs) label (r, inl q, e) = ground (
  arith,
  str_eq_complete (canonical lower x) (canonical lower label) (ap (canonical lower) (sym q) ∙ e),
)
available_complete lower (x ∷ xs) label (r, inr m, e) =
    ground (arith, available_complete lower xs label (r, m, e))

match_all_sound :
    (lower : String → String) (ls required : List String)
    → match_all lower ls required ≡ true
    → All (Has lower required) ls
unfolding match_all
match_all_sound lower [] required h = tt
match_all_sound lower (l ∷ ls) required h = (
  available_sound lower required l (ground (arith, h)),
  match_all_sound lower ls required (ground (arith, h)),
)

match_all_complete :
    (lower : String → String) (ls required : List String)
    → All (Has lower required) ls
    → match_all lower ls required ≡ true
unfolding match_all
match_all_complete lower [] required h = refl
match_all_complete lower (l ∷ ls) required h =
    ground
      (arith, available_complete lower required l h.0, match_all_complete lower ls required h.1)

-- The labels match exactly if each label of the job is among the labels of the runner, up to case and
-- outer space.
pub matches_iff :
    (lower : String → String) (job_labels required : List String)
    → (matches lower job_labels required ≡ true) ↔ All (Has lower required) job_labels
unfolding matches
matches_iff lower [] required = (λ _. tt, λ _. refl)
matches_iff lower (l ∷ ls) required =
    (match_all_sound lower (l ∷ ls) required, match_all_complete lower (l ∷ ls) required)
