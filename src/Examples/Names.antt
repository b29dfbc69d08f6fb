-- ===== src/Examples/Names.antt =====
-- Ids and labels.
use qiniu_ci_runner.Prelude.{[], ◌∷◌, ◌≡◌, ◌↔◌, true, All}
use qiniu_ci_runner.Request.Convert.{sanitize_id}
use qiniu_ci_runner.Request.Names.{IsSegment, sanitize_id-IsSegment}
use qiniu_ci_runner.Labels.{matches, Has, matches_iff}

sanitize_id-IsSegment_example : IsSegment (sanitize_id "../a\\b")
sanitize_id-IsSegment_example = sanitize_id-IsSegment "../a\\b"

matches_iff_example :
    (matches (λ s. s) (" linux" ∷ []) ("linux" ∷ "x64" ∷ []) ≡ true)
    ↔ All (Has (λ s. s) ("linux" ∷ "x64" ∷ [])) (" linux" ∷ [])
matches_iff_example = matches_iff (λ s. s) (" linux" ∷ []) ("linux" ∷ "x64" ∷ [])
