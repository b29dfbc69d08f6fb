-- ===== src/Request/Counts.antt =====
-- `internal/state/runner_requests.go`: the counts of requests that admission reads.
use qiniu_ci_runner.Prelude.{
  ℕ, suc, ◌+◌, String, Bool, true, false, ◌&&◌, ◌||◌, List, [], ◌∷◌, ◌≡◌, refl, arith, Result, ok,
  err, unavailable, if◌then◌else◌, trim_space, is_empty, append_text, str_eq, count, count-same, ap,
  ◌==◌, not, Bool-cases, inl, inr, ◌∙◌,
}
use Prim.Native.Char.{Char, code}
use qiniu_ci_runner.Request.Types.{
  Status, queued, creating, running, stopping, completed, failed, other, is_queued, is_in_flight,
}
use qiniu_ci_runner.Request.Record.{RunnerRequestRecord}
use qiniu_ci_runner.Request.Store.{Db}

-- The replacer of `!`, `%` and `_` by themselves behind a `!`.
abbrev pub escape_like : String → String
escape_like String.[] = String.[]
escape_like (String.◌∷◌ c s) =
    let rest = escape_like s in
    if (code c == 33) || ((code c == 37) || (code c == 95))
    then String.◌∷◌ "!" (String.◌∷◌ c rest)
    else String.◌∷◌ c rest

-- Whether some end of the text passes a test.
abbrev any_end : (String → Bool) → String → Bool
any_end p String.[] = p String.[]
any_end p (String.◌∷◌ c s) = p (String.◌∷◌ c s) || any_end p s

abbrev head_is : (Char → Bool) → (String → Bool) → String → Bool
head_is p q String.[] = false
head_is p q (String.◌∷◌ c s) = p c && q s

-- `LIKE ? ESCAPE '!'`: `%` stands for any text, `_` for any character, and what follows a `!` for
-- itself.
abbrev pub like : String → String → Bool
like String.[] t = is_empty t
like (String.◌∷◌ c String.[]) t =
    if code c == 37
    then true
    else if code c == 95
    then head_is (λ _. true) is_empty t
    else if code c == 33
    then false
    else head_is (λ d. code d == code c) is_empty t
like (String.◌∷◌ c (String.◌∷◌ e p)) t =
    let literal = head_is (λ d. code d == code e) (like p) t in
    let any = any_end (like (String.◌∷◌ e p)) t in
    let one = head_is (λ _. true) (like (String.◌∷◌ e p)) t in
    let same = head_is (λ d. code d == code c) (like (String.◌∷◌ e p)) t in
    if code c == 33
    then literal
    else if code c == 37
    then any
    else if code c == 95
    then one
    else same

abbrev pub has_prefix : String → String → Bool
has_prefix String.[] t = true
has_prefix (String.◌∷◌ c p) String.[] = false
has_prefix (String.◌∷◌ c p) (String.◌∷◌ d t) = (code d == code c) && has_prefix p t

abbrev is_special : Char → Bool
is_special c = (code c == 33) || ((code c == 37) || (code c == 95))

like_plain :
    (c : Char) (p t : String)
    → is_special c ≡ false
    → like (String.◌∷◌ c p) t ≡ head_is (λ d. code d == code c) (like p) t
like_plain c String.[] String.[] h = ground arith
like_plain c String.[] (String.◌∷◌ d t) h = ground arith
like_plain c (String.◌∷◌ e p) t h = ground arith

head_is-prefix :
    (c : Char) (p q t : String)
    → ((u : String) → like p u ≡ has_prefix q u)
    → head_is (λ d. code d == code c) (like p) t ≡ has_prefix (String.◌∷◌ c q) t
head_is-prefix c p q String.[] h = refl
head_is-prefix c p q (String.◌∷◌ d t) h = rw (h t) refl

like_slash : (t : String) → like "/%" t ≡ has_prefix "/" t
like_slash String.[] = refl
like_slash (String.◌∷◌ d t) = refl

-- A text that is escaped and followed by `/%` is matched by the texts that begin with it and a slash,
-- and by no others, whatever characters it has.
pub like-escape :
    (s t : String) → like (append_text (escape_like s) "/%") t ≡ has_prefix (append_text s "/") t
like-escape String.[] t = like_slash t
like-escape (String.◌∷◌ c s) t =
    let tail = append_text (escape_like s) "/%" in
    let same = head_is-prefix c tail (append_text s "/") t (like-escape s) in
    elim (Bool-cases (is_special c)) [
      | inl special ↦ rw (special) same
      | inr plain ↦ rw (plain) (like_plain c tail t plain ∙ same)
    ]

-- `IN ?`
abbrev pub one_of : String → List String → Bool
one_of s [] = false
one_of s (x ∷ xs) = str_eq s x || one_of s xs

-- `Model(&runnerRequestRecord{}).Where(p).Count`
abbrev count_rows : Db → (RunnerRequestRecord → Bool) → Result ℕ
count_rows db p = if db.available then ok (count p db.rows) else err unavailable

-- `activeStatuses`
abbrev pub is_active : Status → Bool
is_active queued = true
is_active creating = true
is_active running = true
is_active stopping = true
is_active _ = false

unfoldable pub active_count : Db → Result ℕ
active_count db = count_rows db (λ r. is_active r.status)

unfoldable pub in_flight_count : Db → Result ℕ
in_flight_count db = count_rows db (λ r. is_in_flight r.status)

-- `to_lower` is `strings.ToLower`, and `lower` the database's `LOWER`.
unfoldable pub in_flight_count_for_repository_owner :
    (String → String) → (String → String) → Db → String → Result ℕ
in_flight_count_for_repository_owner to_lower lower db owner =
    let name = to_lower (trim_space owner) in
    let pattern = append_text (escape_like name) "/%" in
    if not db.available
    then err unavailable
    else if is_empty name
    then ok 0
    else count_rows db (λ r. like pattern (lower r.repository_full_name) && is_in_flight r.status)

unfoldable pub in_flight_count_for_repository : (String → String) → Db → String → Result ℕ
in_flight_count_for_repository lower db repository =
    let name = trim_space repository in
    if not db.available
    then err unavailable
    else if is_empty name
    then ok 0
    else count_rows db
        (λ r. str_eq (lower r.repository_full_name) (lower name) && is_in_flight r.status)

unfoldable pub count_states_for_profile_source :
    Db → String → List String → (Status → Bool) → Result ℕ
count_states_for_profile_source db name sources statuses = count_rows db (λ r.
    str_eq r.profile_name (trim_space name)
    && (one_of r.profile_source sources && statuses r.status))

unfoldable pub active_count_for_profile : Db → String → Result ℕ
unfolding count_states_for_profile_source
active_count_for_profile db name =
    count_states_for_profile_source db name ("" ∷ "global" ∷ []) is_active

unfoldable pub in_flight_count_for_profile : Db → String → Result ℕ
unfolding count_states_for_profile_source
in_flight_count_for_profile db name =
    count_states_for_profile_source db name ("" ∷ "global" ∷ []) is_in_flight

-- If the database opens and the owner's name is not blank, the count for an owner is the number of
-- requests in flight whose repository's name in lower case begins with the owner's name in lower case
-- and a slash, whatever characters the owner's name has.
pub owner_count-prefix :
    (to_lower lower : String → String) (db : Db) (owner : String)
    → db.available ≡ true
    → is_empty (to_lower (trim_space owner)) ≡ false
    → in_flight_count_for_repository_owner to_lower lower db owner
      ≡ ok (
          count
            (λ r.
              has_prefix
                (append_text (to_lower (trim_space owner)) "/")
                (lower r.repository_full_name)
              && is_in_flight r.status)
            db.rows)
unfolding in_flight_count_for_repository_owner
owner_count-prefix to_lower lower db owner open_ named =
    rw (open_, named)
      (ap ok (
        count-same _ _ db.rows (λ r.
          rw (like-escape (to_lower (trim_space owner)) (lower r.repository_full_name)) refl)))

active-split :
    (rows : List RunnerRequestRecord)
    → count (λ r. is_active r.status) rows
      ≡ count (λ r. is_queued r.status) rows + count (λ r. is_in_flight r.status) rows
active-split [] = refl
active-split (r ∷ rows) =
    elim r.status
      as (λ s.
        (if is_active s
          then suc (count (λ r. is_active r.status) rows)
          else count (λ r. is_active r.status) rows)
        ≡ (if is_queued s
            then suc (count (λ r. is_queued r.status) rows)
            else count (λ r. is_queued r.status) rows)
          + (if is_in_flight s
              then suc (count (λ r. is_in_flight r.status) rows)
              else count (λ r. is_in_flight r.status) rows)) [
                | queued ↦ omega (arith, active-split rows)
                | creating ↦ omega (arith, active-split rows)
                | running ↦ omega (arith, active-split rows)
                | stopping ↦ omega (arith, active-split rows)
                | completed ↦ omega (arith, active-split rows)
                | failed ↦ omega (arith, active-split rows)
                | other _ ↦ omega (arith, active-split rows)
              ]

-- If `InFlightCount` answers `n`, then `ActiveCount` answers `n` and the number of queued requests.
pub active-in_flight :
    (db : Db) (n : ℕ)
    → in_flight_count db ≡ ok n
    → active_count db ≡ ok (count (λ r. is_queued r.status) db.rows + n)
unfolding active_count in_flight_count
active-in_flight db n h = elim (Bool-cases db.available) [
  | inl t ↦ ground (arith, active-split db.rows)
  | inr f ↦ ground arith
]
