-- ===== src/Request/Display.antt =====
-- The filter of the lists of requests, `filterRunnerRequestList`, against what a row displays.
use qiniu_ci_runner.Prelude.{
  String, Bool, true, false, not, ◌&&◌, ◌||◌, Option, some, ◌≡◌, refl, sym, ap, ◌∙◌, ◌⊎◌, inl, inr,
  arith, Result, ok, Bool-cases, Option-cases, Result-cases, is_empty, str_eq, str_eq_sound,
  trim_space,
}
use qiniu_ci_runner.Request.Types.{
  Status, queued, creating, running, stopping, completed, failed, other, is_queued, is_completed,
  is_failed,
}
use qiniu_ci_runner.Request.Record.{RunnerRequestRecord}
use qiniu_ci_runner.Request.Listing.{
  RunnerRequestListOptions, is_unmatched, status_creating, status_running, status_stopping,
  with_status, display_filter, filter_runner_request_list,
}

-- The status that a row displays: a failed one whose labels no profile matched has its own.
abbrev pub display : Status → Bool → String
display queued unmatched = "queued"
display creating unmatched = "creating"
display running unmatched = "running"
display stopping unmatched = "stopping"
display completed unmatched = "completed"
display failed true = "unmatched"
display failed false = "failed"
display (other s) unmatched = ""

-- The reference: an option that is blank asks for nothing.
abbrev pub Asks : String → String → Type 0
Asks option text = (option ≡ "") ⊎ (text ≡ option)

abbrev pub Shows : (String → String) → RunnerRequestListOptions → RunnerRequestRecord → Type 0
Shows to_lower options r =
    Asks (trim_space options.repository_full_name) r.repository_full_name
    × Asks (trim_space options.profile_name) r.profile_name
    × Asks (to_lower (trim_space options.display_status)) (display r.status (is_unmatched r))

empty_sound : (s : String) → is_empty s ≡ true → s ≡ ""
empty_sound String.[] h = refl
empty_sound (String.◌∷◌ c s) h = cc

asks : (option text : String) → (is_empty option || str_eq text option) ≡ true → Asks option text
asks option text h = elim (Bool-cases (is_empty option)) [
  | inl t ↦ inl (empty_sound option t)
  | inr f ↦ inr (str_eq_sound text option (ground (arith, h, f)))
]

some_inj : (p q : Status → Bool) → ◌≡◌ {A = Option (Status → Bool)} (some p) (some q) → p ≡ q
some_inj p q h = cc

ok_inj :
    (p q : RunnerRequestRecord → Bool)
    → ◌≡◌ {A = Result (RunnerRequestRecord → Bool)} (ok p) (ok q)
    → p ≡ q
ok_inj p q h = cc

-- What each condition on the status accepts.
accepts_queued : (t : Status) (u : Bool) → is_queued t ≡ true → display t u ≡ "queued"
accepts_queued queued u h = refl
accepts_queued _ u h = cc

accepts_completed : (t : Status) (u : Bool) → is_completed t ≡ true → display t u ≡ "completed"
accepts_completed completed u h = refl
accepts_completed _ u h = cc

accepts_unmatched : (t : Status) (u : Bool) → (is_failed t && u) ≡ true → display t u ≡ "unmatched"
accepts_unmatched failed true h = refl
accepts_unmatched failed false h = cc
accepts_unmatched queued u h = cc
accepts_unmatched _ u h = cc

accepts_failed : (t : Status) (u : Bool) → (is_failed t && not u) ≡ true → display t u ≡ "failed"
accepts_failed failed true h = cc
accepts_failed failed false h = refl
accepts_failed queued u h = cc
accepts_failed _ u h = cc

accepts_creating : (t : Status) (u : Bool) → status_creating t ≡ true → display t u ≡ "creating"
accepts_creating creating u h = refl
accepts_creating _ u h = cc

accepts_running : (t : Status) (u : Bool) → status_running t ≡ true → display t u ≡ "running"
accepts_running running u h = refl
accepts_running _ u h = cc

accepts_stopping : (t : Status) (u : Bool) → status_stopping t ≡ true → display t u ≡ "stopping"
accepts_stopping stopping u h = refl
accepts_stopping _ u h = cc

named :
    (s name : String)
    → str_eq s name ≡ true
    → (t : Status) (u : Bool) → display t u ≡ name
    → display t u ≡ s
named s name e t u d = d ∙ sym (str_eq_sound s name e)

with_status_sound :
    (s : String) (p : Status → Bool) (t : Status) (u : Bool)
    → with_status s ≡ some p
    → p t ≡ true
    → display t u ≡ s
with_status_sound s p t u h k = elim (Bool-cases (str_eq s "queued")) [
  | inl e ↦ named s "queued" e t u (
      accepts_queued t u (ap (λ (f : Status → Bool). f t) (some_inj is_queued p (rw (e) at h)) ∙ k))
  | inr f_queued ↦ elim (Bool-cases (str_eq s "creating")) [
    | inl e ↦ named s "creating" e t u (
        accepts_creating t u (
          ap (λ (f : Status → Bool). f t) (some_inj status_creating p (rw (f_queued, e) at h)) ∙ k))
    | inr f_creating ↦ elim (Bool-cases (str_eq s "running")) [
      | inl e ↦ named s "running" e t u (
          accepts_running t u (
            ap (λ (f : Status → Bool). f t)
              (some_inj status_running p (rw (f_queued, f_creating, e) at h))
            ∙ k))
      | inr f_running ↦ elim (Bool-cases (str_eq s "stopping")) [
        | inl e ↦ named s "stopping" e t u (
            accepts_stopping t u (
              ap (λ (f : Status → Bool). f t)
                (some_inj status_stopping p (rw (f_queued, f_creating, f_running, e) at h))
              ∙ k))
        | inr f_stopping ↦ elim (Bool-cases (str_eq s "completed")) [
          | inl e ↦ named s "completed" e t u (
              accepts_completed t u (
                ap (λ (f : Status → Bool). f t)
                  (some_inj is_completed p
                    (rw (f_queued, f_creating, f_running, f_stopping, e) at h))
                ∙ k))
          | inr f_completed ↦
              absurd (cc (rw (f_queued, f_creating, f_running, f_stopping, f_completed) at h))
        ]
      ]
    ]
  ]
]

-- A row that the condition of a display status accepts displays that status.
display_filter_sound :
    (s : String) (p : RunnerRequestRecord → Bool) (r : RunnerRequestRecord)
    → display_filter s ≡ ok p
    → p r ≡ true
    → Asks s (display r.status (is_unmatched r))
unfolding display_filter
display_filter_sound s p r h k = elim (Bool-cases (is_empty s)) [
  | inl t ↦ inl (empty_sound s t)
  | inr f ↦ elim (Option-cases (with_status s)) [
    | inr (q, e) ↦
        let same = ok_inj (λ r. q r.status) p (rw (f, e) at h) in
        inr (
          with_status_sound s q r.status (is_unmatched r) e
            (ap (λ (g : RunnerRequestRecord → Bool). g r) same ∙ k))
    | inl e ↦ elim (Bool-cases (str_eq s "unmatched")) [
      | inl a ↦
          let same = ok_inj (λ r. is_failed r.status && is_unmatched r) p (rw (f, e, a) at h) in
          inr (
            named s "unmatched" a r.status (is_unmatched r) (
              accepts_unmatched r.status (is_unmatched r)
                (ap (λ (g : RunnerRequestRecord → Bool). g r) same ∙ k)))
      | inr a ↦ elim (Bool-cases (str_eq s "failed")) [
        | inl b ↦
            let same =
              ok_inj (λ r. is_failed r.status && not (is_unmatched r)) p (rw (f, e, a, b) at h) in
            inr (
              named s "failed" b r.status (is_unmatched r) (
                accepts_failed r.status (is_unmatched r)
                  (ap (λ (g : RunnerRequestRecord → Bool). g r) same ∙ k)))
        | inr b ↦ absurd (cc (rw (f, e, a, b) at h))
      ]
    ]
  ]
]

-- A row that the filter accepts shows what the options ask for.
pub filter_sound :
    (to_lower : String → String) (options : RunnerRequestListOptions)
    (p : RunnerRequestRecord → Bool) (r : RunnerRequestRecord)
    → filter_runner_request_list to_lower options ≡ ok p
    → p r ≡ true
    → Shows to_lower options r
unfolding filter_runner_request_list
filter_sound to_lower options p r h k =
    let repository = trim_space options.repository_full_name in
    let profile = trim_space options.profile_name in
    let status = to_lower (trim_space options.display_status) in
    elim (Result-cases (display_filter status)) [
      | inl (x, e) ↦ absurd (cc (rw (e, filter_runner_request_list) at h))
      | inr (q, e) ↦
          let same =
            ok_inj
              (λ r.
                (is_empty repository || str_eq r.repository_full_name repository)
                && ((is_empty profile || str_eq r.profile_name profile) && q r))
              p (rw (e, filter_runner_request_list) at h) in
          let all = ap (λ (g : RunnerRequestRecord → Bool). g r) same ∙ k in
          (
            asks repository r.repository_full_name (ground (arith, all)),
            asks profile r.profile_name (ground (arith, all)),
            display_filter_sound status q r e (ground (arith, all)),
          )
    ]
