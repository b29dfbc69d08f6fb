-- ===== src/Deployment/Groups.antt =====
-- The groups of the status filter, and what the grouped counts hold for each.
use qiniu_ci_runner.Prelude.{
  ℕ, ◌+◌, String, Bool, true, false, List, [], ◌∷◌, ◌≡◌, refl, sym, ap, subst, ◌∙◌, inl, inr, arith,
  Option, some, str_eq, str_eq_sound, ◌==◌, if◌then◌else◌, count, count-same, Bool-cases,
}
use qiniu_ci_runner.Deployment.Types.{
  Status, queued, planning, creating, running, stopping, completed, expired, failed, other,
  DeploymentRecord,
}
use qiniu_ci_runner.Deployment.Filter.{
  same_status, status_code, status_text, is_one_of, running_statuses, processing_statuses,
  stopped_statuses, failed_statuses, status_group, tally, group_by_status, total_where, counts_of,
  group_count, is_counted_running, is_counted_processing, is_counted_stopped, is_counted_failed,
}

-- The group that a status is shown in.
abbrev pub group_name : Status → String
group_name queued = "processing"
group_name planning = "processing"
group_name creating = "processing"
group_name running = "running"
group_name stopping = "processing"
group_name completed = "stopped"
group_name expired = "stopped"
group_name failed = "failed"
group_name (other _) = ""

abbrev decoded : ℕ → String → Status
decoded n t =
    if n == 0
    then queued
    else if n == 1
    then planning
    else if n == 2
    then creating
    else if n == 3
    then running
    else if n == 4
    then stopping
    else if n == 5
    then completed
    else if n == 6
    then expired
    else if n == 7
    then failed
    else other t

decode : (s : Status) → decoded (status_code s) (status_text s) ≡ s
decode queued = refl
decode planning = refl
decode creating = refl
decode running = refl
decode stopping = refl
decode completed = refl
decode expired = refl
decode failed = refl
decode (other t) = refl

same_status_sound : (s t : Status) → same_status s t ≡ true → s ≡ t
same_status_sound s t h =
    let codes : status_code s ≡ status_code t = ground (arith, h) in
    let texts : status_text s ≡ status_text t =
      str_eq_sound (status_text s) (status_text t) (ground (arith, h)) in
    sym (decode s)
    ∙ ap (λ n. decoded n (status_text s)) codes
    ∙ ap (λ x. decoded (status_code t) x) texts
    ∙ decode t

abbrev bit : Bool → ℕ
bit true = 1
bit false = 0

total_where-tally :
    (p : Status → Bool) (s : Status) (gs : List (Status × ℕ))
    → total_where p (tally s gs) ≡ total_where p gs + bit (p s)
unfolding total_where tally
total_where-tally p s [] = ground arith
total_where-tally p s (g ∷ gs) = elim (Bool-cases (same_status s g.0)) [
  | inl t ↦ let same = ap p (same_status_sound s g.0 t) in ground (arith, t, same)
  | inr f ↦ ground (arith, f, total_where-tally p s gs)
]

pub total_where-count :
    (p : Status → Bool) (rows : List DeploymentRecord)
    → total_where p (group_by_status rows) ≡ count (λ (row : DeploymentRecord). p row.status) rows
unfolding group_by_status total_where
total_where-count p [] = refl
total_where-count p (row ∷ rows) =
    total_where-tally p row.status (group_by_status rows) ∙ ground (arith, total_where-count p rows)

running_sound : (s : Status) → is_one_of running_statuses s ≡ str_eq "running" (group_name s)
running_sound queued = refl
running_sound _ = refl

processing_sound :
    (s : Status) → is_one_of processing_statuses s ≡ str_eq "processing" (group_name s)
processing_sound queued = refl
processing_sound _ = refl

stopped_sound : (s : Status) → is_one_of stopped_statuses s ≡ str_eq "stopped" (group_name s)
stopped_sound queued = refl
stopped_sound _ = refl

failed_sound : (s : Status) → is_one_of failed_statuses s ≡ str_eq "failed" (group_name s)
failed_sound queued = refl
failed_sound _ = refl

counted_running : (s : Status) → is_counted_running s ≡ str_eq "running" (group_name s)
counted_running queued = refl
counted_running _ = refl

counted_processing : (s : Status) → is_counted_processing s ≡ str_eq "processing" (group_name s)
counted_processing queued = refl
counted_processing _ = refl

counted_stopped : (s : Status) → is_counted_stopped s ≡ str_eq "stopped" (group_name s)
counted_stopped queued = refl
counted_stopped _ = refl

counted_failed : (s : Status) → is_counted_failed s ≡ str_eq "failed" (group_name s)
counted_failed queued = refl
counted_failed _ = refl

-- A group of the filter, by its name.
pub data IsGroup : String → List Status → Type 0 where
  shows_running : IsGroup "running" running_statuses
  shows_processing : IsGroup "processing" processing_statuses
  shows_stopped : IsGroup "stopped" stopped_statuses
  shows_failed : IsGroup "failed" failed_statuses

some_inj : (a b : List Status) → ◌≡◌ {A = Option (List Status)} (some a) (some b) → a ≡ b
some_inj a b h = cc

pub status_group-IsGroup : (g : String) (ss : List Status) → status_group g ≡ some ss → IsGroup g ss
status_group-IsGroup g ss h = elim (Bool-cases (str_eq g "running")) [
  | inl t ↦
      subst (λ x. IsGroup x ss) (sym (str_eq_sound g "running" t))
        (subst (IsGroup "running") (some_inj _ ss (rw (t) at h)) shows_running)
  | inr a ↦ elim (Bool-cases (str_eq g "processing")) [
    | inl t ↦
        subst (λ x. IsGroup x ss) (sym (str_eq_sound g "processing" t))
          (subst (IsGroup "processing") (some_inj _ ss (rw (a, t) at h)) shows_processing)
    | inr b ↦ elim (Bool-cases (str_eq g "stopped")) [
      | inl t ↦
          subst (λ x. IsGroup x ss) (sym (str_eq_sound g "stopped" t))
            (subst (IsGroup "stopped") (some_inj _ ss (rw (a, b, t) at h)) shows_stopped)
      | inr c ↦ elim (Bool-cases (str_eq g "failed")) [
        | inl t ↦
            subst (λ x. IsGroup x ss) (sym (str_eq_sound g "failed" t))
              (subst (IsGroup "failed") (some_inj _ ss (rw (a, b, c, t) at h)) shows_failed)
        | inr d ↦ absurd (cc (rw (a, b, c, d) at h))
      ]
    ]
  ]
]

pub IsGroup-is_one_of :
    (g : String) (ss : List Status)
    → IsGroup g ss
    → (s : Status) → is_one_of ss s ≡ str_eq g (group_name s)
IsGroup-is_one_of _ _ shows_running s = running_sound s
IsGroup-is_one_of _ _ shows_processing s = processing_sound s
IsGroup-is_one_of _ _ shows_stopped s = stopped_sound s
IsGroup-is_one_of _ _ shows_failed s = failed_sound s

pub IsGroup-group_count :
    (g : String) (ss : List Status) (rows : List DeploymentRecord)
    → IsGroup g ss
    → group_count (counts_of rows) g
      ≡ count (λ (row : DeploymentRecord). str_eq g (group_name row.status)) rows
unfolding counts_of
IsGroup-group_count _ _ rows shows_running =
    total_where-count is_counted_running rows
    ∙ count-same (λ (row : DeploymentRecord). is_counted_running row.status)
        (λ (row : DeploymentRecord). str_eq "running" (group_name row.status)) rows
        (λ row. counted_running row.status)
IsGroup-group_count _ _ rows shows_processing =
    total_where-count is_counted_processing rows
    ∙ count-same (λ (row : DeploymentRecord). is_counted_processing row.status)
        (λ (row : DeploymentRecord). str_eq "processing" (group_name row.status)) rows
        (λ row. counted_processing row.status)
IsGroup-group_count _ _ rows shows_stopped =
    total_where-count is_counted_stopped rows
    ∙ count-same (λ (row : DeploymentRecord). is_counted_stopped row.status)
        (λ (row : DeploymentRecord). str_eq "stopped" (group_name row.status)) rows
        (λ row. counted_stopped row.status)
IsGroup-group_count _ _ rows shows_failed =
    total_where-count is_counted_failed rows
    ∙ count-same (λ (row : DeploymentRecord). is_counted_failed row.status)
        (λ (row : DeploymentRecord). str_eq "failed" (group_name row.status)) rows
        (λ row. counted_failed row.status)
