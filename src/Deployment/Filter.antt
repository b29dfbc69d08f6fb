-- ===== src/Deployment/Filter.antt =====
-- `DeploymentListStatusValues`, `CountAuthorizedDeploymentsByStatus` and the total of
-- `ListAuthorizedDeploymentsWithCounts`, on the rows that the other filters leave.
use qiniu_ci_runner.Prelude.{
  ℕ, ◌+◌, String, Bool, true, false, ◌&&◌, ◌||◌, List, [], ◌∷◌, ◌++◌, Option, none, some, Result,
  ok, err, bad_filter, ◌>>=◌, is_empty, str_eq, ◌==◌, if◌then◌else◌, split,
}
use qiniu_ci_runner.Deployment.Types.{
  Status, queued, planning, creating, running, stopping, completed, expired, failed, other,
  DeploymentRecord,
}
use qiniu_ci_runner.Deployment.Store.{is_found}

abbrev pub status_code : Status → ℕ
status_code queued = 0
status_code planning = 1
status_code creating = 2
status_code running = 3
status_code stopping = 4
status_code completed = 5
status_code expired = 6
status_code failed = 7
status_code (other s) = 8

abbrev pub status_text : Status → String
status_text (other s) = s
status_text _ = ""

-- Statuses are compared as texts are.
abbrev pub same_status : Status → Status → Bool
same_status s t = (status_code s == status_code t) && str_eq (status_text s) (status_text t)

abbrev pub is_one_of : List Status → Status → Bool
is_one_of statuses s = is_found (same_status s) statuses

abbrev pub running_statuses : List Status
running_statuses = running ∷ []

abbrev pub processing_statuses : List Status
processing_statuses = queued ∷ planning ∷ creating ∷ stopping ∷ []

abbrev pub stopped_statuses : List Status
stopped_statuses = completed ∷ expired ∷ []

abbrev pub failed_statuses : List Status
failed_statuses = failed ∷ []

abbrev pub status_group : String → Option (List Status)
status_group g =
    if str_eq g "running"
    then some running_statuses
    else if str_eq g "processing"
    then some processing_statuses
    else if str_eq g "stopped"
    then some stopped_statuses
    else if str_eq g "failed"
    then some failed_statuses
    else none

-- The loop over the groups, with those already seen.
unfoldable pub group_statuses : List String → List String → Result (List Status)
group_statuses seen [] = ok []
group_statuses seen (g ∷ gs) =
    if is_found (str_eq g) seen then err bad_filter else elim (status_group g) [
      | none ↦ err bad_filter
      | some statuses ↦ do rest ← group_statuses (g ∷ seen) gs; ok (statuses ++ rest)
    ]

abbrev pub is_unfiltered : String → Bool
is_unfiltered status = is_empty status || str_eq status "all"

unfoldable pub deployment_list_status_values : String → Result (List Status)
unfolding group_statuses
deployment_list_status_values status =
    if is_unfiltered status then ok [] else group_statuses [] (split 44 status)

pub record DeploymentStatusCounts : Type 0 where
  pub all : ℕ
  pub running : ℕ
  pub processing : ℕ
  pub stopped : ℕ
  pub failed : ℕ

-- `SELECT status, COUNT(*) … GROUP BY status`
unfoldable pub tally : Status → List (Status × ℕ) → List (Status × ℕ)
tally s [] = (s, 1) ∷ []
tally s (g ∷ gs) =
    let rest = tally s gs in if same_status s g.0 then (g.0, g.1 + 1) ∷ gs else g ∷ rest

unfoldable pub group_by_status : List DeploymentRecord → List (Status × ℕ)
unfolding tally
group_by_status [] = []
group_by_status (row ∷ rows) = tally row.status (group_by_status rows)

-- The sum of the totals of some statuses.
unfoldable pub total_where : (Status → Bool) → List (Status × ℕ) → ℕ
total_where p [] = 0
total_where p (g ∷ gs) = (if p g.0 then g.1 else 0) + total_where p gs

-- The cases of the loop's switch.
abbrev pub is_counted_running : Status → Bool
is_counted_running running = true
is_counted_running _ = false

abbrev pub is_counted_processing : Status → Bool
is_counted_processing queued = true
is_counted_processing planning = true
is_counted_processing creating = true
is_counted_processing stopping = true
is_counted_processing _ = false

abbrev pub is_counted_stopped : Status → Bool
is_counted_stopped completed = true
is_counted_stopped expired = true
is_counted_stopped _ = false

abbrev pub is_counted_failed : Status → Bool
is_counted_failed failed = true
is_counted_failed _ = false

-- The loop over the groups, a sum for each field.
unfoldable pub counts_of : List DeploymentRecord → DeploymentStatusCounts
unfolding group_by_status total_where
counts_of rows =
    let groups = group_by_status rows in
    record {
      all = total_where (λ _. true) groups;
      running = total_where is_counted_running groups;
      processing = total_where is_counted_processing groups;
      stopped = total_where is_counted_stopped groups;
      failed = total_where is_counted_failed groups;
    }

abbrev pub group_count : DeploymentStatusCounts → String → ℕ
group_count counts g =
    if str_eq g "running"
    then counts.running
    else if str_eq g "processing"
    then counts.processing
    else if str_eq g "stopped"
    then counts.stopped
    else if str_eq g "failed"
    then counts.failed
    else 0

unfoldable pub sum_groups : DeploymentStatusCounts → List String → ℕ
sum_groups counts [] = 0
sum_groups counts (g ∷ gs) = group_count counts g + sum_groups counts gs

-- The total that goes with a page, from the counts alone.
unfoldable pub list_total : String → List Status → DeploymentStatusCounts → ℕ
unfolding sum_groups
list_total status [] counts = counts.all
list_total status (s ∷ statuses) counts = sum_groups counts (split 44 status)

-- The filter by status of a page.
abbrev pub is_shown : List Status → DeploymentRecord → Bool
is_shown [] row = true
is_shown (s ∷ statuses) row = is_one_of (s ∷ statuses) row.status
