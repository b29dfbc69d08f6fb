-- ===== src/Deployment/Work.antt =====
-- `ListDeploymentWork` and `ListActiveDeployments`: a page of the deployments that a lane has work on,
-- in the order of their ids. A limit of 0 stands for every limit below 1.
use qiniu_ci_runner.Prelude.{
  ℕ, suc, String, Bool, true, false, not, ◌&&◌, ◌||◌, List, [], ◌∷◌, ◌++◌, Result, ok, err, invalid,
  unavailable, is_empty, str_eq, ◌==◌, leb, ltb, if◌then◌else◌, select, sort_by, take, length, map,
}
use qiniu_ci_runner.Request.Types.{Time, is_zero}
use qiniu_ci_runner.Deployment.Types.{
  Status, queued, planning, creating, running, stopping, is_active, is_failed, Deployment,
  DeploymentRecord,
}
use qiniu_ci_runner.Deployment.Convert.{deployment_from_record}
use qiniu_ci_runner.Deployment.Store.{DeploymentDb, is_found}

-- queued, planning or creating
abbrev pub is_starting : Status → Bool
is_starting queued = true
is_starting planning = true
is_starting creating = true
is_starting _ = false

abbrev pub is_running : Status → Bool
is_running running = true
is_running _ = false

abbrev pub is_stopping : Status → Bool
is_stopping stopping = true
is_stopping _ = false

-- `id ASC`
abbrev pub by_row_id : (String → String → Bool) → DeploymentRecord → DeploymentRecord → Bool
by_row_id by_id a b = by_id a.id b.id

abbrev pub ids_of : List DeploymentRecord → List String
ids_of [] = []
ids_of (row ∷ rows) = row.id ∷ ids_of rows

-- `workIDs`: the first ids past a cursor of the rows that meet a predicate.
abbrev pub work_ids :
    (String → String → Bool)
    → String
    → ℕ
    → (DeploymentRecord → Bool)
    → List DeploymentRecord
    → List String
work_ids by_id after limit p rows = ids_of (
    take (suc limit) (
      sort_by (by_row_id by_id)
        (select (λ (row : DeploymentRecord). p row && by_id after row.id) rows)))

abbrev pub is_candidate : List String → DeploymentRecord → Bool
is_candidate ids row = is_found (λ id. str_eq row.id id) ids

abbrev pub left_over : DeploymentRecord → Bool
left_over row = is_failed row.status && not (is_empty row.sandbox_id)

abbrev pub has_expired : Time → DeploymentRecord → Bool
has_expired now row = (is_starting row.status || is_running row.status) && leb row.expires_at now

-- The predicate of a lane, on the ids that the branches of its union give.
abbrev pub is_work :
    (String → String → Bool)
    → String
    → String
    → ℕ
    → Time
    → List DeploymentRecord
    → DeploymentRecord
    → Bool
is_work by_id kind after limit now rows row =
    let ids = work_ids by_id after limit in
    if str_eq kind "provision"
    then is_starting row.status && ltb now row.expires_at
    else if str_eq kind "monitor"
    then is_running row.status && ltb now row.expires_at
    else if str_eq kind "cleanup"
    then is_candidate
        (ids (λ (r : DeploymentRecord). is_stopping r.status) rows
          ++ (ids left_over rows ++ ids (has_expired now) rows))
        row
    else is_candidate
        (ids (λ (r : DeploymentRecord). is_active r.status) rows ++ ids left_over rows) row

abbrev pub is_kind : String → Bool
is_kind kind =
    str_eq kind "provision"
    || (str_eq kind "monitor" || (str_eq kind "cleanup" || str_eq kind "all"))

-- The rows of a page, one more than its limit where there are more.
unfoldable pub work_rows :
    (String → String → Bool)
    → String
    → String
    → ℕ
    → Time
    → List DeploymentRecord
    → List DeploymentRecord
work_rows by_id kind after limit now rows = take (suc limit) (
    sort_by (by_row_id by_id) (
      select
        (λ (row : DeploymentRecord).
          is_work by_id kind after limit now rows row && (is_empty after || by_id after row.id))
        rows))

unfoldable pub list_deployment_work :
    (String → String → Bool)
    → String
    → String
    → ℕ
    → Time
    → DeploymentDb
    → Result (List Deployment × Bool)
unfolding work_rows deployment_from_record
list_deployment_work by_id kind after limit now db =
    let found = work_rows by_id kind after limit now db.deployments in
    if not db.available
    then err unavailable
    else if (limit == 0) || (ltb 100 limit || is_zero now)
    then err (invalid "invalid deployment work page")
    else if not (is_kind kind)
    then err (invalid "invalid deployment work kind")
    else ok (map deployment_from_record (take limit found), ltb limit (length found))

unfoldable pub list_active_deployments :
    (String → String → Bool) → Time → DeploymentDb → Result (List Deployment)
unfolding list_deployment_work
list_active_deployments by_id now db = elim (list_deployment_work by_id "all" "" 100 now db) [
  | ok page ↦ ok page.0
  | err e ↦ err e
]
