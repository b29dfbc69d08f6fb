-- ===== src/Deployment/Listing.antt =====
-- `ListDeploymentsForAccount`, `ListAuthorizedDeployments`, `ListAuthorizedDeploymentsWithCounts` and
-- `CountAuthorizedDeploymentsByStatus`. The revision that a page attaches to a deployment is left out.
use qiniu_ci_runner.Prelude.{
  ℕ, String, Bool, true, not, ◌&&◌, ◌||◌, List, Result, ok, unavailable, invalid, ensure, ◌>>◌,
  ◌>>=◌, is_empty, str_eq, ◌==◌, ltb, if◌then◌else◌, select, count, sort_by, take, map, ℤ,
}
use qiniu_ci_runner.Request.Listing.{drop_rows}
use qiniu_ci_runner.Deployment.Types.{
  Status, running, completed, expired, failed, other, Deployment, DeploymentRecord,
  DeploymentRevisionRecord,
}
use qiniu_ci_runner.Deployment.Convert.{deployment_from_record}
use qiniu_ci_runner.Deployment.Normalize.{normalize_deployment_pagination}
use qiniu_ci_runner.Deployment.Store.{DeploymentDb, is_found}
use qiniu_ci_runner.Deployment.Filter.{
  deployment_list_status_values, is_unfiltered, is_shown, DeploymentStatusCounts, counts_of,
  list_total,
}
use qiniu_ci_runner.Deployment.Access.{
  GitHubInstallationRepositoryAccess, authorized_deployment_repositories,
}

pub record DeploymentListOptions : Type 0 where
  pub repository_full_name : String
  pub ref : String
  pub commit_sha : String
  pub status : String
  pub limit : ℤ
  pub offset : ℤ

-- The functions that the store does not define: `strings.ToLower`, the database's `LOWER` and order of
-- ids, and the order of Go's strings.
pub record Texts : Type 0 where
  pub to_lower : String → String
  pub lower : String → String
  pub by_text : String → String → Bool
  pub by_id : String → String → Bool

-- `deploymentRevisionListQuery`
abbrev pub lists_revision : DeploymentListOptions → DeploymentRevisionRecord → Bool
lists_revision options r =
    (is_empty options.ref || str_eq r.ref options.ref)
    && (is_empty options.commit_sha || str_eq r.commit_sha options.commit_sha)

-- Whose deployments are listed: an account's, or those that an access list authorizes.
pub data Viewer : Type 0 where
  account : ℕ → Viewer
  authorized : List GitHubInstallationRepositoryAccess → Viewer

abbrev pub is_visible : Texts → Viewer → DeploymentRecord → Bool
is_visible texts (account id) row = row.account_id == id
is_visible texts (authorized access) row =
    authorized_deployment_repositories texts.to_lower texts.lower texts.by_text access row

unfoldable pub deployment_list_query :
    Texts → Viewer → DeploymentListOptions → DeploymentDb → List DeploymentRecord
deployment_list_query texts viewer options db =
    select
      (λ (row : DeploymentRecord).
        (is_empty options.repository_full_name
          || str_eq (texts.lower row.repository_full_name)
              (texts.to_lower options.repository_full_name))
        && (((is_empty options.ref && is_empty options.commit_sha)
              || is_found
                  (λ (r : DeploymentRevisionRecord).
                    lists_revision options r && str_eq r.deployment_id row.id)
                  db.revisions)
            && is_visible texts viewer row))
      db.deployments

-- `CASE status …`
abbrev pub list_rank : Status → ℕ
list_rank running = 0
list_rank completed = 2
list_rank expired = 2
list_rank failed = 2
list_rank (other _) = 2
list_rank _ = 1

abbrev pub newer : Texts → DeploymentRecord → DeploymentRecord → Bool
newer texts a b =
    ltb b.created_at a.created_at || ((a.created_at == b.created_at) && texts.by_id b.id a.id)

abbrev pub listed_before : Texts → String → DeploymentRecord → DeploymentRecord → Bool
listed_before texts status a b =
    if is_unfiltered status
    then ltb (list_rank a.status) (list_rank b.status)
      || ((list_rank a.status == list_rank b.status) && newer texts a b)
    else newer texts a b

unfoldable pub load_deployment_page :
    Texts → DeploymentListOptions → ℕ → ℕ → List DeploymentRecord → List Deployment
unfolding deployment_from_record
load_deployment_page texts options limit offset rows =
    map deployment_from_record
      (take limit (drop_rows offset (sort_by (listed_before texts options.status) rows)))

abbrev has_account : Viewer → Bool
has_account (account id) = not (id == 0)
has_account (authorized access) = true

-- `listDeploymentsForAccount`
unfoldable pub list_deployments :
    Texts → Viewer → DeploymentListOptions → DeploymentDb → Result (List Deployment × ℕ)
unfolding normalize_deployment_pagination deployment_list_status_values deployment_list_query
    load_deployment_page
list_deployments texts viewer options db = do
  ensure db.available unavailable
  ensure (has_account viewer) (invalid "account id must be positive")
  page ← normalize_deployment_pagination options.limit options.offset
  statuses ← deployment_list_status_values options.status
  let rows = deployment_list_query texts viewer options db
  ok (
    load_deployment_page texts options page.0 page.1 (select (is_shown statuses) rows),
    count (is_shown statuses) rows,
  )

unfoldable pub list_deployments_for_account :
    Texts → ℕ → DeploymentListOptions → DeploymentDb → Result (List Deployment × ℕ)
unfolding list_deployments
list_deployments_for_account texts id options db = list_deployments texts (account id) options db

unfoldable pub list_authorized_deployments :
    Texts
    → List GitHubInstallationRepositoryAccess
    → DeploymentListOptions
    → DeploymentDb
    → Result (List Deployment × ℕ)
unfolding list_deployments
list_authorized_deployments texts access options db =
    list_deployments texts (authorized access) options db

unfoldable pub count_authorized_deployments_by_status :
    Texts
    → List GitHubInstallationRepositoryAccess
    → DeploymentListOptions
    → DeploymentDb
    → Result DeploymentStatusCounts
unfolding deployment_list_query counts_of
count_authorized_deployments_by_status texts access options db = do
  ensure db.available unavailable
  ok (counts_of (deployment_list_query texts (authorized access) options db))

unfoldable pub list_authorized_deployments_with_counts :
    Texts
    → List GitHubInstallationRepositoryAccess
    → DeploymentListOptions
    → DeploymentDb
    → Result (List Deployment × ℕ × DeploymentStatusCounts)
unfolding normalize_deployment_pagination deployment_list_status_values deployment_list_query
    load_deployment_page count_authorized_deployments_by_status list_total
list_authorized_deployments_with_counts texts access options db = do
  page ← normalize_deployment_pagination options.limit options.offset
  statuses ← deployment_list_status_values options.status
  counts ← count_authorized_deployments_by_status texts access options db
  let rows = deployment_list_query texts (authorized access) options db
  ok (
    load_deployment_page texts options page.0 page.1 (select (is_shown statuses) rows),
    list_total options.status statuses counts,
    counts,
  )
