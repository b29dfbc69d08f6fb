-- ===== src/Deployment/Polling.antt =====
-- A poll of the list reads its total from the counts by status.
use qiniu_ci_runner.Prelude.{ℕ, true, List, ◌≡◌, inl, inr, Result, ok, err, Result-cases}
use qiniu_ci_runner.Deployment.Types.{Deployment}
use qiniu_ci_runner.Deployment.Normalize.{normalize_deployment_pagination}
use qiniu_ci_runner.Deployment.Store.{DeploymentDb}
use qiniu_ci_runner.Deployment.Filter.{deployment_list_status_values, DeploymentStatusCounts}
use qiniu_ci_runner.Deployment.Access.{GitHubInstallationRepositoryAccess}
use qiniu_ci_runner.Deployment.Totals.{list_total-count}
use qiniu_ci_runner.Deployment.Listing.{
  Texts, DeploymentListOptions, authorized, deployment_list_query, list_deployments,
  list_authorized_deployments, count_authorized_deployments_by_status,
  list_authorized_deployments_with_counts,
}

-- A listing with its counts, without them.
abbrev pub without_counts :
    Result (List Deployment × ℕ × DeploymentStatusCounts) → Result (List Deployment × ℕ)
without_counts (ok (items, total, counts)) = ok (items, total)
without_counts (err e) = err e

-- Where the tables open, the listing that reads its total from the counts by status has the items, the
-- total and the errors of the listing that counts the rows of its filter.
pub with_counts_same :
    (texts : Texts) (access : List GitHubInstallationRepositoryAccess)
    (options : DeploymentListOptions) (db : DeploymentDb)
    → db.available ≡ true
    → without_counts (list_authorized_deployments_with_counts texts access options db)
      ≡ list_authorized_deployments texts access options db
unfolding list_authorized_deployments list_authorized_deployments_with_counts list_deployments
    count_authorized_deployments_by_status
with_counts_same texts access options db ready =
    elim (Result-cases (normalize_deployment_pagination options.limit options.offset)) [
      | inl (e, p) ↦ simp (ready, p)
      | inr (page, p) ↦ elim (Result-cases (deployment_list_status_values options.status)) [
        | inl (e, s) ↦ simp (ready, p, s)
        | inr (statuses, s) ↦
            let rows = deployment_list_query texts (authorized access) options db in
            simp (ready, p, s, list_total-count options.status statuses rows s)
      ]
    ]
