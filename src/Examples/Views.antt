-- ===== src/Examples/Views.antt =====
-- Deployments as an access list shows them.
use qiniu_ci_runner.Prelude.{trim_space, List, [], ◌∷◌, ◌≡◌, refl, pos}
use qiniu_ci_runner.Prelude.Order.{text_before}
use qiniu_ci_runner.Deployment.Convert.{record_of}
use qiniu_ci_runner.Deployment.Store.{is_found}
use qiniu_ci_runner.Deployment.Access.{
  GitHubInstallationRepositoryAccess, authorized_deployment_repositories,
}
use qiniu_ci_runner.Deployment.Authorized.{authorized_iff, names_repository}
use qiniu_ci_runner.Deployment.Listing.{
  Texts, DeploymentListOptions, list_authorized_deployments,
  list_authorized_deployments_with_counts,
}
use qiniu_ci_runner.Deployment.Polling.{with_counts_same, without_counts}
use qiniu_ci_runner.Examples.Deployments.{row, one_db}

-- Names in lower case already.
abbrev texts : Texts
texts = record { to_lower = λ s. s; lower = λ s. s; by_text = text_before; by_id = text_before }

-- The installation of the deployment twice, and one that is unknown.
abbrev access : List GitHubInstallationRepositoryAccess
access =
    record { installation_id = 2; repositories = " a/b" ∷ [] }
    ∷ record { installation_id = 0; repositories = "o/r" ∷ [] }
    ∷ record { installation_id = 2; repositories = "o/r " ∷ "o/r" ∷ "" ∷ [] }
    ∷ []

abbrev options : DeploymentListOptions
options = record {
  repository_full_name = "";
  ref = "";
  commit_sha = "";
  status = "processing,failed";
  limit = pos 10;
  offset = pos 0;
}

with_counts_same_example :
    without_counts (list_authorized_deployments_with_counts texts access options one_db)
    ≡ list_authorized_deployments texts access options one_db
with_counts_same_example = with_counts_same texts access options one_db refl

authorized_iff_example :
    authorized_deployment_repositories texts.to_lower texts.lower texts.by_text access row
    ≡ is_found (names_repository texts.to_lower 2 "o/r") access
unfolding record_of trim_space
authorized_iff_example = authorized_iff texts.to_lower texts.lower texts.by_text access row
