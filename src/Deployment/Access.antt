-- ===== src/Deployment/Access.antt =====
-- `uniqueLowerTrimmed`, `normalizeGitHubInstallationRepositoryAccess` and
-- `authorizedDeploymentRepositories`. A map is a list of pairs, its keys in the order of insertion;
-- `to_lower` is `strings.ToLower`, `lower` the database's `LOWER`, `by_text` the order of Go's strings.
use qiniu_ci_runner.Prelude.{
  ℕ, String, Bool, true, false, ◌&&◌, ◌||◌, List, [], ◌∷◌, ◌++◌, is_empty, str_eq, trim_space, ◌==◌,
  ltb, if◌then◌else◌, select, sort_by, map,
}
use qiniu_ci_runner.Deployment.Types.{DeploymentRecord}
use qiniu_ci_runner.Deployment.Store.{is_found}

pub record GitHubInstallationRepositoryAccess : Type 0 where
  pub installation_id : ℕ
  pub repositories : List String

abbrev pub is_text_in : String → List String → Bool
is_text_in s texts = is_found (str_eq s) texts

-- The loop, with the values already seen.
unfoldable pub unique_from : (String → String) → List String → List String → List String
unique_from to_lower seen [] = []
unique_from to_lower seen (value ∷ values) =
    let name = to_lower (trim_space value) in
    let skipped = is_empty name || is_text_in name seen in
    let rest = unique_from to_lower (if skipped then seen else name ∷ seen) values in
    if skipped then rest else name ∷ rest

unfoldable pub unique_lower_trimmed : (String → String) → List String → List String
unfolding unique_from
unique_lower_trimmed to_lower values = unique_from to_lower [] values

-- The keys of a set with those of a list.
abbrev pub add_texts : List String → List String → List String
add_texts set [] = set
add_texts set (s ∷ texts) = add_texts (if is_text_in s set then set else set ++ s ∷ []) texts

-- The set of an installation, made where there is none, with more repositories.
unfoldable pub grant : ℕ → List String → List (ℕ × List String) → List (ℕ × List String)
grant id names [] = (id, add_texts [] names) ∷ []
grant id names (g ∷ groups) =
    let rest = grant id names groups in
    if g.0 == id then (g.0, add_texts g.1 names) ∷ groups else g ∷ rest

unfoldable pub repositories_by_installation :
    (String → String)
    → List GitHubInstallationRepositoryAccess
    → List (ℕ × List String)
    → List (ℕ × List String)
unfolding grant unique_lower_trimmed
repositories_by_installation to_lower [] groups = groups
repositories_by_installation to_lower (item ∷ items) groups =
    repositories_by_installation to_lower items (
      if item.installation_id == 0
      then groups
      else grant item.installation_id (unique_lower_trimmed to_lower item.repositories) groups)

abbrev pub lower_installation : ℕ × List String → ℕ × List String → Bool
lower_installation a b = ltb a.0 b.0

abbrev pub has_repositories : ℕ × List String → Bool
has_repositories (id, []) = false
has_repositories (id, s ∷ names) = true

abbrev pub access_of :
    (String → String → Bool) → ℕ × List String → GitHubInstallationRepositoryAccess
access_of by_text (id, names) = record {
  installation_id = id;
  repositories = sort_by by_text names;
}

unfoldable pub normalize_github_installation_repository_access :
    (String → String)
    → (String → String → Bool)
    → List GitHubInstallationRepositoryAccess
    → List GitHubInstallationRepositoryAccess
unfolding repositories_by_installation
normalize_github_installation_repository_access to_lower by_text access = map (access_of by_text) (
    sort_by lower_installation
      (select has_repositories (repositories_by_installation to_lower access [])))

-- The disjunction that the query asks for.
unfoldable pub authorized_deployment_repositories :
    (String → String)
    → (String → String)
    → (String → String → Bool)
    → List GitHubInstallationRepositoryAccess
    → DeploymentRecord
    → Bool
unfolding normalize_github_installation_repository_access
authorized_deployment_repositories to_lower lower by_text access row =
    is_found
      (λ (item : GitHubInstallationRepositoryAccess).
        (row.github_installation_id == item.installation_id)
        && is_text_in (lower row.repository_full_name) item.repositories)
      (normalize_github_installation_repository_access to_lower by_text access)
