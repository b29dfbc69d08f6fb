-- ===== src/Deployment/Titles.antt =====
-- `FillDeploymentPullRequestTitle`. A column holds a text, never NULL.
use Prim.Native.Char.{code}
use qiniu_ci_runner.Prelude.{
  String, Bool, true, false, not, ◌&&◌, ◌||◌, List, [], ◌∷◌, Result, ok, invalid, ensure, ◌>>◌,
  trim_space, is_empty, str_eq, leb, ltb, has_control, byte_len, split, update_where,
}
use qiniu_ci_runner.Deployment.Types.{DeploymentRecord, DeploymentRevisionRecord}
use qiniu_ci_runner.Deployment.Store.{DeploymentDb, opened, has_id}

abbrev is_digits : String → Bool
is_digits String.[] = true
is_digits (String.◌∷◌ c s) = leb 48 (code c) && (leb (code c) 57 && is_digits s)

-- `[1-9][0-9]*`
abbrev is_positive_number : String → Bool
is_positive_number String.[] = false
is_positive_number (String.◌∷◌ c s) = leb 49 (code c) && (leb (code c) 57 && is_digits s)

abbrev is_pull_path : List String → Bool
is_pull_path (a ∷ b ∷ n ∷ d ∷ []) =
    str_eq a "refs" && (str_eq b "pull" && (is_positive_number n && str_eq d "head"))
is_pull_path _ = false

-- `^refs/pull/[1-9][0-9]*/head$`
abbrev pub is_pull_ref : String → Bool
is_pull_ref ref = is_pull_path (split 47 ref)

abbrev pub bad_title : String → String → String → Bool
bad_title id ref title =
    is_empty id
    || (not (is_pull_ref ref)
        || (is_empty title || (ltb 1024 (byte_len title) || has_control title)))

abbrev pub is_untitled : String → String → DeploymentRecord → Bool
is_untitled id ref row = has_id id row && (str_eq row.ref ref && is_empty row.pull_request_title)

abbrev pub is_untitled_revision : String → String → DeploymentRevisionRecord → Bool
is_untitled_revision id ref r =
    str_eq r.deployment_id id && (str_eq r.ref ref && is_empty r.pull_request_title)

abbrev pub titled : String → DeploymentRecord → DeploymentRecord
titled title row = record row { pull_request_title = title }

abbrev pub titled_revision : String → DeploymentRevisionRecord → DeploymentRevisionRecord
titled_revision title r = record r { pull_request_title = title }

-- The transaction, on trimmed texts.
abbrev pub with_title : String → String → String → DeploymentDb → DeploymentDb
with_title id ref title db = record db {
  deployments = update_where (is_untitled id ref) (titled title) db.deployments;
  revisions = update_where (is_untitled_revision id ref) (titled_revision title) db.revisions;
}

unfoldable pub fill_deployment_pull_request_title :
    String → String → String → DeploymentDb → DeploymentDb × Result (Unit {0})
fill_deployment_pull_request_title id ref title db = opened db (
    ensure (not (bad_title (trim_space id) (trim_space ref) (trim_space title)))
      (invalid "deployment pull request title is invalid")
    >> ok (with_title (trim_space id) (trim_space ref) (trim_space title) db, tt))
