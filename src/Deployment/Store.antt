-- ===== src/Deployment/Store.antt =====
-- `CreateDeployment`, `CreateDeploymentWithScopeLimit` and `GetDeployment`. A transaction is a result
-- with the tables that it leaves; an error leaves the tables as they were.
use qiniu_ci_runner.Prelude.{
  ℕ, zero, suc, String, Bool, false, not, ◌&&◌, ◌||◌, List, [], ◌∷◌, ◌++◌, none, some, Result, ok,
  err, unavailable, not_found, quota_exceeded, invalid_scope, duplicate, ensure, ◌>>◌, ◌>>=◌,
  trim_space, is_empty, str_eq, ◌==◌, leb, if◌then◌else◌, find, select, take, length,
}
use qiniu_ci_runner.Request.Types.{Time, is_zero}
use qiniu_ci_runner.Deployment.Types.{
  queued, is_active, is_failed, Deployment, DeploymentRecord, DeploymentRevisionRecord,
  DeploymentEventRecord,
}
use qiniu_ci_runner.Deployment.Convert.{
  apply_deployment_timestamps, record_of, deployment_from_record, revision_record_from_deployment,
}
use qiniu_ci_runner.Deployment.Normalize.{normalize_deployment, is_unset}

-- The tables of deployments, and the ids of the accounts and installations that a scope may name.
pub record DeploymentDb : Type 0 where
  pub available : Bool
  pub deployments : List DeploymentRecord
  pub revisions : List DeploymentRevisionRecord
  pub events : List DeploymentEventRecord
  pub next_event : ℕ
  pub accounts : List ℕ
  pub installations : List ℕ

abbrev pub transaction {ℓ} :
    {A : Type ℓ} → DeploymentDb → Result (DeploymentDb × A) → DeploymentDb × Result A
transaction db (err e) = (db, err e)
transaction db (ok (db', a)) = (db', ok a)

-- `dbOrEnsure`, then a transaction.
abbrev pub opened {ℓ} :
    {A : Type ℓ} → DeploymentDb → Result (DeploymentDb × A) → DeploymentDb × Result A
opened db r = if db.available then transaction db r else (db, err unavailable)

abbrev pub has_id : String → DeploymentRecord → Bool
has_id id row = str_eq row.id id

abbrev pub at_number : String → ℕ → DeploymentRevisionRecord → Bool
at_number id number r = str_eq r.deployment_id id && (r.number == number)

abbrev pub is_found {ℓ} : {A : Type ℓ} → (A → Bool) → List A → Bool
is_found p [] = false
is_found p (x ∷ xs) = p x || is_found p xs

-- The primary key of deployments.
unfoldable pub insert_deployment : DeploymentRecord → DeploymentDb → Result DeploymentDb
insert_deployment row db =
    if is_found (has_id row.id) db.deployments
    then err duplicate
    else ok (record db { deployments = db.deployments ++ row ∷ [] })

-- The primary key of revisions, and their unique deployment and number.
abbrev pub clashes : DeploymentRevisionRecord → DeploymentRevisionRecord → Bool
clashes r q = str_eq q.id r.id || at_number r.deployment_id r.number q

unfoldable pub insert_revision : DeploymentRevisionRecord → DeploymentDb → Result DeploymentDb
insert_revision r db =
    if is_found (clashes r) db.revisions
    then err duplicate
    else ok (record db { revisions = db.revisions ++ r ∷ [] })

-- The times and the status that a new deployment is given.
abbrev pub completed_with : Time → Deployment → Deployment
completed_with now d =
    let created_at = if is_zero d.created_at then now else d.created_at in
    record d {
      created_at = created_at;
      updated_at = if is_zero d.updated_at then created_at else d.updated_at;
      status = if is_unset d.status then queued else d.status;
    }

unfoldable pub new_record : Time → Deployment → DeploymentRecord
unfolding record_of apply_deployment_timestamps
new_record now d = apply_deployment_timestamps (record_of (completed_with now d)) now

-- `createDeployment`
unfoldable pub create_row : Time → Deployment → DeploymentDb → Result (DeploymentDb × Deployment)
unfolding normalize_deployment new_record insert_deployment insert_revision
    revision_record_from_deployment
create_row now d db = do
  normal ← normalize_deployment (record d { revision_number = 1 })
  let row = new_record now normal
  with_row ← insert_deployment row db
  with_revision ← insert_revision (revision_record_from_deployment row row.created_at) with_row
  ok (with_revision, deployment_from_record row)

unfoldable pub create_deployment :
    Time → Deployment → DeploymentDb → DeploymentDb × Result Deployment
unfolding create_row
create_deployment now d db = opened db (create_row now d db)

abbrev pub is_listed : ℕ → List ℕ → Bool
is_listed n ns = is_found (λ m. m == n) ns

unfoldable pub lock_deployment_scope : Deployment → DeploymentDb → Result (Unit {0})
lock_deployment_scope d db =
    if str_eq d.scope_type "account"
    then ensure (is_listed d.scope_id db.accounts) not_found
    else if str_eq d.scope_type "github_installation"
    then ensure (is_listed d.scope_id db.installations) not_found
    else err invalid_scope

-- A deployment that takes a place in its scope: an active one, or a failed one whose Sandbox is left.
abbrev pub takes_place : DeploymentRecord → Bool
takes_place row = is_active row.status || (is_failed row.status && not (is_empty row.sandbox_id))

abbrev pub in_scope : String → ℕ → DeploymentRecord → Bool
in_scope scope_type scope_id row = str_eq row.scope_type scope_type && (row.scope_id == scope_id)

abbrev pub occupies : String → ℕ → DeploymentRecord → Bool
occupies scope_type scope_id row = in_scope scope_type scope_id row && takes_place row

-- `excludeID`; the empty text excludes nothing.
abbrev pub is_other : String → DeploymentRecord → Bool
is_other exclude row = is_empty exclude || not (has_id exclude row)

-- A limit of 0, for every limit below 1, stands for 3.
abbrev pub place_limit : ℕ → ℕ
place_limit zero = 3
place_limit (suc n) = suc n

unfoldable pub check_deployment_quota : Deployment → ℕ → String → DeploymentDb → Result (Unit {0})
unfolding lock_deployment_scope
check_deployment_quota d max_concurrent exclude db = do
  lock_deployment_scope d db
  let places = place_limit max_concurrent
  let active =
      select
        (λ (row : DeploymentRecord). occupies d.scope_type d.scope_id row && is_other exclude row)
        db.deployments
  ensure (not (leb places (length (take places active)))) quota_exceeded

unfoldable pub create_deployment_with_scope_limit :
    Time → Deployment → ℕ → DeploymentDb → DeploymentDb × Result Deployment
unfolding check_deployment_quota create_row
create_deployment_with_scope_limit now d max_concurrent db =
    opened db (do check_deployment_quota d max_concurrent "" db; create_row now d db)

unfoldable pub get_deployment : String → DeploymentDb → Result Deployment
unfolding deployment_from_record
get_deployment id db =
    if db.available
    then elim (find (has_id (trim_space id)) db.deployments) [
      | none ↦ err not_found
      | some row ↦ ok (deployment_from_record row)
    ]
    else err unavailable
