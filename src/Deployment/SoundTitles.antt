-- ===== src/Deployment/SoundTitles.antt =====
-- A filled title keeps the tables sound and the counters exact.
use qiniu_ci_runner.Prelude.{
  String, Bool, true, false, not, List, refl, ok, ensure, invalid, ◌>>◌, trim_space, if◌then◌else◌,
  update_where, subst,
}
use qiniu_ci_runner.Prelude.Rows.{All-update}
use qiniu_ci_runner.Deployment.Types.{DeploymentRevisionRecord, DeploymentEventRecord}
use qiniu_ci_runner.Deployment.Store.{DeploymentDb}
use qiniu_ci_runner.Deployment.Titles.{
  bad_title, is_untitled, is_untitled_revision, titled, titled_revision, with_title,
  fill_deployment_pull_request_title,
}
use qiniu_ci_runner.Deployment.Frames.{>>-eq-ok, ok_pair_inj}
use qiniu_ci_runner.Deployment.Sound.{IsSound, slots-update, current-update, owned-update}
use qiniu_ci_runner.Deployment.Kept.{ids-update, rows-current, rows-owned}
use qiniu_ci_runner.Deployment.Appending.{IsExact, IsCounted}
use qiniu_ci_runner.Deployment.History.{opened-kept}

with_title-IsSound :
    (id ref title : String) (db : DeploymentDb) → IsSound db → IsSound (with_title id ref title db)
with_title-IsSound id ref title db s =
    let p = is_untitled id ref in
    let q = is_untitled_revision id ref in
    let f = titled title in
    let g = titled_revision title in
    record {
      ids = ids-update f (λ d. refl) p db.deployments s.ids;
      slots = slots-update g (λ r. refl) (λ r. refl) q db.revisions s.slots;
      current =
          rows-current f (λ d. refl) (λ d. refl) p (update_where q g db.revisions) db.deployments
            (current-update g (λ r. refl) (λ r. refl) q db.revisions db.deployments s.current);
      owned =
          owned-update g (λ r. refl) (λ r. refl) q db.revisions (update_where p f db.deployments)
            (rows-owned f (λ d. refl) (λ d. refl) p db.deployments db.revisions s.owned);
    }

titled-IsExact :
    (title : String) (events : List DeploymentEventRecord) (b : Bool) (r : DeploymentRevisionRecord)
    → IsExact events r
    → IsExact events (if b then titled_revision title r else r)
titled-IsExact title events true r h = h
titled-IsExact title events false r h = h

with_title-IsCounted :
    (id ref title : String) (db : DeploymentDb)
    → IsCounted db
    → IsCounted (with_title id ref title db)
with_title-IsCounted id ref title db c = record {
  rising = c.rising;
  below = c.below;
  exact =
      All-update (IsExact db.events) (IsExact db.events) (is_untitled_revision id ref)
        (titled_revision title) db.revisions
        (λ r m x. titled-IsExact title db.events (is_untitled_revision id ref r) r x) c.exact;
}

-- What a filled title keeps, the call keeps.
fill-kept :
    (P : DeploymentDb → Type 0)
    → ((id ref title : String) (db : DeploymentDb) → P db → P (with_title id ref title db))
    → (id ref title : String) (db : DeploymentDb) → P db
    → P (fill_deployment_pull_request_title id ref title db).0
unfolding fill_deployment_pull_request_title
fill-kept P keeps id ref title db h =
    let check =
      ensure (not (bad_title (trim_space id) (trim_space ref) (trim_space title)))
        (invalid "deployment pull request title is invalid") in
    let filled = with_title (trim_space id) (trim_space ref) (trim_space title) db in
    opened-kept P db (check >> ok (filled, tt))
      (λ db' u e.
        subst P (ok_pair_inj (>>-eq-ok check (ok (filled, tt)) e))
          (keeps (trim_space id) (trim_space ref) (trim_space title) db h))
      h

pub fill-IsSound :
    (id ref title : String) (db : DeploymentDb)
    → IsSound db
    → IsSound (fill_deployment_pull_request_title id ref title db).0
fill-IsSound = fill-kept IsSound with_title-IsSound

pub fill-IsCounted :
    (id ref title : String) (db : DeploymentDb)
    → IsCounted db
    → IsCounted (fill_deployment_pull_request_title id ref title db).0
fill-IsCounted = fill-kept IsCounted with_title-IsCounted
