-- ===== src/Deployment/Counting.antt =====
-- The counters of events stay exact under the operations that append no event.
use qiniu_ci_runner.Prelude.{
  ◌<◌, String, Bool, true, false, not, List, [], ◌∷◌, ◌++◌, ◌≡◌, refl, sym, ap, subst, ◌∙◌, inl,
  inr, arith, eq_iff, ok, str_eq, if◌then◌else◌, select, update_where, All-append, All-select,
}
use qiniu_ci_runner.Request.Types.{Time}
use qiniu_ci_runner.Prelude.Rows.{All-update, All-selected}
use qiniu_ci_runner.Deployment.Types.{
  Deployment, DeploymentRecord, DeploymentRevisionRecord, DeploymentEventRecord,
}
use qiniu_ci_runner.Deployment.Convert.{first_number, revision_record_from_deployment}
use qiniu_ci_runner.Deployment.Store.{DeploymentDb, at_number, create_row}
use qiniu_ci_runner.Deployment.Writing.{follow, update_row}
use qiniu_ci_runner.Deployment.Retry.{retry_row, requeued, may_requeue}
use qiniu_ci_runner.Deployment.Pruning.{prune_one, prune_all}
use qiniu_ci_runner.Deployment.Budget.{of_revision, budget_of}
use qiniu_ci_runner.Deployment.Eviction.{select-IsRising}
use qiniu_ci_runner.Deployment.Appending.{IsExact, IsCounted, select-apart}
use qiniu_ci_runner.Deployment.Frames.{create-eq-ok}
use qiniu_ci_runner.Deployment.Changes.{update-eq-ok, retry-eq-ok}
use qiniu_ci_runner.Deployment.SoundPruning.{deleted, prune_one-cases}

unset :
    (row : DeploymentRecord) (created : Time)
    → (revision_record_from_deployment row created).event_budget_initialized ≡ false
unfolding revision_record_from_deployment
unset row created = refl

-- A new revision has no counters yet.
grown-IsCounted :
    (db : DeploymentDb) (rows : List DeploymentRecord) (r : DeploymentRevisionRecord)
    → r.event_budget_initialized ≡ false
    → IsCounted db
    → IsCounted (record db { deployments = rows; revisions = db.revisions ++ r ∷ [] })
grown-IsCounted db rows r h c = record {
  rising = c.rising;
  below = c.below;
  exact = All-append (IsExact db.events) db.revisions (r ∷ []) c.exact (inl h, tt);
}

pub create_row-IsCounted :
    (now : Time) (d : Deployment) (db db' : DeploymentDb) (n : Deployment)
    → create_row now d db ≡ ok (db', n)
    → IsCounted db
    → IsCounted db'
create_row-IsCounted now d db db' n h c =
    let (row, created, place, fresh, unused, left) = create-eq-ok now d db db' n h in
    subst IsCounted (sym left) (
      grown-IsCounted db (db.deployments ++ row ∷ []) (revision_record_from_deployment row created)
        (unset row created) c)

follow-IsExact :
    (events : List DeploymentEventRecord) (d : DeploymentRecord) (b : Bool)
    (r : DeploymentRevisionRecord)
    → IsExact events r
    → IsExact events (if b then follow d r else r)
unfolding follow
follow-IsExact events d true r h = h
follow-IsExact events d false r h = h

pub update_row-IsCounted :
    (now : Time) (d : Deployment) (db db' : DeploymentDb) (u : Unit {0})
    → update_row now d db ≡ ok (db', u)
    → IsCounted db
    → IsCounted db'
update_row-IsCounted now d db db' u h c =
    let (saved, left) = update-eq-ok now d db db' u h in
    let q = at_number saved.id (first_number saved.revision_number) in
    subst IsCounted (sym left) (record {
      rising = c.rising;
      below = c.below;
      exact =
          All-update (IsExact db.events) (IsExact db.events) q (follow saved) db.revisions
            (λ r m x. follow-IsExact db.events saved (q r) r x) c.exact;
    })

pub retry_row-IsCounted :
    (now : Time) (d : Deployment) (until : Time) (db db' : DeploymentDb) (u : Unit {0})
    → retry_row now d until db ≡ ok (db', u)
    → IsCounted db
    → IsCounted db'
retry_row-IsCounted now d until db db' u h c =
    let (expires_at, saved, r, found, owner, number, no_counters, some_row, unused, left) =
      retry-eq-ok now d until db db' u h in
    subst IsCounted (sym left) (
      grown-IsCounted db (update_where (may_requeue d) (requeued now expires_at d) db.deployments) r
        no_counters c)

deleted-IsExact :
    (id : String) (events : List DeploymentEventRecord) (r : DeploymentRevisionRecord)
    → not (str_eq r.deployment_id id) ≡ true
    → IsExact events r
    → IsExact (select (λ (e : DeploymentEventRecord). not (str_eq e.deployment_id id)) events) r
deleted-IsExact id events r h (inl u) = inl u
deleted-IsExact id events r h (inr x) = inr (
    x
    ∙ ap budget_of (
        select-apart (λ e. str_eq e.deployment_id id) (of_revision r.deployment_id r.number)
          (λ e m. ground (
            arith,
            eq_iff e.deployment_id r.deployment_id,
            eq_iff e.deployment_id id,
            eq_iff r.deployment_id id,
          ))
          events))

deleted-IsCounted :
    (before : Time) (old : DeploymentRecord) (db : DeploymentDb)
    → IsCounted db
    → IsCounted (deleted before old db)
deleted-IsCounted before old db c =
    let keeps = λ (e : DeploymentEventRecord). not (str_eq e.deployment_id old.id) in
    record {
      rising = select-IsRising keeps db.events c.rising;
      below =
          All-select (λ (e : DeploymentEventRecord). e.id < db.next_event) keeps db.events c.below;
      exact =
          All-selected (IsExact db.events) (IsExact (select keeps db.events))
            (λ (r : DeploymentRevisionRecord). not (str_eq r.deployment_id old.id)) db.revisions
            (λ r m h x. deleted-IsExact old.id db.events r h x) c.exact;
    }

prune_one-IsCounted :
    (before : Time) (old : DeploymentRecord) (db : DeploymentDb)
    → IsCounted db
    → IsCounted (prune_one before old db).0
prune_one-IsCounted before old db c = elim (prune_one-cases before old db) [
  | inl e ↦ subst IsCounted (sym (ap (λ x. x.0) e)) c
  | inr (e, w) ↦ subst IsCounted (sym (ap (λ x. x.0) e)) (deleted-IsCounted before old db c)
]

pub prune_all-IsCounted :
    (before : Time) (rows : List DeploymentRecord) (db : DeploymentDb)
    → IsCounted db
    → IsCounted (prune_all before rows db).0
unfolding prune_all
prune_all-IsCounted before [] db c = c
prune_all-IsCounted before (old ∷ rows) db c =
    prune_all-IsCounted before rows (prune_one before old db).0
      (prune_one-IsCounted before old db c)
