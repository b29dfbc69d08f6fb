-- ===== src/Deployment/Timeline.antt =====
-- `AppendDeploymentEvent` as a whole: what it leaves and how much.
use qiniu_ci_runner.Prelude.{
  ℕ, zero, suc, ◌+◌, ◌≤◌, true, List, [], ◌∷◌, ◌≡◌, sym, ap, subst, ◌∙◌, inl, inr, arith, some, ok,
  ◌==◌, ltb, if◌then◌else◌, take, length, find, find_sound, Bool-cases,
}
use qiniu_ci_runner.Request.Types.{Time}
use qiniu_ci_runner.Deployment.Types.{
  DeploymentRecord, DeploymentRevisionRecord, DeploymentEventRecord,
}
use qiniu_ci_runner.Deployment.Store.{DeploymentDb, at_number, has_id}
use qiniu_ci_runner.Deployment.Budget.{
  Budget, max_deployment_event_bytes, max_deployment_events, max_deployment_event_message,
  budget_of, append_event, append_at, append_to_current, append_deployment_event, check_event,
  trimmed_event, chosen_number, fits,
}
use qiniu_ci_runner.Deployment.Eviction.{keep_latest}
use qiniu_ci_runner.Deployment.Appending.{
  IsCounted, Appended, append_event_lem, keep_latest-fits, budget_of-append, timeline,
}

-- An event that the store accepts: its texts are in bounds, and it is for the current revision.
pub record IsAccepted (now : Time) (e : DeploymentEventRecord) (owner : DeploymentRecord)
    (r : DeploymentRevisionRecord) (db : DeploymentDb) : Type 0 where
  pub available : db.available ≡ true
  pub checked : check_event (trimmed_event now e) ≡ ok tt
  pub found : find (has_id (trimmed_event now e).deployment_id) db.deployments ≡ some owner
  pub current : chosen_number e.revision_number owner.revision_number ≡ owner.revision_number
  pub revised :
      find (at_number (trimmed_event now e).deployment_id owner.revision_number) db.revisions
      ≡ some r

-- The event as it is kept.
abbrev pub kept_event : Time → DeploymentEventRecord → DeploymentRecord → DeploymentEventRecord
kept_event now e owner = record (trimmed_event now e) { revision_number = owner.revision_number }

length-take_bound : (n : ℕ) (xs : List ℕ) → length (take n xs) ≤ n
length-take_bound zero xs = omega arith
length-take_bound (suc n) [] = omega arith
length-take_bound (suc n) (x ∷ xs) = ground (arith, length-take_bound n xs)

pub cut-bound :
    (xs : List ℕ)
    → length (
        if ltb max_deployment_event_message (length xs)
        then take max_deployment_event_message xs
        else xs)
      ≤ max_deployment_event_message
cut-bound xs = elim (Bool-cases (ltb max_deployment_event_message (length xs))) [
  | inl t ↦ rw t (length-take_bound max_deployment_event_message xs)
  | inr f ↦ rw f (ground (arith, f))
]

same_number : (n : ℕ) → (n == n) ≡ true
same_number n = ground arith

to_current-run :
    (e : DeploymentEventRecord) (owner : DeploymentRecord) (r : DeploymentRevisionRecord)
    (db db' : DeploymentDb)
    → find (has_id e.deployment_id) db.deployments ≡ some owner
    → chosen_number e.revision_number owner.revision_number ≡ owner.revision_number
    → find (at_number e.deployment_id owner.revision_number) db.revisions ≡ some r
    → append_event (record e { revision_number = owner.revision_number }) r db ≡ ok (db', tt)
    → append_to_current e db ≡ ok (db', tt)
unfolding append_to_current
to_current-run e owner r db db' f n g run =
    let at_own : append_at owner.revision_number owner e db ≡ ok (db', tt) =
      rw (same_number owner.revision_number, g) run in
    rw (append_to_current, f) (subst (λ x. append_at x owner e db ≡ ok (db', tt)) (sym n) at_own)

-- An accepted event drops the oldest events of its revision, one by one until it fits, and stands
-- last; the other events stay, the counters are exact and no deployment changes.
pub append_deployment_event-Appended :
    (now : Time) (e : DeploymentEventRecord) (owner : DeploymentRecord)
    (r : DeploymentRevisionRecord) (db : DeploymentDb)
    → IsCounted db
    → IsAccepted now e owner r db
    → (db' : DeploymentDb) × (append_deployment_event now e db ≡ (db', ok tt))
      × Appended (kept_event now e owner) db db'
      × IsCounted db'
unfolding append_deployment_event append_to_current
append_deployment_event-Appended now e owner r db c a =
    let kept = kept_event now e owner in
    let (m, at) =
      find_sound (at_number kept.deployment_id owner.revision_number) db.revisions r a.revised in
    let bound = cut-bound e.message in
    let (db', run, left, counted) = append_event_lem kept r db c (omega (arith, bound)) at m in
    (
      db',
      simp (
        a.available,
        a.checked,
        to_current-run (trimmed_event now e) owner r db db' a.found a.current a.revised run,
      ),
      left,
      counted,
    )

fits-bound :
    (size : ℕ) (b : Budget)
    → fits size b ≡ true
    → (b.events + 1 ≤ max_deployment_events) × (b.bytes + size ≤ max_deployment_event_bytes)
fits-bound size b h = (ground (arith, h), ground (arith, h))

-- After an accepted event its revision keeps at most 2000 events, of at most 8 MiB.
pub append_deployment_event_bounded :
    (now : Time) (e : DeploymentEventRecord) (owner : DeploymentRecord)
    (r : DeploymentRevisionRecord) (db : DeploymentDb)
    → IsCounted db
    → IsAccepted now e owner r db
    → let db' = (append_deployment_event now e db).0 in
      let b = budget_of (timeline (trimmed_event now e).deployment_id owner.revision_number db') in
      (b.events ≤ max_deployment_events) × (b.bytes ≤ max_deployment_event_bytes)
append_deployment_event_bounded now e owner r db c a =
    let (db', run, left, counted) = append_deployment_event-Appended now e owner r db c a in
    let kept = kept_event now e owner in
    let before = timeline kept.deployment_id owner.revision_number db in
    let room = keep_latest-fits (length kept.message) before (omega (arith, cut-bound e.message)) in
    let total =
      ap budget_of left.latest
      ∙ budget_of-append (keep_latest (length kept.message) before)
          (record kept { id = db.next_event }) in
    rw (run, total)
      (fits-bound (length kept.message) (budget_of (keep_latest (length kept.message) before)) room)
