-- ===== src/Deployment/SoundAppending.antt =====
-- An appended event keeps the tables sound and the counters exact.
use qiniu_ci_runner.Prelude.{
  ℕ, suc, ◌+◌, true, List, [], ◌∷◌, ◌++◌, ◌≡◌, refl, sym, subst, ◌∙◌, inl, inr, arith, none, some,
  Result, ok, err, ensure, conflict, record_not_found, ◌>>◌, >>=-eq-ok, ◌==◌, find, find_sound,
  select, length, update_where, In, Option-cases,
}
use qiniu_ci_runner.Request.Types.{Time}
use qiniu_ci_runner.Deployment.Types.{DeploymentRevisionRecord, DeploymentEventRecord}
use qiniu_ci_runner.Deployment.Store.{DeploymentDb, at_number, has_id}
use qiniu_ci_runner.Deployment.Budget.{
  Budget, of_revision, budget_at, make_room, counted, append_event, append_to_current,
  append_deployment_event, chosen_number, check_event, trimmed_event,
}
use qiniu_ci_runner.Deployment.Frames.{>>-eq-ok, ok_pair_inj}
use qiniu_ci_runner.Deployment.Appending.{IsCounted, append_event_lem}
use qiniu_ci_runner.Deployment.Timeline.{cut-bound}
use qiniu_ci_runner.Deployment.Sound.{IsSound, slots-update, current-update, owned-update}
use qiniu_ci_runner.Deployment.History.{opened-kept}

-- The transaction reads a revision of the table and appends to it.
append_to_current-eq-ok :
    (e : DeploymentEventRecord) (db db' : DeploymentDb) (u : Unit {0})
    → append_to_current e db ≡ ok (db', u)
    → (number : ℕ) × (r : DeploymentRevisionRecord) × In r db.revisions
      × (at_number e.deployment_id number r ≡ true)
      × (append_event (record e { revision_number = number }) r db ≡ ok (db', u))
unfolding append_to_current
append_to_current-eq-ok e db db' u h =
    elim (Option-cases (find (has_id e.deployment_id) db.deployments)) [
      | inl f ↦ absurd (cc (rw (append_to_current, f) at h))
      | inr (owner, f) ↦
          let number = chosen_number e.revision_number owner.revision_number in
          let found : (elim (find (at_number e.deployment_id number) db.revisions)
                as (λ x. Result (DeploymentDb × Unit {0})) [
                  | none ↦ err record_not_found
                  | some r ↦ append_event (record e { revision_number = number }) r db
                ])
              ≡ ok (db', u) =
            >>-eq-ok (ensure (number == owner.revision_number) conflict) _
              (rw (append_to_current, f) at h) in
          elim (Option-cases (find (at_number e.deployment_id number) db.revisions)) [
            | inl g ↦ absurd (cc (rw g at found))
            | inr (r, g) ↦
                let (m, a) = find_sound (at_number e.deployment_id number) db.revisions r g in
                (number, r, m, a, rw g at found)
          ]
    ]

append_event-eq-ok :
    (e : DeploymentEventRecord) (r : DeploymentRevisionRecord) (db db' : DeploymentDb)
    (u : Unit {0})
    → append_event e r db ≡ ok (db', u)
    → (b : Budget) × (events : List DeploymentEventRecord) × (db' ≡ record db {
      events = events;
      next_event = db.next_event + 1;
      revisions =
          update_where (at_number e.deployment_id e.revision_number) (counted b) db.revisions;
    })
unfolding append_event
append_event-eq-ok e r db db' u h =
    let mine = select (of_revision e.deployment_id e.revision_number) db.events in
    let (room, run, left) =
      >>=-eq-ok
        (make_room (suc (length mine)) e.deployment_id e.revision_number (length e.message)
          (budget_at r mine) db.events)
        _ h in
    (
      record { events = room.0.events + 1; bytes = room.0.bytes + length e.message },
      room.1 ++ record e { id = db.next_event } ∷ [],
      sym (ok_pair_inj left),
    )

append_event-IsSound :
    (e : DeploymentEventRecord) (r : DeploymentRevisionRecord) (db db' : DeploymentDb)
    (u : Unit {0})
    → append_event e r db ≡ ok (db', u)
    → IsSound db
    → IsSound db'
append_event-IsSound e r db db' u h s =
    let (b, events, left) = append_event-eq-ok e r db db' u h in
    let p = at_number e.deployment_id e.revision_number in
    subst IsSound (sym left) (record {
      ids = s.ids;
      slots = slots-update (counted b) (λ q. refl) (λ q. refl) p db.revisions s.slots;
      current =
          current-update (counted b) (λ q. refl) (λ q. refl) p db.revisions db.deployments
            s.current;
      owned =
          owned-update (counted b) (λ q. refl) (λ q. refl) p db.revisions db.deployments s.owned;
    })

pub append_deployment_event-IsSound :
    (now : Time) (e : DeploymentEventRecord) (db : DeploymentDb)
    → IsSound db
    → IsSound (append_deployment_event now e db).0
unfolding append_deployment_event
append_deployment_event-IsSound now e db s =
    opened-kept IsSound db
      (do check_event (trimmed_event now e); append_to_current (trimmed_event now e) db)
      (λ db' u h.
        let (number, r, m, a, run) = append_to_current-eq-ok (trimmed_event now e) db db' u (
          >>-eq-ok (check_event (trimmed_event now e)) (append_to_current (trimmed_event now e) db)
            h) in
        append_event-IsSound (record (trimmed_event now e) { revision_number = number }) r db db' u
          run s)
      s

pub append_deployment_event-IsCounted :
    (now : Time) (e : DeploymentEventRecord) (db : DeploymentDb)
    → IsCounted db
    → IsCounted (append_deployment_event now e db).0
unfolding append_deployment_event
append_deployment_event-IsCounted now e db c =
    opened-kept IsCounted db
      (do check_event (trimmed_event now e); append_to_current (trimmed_event now e) db)
      (λ db' u h.
        let (number, r, m, a, run) = append_to_current-eq-ok (trimmed_event now e) db db' u (
          >>-eq-ok (check_event (trimmed_event now e)) (append_to_current (trimmed_event now e) db)
            h) in
        let (made, run2, left, kept) =
          append_event_lem (record (trimmed_event now e) { revision_number = number }) r db c
            (omega (arith, cut-bound e.message)) a m in
        subst IsCounted (ok_pair_inj (sym run2 ∙ run)) kept)
      c
