-- ===== src/Deployment/Appending.antt =====
-- An event appended to a deployment: its revision's timeline, the counters and the other revisions.
use qiniu_ci_runner.Prelude.{
  ℕ, suc, ◌+◌, ◌≤◌, ◌<◌, String, Bool, true, false, not, List, [], ◌∷◌, ◌++◌, ◌≡◌, ◌⊎◌, refl, sym,
  ap, ◌∙◌, inl, inr, arith, eq_iff, ok, str_eq_sound, select, select-last, select-last_other,
  length, All, All-append, All-In, All-map, In, update_where, Bool-cases,
}
use qiniu_ci_runner.Deployment.Types.{DeploymentRevisionRecord, DeploymentEventRecord}
use qiniu_ci_runner.Deployment.Store.{DeploymentDb, at_number}
use qiniu_ci_runner.Deployment.Budget.{
  Budget, max_deployment_event_bytes, of_revision, budget_of, budget_at, counted, append_event,
  fits,
}
use qiniu_ci_runner.Deployment.Eviction.{Budget-eq, keep_latest, IsRising}
use qiniu_ci_runner.Deployment.Room.{Roomed, make_room-Roomed}

abbrev pub timeline : String → ℕ → DeploymentDb → List DeploymentEventRecord
timeline id number db = select (of_revision id number) db.events

-- The counters of a revision, once they are set, are those of its events.
abbrev pub IsExact : List DeploymentEventRecord → DeploymentRevisionRecord → Type 0
IsExact events r =
    (r.event_budget_initialized ≡ false)
    ⊎ (◌≡◌ {A = Budget} (record { events = r.event_count; bytes = r.event_bytes })
        (budget_of (select (of_revision r.deployment_id r.number) events)))

-- The ids of the events increase, below the next one, and every counter is exact.
pub record IsCounted (db : DeploymentDb) : Type 0 where
  pub rising : IsRising db.events
  pub below : All (λ (e : DeploymentEventRecord). e.id < db.next_event) db.events
  pub exact : All (IsExact db.events) db.revisions

-- What an appended event leaves.
pub record Appended (e : DeploymentEventRecord) (db db' : DeploymentDb) : Type 0 where
  pub latest :
      timeline e.deployment_id e.revision_number db'
      ≡ keep_latest (length e.message) (timeline e.deployment_id e.revision_number db)
        ++ record e { id = db.next_event } ∷ []
  pub others :
      select (λ f. not (of_revision e.deployment_id e.revision_number f)) db'.events
      ≡ select (λ f. not (of_revision e.deployment_id e.revision_number f)) db.events
  pub deployments : db'.deployments ≡ db.deployments

pub keep_latest-fits :
    (size : ℕ) (es : List DeploymentEventRecord)
    → size ≤ max_deployment_event_bytes
    → fits size (budget_of (keep_latest size es)) ≡ true
unfolding keep_latest budget_of
keep_latest-fits size [] h = ground (arith, h)
keep_latest-fits size (e ∷ es) h = elim (Bool-cases (fits size (budget_of (e ∷ es)))) [
  | inl t ↦ rw t t
  | inr f ↦ rw f (keep_latest-fits size es h)
]

pub budget_of-append :
    (es : List DeploymentEventRecord) (e : DeploymentEventRecord)
    → budget_of (es ++ e ∷ []) ≡ record {
      events = (budget_of es).events + 1;
      bytes = (budget_of es).bytes + length e.message;
    }
unfolding budget_of
budget_of-append [] e =
    Budget-eq (record { events = 1; bytes = length e.message + 0 })
      (record { events = 1; bytes = 0 + length e.message }) refl (omega arith)
budget_of-append (f ∷ es) e =
    let rest = budget_of-append es e in
    Budget-eq (budget_of (f ∷ es ++ e ∷ []))
      (record {
        events = (budget_of (f ∷ es)).events + 1;
        bytes = (budget_of (f ∷ es)).bytes + length e.message;
      })
      (omega (arith, ap (λ (b : Budget). b.events) rest))
      (omega (arith, ap (λ (b : Budget). b.bytes) rest))

IsRising-append :
    (es : List DeploymentEventRecord) (e : DeploymentEventRecord)
    → IsRising es
    → All (λ (f : DeploymentEventRecord). f.id < e.id) es
    → IsRising (es ++ e ∷ [])
IsRising-append [] e h g = (tt, tt)
IsRising-append (f ∷ es) e h g = (
  All-append (λ (x : DeploymentEventRecord). f.id < x.id) es (e ∷ []) h.0 (g.0, tt),
  IsRising-append es e h.1 g.1,
)

-- A part of the events that another part does not meet.
pub select-apart :
    (p q : DeploymentEventRecord → Bool)
    → ((e : DeploymentEventRecord) → q e ≡ true → p e ≡ false)
    → (es : List DeploymentEventRecord) → select q es ≡ select q (select (λ e. not (p e)) es)
select-apart p q h [] = refl
select-apart p q h (e ∷ es) = ground (arith, h e, select-apart p q h es)

apart :
    (id : String) (number : ℕ) (r : DeploymentRevisionRecord)
    → at_number id number r ≡ false
    → (e : DeploymentEventRecord) → of_revision r.deployment_id r.number e ≡ true
    → of_revision id number e ≡ false
apart id number r h e m = ground (
  arith,
  eq_iff e.deployment_id id,
  eq_iff e.deployment_id r.deployment_id,
  eq_iff r.deployment_id id,
  str_eq_sound e.deployment_id id,
)

-- The other revisions keep their timelines.
IsExact-apart :
    (id : String) (number : ℕ) (before after : List DeploymentEventRecord)
    (r : DeploymentRevisionRecord)
    → select (λ f. not (of_revision id number f)) after
      ≡ select (λ f. not (of_revision id number f)) before
    → at_number id number r ≡ false
    → IsExact before r
    → IsExact after r
IsExact-apart id number before after r same other (inl u) = inl u
IsExact-apart id number before after r same other (inr x) = inr (
    x
    ∙ ap budget_of (
        select-apart (of_revision id number) (of_revision r.deployment_id r.number)
          (apart id number r other) before
        ∙ ap (select (of_revision r.deployment_id r.number)) (sym same)
        ∙ sym (
            select-apart (of_revision id number) (of_revision r.deployment_id r.number)
              (apart id number r other) after)))

at_number-same :
    (id : String) (number : ℕ) (r : DeploymentRevisionRecord)
    → at_number id number r ≡ true
    → (r.deployment_id ≡ id) × (r.number ≡ number)
at_number-same id number r h = ground (arith, str_eq_sound r.deployment_id id)

counted-IsExact :
    (id : String) (number : ℕ) (b : Budget) (before after : List DeploymentEventRecord)
    (revisions : List DeploymentRevisionRecord)
    → select (λ f. not (of_revision id number f)) after
      ≡ select (λ f. not (of_revision id number f)) before
    → b ≡ budget_of (select (of_revision id number) after)
    → All (IsExact before) revisions
    → All (IsExact after) (update_where (at_number id number) (counted b) revisions)
counted-IsExact id number b before after [] same h k = tt
counted-IsExact id number b before after (r ∷ rs) same h k = (
  elim (Bool-cases (at_number id number r)) [
    | inl t ↦
        let (i, n) = at_number-same id number r t in
        rw t (
          inr (
            h
            ∙ ap budget_of (
                sym (
                  ap (λ x. select (of_revision x r.number) after) i
                  ∙ ap (λ x. select (of_revision id x) after) n))))
    | inr f ↦ rw f (IsExact-apart id number before after r same f k.0)
  ],
  counted-IsExact id number b before after rs same h k.1,
)

starts-exact :
    (id : String) (number : ℕ) (r : DeploymentRevisionRecord) (events : List DeploymentEventRecord)
    → at_number id number r ≡ true
    → IsExact events r
    → budget_at r (select (of_revision id number) events)
      ≡ budget_of (select (of_revision id number) events)
starts-exact id number r events h (inl u) = simp (u)
starts-exact id number r events h (inr x) =
    let (i, n) = at_number-same id number r h in
    let same =
      ap (λ y. select (of_revision y r.number) events) i
      ∙ ap (λ y. select (of_revision id y) events) n in
    elim (Bool-cases r.event_budget_initialized) [
      | inl t ↦ rw t (x ∙ ap budget_of same)
      | inr f ↦ simp (f)
    ]

-- The tables after an event is appended to the events that the loop leaves.
abbrev after_append :
    DeploymentEventRecord → DeploymentDb → Budget → List DeploymentEventRecord → DeploymentDb
after_append e db left after = record db {
  events = after ++ record e { id = db.next_event } ∷ [];
  next_event = db.next_event + 1;
  revisions =
      update_where (at_number e.deployment_id e.revision_number)
        (counted (record { events = left.events + 1; bytes = left.bytes + length e.message }))
        db.revisions;
}

own :
    (e : DeploymentEventRecord) (n : ℕ)
    → of_revision e.deployment_id e.revision_number (record e { id = n }) ≡ true
own e n = ground (arith, eq_iff e.deployment_id e.deployment_id)

Roomed-Appended :
    (e : DeploymentEventRecord) (db : DeploymentDb) (left : Budget)
    (after : List DeploymentEventRecord)
    → Roomed (length e.message) e.deployment_id e.revision_number db.events left after
    → Appended e db (after_append e db left after)
Roomed-Appended e db left after room =
    let mine = of_revision e.deployment_id e.revision_number in
    let added = record e { id = db.next_event } in
    record {
      latest =
          select-last mine after added (own e db.next_event)
          ∙ ap (λ x. x ++ added ∷ []) room.timeline;
      others =
          select-last_other (λ f. not (mine f)) after added (ap not (own e db.next_event))
          ∙ room.others;
      deployments = refl;
    }

Roomed-IsCounted :
    (e : DeploymentEventRecord) (db : DeploymentDb) (left : Budget)
    (after : List DeploymentEventRecord)
    → IsCounted db
    → Roomed (length e.message) e.deployment_id e.revision_number db.events left after
    → IsCounted (after_append e db left after)
Roomed-IsCounted e db left after c room =
    let mine = of_revision e.deployment_id e.revision_number in
    let added = record e { id = db.next_event } in
    let kept : Budget = record {
      events = left.events + 1;
      bytes = left.bytes + length e.message;
    } in
    let lower = room.below db.next_event c.below in
    record {
      rising = IsRising-append after added room.rising lower;
      below =
          All-append (λ (f : DeploymentEventRecord). f.id < db.next_event + 1) after (added ∷ [])
            (All-map (λ (f : DeploymentEventRecord). f.id < db.next_event)
              (λ (f : DeploymentEventRecord). f.id < db.next_event + 1) (λ f k. omega arith) after
              lower)
            (omega arith, tt);
      exact =
          counted-IsExact e.deployment_id e.revision_number kept db.events (after ++ added ∷ [])
            db.revisions (Roomed-Appended e db left after room).others
            (ap
                (λ (x : Budget). record {
                  events = x.events + 1;
                  bytes = x.bytes + length e.message;
                })
                room.exact
              ∙ sym (budget_of-append (select mine after) added)
              ∙ ap budget_of (sym (select-last mine after added (own e db.next_event))))
            c.exact;
    }

pub append_event_lem :
    (e : DeploymentEventRecord) (r : DeploymentRevisionRecord) (db : DeploymentDb)
    → IsCounted db
    → length e.message ≤ max_deployment_event_bytes
    → at_number e.deployment_id e.revision_number r ≡ true
    → In r db.revisions
    → (db' : DeploymentDb) × (append_event e r db ≡ ok (db', tt))
      × Appended e db db'
      × IsCounted db'
unfolding append_event
append_event_lem e r db c small h m =
    let es = timeline e.deployment_id e.revision_number db in
    let known = All-In (IsExact db.events) db.revisions r c.exact m in
    let (left, after, run, room) =
      make_room-Roomed (suc (length es)) e.deployment_id e.revision_number (length e.message)
        (budget_at r es) db.events c.rising small
        (starts-exact e.deployment_id e.revision_number r db.events h known) (omega arith) in
    (
      after_append e db left after,
      simp (run),
      Roomed-Appended e db left after room,
      Roomed-IsCounted e db left after c room,
    )
