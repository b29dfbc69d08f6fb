-- ===== src/Deployment/Room.antt =====
-- The loop of `AppendDeploymentEvent`, batch by batch.
use qiniu_ci_runner.Prelude.{
  ℕ, zero, suc, ◌≤◌, ◌<◌, String, true, false, not, List, [], ◌∷◌, ◌++◌, ◌≡◌, ◌≢◌, refl, sym, ap,
  subst, ◌∙◌, inl, inr, arith, ok, ◌==◌, select, take, length, All, All-select, Bool-cases,
}
use qiniu_ci_runner.Prelude.Sort.{sort-sorted}
use qiniu_ci_runner.Deployment.Types.{DeploymentEventRecord}
use qiniu_ci_runner.Deployment.Store.{is_listed}
use qiniu_ci_runner.Deployment.Budget.{
  is_dropped, Budget, max_deployment_event_bytes, of_revision, older, budget_of, fits, choose,
  make_room,
}
use qiniu_ci_runner.Deployment.Eviction.{
  keep_latest, IsRising, ids_of, keep-all, choose-Chosen, rising-IsSorted, select-unlisted,
  timeline-dropped, others-dropped, select-IsRising,
}

-- What the loop leaves: the reference's timeline, its exact counters, the other events.
pub record Roomed (size : ℕ) (id : String) (number : ℕ) (events : List DeploymentEventRecord)
    (left : Budget) (after : List DeploymentEventRecord) : Type 0 where
  pub timeline :
      select (of_revision id number) after
      ≡ keep_latest size (select (of_revision id number) events)
  pub exact : left ≡ budget_of (select (of_revision id number) after)
  pub others :
      select (λ e. not (of_revision id number e)) after
      ≡ select (λ e. not (of_revision id number e)) events
  pub rising : IsRising after
  pub below :
      (n : ℕ)
      → All (λ (e : DeploymentEventRecord). e.id < n) events
      → All (λ (e : DeploymentEventRecord). e.id < n) after

split-take :
    (n : ℕ) (es : List DeploymentEventRecord)
    → (later : List DeploymentEventRecord) × (es ≡ take n es ++ later)
split-take zero es = (es, refl)
split-take (suc n) [] = ([], refl)
split-take (suc n) (e ∷ es) = let (later, h) = split-take n es in (later, ap (◌∷◌ e) h)

append_nil : (es : List DeploymentEventRecord) → es ++ [] ≡ es
append_nil [] = refl
append_nil (e ∷ es) = ap (◌∷◌ e) (append_nil es)

append_assoc : (xs ys zs : List DeploymentEventRecord) → (xs ++ ys) ++ zs ≡ xs ++ (ys ++ zs)
append_assoc [] ys zs = refl
append_assoc (x ∷ xs) ys zs = ap (◌∷◌ x) (append_assoc xs ys zs)

fits-nothing : (size : ℕ) → size ≤ max_deployment_event_bytes → fits size (budget_of []) ≡ true
unfolding budget_of
fits-nothing size h = ground (arith, h)

-- One batch that does not suffice: a run of the oldest events is gone, at least one.
record Round (size : ℕ) (timeline : List DeploymentEventRecord) (ids : List ℕ) (left : Budget)
    : Type 0 where
  gone : List DeploymentEventRecord
  rest : List DeploymentEventRecord
  splits : timeline ≡ gone ++ rest
  named : ids ≡ ids_of gone
  exact : left ≡ budget_of rest
  agrees : keep_latest size timeline ≡ keep_latest size rest
  some_gone : gone ≢ []

take_nil : (es : List DeploymentEventRecord) → take 100 es ≡ [] → es ≡ []
take_nil [] h = refl
take_nil (e ∷ es) h = absurd (cc)

take-some : (es : List DeploymentEventRecord) → es ≢ [] → (length (take 100 es) == 0) ≡ false
take-some [] h = absurd (h refl)
take-some (e ∷ es) h = ground arith

length-shorter :
    (gone es : List DeploymentEventRecord) → gone ≢ [] → length es < length (gone ++ es)
length-shorter [] es h = absurd (h refl)
length-shorter (e ∷ []) es h = omega arith
length-shorter (e ∷ f ∷ gone) es h = ground (arith, length-shorter (f ∷ gone) es (λ z. cc))

choose-Round :
    (size : ℕ) (timeline : List DeploymentEventRecord) (b : Budget)
    → size ≤ max_deployment_event_bytes
    → b ≡ budget_of timeline
    → fits size b ≡ false
    → Round size timeline
        (choose size (take 100 timeline) b).0
        (choose size (take 100 timeline) b).1
choose-Round size timeline b small h f =
    let (later, cut) = split-take 100 timeline in
    let c = choose-Chosen size (take 100 timeline) later b (h ∙ ap budget_of cut) in
    let whole : timeline ≡ c.gone ++ (c.stays ++ later) =
      cut ∙ ap (λ x. x ++ later) c.splits ∙ append_assoc c.gone c.stays later in
    record {
      gone = c.gone;
      rest = c.stays ++ later;
      splits = whole;
      named = c.named;
      exact = c.exact;
      agrees = ap (keep_latest size) cut ∙ c.agrees;
      some_gone = λ none_gone. elim c.done [
        | inl e ↦ absurd (
            cc (
              fits-nothing size small,
              ap (λ x. fits size (budget_of x))
                  (take_nil timeline (c.splits ∙ ap (λ x. x ++ c.stays) none_gone ∙ e)),
              ap (fits size) h,
            ))
        | inr t ↦ absurd (
            cc (
              ap (fits size) (
                c.exact
                ∙ ap budget_of (sym (whole ∙ ap (λ x. x ++ (c.stays ++ later)) none_gone))
                ∙ sym h)))
      ];
    }

Round-kept :
    (size : ℕ) (timeline : List DeploymentEventRecord) (ids : List ℕ) (left : Budget)
    (round : Round size timeline ids left)
    → IsRising timeline
    → select (λ (e : DeploymentEventRecord). not (is_listed e.id ids)) timeline ≡ round.rest
Round-kept size timeline ids left round up =
    ap (λ x. select (λ (e : DeploymentEventRecord). not (is_listed e.id x)) timeline) round.named
    ∙ ap (select (λ (e : DeploymentEventRecord). not (is_listed e.id (ids_of round.gone))))
        round.splits
    ∙ select-unlisted round.gone round.rest (subst IsRising round.splits up)

Round-shorter :
    (size : ℕ) (timeline : List DeploymentEventRecord) (ids : List ℕ) (left : Budget)
    (round : Round size timeline ids left)
    → length round.rest < length timeline
Round-shorter size timeline ids left round =
    subst (λ x. length round.rest < length x) (sym round.splits)
      (length-shorter round.gone round.rest round.some_gone)

Round-some :
    (size : ℕ) (timeline : List DeploymentEventRecord) (ids : List ℕ) (left : Budget)
    (round : Round size timeline ids left)
    → timeline ≢ []
Round-some size timeline ids left round h =
    let e : length timeline ≡ 0 = ap length h in
    let p = Round-shorter size timeline ids left round in omega arith

-- The events after a batch, of which the rest of the loop leaves what it leaves of all.
module _ (id : String) (number size : ℕ) (events : List DeploymentEventRecord) (ids : List ℕ)
    (left : Budget) (round : Round size (select (of_revision id number) events) ids left)
    (rising : IsRising events) where
  deleted : List DeploymentEventRecord
  deleted = select (λ (e : DeploymentEventRecord). not (is_dropped id number ids e)) events

  deleted-timeline : select (of_revision id number) deleted ≡ round.rest
  unfolding deleted
  deleted-timeline =
      timeline-dropped (of_revision id number) (λ e. is_listed e.id ids) events
      ∙ Round-kept size (select (of_revision id number) events) ids left round
          (select-IsRising (of_revision id number) events rising)

  deleted-IsRising : IsRising deleted
  unfolding deleted
  deleted-IsRising = select-IsRising (λ e. not (is_dropped id number ids e)) events rising

  deleted-shorter :
      length (select (of_revision id number) deleted)
      < length (select (of_revision id number) events)
  deleted-shorter =
      subst (λ x. length x < length (select (of_revision id number) events)) (sym deleted-timeline)
        (Round-shorter size (select (of_revision id number) events) ids left round)

  deleted-Roomed :
      (last : Budget) (after : List DeploymentEventRecord)
      → Roomed size id number deleted last after
      → Roomed size id number events last after
  unfolding deleted
  deleted-Roomed last after room = record {
    timeline = room.timeline ∙ ap (keep_latest size) deleted-timeline ∙ sym round.agrees;
    exact = room.exact;
    others = room.others ∙ others-dropped (of_revision id number) (λ e. is_listed e.id ids) events;
    rising = room.rising;
    below = λ n k. room.below n (
        All-select (λ (e : DeploymentEventRecord). e.id < n) (λ e. not (is_dropped id number ids e))
          events k);
  }

-- Nothing has to go where there is room.
room-Roomed :
    (id : String) (number size : ℕ) (b : Budget) (events : List DeploymentEventRecord)
    → IsRising events
    → b ≡ budget_of (select (of_revision id number) events)
    → fits size b ≡ true
    → Roomed size id number events b events
room-Roomed id number size b events rising h t = record {
  timeline = sym (
      keep-all size (select (of_revision id number) events)
        (subst (λ (x : Budget). fits size x ≡ true) h t));
  exact = h;
  others = refl;
  rising = rising;
  below = λ n k. k;
}

-- With fuel for one round more than the revision has events, the loop ends, and leaves what the
-- reference leaves.
pub make_room-Roomed :
    (fuel : ℕ) (id : String) (number size : ℕ) (b : Budget) (events : List DeploymentEventRecord)
    → IsRising events
    → size ≤ max_deployment_event_bytes
    → b ≡ budget_of (select (of_revision id number) events)
    → length (select (of_revision id number) events) < fuel
    → (left : Budget) × (after : List DeploymentEventRecord) × (make_room fuel id number size b
          events
        ≡ ok (left, after))
      × Roomed size id number events left after
unfolding make_room deleted
make_room-Roomed zero id number size b events rising small h enough = absurd (omega arith)
make_room-Roomed (suc fuel) id number size b events rising small h enough =
    elim (Bool-cases (fits size b)) [
      | inl t ↦ (b, events, simp (t), room-Roomed id number size b events rising h t)
      | inr f ↦
          let timeline = select (of_revision id number) events in
          let (ids, left) = choose size (take 100 timeline) b in
          let round = choose-Round size timeline b small h f in
          let some_left = take-some timeline (Round-some size timeline ids left round) in
          let (last, after, run, room) =
            make_room-Roomed fuel id number size left
              (deleted id number size events ids left round rising)
              (deleted-IsRising id number size events ids left round rising) small
              (round.exact
                ∙ ap budget_of (sym (deleted-timeline id number size events ids left round rising)))
              (omega
                (arith, enough, deleted-shorter id number size events ids left round rising)) in
          (
            last,
            after,
            rw
                (
                  sort-sorted older timeline (
                      rising-IsSorted timeline
                        (select-IsRising (of_revision id number) events rising)),
                  f,
                  some_left,
                )
                run,
            deleted-Roomed id number size events ids left round rising last after room,
          )
    ]
