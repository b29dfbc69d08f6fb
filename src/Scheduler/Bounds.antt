-- ===== src/Scheduler/Bounds.antt =====
-- The lanes of `Run` keep their capacities, and no deployment is in flight twice.
use qiniu_ci_runner.Prelude.{
  on_branches, ◌≤◌, ◌<◌, String, Bool, false, not, ◌&&◌, ◌||◌, List, [], ◌∷◌, ◌≡◌, refl, inl, inr,
  arith, Result, ok, err, if◌then◌else◌, ◌==◌, leb, length, count, In, Bool-cases,
}
use qiniu_ci_runner.Scheduler.Lanes.{
  Kind, provision, monitor, cleanup, same_kind, capacity, Lane, Scheduler, set_lane, is_busy, start,
  pass, walk, exhaust, take_page, Answer, query, schedule, rewind, tick, notified, drop, complete,
  Step, ticks, notifies, completes, Reach, begin, next,
}
use qiniu_ci_runner.Scheduler.Flight.{
  runs_on, IsDistinct, same_kind_sound, remove-IsDistinct, count-remove, length-counts,
}

pub record Inv (s : Scheduler) : Type 0 where
  pub counted : (k : Kind) → (s.lanes k).active ≡ count (runs_on k) s.in_flight
  pub bounded : (k : Kind) → (s.lanes k).active ≤ capacity k
  pub distinct : IsDistinct s.in_flight

-- A change of the cursor or of the flag alone.
lane-Inv :
    (k : Kind) (l : Lane) (s : Scheduler)
    → l.active ≡ (s.lanes k).active
    → Inv s
    → Inv (set_lane k l s)
lane-Inv k l s e i = record {
  counted = λ j. elim (Bool-cases (same_kind k j)) [
    | inl t ↦ ground (arith, i.counted j, same_kind_sound k j t, e)
    | inr f ↦ ground (arith, i.counted j)
  ];
  bounded = λ j. elim (Bool-cases (same_kind k j)) [
    | inl t ↦ ground (arith, i.bounded j, same_kind_sound k j t, e)
    | inr f ↦ ground (arith, i.bounded j)
  ];
  distinct = i.distinct;
}

start-Inv :
    (k : Kind) (id : String) (s : Scheduler)
    → (s.lanes k).active < capacity k
    → is_busy id s.in_flight ≡ false
    → Inv s
    → Inv (start k id s)
unfolding start
start-Inv k id s room free i = record {
  counted = λ j. elim (Bool-cases (same_kind k j)) [
    | inl t ↦ ground (arith, i.counted j, same_kind_sound k j t)
    | inr f ↦ ground (arith, i.counted j)
  ];
  bounded = λ j. elim (Bool-cases (same_kind k j)) [
    | inl t ↦ ground (arith, i.bounded j, same_kind_sound k j t, room)
    | inr f ↦ ground (arith, i.bounded j)
  ];
  distinct = (free, i.distinct);
}

walk-Inv : (k : Kind) (s : Scheduler) (ids : List String) → Inv s → Inv (walk k s ids).0
unfolding walk pass
walk-Inv k s [] i = i
walk-Inv k s (id ∷ ids) i =
    on_branches (λ (t : Scheduler × Bool). Inv t.0) ((s.lanes k).active == capacity k) _ _ (λ _. i)
      (λ not_full. walk-Inv k (if is_busy id s.in_flight then pass k id s else start k id s) ids (
        on_branches Inv (is_busy id s.in_flight) _ _ (λ _. lane-Inv k _ s refl i)
          (λ free. start-Inv k id s (ground (arith, i.bounded k, not_full)) free i)))

pub take_page-Inv :
    (k : Kind) (s : Scheduler) (ids : List String) (more : Bool)
    → Inv s
    → Inv (take_page k s ids more)
unfolding take_page exhaust
take_page-Inv k s ids more i =
    on_branches Inv (not more && (walk k s ids).1) _ _
      (λ _. lane-Inv k _ (walk k s ids).0 refl (walk-Inv k s ids i)) (λ _. walk-Inv k s ids i)

answered-Inv :
    (s : Scheduler) (a : Result (List String × Bool)) (f : List String → Bool → Scheduler)
    → Inv s
    → ((ids : List String) (more : Bool) → Inv (f ids more))
    → Inv (elim a [ err e ↦ s | ok (ids, more) ↦ f ids more ])
answered-Inv s (err e) f i g = i
answered-Inv s (ok (ids, more)) f i g = g ids more

schedule-Inv :
    (k : Kind) (answers : List Answer) (s : Scheduler) → Inv s → Inv (schedule k answers s)
unfolding schedule
schedule-Inv k [] s i = i
schedule-Inv k (answer ∷ answers) s i =
    on_branches Inv ((s.lanes k).exhausted || leb (capacity k) (s.lanes k).active) _ _ (λ _. i)
      (λ _.
        answered-Inv s (answer (query k s))
          (λ ids more. schedule k answers (take_page k s ids more)) i
          (λ ids more.
            schedule-Inv k answers (take_page k s ids more) (take_page-Inv k s ids more i)))

rewind-Inv : (k : Kind) (s : Scheduler) → Inv s → Inv (rewind k s)
unfolding rewind
rewind-Inv k s i = lane-Inv k _ s refl i

drop-Inv :
    (id : String) (k : Kind) (s : Scheduler) → In (id, k) s.in_flight → Inv s → Inv (drop id k s)
unfolding drop
drop-Inv id k s m i = record {
  counted = λ j. elim (Bool-cases (same_kind k j)) [
    | inl t ↦
        ground
          (arith, i.counted j, same_kind_sound k j t, count-remove id k j s.in_flight i.distinct m)
    | inr f ↦ ground (arith, i.counted j, count-remove id k j s.in_flight i.distinct m)
  ];
  bounded = λ j. elim (Bool-cases (same_kind k j)) [
    | inl t ↦ ground (arith, i.bounded j, same_kind_sound k j t)
    | inr f ↦ ground (arith, i.bounded j)
  ];
  distinct = remove-IsDistinct id s.in_flight i.distinct;
}

Step-Inv : {s t : Scheduler} → Step s t → Inv s → Inv t
unfolding tick notified complete
Step-Inv (ticks answers) i = schedule-Inv cleanup _ _ (
    rewind-Inv cleanup _ (
      schedule-Inv monitor _ _
        (rewind-Inv monitor _ (schedule-Inv provision _ _ (rewind-Inv provision _ i)))))
Step-Inv (notifies answers) i =
    schedule-Inv cleanup _ _
      (schedule-Inv monitor _ _ (schedule-Inv provision _ _ (rewind-Inv provision _ i)))
Step-Inv (completes id k answers m) i = schedule-Inv k answers _ (drop-Inv id k _ m i)

pub Reach-Inv : {s : Scheduler} → Reach s → Inv s
Reach-Inv begin = record {
  counted = λ k. refl;
  bounded = λ k. elim k [ provision ↦ omega arith | monitor ↦ omega arith | cleanup ↦ omega arith ];
  distinct = tt;
}
Reach-Inv (next r st) = Step-Inv st (Reach-Inv r)

-- After any sequence of ticks, notifications and completions, whatever the store answers: no
-- deployment is in flight twice, each lane counts its own operations and runs at most its capacity,
-- and at most 16 are in flight, the room of the channel of completions.
pub in_flight-bounds :
    {s : Scheduler}
    → Reach s
    → IsDistinct s.in_flight
      × ((k : Kind)
          → ((s.lanes k).active ≡ count (runs_on k) s.in_flight)
            × (count (runs_on k) s.in_flight ≤ capacity k))
      × (length s.in_flight ≤ 16)
in_flight-bounds {s} r =
    let i = Reach-Inv r in
    let own : (k : Kind) → count (runs_on k) s.in_flight ≤ capacity k =
      λ k. ground (arith, i.counted k, i.bounded k) in
    (
      i.distinct,
      λ k. (i.counted k, own k),
      ground (arith, length-counts s.in_flight, own provision, own monitor, own cleanup),
    )

capacity-le : (k : Kind) → capacity k ≤ 8
capacity-le provision = omega arith
capacity-le monitor = omega arith
capacity-le cleanup = omega arith

-- After any such sequence, a lane that has room asks for a page of between 1 and 24 deployments,
-- which `ListDeploymentWork` accepts.
pub query-bounds :
    {s : Scheduler} (k : Kind)
    → Reach s
    → (s.lanes k).active < capacity k
    → (0 < (query k s).limit) × ((query k s).limit ≤ 24)
query-bounds {s} k r room =
    let (_, _, few) = in_flight-bounds r in (omega (arith, room), omega (arith, few, capacity-le k))
