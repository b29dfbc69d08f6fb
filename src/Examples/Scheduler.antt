-- ===== src/Examples/Scheduler.antt =====
-- The deployment worker: one tick that starts operations, and a page that fills a lane.
use qiniu_ci_runner.Prelude.{
  ◌≤◌, ◌<◌, true, List, [], ◌∷◌, ◌≡◌, refl, arith, ok, length, count, ◌⊎◌,
}
use qiniu_ci_runner.Scheduler.Lanes.{
  Kind, provision, monitor, cleanup, capacity, Scheduler, Answer, query, schedule, tick, Reach,
  begin, next, ticks, idle, walk, start, pass, take_page, exhaust, rewind,
}
use qiniu_ci_runner.Scheduler.Flight.{IsDistinct, runs_on}
use qiniu_ci_runner.Scheduler.Bounds.{in_flight-bounds, query-bounds}
use qiniu_ci_runner.Scheduler.Filling.{schedule-page}

abbrev page : Answer
page q = ok ("a" ∷ "b" ∷ "c" ∷ "d" ∷ [], true)

abbrev answers : Kind → List Answer
answers provision = page ∷ []
answers monitor = []
answers cleanup = []

abbrev busy : Scheduler
busy = tick answers idle

busy-Reach : Reach busy
busy-Reach = next begin (ticks answers)

in_flight-bounds_example :
    IsDistinct busy.in_flight
    × ((k : Kind)
        → ((busy.lanes k).active ≡ count (runs_on k) busy.in_flight)
          × (count (runs_on k) busy.in_flight ≤ capacity k))
    × (length busy.in_flight ≤ 16)
in_flight-bounds_example = in_flight-bounds busy-Reach

monitor_idle : (busy.lanes monitor).active < capacity monitor
unfolding tick schedule take_page walk start pass exhaust rewind
monitor_idle = omega arith

query-bounds_example : (0 < (query monitor busy).limit) × ((query monitor busy).limit ≤ 24)
query-bounds_example = query-bounds monitor busy-Reach monitor_idle

schedule-page_example :
    (schedule provision (page ∷ page ∷ []) idle ≡ schedule provision (page ∷ []) idle)
    × ((((schedule provision (page ∷ page ∷ []) idle).lanes provision).exhausted ≡ true)
        ⊎ (((schedule provision (page ∷ page ∷ []) idle).lanes provision).active ≡ 4))
schedule-page_example =
    schedule-page provision page (page ∷ []) ("a" ∷ "b" ∷ "c" ∷ "d" ∷ []) true begin refl
      (refl, (refl, (refl, (refl, tt)))) (λ _. refl)
