-- ===== src/Scheduler/Lanes.antt =====
-- `internal/deployment/worker/scheduler.go`: the lanes, the operations in flight, and the events of
-- `Run`. An operation in flight is its deployment's id with the lane that started it, which its
-- completion names. The context's end is the end of the answers.
use qiniu_ci_runner.Prelude.{
  ℕ, ◌+◌, ◌-◌, String, Bool, true, false, not, ◌&&◌, ◌||◌, List, [], ◌∷◌, Result, ok, err, str_eq,
  leb, ◌==◌, if◌then◌else◌, length, select, In,
}

pub data Kind : Type 0 where
  provision monitor cleanup : Kind

abbrev pub same_kind : Kind → Kind → Bool
same_kind provision k = elim k [ provision ↦ true | monitor ↦ false | cleanup ↦ false ]
same_kind monitor k = elim k [ provision ↦ false | monitor ↦ true | cleanup ↦ false ]
same_kind cleanup k = elim k [ provision ↦ false | monitor ↦ false | cleanup ↦ true ]

abbrev pub capacity : Kind → ℕ
capacity provision = 4
capacity monitor = 8
capacity cleanup = 4

pub record Lane : Type 0 where
  pub active : ℕ
  pub after_id : String
  pub exhausted : Bool

pub record Scheduler : Type 0 where
  pub lanes : Kind → Lane
  pub in_flight : List (String × Kind)

abbrev pub set_lane : Kind → Lane → Scheduler → Scheduler
set_lane k l s = record s { lanes = λ j. if same_kind k j then l else s.lanes j }

abbrev pub is_busy : String → List (String × Kind) → Bool
is_busy id [] = false
is_busy id (e ∷ es) = str_eq e.0 id || is_busy id es

-- `delete(inFlight, id)`
abbrev pub remove : String → List (String × Kind) → List (String × Kind)
remove id es = select (λ (e : String × Kind). not (str_eq e.0 id)) es

unfoldable pub start : Kind → String → Scheduler → Scheduler
start k id s =
    let l = s.lanes k in
    let moved = set_lane k (record l { active = l.active + 1; after_id = id }) s in
    record moved { in_flight = (id, k) ∷ s.in_flight }

unfoldable pub pass : Kind → String → Scheduler → Scheduler
pass k id s = set_lane k (record (s.lanes k) { after_id = id }) s

-- The walk of one page; the flag is `consumed`.
unfoldable pub walk : Kind → Scheduler → List String → Scheduler × Bool
walk k s [] = (s, true)
walk k s (id ∷ ids) =
    let rest = walk k (if is_busy id s.in_flight then pass k id s else start k id s) ids in
    if (s.lanes k).active == capacity k then (s, false) else rest

-- A page of `ListDeploymentWork`: ids, and whether there are more.
pub record Query : Type 0 where
  pub kind : Kind
  pub after_id : String
  pub limit : ℕ

abbrev pub Answer : Type 0
Answer = Query → Result (List String × Bool)

abbrev pub query : Kind → Scheduler → Query
query k s = record {
  kind = k;
  after_id = (s.lanes k).after_id;
  limit = capacity k - (s.lanes k).active + length s.in_flight;
}

unfoldable pub exhaust : Kind → Scheduler → Scheduler
exhaust k s = set_lane k (record (s.lanes k) { exhausted = true; after_id = "" }) s

-- What one page leaves of the scheduler.
unfoldable pub take_page : Kind → Scheduler → List String → Bool → Scheduler
take_page k s items more =
    let (s', consumed) = walk k s items in if not more && consumed then exhaust k s' else s'

-- The loop of a lane, one answer of the store for each turn that the context allows.
unfoldable pub schedule : Kind → List Answer → Scheduler → Scheduler
schedule k [] s = s
schedule k (answer ∷ answers) s =
    let next : Scheduler = elim (answer (query k s)) [
      | err e ↦ s
      | ok (items, more) ↦ schedule k answers (take_page k s items more)
    ] in
    if (s.lanes k).exhausted || leb (capacity k) (s.lanes k).active then s else next

unfoldable pub rewind : Kind → Scheduler → Scheduler
rewind k s = set_lane k (record (s.lanes k) { exhausted = false }) s

unfoldable pub tick : (Kind → List Answer) → Scheduler → Scheduler
tick answers s =
    let s1 = schedule provision (answers provision) (rewind provision s) in
    let s2 = schedule monitor (answers monitor) (rewind monitor s1) in
    schedule cleanup (answers cleanup) (rewind cleanup s2)

unfoldable pub notified : (Kind → List Answer) → Scheduler → Scheduler
notified answers s =
    let s1 = schedule provision (answers provision) (rewind provision s) in
    let s2 = schedule monitor (answers monitor) s1 in schedule cleanup (answers cleanup) s2

unfoldable pub drop : String → Kind → Scheduler → Scheduler
drop id k s =
    let l = s.lanes k in
    let freed = set_lane k (record l { active = l.active - 1 }) s in
    record freed { in_flight = remove id s.in_flight }

unfoldable pub complete : String → Kind → List Answer → Scheduler → Scheduler
complete id k answers s = schedule k answers (drop id k s)

abbrev pub idle : Scheduler
idle = record {
  lanes = λ k. record { active = 0; after_id = ""; exhausted = false };
  in_flight = [];
}

-- The events that `Run` selects; an operation completes while it is in flight.
pub data Step (s : Scheduler) : Scheduler → Type 0 where
  ticks : (answers : Kind → List Answer) → Step s (tick answers s)
  notifies : (answers : Kind → List Answer) → Step s (notified answers s)
  completes :
      (id : String) (k : Kind) (answers : List Answer)
      → In (id, k) s.in_flight
      → Step s (complete id k answers s)

pub data Reach : Scheduler → Type 0 where
  begin : Reach idle
  next : {s t : Scheduler} → Reach s → Step s t → Reach t
