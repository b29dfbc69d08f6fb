-- ===== src/Deployment/Budget.antt =====
-- `AppendDeploymentEvent`: the events that a revision may keep, and the loop that drops the oldest.
-- The counters of a budget are natural numbers; they never fall below 0 where they are exact.
use qiniu_ci_runner.Prelude.{
  ℕ, zero, suc, ◌+◌, ◌-◌, String, Bool, true, not, ◌&&◌, ◌||◌, List, [], ◌∷◌, ◌++◌, none, some,
  Result, ok, err, conflict, record_not_found, out_of_fuel, invalid, ensure, ◌>>◌, ◌>>=◌,
  trim_space, is_empty, str_eq, ◌==◌, leb, ltb, if◌then◌else◌, find, select, sort_by, take, length,
  update_where, byte_len, has_control,
}
use qiniu_ci_runner.Request.Types.{Time, is_zero}
use qiniu_ci_runner.Deployment.Types.{
  DeploymentRecord, DeploymentRevisionRecord, DeploymentEventRecord,
}
use qiniu_ci_runner.Deployment.Store.{DeploymentDb, opened, has_id, at_number, is_listed}

abbrev pub max_deployment_event_message : ℕ
max_deployment_event_message = 65536

abbrev pub max_deployment_events : ℕ
max_deployment_events = 2000

abbrev pub max_deployment_event_bytes : ℕ
max_deployment_event_bytes = 8388608

-- The number of events and of the bytes of their messages.
pub record Budget : Type 0 where
  pub events : ℕ
  pub bytes : ℕ

abbrev pub of_revision : String → ℕ → DeploymentEventRecord → Bool
of_revision id number e = str_eq e.deployment_id id && (e.revision_number == number)

-- `id ASC`
abbrev pub older : DeploymentEventRecord → DeploymentEventRecord → Bool
older a b = ltb a.id b.id

-- The counters as a query finds them.
unfoldable pub budget_of : List DeploymentEventRecord → Budget
budget_of [] = record { events = 0; bytes = 0 }
budget_of (e ∷ es) =
    let b = budget_of es in record { events = b.events + 1; bytes = length e.message + b.bytes }

-- There is room for a message of that length.
abbrev pub fits : ℕ → Budget → Bool
fits size b = ltb b.events max_deployment_events && leb (b.bytes + size) max_deployment_event_bytes

abbrev pub without : DeploymentEventRecord → Budget → Budget
without e b = record { events = b.events - 1; bytes = b.bytes - length e.message }

-- The ids to delete of a batch, and the counters after that.
unfoldable pub choose : ℕ → List DeploymentEventRecord → Budget → List ℕ × Budget
choose size [] b = ([], b)
choose size (e ∷ es) b =
    let (ids, left) = choose size es (without e b) in
    if fits size b then ([], b) else (e.id ∷ ids, left)

abbrev pub is_dropped : String → ℕ → List ℕ → DeploymentEventRecord → Bool
is_dropped id number ids e = of_revision id number e && is_listed e.id ids

-- The loop, a batch of 100 at a time.
unfoldable pub make_room :
    ℕ
    → String
    → ℕ
    → ℕ
    → Budget
    → List DeploymentEventRecord
    → Result (Budget × List DeploymentEventRecord)
unfolding choose
make_room zero id number size b events = err out_of_fuel
make_room (suc fuel) id number size b events =
    let oldest = take 100 (sort_by older (select (of_revision id number) events)) in
    let (ids, left) = choose size oldest b in
    let rest =
      make_room fuel id number size left
        (select (λ (e : DeploymentEventRecord). not (is_dropped id number ids e)) events) in
    if fits size b
    then ok (b, events)
    else if length oldest == 0
    then err record_not_found
    else rest

-- The event with its texts trimmed, its message cut and its time set.
abbrev pub trimmed_event : Time → DeploymentEventRecord → DeploymentEventRecord
trimmed_event now e = record e {
  deployment_id = trim_space e.deployment_id;
  event_type = trim_space e.event_type;
  stage = trim_space e.stage;
  stream = trim_space e.stream;
  message =
      if ltb max_deployment_event_message (length e.message)
      then take max_deployment_event_message e.message
      else e.message;
  created_at = if is_zero e.created_at then now else e.created_at;
}

unfoldable pub check_event : DeploymentEventRecord → Result (Unit {0})
check_event e = do
  ensure
      (not (
        is_empty e.deployment_id
        || (is_empty e.event_type
            || (ltb 128 (byte_len e.deployment_id)
                || (ltb 64 (byte_len e.event_type)
                    || (ltb 64 (byte_len e.stage) || ltb 32 (byte_len e.stream)))))))
      (invalid "deployment event identity is invalid")
  ensure
      (not (
        has_control e.deployment_id
        || (has_control e.event_type || (has_control e.stage || has_control e.stream))))
      (invalid "deployment event identity is invalid")

abbrev pub counted : Budget → DeploymentRevisionRecord → DeploymentRevisionRecord
counted b r = record r {
  event_count = b.events;
  event_bytes = b.bytes;
  event_budget_initialized = true;
}

-- The counters that the transaction starts from.
abbrev pub budget_at : DeploymentRevisionRecord → List DeploymentEventRecord → Budget
budget_at r timeline =
    if r.event_budget_initialized
    then record { events = r.event_count; bytes = r.event_bytes }
    else budget_of timeline

-- A number of 0 stands for the current revision.
abbrev pub chosen_number : ℕ → ℕ → ℕ
chosen_number zero current = current
chosen_number (suc n) current = suc n

-- The transaction, on the current revision of the event's deployment.
unfoldable pub append_event :
    DeploymentEventRecord
    → DeploymentRevisionRecord
    → DeploymentDb
    → Result (DeploymentDb × Unit {0})
unfolding budget_of make_room
append_event e r db = do
  let timeline = select (of_revision e.deployment_id e.revision_number) db.events
  let size = length e.message
  room ←
      make_room (suc (length timeline)) e.deployment_id e.revision_number size
        (budget_at r timeline) db.events
  let kept = room.0
  ok (
    record db {
      events = room.1 ++ record e { id = db.next_event } ∷ [];
      next_event = db.next_event + 1;
      revisions =
          update_where (at_number e.deployment_id e.revision_number)
            (counted (record { events = kept.events + 1; bytes = kept.bytes + size })) db.revisions;
    },
    tt,
  )

-- The transaction once the owner is read, for the revision of that number.
abbrev pub append_at :
    ℕ → DeploymentRecord → DeploymentEventRecord → DeploymentDb → Result (DeploymentDb × Unit {0})
append_at number owner e db = do
  ensure (number == owner.revision_number) conflict
  elim (find (at_number e.deployment_id number) db.revisions) [
    | none ↦ err record_not_found
    | some r ↦ append_event (record e { revision_number = number }) r db
  ]

unfoldable pub append_to_current :
    DeploymentEventRecord → DeploymentDb → Result (DeploymentDb × Unit {0})
unfolding append_event
append_to_current e db = elim (find (has_id e.deployment_id) db.deployments) [
  | none ↦ err record_not_found
  | some owner ↦ append_at (chosen_number e.revision_number owner.revision_number) owner e db
]

unfoldable pub append_deployment_event :
    Time → DeploymentEventRecord → DeploymentDb → DeploymentDb × Result (Unit {0})
unfolding check_event append_to_current
append_deployment_event now e db =
    opened db (do check_event (trimmed_event now e); append_to_current (trimmed_event now e) db)
