-- ===== src/Events/Log.antt =====
-- `internal/state/runner_requests.go`: the events of runner requests, and the logs kept as events. A
-- message is a list of bytes. The database numbers the events it inserts upwards. A limit of 0 stands
-- for every number that is not positive.
use Prim.Native.Char.{code}
use qiniu_ci_runner.Prelude.{
  ℕ, zero, suc, ◌+◌, ◌-◌, String, Bool, true, false, ◌&&◌, ◌||◌, not, List, [], ◌∷◌, ◌++◌, Result,
  ok, err, unavailable, not_exist, bad_log_name, if◌then◌else◌, str_eq, is_empty, ltb, ◌==◌, select,
  sort_by, map, take, length, min, max,
}
use qiniu_ci_runner.Request.Types.{Time}
use qiniu_ci_runner.Request.Convert.{sanitize_id}
use qiniu_ci_runner.Request.Counts.{one_of}

abbrev pub Bytes : Type 0
Bytes = List ℕ

pub record RunnerEventRecord : Type 0 where
  pub id : ℕ
  pub request_id : String
  pub event_type : String
  pub stage : String
  pub message : Bytes
  pub payload_json : String
  pub created_at : Time

-- What the listings show of an event.
pub record RunnerEvent : Type 0 where
  pub id : ℕ
  pub event_type : String
  pub stage : String
  pub message : Bytes
  pub created_at : Time

abbrev pub event_of : RunnerEventRecord → RunnerEvent
event_of e = record {
  id = e.id;
  event_type = e.event_type;
  stage = e.stage;
  message = e.message;
  created_at = e.created_at;
}

-- The table of events and the number of the next one.
pub record Events : Type 0 where
  pub available : Bool
  pub next_id : ℕ
  pub rows : List RunnerEventRecord

abbrev without_slashes : String → String
without_slashes String.[] = String.[]
without_slashes (String.◌∷◌ c s) =
    let rest = without_slashes s in
    if is_empty rest && (code c == 47) then String.[] else String.◌∷◌ c rest

abbrev has_slash : String → Bool
has_slash String.[] = false
has_slash (String.◌∷◌ c s) = (code c == 47) || has_slash s

abbrev after_slashes : String → String
after_slashes String.[] = String.[]
after_slashes (String.◌∷◌ c s) =
    let rest = after_slashes s in if (code c == 47) || has_slash s then rest else String.◌∷◌ c s

-- `filepath.Base`, where the separator is the slash.
unfoldable pub base : String → String
base path =
    let name = without_slashes path in
    if is_empty path then "." else if is_empty name then "/" else after_slashes name

unfoldable pub log_event_type : String → Result String
unfolding base
log_event_type name =
    if str_eq (base name) "control.log"
    then ok "control_log"
    else if str_eq (base name) "stdout.log"
    then ok "stdout_log"
    else if str_eq (base name) "stderr.log"
    then ok "stderr_log"
    else err bad_log_name

abbrev pub event_row : Events → String → String → String → Bytes → Time → RunnerEventRecord
event_row db id event_type stage bytes now = record {
  id = db.next_id;
  request_id = sanitize_id id;
  event_type = event_type;
  stage = stage;
  message = bytes;
  payload_json = "";
  created_at = now;
}

abbrev pub insert_event : RunnerEventRecord → Events → Events
insert_event row db = record db { next_id = db.next_id + 1; rows = db.rows ++ row ∷ [] }

unfoldable pub append_staged_log : Events → String → String → String → Bytes → Time → Events
append_staged_log db id name stage [] now = db
append_staged_log db id name stage (b ∷ bytes) now =
    if not db.available then db else elim (log_event_type name) [
      | err e ↦ db
      | ok event_type ↦ insert_event (event_row db id event_type stage (b ∷ bytes) now) db
    ]

unfoldable pub append_log : Events → String → String → Bytes → Time → Events
append_log db id name bytes now = append_staged_log db id name "" bytes now

abbrev pub of_log : String → String → RunnerEventRecord → Bool
of_log id event_type e = str_eq e.request_id (sanitize_id id) && str_eq e.event_type event_type

abbrev pub oldest : RunnerEventRecord → RunnerEventRecord → Bool
oldest a b = ltb a.id b.id

abbrev pub latest : RunnerEventRecord → RunnerEventRecord → Bool
latest a b = ltb b.id a.id

abbrev pub messages : List RunnerEventRecord → Bytes
messages [] = []
messages (e ∷ es) = e.message ++ messages es

abbrev pub drop_bytes : ℕ → Bytes → Bytes
drop_bytes zero bytes = bytes
drop_bytes (suc n) [] = []
drop_bytes (suc n) (b ∷ bytes) = drop_bytes n bytes

-- The last bytes of the data, at most `max_bytes` of them; 0 stands for no bound.
unfoldable pub last_bytes : ℕ → Bytes → Bytes
last_bytes max_bytes bytes =
    if ltb 0 max_bytes && ltb max_bytes (length bytes)
    then drop_bytes (length bytes - max_bytes) bytes
    else bytes

unfoldable pub read_log : Events → String → String → ℕ → Result Bytes
read_log db id name max_bytes =
    if not db.available then err unavailable else elim (log_event_type name) [
      | err e ↦ err e
      | ok event_type ↦ elim (sort_by oldest (select (of_log id event_type) db.rows)) [
        | [] ↦ err not_exist
        | e ∷ es ↦ ok (last_bytes max_bytes (messages (e ∷ es)))
      ]
    ]

abbrev pub clamp : ℕ → ℕ
clamp limit = min (max limit 1) 500

abbrev pub of_types : List String → RunnerEventRecord → Bool
of_types [] e = true
of_types (t ∷ ts) e = one_of e.event_type (t ∷ ts)

abbrev pub is_earlier : ℕ → RunnerEventRecord → Bool
is_earlier zero e = true
is_earlier (suc n) e = ltb e.id (suc n)

abbrev pub reversed_onto : List RunnerEventRecord → List RunnerEventRecord → List RunnerEventRecord
reversed_onto [] tail = tail
reversed_onto (e ∷ es) tail = reversed_onto es (e ∷ tail)

-- `request_id = ?`, `id < ?` and `event_type IN ?`
abbrev pub listed : String → ℕ → List String → RunnerEventRecord → Bool
listed id before_id types e =
    str_eq e.request_id (sanitize_id id) && (is_earlier before_id e && of_types types e)

unfoldable pub list_runner_events :
    Events → String → ℕ → ℕ → List String → Result (List RunnerEvent × Bool)
list_runner_events db id before_id limit types =
    let found =
      take (suc (clamp limit)) (sort_by latest (select (listed id before_id types) db.rows)) in
    if db.available
    then ok (
      map event_of (reversed_onto (take (clamp limit) found) []),
      ltb (clamp limit) (length found),
    )
    else err unavailable

unfoldable pub list_runner_events_after :
    Events → String → ℕ → ℕ → List String → Result (List RunnerEvent × Bool)
list_runner_events_after db id after_id limit types =
    let matches = λ (e : RunnerEventRecord).
      str_eq e.request_id (sanitize_id id) && (ltb after_id e.id && of_types types e) in
    let found = take (suc (clamp limit)) (sort_by oldest (select matches db.rows)) in
    if db.available
    then ok (map event_of (take (clamp limit) found), ltb (clamp limit) (length found))
    else err unavailable
