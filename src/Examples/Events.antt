-- ===== src/Examples/Events.antt =====
-- Logs of a runner request: two appends, and a bounded read.
use qiniu_ci_runner.Events.Latest.{events_complete}
use qiniu_ci_runner.Events.Log.{event_of, RunnerEventRecord, list_runner_events, listed}
use qiniu_ci_runner.Prelude.{
  map, In, Bool, ◌⊎◌, List, [], ◌∷◌, ◌≡◌, ◌++◌, refl, ok, length, min, arith, ◌≤◌, trim_space,
  replace_char, replace_dots, true,
}
use qiniu_ci_runner.Request.Convert.{sanitize_id}
use qiniu_ci_runner.Events.Log.{
  Bytes, Events, append_staged_log, last_bytes, read_log, log_event_type, base,
}
use qiniu_ci_runner.Events.Replay.{Append, append_all, written, IsFilled, held, read-append_all}
use qiniu_ci_runner.Events.Contents.{
  IsNumbered, append-IsNumbered, read-append, read-suffix, contents,
}

abbrev no_events : Events
no_events = record { available = true; next_id = 1; rows = [] }

none-IsNumbered : IsNumbered no_events
none-IsNumbered = record { ordered = tt; below = tt }

abbrev one_event : Events
one_event = append_staged_log no_events "run-7" "stdout.log" "start" (104 ∷ 105 ∷ []) 5

one-IsNumbered : IsNumbered one_event
one-IsNumbered =
    append-IsNumbered no_events "run-7" "stdout.log" "start" (104 ∷ 105 ∷ []) 5 none-IsNumbered

is_stdout : log_event_type "stdout.log" ≡ ok "stdout_log"
unfolding log_event_type base
is_stdout = refl

one_open : one_event.available ≡ true
unfolding append_staged_log log_event_type base
one_open = refl

read-append_example :
    read_log
      (append_staged_log one_event "run-7" "stdout.log" "start" (33 ∷ []) 6)
      "run-7"
      "stdout.log"
      0
    ≡ ok (contents one_event "run-7" "stdout_log" ++ 33 ∷ [])
read-append_example =
    read-append one_event "run-7" "stdout.log" "start" "stdout_log" 33 [] 6 one-IsNumbered one_open
      is_stdout

abbrev two_bytes : Events
two_bytes = record {
  available = true;
  next_id = 2;
  rows =
      record {
        id = 1;
        request_id = "run-7";
        event_type = "stdout_log";
        stage = "";
        message = 104 ∷ 105 ∷ [];
        payload_json = "";
        created_at = 5;
      }
      ∷ [];
}

two-IsNumbered : IsNumbered two_bytes
two-IsNumbered = record { ordered = (tt, tt); below = (omega arith, tt) }

read-suffix_example :
    (before : Bytes) × (tail : Bytes) × (read_log two_bytes "run-7" "stdout.log" 1 ≡ ok tail)
    × (before ++ tail ≡ contents two_bytes "run-7" "stdout_log")
    × (length tail ≡ min 1 (length (contents two_bytes "run-7" "stdout_log")))
unfolding sanitize_id trim_space replace_char replace_dots
read-suffix_example =
    read-suffix two_bytes "run-7" "stdout.log" "stdout_log" 1 two-IsNumbered refl is_stdout
      (λ e. cc e) (omega arith)

events_complete_example :
    (page : List RunnerEventRecord) × (truncated : Bool) × (list_runner_events two_bytes "run-7" 0 1
        []
      ≡ ok (map event_of page, truncated))
    × (length page ≤ 1)
    × ((e : RunnerEventRecord) → In e page → In e two_bytes.rows × (listed "run-7" 0 [] e ≡ true))
    × ((e : RunnerEventRecord)
        → In e two_bytes.rows
        → listed "run-7" 0 [] e ≡ true
        → In e page ⊎ ((truncated ≡ true) × ((b : RunnerEventRecord) → In b page → e.id ≤ b.id)))
events_complete_example = events_complete two_bytes "run-7" 0 1 [] refl

-- Three appends: two to the log of one request, and between them one to the log of another.
abbrev appends : List Append
appends =
    record { id = "run-7"; name = "stdout.log"; stage = "start"; bytes = 33 ∷ []; now = 6 }
    ∷ record { id = "run-8"; name = "stdout.log"; stage = "start"; bytes = 35 ∷ []; now = 7 }
    ∷ record { id = "run-7"; name = "stdout.log"; stage = "start"; bytes = 34 ∷ []; now = 8 }
    ∷ []

two-IsFilled : IsFilled "run-7" "stdout_log" two_bytes
unfolding sanitize_id trim_space replace_char replace_dots
two-IsFilled = (λ e. cc e, tt)

read-append_all_example :
    read_log (append_all two_bytes appends) "run-7" "stdout.log" 3
    ≡ held 3 (contents two_bytes "run-7" "stdout_log" ++ written "run-7" "stdout_log" appends)
read-append_all_example =
    read-append_all two_bytes appends "run-7" "stdout.log" "stdout_log" 3 two-IsNumbered
      two-IsFilled refl is_stdout

-- What that read gives.
three_bytes :
    held 3 (contents two_bytes "run-7" "stdout_log" ++ written "run-7" "stdout_log" appends)
    ≡ ok (105 ∷ 33 ∷ 34 ∷ [])
unfolding sanitize_id trim_space replace_char replace_dots log_event_type base last_bytes
three_bytes = refl
