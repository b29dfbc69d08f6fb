-- ===== src/Examples/Listing.antt =====
-- Lists and counts of runner requests on a table of one row and of two.
use qiniu_ci_runner.Prelude.{
  String, Bool, true, false, List, [], ◌∷◌, ◌≡◌, refl, inl, In, ok, count, ◌&&◌, ◌⊎◌, append_text,
  trim_space, ◌+◌, some, pos,
}
use qiniu_ci_runner.Prelude.Order.{text_before, text_before-IsOrder}
use qiniu_ci_runner.Request.Types.{is_in_flight, is_queued, running}
use qiniu_ci_runner.Request.Record.{RunnerRequestRecord}
use qiniu_ci_runner.Request.Store.{Db}
use qiniu_ci_runner.Request.Keys.{IsKeyed}
use qiniu_ci_runner.Request.Queue.{claim_rows, is_runnable, lease_to, goes_before}
use qiniu_ci_runner.Request.Lease.{claim_earliest}
use qiniu_ci_runner.Request.Counts.{
  active_count, in_flight_count, in_flight_count_for_repository_owner, has_prefix,
  owner_count-prefix, active-in_flight,
}
use qiniu_ci_runner.Request.Listing.{cursor_rows, is_after, RunnerRequestListOptions}
use qiniu_ci_runner.Request.Paging.{cursor_complete, cursor_of}
use qiniu_ci_runner.Examples.Data.{queued_row}

abbrev newer_row : RunnerRequestRecord
newer_row = record queued_row {
  id = "run-8";
  workflow_job_id = some 8;
  queued_at = 6;
  status = running;
  repository_full_name = "o_c/app";
}

abbrev two_rows : List RunnerRequestRecord
two_rows = queued_row ∷ newer_row ∷ []

abbrev two_db : Db
two_db = record { available = true; rows = two_rows }

two-IsKeyed : IsKeyed two_rows
two-IsKeyed = record { ids = ((refl, tt), (tt, tt)); jobs = ((refl, tt), (tt, tt)) }

abbrev any : RunnerRequestRecord → Bool
any r = true

claim_earliest_example :
    (c : RunnerRequestRecord) × In c two_db.rows
    × (is_runnable 9 c ≡ true)
    × (lease_to "w1" 9 39 0 queued_row ≡ lease_to "w1" 9 39 c.version c)
    × ((other : RunnerRequestRecord)
        → In other two_db.rows
        → is_runnable 9 other ≡ true
        → goes_before text_before other c ≡ false)
unfolding claim_rows
claim_earliest_example =
    claim_earliest text_before two_db "w1" 9 30 (lease_to "w1" 9 39 0 queued_row)
      text_before-IsOrder two-IsKeyed refl

abbrev as_is : String → String
as_is s = s

-- The queued requests behind the newer row, one to a page.
abbrev queued_options : RunnerRequestListOptions
queued_options = record {
  repository_full_name = "";
  profile_name = "";
  display_status = "queued";
  limit = 1;
  offset = pos 0;
}

cursor_complete_example :
    In queued_row (cursor_rows text_before two_rows any 1).0
    ⊎ (((cursor_rows text_before two_rows any 1).1 ≡ true)
        × ((b : RunnerRequestRecord)
            → In b (cursor_rows text_before two_rows any 1).0
            → is_after text_before (cursor_of b) queued_row ≡ true))
cursor_complete_example =
    cursor_complete text_before two_rows any 1 queued_row text_before-IsOrder two-IsKeyed (inl refl)
      refl

owner_count-prefix_example :
    in_flight_count_for_repository_owner as_is as_is two_db "o_c"
    ≡ ok (
        count
          (λ r.
            has_prefix (append_text (trim_space "o_c") "/") r.repository_full_name
            && is_in_flight r.status)
          two_rows)
unfolding trim_space
owner_count-prefix_example = owner_count-prefix as_is as_is two_db "o_c" refl refl

one_runs : in_flight_count two_db ≡ ok 1
unfolding in_flight_count
one_runs = refl

active-in_flight_example : active_count two_db ≡ ok (count (λ r. is_queued r.status) two_rows + 1)
active-in_flight_example = active-in_flight two_db 1 one_runs
