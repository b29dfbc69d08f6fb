-- ===== src/Request/Links.antt =====
-- `internal/state/conversions.go`: the context of a request that a webhook payload carries, and the
-- address of its job on GitHub.
use qiniu_ci_runner.Prelude.{
  ℕ, zero, suc, String, Bool, true, false, ◌&&◌, ◌||◌, List, [], ◌∷◌, str_eq, is_empty, ◌==◌,
  if◌then◌else◌, trim_space, append_text, cut, decimal,
}
use qiniu_ci_runner.Request.Record.{RunnerRequestRecord, GithubPayloadLinks, GithubPayload, Json}
use qiniu_ci_runner.Request.Convert.{pointer_to_int64}

first_non_empty : List String → String
first_non_empty [] = ""
first_non_empty (value ∷ values) =
    let rest = first_non_empty values in
    let value' = trim_space value in if is_empty value' then rest else value'

abbrev first_pull_request_number : List ℕ → ℕ
first_pull_request_number [] = 0
first_pull_request_number (n ∷ pulls) = n

pub github_job_url : String → ℕ → ℕ → String
github_job_url repository run_id job_id =
    if is_empty repository || (run_id == 0) || (job_id == 0)
    then ""
    else append_text "https://github.com/" (
        append_text repository (
          append_text "/actions/runs/"
            (append_text (decimal run_id) (append_text "/job/" (decimal job_id)))))

-- The characters of a text, as a bound on the number of its fields.
abbrev size : String → ℕ
size String.[] = 0
size (String.◌∷◌ c s) = suc (size s)

-- The loop over the fields of a query: the fuel is the number of fields left, and each round takes
-- one field off.
has_field : ℕ → String → String → Bool
has_field zero name query = false
has_field (suc fuel) name query =
    let (field, rest, found) = cut b'&' query in
    let (field_name, _, _) = cut b'=' field in
    let again = has_field fuel name rest in
    if is_empty query
    then false
    else if str_eq field_name name
    then true
    else if found
    then again
    else false

-- The query stands between the first `?` and the first `#` after it; a `#` before the `?` leaves
-- no query.
unfoldable pub has_raw_query_parameter : String → String → Bool
unfolding has_field cut
has_raw_query_parameter raw_url name =
    let (base, _, _) = cut b'#' raw_url in
    let (_, query, found) = cut b'?' base in found && has_field (suc (size query)) name query

unfoldable pub append_pull_request_query : String → ℕ → String
unfolding has_raw_query_parameter cut decimal
append_pull_request_query raw_url number =
    let (_, _, question) = cut b'?' raw_url in
    let separator : String = if question then "&" else "?" in
    if is_empty raw_url || (number == 0)
    then raw_url
    else if has_raw_query_parameter raw_url "pr"
    then raw_url
    else append_text raw_url (append_text separator (append_text "pr=" (decimal number)))

-- Every number and text that a payload lacks is 0 or empty.
abbrev pub zero_payload : GithubPayload
zero_payload = record {
  job_run_id = 0;
  job_workflow_name = "";
  job_run_attempt = 0;
  job_head_branch = "";
  job_head_sha = "";
  job_html_url = "";
  job_pull_requests = [];
  job_workflow_run_id = 0;
  run_id = 0;
  run_name = "";
  run_run_attempt = 0;
  run_head_branch = "";
  run_head_sha = "";
  run_pull_requests = [];
  pull_request_number = 0;
}

abbrev pub or_number : ℕ → ℕ → ℕ
or_number a b = if a == 0 then b else a

abbrev or_text : String → String → String
or_text a b = if is_empty a then b else a

unfoldable pub github_links_from_payload_bytes : Json → String → String → ℕ → GithubPayloadLinks
unfolding first_non_empty github_job_url append_pull_request_query
github_links_from_payload_bytes json payload_json repository job_id =
    let payload = if is_empty payload_json then zero_payload else json.payload payload_json in
    let run_id =
      or_number (or_number payload.job_run_id payload.job_workflow_run_id) payload.run_id in
    let number =
      or_number
        (or_number (first_pull_request_number payload.job_pull_requests)
          (first_pull_request_number payload.run_pull_requests))
        payload.pull_request_number in
    let job_url = or_text payload.job_html_url (github_job_url repository run_id job_id) in
    record {
      workflow_run_id = run_id;
      workflow_name = first_non_empty (payload.job_workflow_name ∷ payload.run_name ∷ []);
      workflow_run_attempt = or_number payload.job_run_attempt payload.run_run_attempt;
      head_branch = first_non_empty (payload.job_head_branch ∷ payload.run_head_branch ∷ []);
      head_sha = first_non_empty (payload.job_head_sha ∷ payload.run_head_sha ∷ []);
      job_url = append_pull_request_query job_url number;
      pull_request_number = number;
    }

pub effective_runner_request_job_id : RunnerRequestRecord → ℕ
effective_runner_request_job_id row =
    if row.assigned_job_id == 0 then pointer_to_int64 row.workflow_job_id else row.assigned_job_id

github_links_from_payload : Json → RunnerRequestRecord → GithubPayloadLinks
github_links_from_payload json row =
    github_links_from_payload_bytes json row.github_payload_json row.repository_full_name
      (effective_runner_request_job_id row)

-- A field that the row holds wins over the payload's.
pub merge_github_payload_links : GithubPayloadLinks → GithubPayloadLinks → GithubPayloadLinks
merge_github_payload_links links fallback = record {
  workflow_run_id = or_number links.workflow_run_id fallback.workflow_run_id;
  workflow_name = or_text links.workflow_name fallback.workflow_name;
  workflow_run_attempt = or_number links.workflow_run_attempt fallback.workflow_run_attempt;
  head_branch = or_text links.head_branch fallback.head_branch;
  head_sha = or_text links.head_sha fallback.head_sha;
  job_url = or_text links.job_url fallback.job_url;
  pull_request_number = or_number links.pull_request_number fallback.pull_request_number;
}

links_of_row : RunnerRequestRecord → GithubPayloadLinks
links_of_row row = record {
  workflow_run_id = row.workflow_run_id;
  workflow_name = row.workflow_name;
  workflow_run_attempt = row.workflow_run_attempt;
  head_branch = row.head_branch;
  head_sha = row.head_sha;
  job_url = row.github_job_url;
  pull_request_number = row.pull_request_number;
}

unfoldable pub github_links_from_record : Json → RunnerRequestRecord → GithubPayloadLinks
unfolding links_of_row github_links_from_payload merge_github_payload_links
    effective_runner_request_job_id append_pull_request_query github_job_url
github_links_from_record json row =
    let known = links_of_row row in
    let links =
      if row.github_context_backfilled
      then known
      else merge_github_payload_links known (github_links_from_payload json row) in
    let job_url = or_text links.job_url (
      github_job_url row.repository_full_name links.workflow_run_id
        (effective_runner_request_job_id row)) in
    record links { job_url = append_pull_request_query job_url links.pull_request_number }
