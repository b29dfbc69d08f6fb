-- ===== src/Capacity/Reserve.antt =====
-- `reserveRunnerCapacity` of `internal/server/server_runner_capacity.go`: observe the counters, read
-- the counts that have a limit from the store, and reserve.
use qiniu_ci_runner.Prelude.{
  ℕ, String, Option, none, some, Result, ok, err, Error, is_empty, ltb, leb, if◌then◌else◌,
}
use qiniu_ci_runner.Request.Types.{RunnerRequest}
use qiniu_ci_runner.Capacity.Admission.{
  RunnerAdmissionCapacity, RunnerCapacityObservation, runner_repository_owner,
  normalize_runner_repository, observe, reserve, finish,
}

-- The limits of the configuration: a name without an entry has limit 0, which is no limit.
pub record Limits : Type 0 where
  pub max_concurrent_runners : ℕ
  pub account_concurrency : String → ℕ
  pub repository_concurrency : String → ℕ

-- What the store answers to the four counts.
pub record Answers : Type 0 where
  pub in_flight : Result ℕ
  pub in_flight_profile : Result ℕ
  pub in_flight_account : Result ℕ
  pub in_flight_repository : Result ℕ

-- `granted` stands for the release function, which finishes the observation.
pub data Grant : Type 0 where
  granted : RunnerCapacityObservation → Grant
  refused : String → Option Error → Grant

-- A count that is read only under a limit; an error ends the call at that stage.
abbrev read_under : ℕ → Result ℕ → Result ℕ
read_under limit answer = if ltb 0 limit then answer else ok 0

unfoldable pub decide :
    RunnerAdmissionCapacity
    → RunnerCapacityObservation
    → Answers
    → ℕ
    → ℕ
    → ℕ
    → ℕ
    → RunnerAdmissionCapacity × Grant
decide c o answers global profile account repository = elim answers.in_flight [
  | err e ↦ (finish c o, refused "global_capacity_check" (some e))
  | ok global_count ↦
      if leb global global_count
      then (finish c o, refused "global_capacity_check" none)
      else elim (read_under profile answers.in_flight_profile) [
        | err e ↦ (finish c o, refused "profile_capacity_check" (some e))
        | ok profile_count ↦ elim (read_under account answers.in_flight_account) [
          | err e ↦ (finish c o, refused "account_capacity_check" (some e))
          | ok account_count ↦ elim (read_under repository answers.in_flight_repository) [
            | err e ↦ (finish c o, refused "repository_capacity_check" (some e))
            | ok repository_count ↦
                let (c', o', stage) = reserve c o (record {
                  global_count = global_count;
                  global_limit = global;
                  profile_count = profile_count;
                  profile_limit = profile;
                  account_count = account_count;
                  account_limit = account;
                  repository_count = repository_count;
                  repository_limit = repository;
                }) in
                if is_empty stage then (c', granted o') else (finish c' o', refused stage none)
          ]
        ]
      ]
]

-- `others` is what other calls do to the counters between the observation and the decision.
unfoldable pub reserve_runner_capacity :
    (String → String)
    → Limits
    → RunnerAdmissionCapacity
    → RunnerRequest
    → String
    → ℕ
    → Answers
    → (RunnerAdmissionCapacity → RunnerAdmissionCapacity)
    → RunnerAdmissionCapacity × Grant
unfolding decide
reserve_runner_capacity lower limits c req profile_name max_concurrency answers others =
    let (c', o) = observe lower c req profile_name in
    let owner = runner_repository_owner lower req.repository_full_name in
    let repository = normalize_runner_repository lower req.repository_full_name in
    decide (others c') o answers limits.max_concurrent_runners
      (if is_empty req.profile_name then 0 else max_concurrency)
      (if is_empty owner then 0 else limits.account_concurrency owner)
      (if is_empty repository then 0 else limits.repository_concurrency repository)
