-- ===== src/Capacity/Admission.antt =====
-- `internal/server/server_runner_capacity.go`: `observe`, `reserve` and `finish`. Each runs under the
-- mutex, so it is one step on the counters. The three maps are boards of counters; `lower` is
-- `strings.ToLower`.
use qiniu_ci_runner.Prelude.{
  ℕ, ◌+◌, ◌-◌, String, Bool, true, false, ◌&&◌, not, Option, none, some, str_eq, is_empty, ltb,
  ◌==◌, if◌then◌else◌, trim_space, cut,
}
use qiniu_ci_runner.Request.Types.{RunnerRequest}
use qiniu_ci_runner.Capacity.Board.{
  Board, empty_board, next64, diff64, sum64, reaches, join, admit, settle, leave,
}

pub record RunnerCapacityKey : Type 0 where
  pub source : String
  pub scope_type : String
  pub name : String
  pub scope_id : ℕ

abbrev pub same_key : RunnerCapacityKey → RunnerCapacityKey → Bool
same_key a b =
    str_eq a.source b.source
    && (str_eq a.scope_type b.scope_type && (str_eq a.name b.name && (a.scope_id == b.scope_id)))

unfoldable pub normalize_runner_repository : (String → String) → String → String
normalize_runner_repository lower repository = lower (trim_space repository)

unfoldable pub runner_repository_owner : (String → String) → String → String
unfolding normalize_runner_repository
runner_repository_owner lower repository =
    let (owner, _, found) = cut b'/' (normalize_runner_repository lower repository) in
    if found then owner else ""

unfoldable pub runner_capacity_profile_key : RunnerRequest → RunnerCapacityKey
runner_capacity_profile_key req =
    let name = trim_space req.profile_name in
    if not (is_empty req.profile_source)
      && (not (str_eq req.profile_source "global")
          && (not (is_empty req.profile_scope_type) && not (req.profile_scope_id == 0)))
    then record {
      source = req.profile_source;
      scope_type = req.profile_scope_type;
      name = name;
      scope_id = req.profile_scope_id;
    }
    else record { source = "global"; scope_type = ""; name = name; scope_id = 0 }

pub record RunnerAdmissionCapacity : Type 0 where
  pub started : ℕ
  pub pending : ℕ
  pub profiles : Board RunnerCapacityKey
  pub accounts : Board String
  pub repositories : Board String

abbrev pub no_admissions : RunnerAdmissionCapacity
no_admissions = record {
  started = 0;
  pending = 0;
  profiles = empty_board;
  accounts = empty_board;
  repositories = empty_board;
}

-- A pointer to a counter may be nil: the request names no account, or no repository.
pub record RunnerCapacityObservation : Type 0 where
  pub key : RunnerCapacityKey
  pub profile : ℕ
  pub started : ℕ
  pub pending : ℕ
  pub profile_started : ℕ
  pub profile_pending : ℕ
  pub account : Option ℕ
  pub repository : Option ℕ
  pub account_started : ℕ
  pub account_pending : ℕ
  pub repository_started : ℕ
  pub repository_pending : ℕ
  pub account_key : String
  pub repository_key : String
  pub reserved : Bool

abbrev pub counter_started : {K : Type 0} → Board K → Option ℕ → ℕ
counter_started b none = 0
counter_started b (some a) = (b.heap a).started

abbrev pub counter_pending : {K : Type 0} → Board K → Option ℕ → ℕ
counter_pending b none = 0
counter_pending b (some a) = (b.heap a).pending

-- A counter is joined only for a key that is not empty.
unfoldable pub join_named : String → Board String → Board String × Option ℕ
join_named key b =
    let (b', a) = join str_eq key b in if is_empty key then (b, none) else (b', some a)

unfoldable pub observe :
    (String → String)
    → RunnerAdmissionCapacity
    → RunnerRequest
    → String
    → RunnerAdmissionCapacity × RunnerCapacityObservation
observe lower c req profile_name =
    let key = record (runner_capacity_profile_key req) { name = profile_name } in
    let account_key = runner_repository_owner lower req.repository_full_name in
    let repository_key = normalize_runner_repository lower req.repository_full_name in
    let (profiles, profile) = join same_key key c.profiles in
    let (accounts, account) = join_named account_key c.accounts in
    let (repositories, repository) = join_named repository_key c.repositories in
    (
      record c { profiles = profiles; accounts = accounts; repositories = repositories },
      record {
        key = key;
        profile = profile;
        started = c.started;
        pending = c.pending;
        profile_started = (profiles.heap profile).started;
        profile_pending = (profiles.heap profile).pending;
        account = account;
        repository = repository;
        account_started = counter_started accounts account;
        account_pending = counter_pending accounts account;
        repository_started = counter_started repositories repository;
        repository_pending = counter_pending repositories repository;
        account_key = account_key;
        repository_key = repository_key;
        reserved = false;
      },
    )

-- The counts that the caller read from the store, with their limits. None of them is negative.
pub record Counts : Type 0 where
  pub global_count : ℕ
  pub global_limit : ℕ
  pub profile_count : ℕ
  pub profile_limit : ℕ
  pub account_count : ℕ
  pub account_limit : ℕ
  pub repository_count : ℕ
  pub repository_limit : ℕ

abbrev admit_named : Option ℕ → Board String → Board String
admit_named none b = b
admit_named (some a) b = admit a b

abbrev settle_named : Option ℕ → Board String → Board String
settle_named none b = b
settle_named (some a) b = settle a b

abbrev leave_named : String → Option ℕ → Board String → Board String
leave_named key none b = b
leave_named key (some a) b = leave str_eq key a b

-- The stage whose limit is met, or the empty text. The sums and the comparisons are those of `int`.
unfoldable pub full_stage : RunnerAdmissionCapacity → RunnerCapacityObservation → Counts → String
full_stage c o n =
    if reaches (sum64 n.global_count o.pending (diff64 c.started o.started)) n.global_limit
    then "global_capacity_check"
    else if ltb 0 n.profile_limit
        && reaches
            (sum64 n.profile_count o.profile_pending
              (diff64 (c.profiles.heap o.profile).started o.profile_started))
            n.profile_limit
    then "profile_capacity_check"
    else if ltb 0 n.account_limit
        && reaches
            (sum64 n.account_count o.account_pending
              (diff64 (counter_started c.accounts o.account) o.account_started))
            n.account_limit
    then "account_capacity_check"
    else if ltb 0 n.repository_limit
        && reaches
            (sum64 n.repository_count o.repository_pending
              (diff64 (counter_started c.repositories o.repository) o.repository_started))
            n.repository_limit
    then "repository_capacity_check"
    else ""

unfoldable pub reserve :
    RunnerAdmissionCapacity
    → RunnerCapacityObservation
    → Counts
    → RunnerAdmissionCapacity × RunnerCapacityObservation × String
reserve c o n =
    let stage = full_stage c o n in
    if is_empty stage
    then (
      record c {
        started = next64 c.started;
        pending = c.pending + 1;
        profiles = admit o.profile c.profiles;
        accounts = admit_named o.account c.accounts;
        repositories = admit_named o.repository c.repositories;
      },
      record o { reserved = true },
      "",
    )
    else (c, o, stage)

abbrev release : RunnerAdmissionCapacity → RunnerCapacityObservation → RunnerAdmissionCapacity
release c o = record c {
  pending = c.pending - 1;
  profiles = settle o.profile c.profiles;
  accounts = settle_named o.account c.accounts;
  repositories = settle_named o.repository c.repositories;
}

unfoldable pub finish :
    RunnerAdmissionCapacity → RunnerCapacityObservation → RunnerAdmissionCapacity
finish c o =
    let c' = if o.reserved then release c o else c in
    record c' {
      profiles = leave same_key o.key o.profile c'.profiles;
      accounts = leave_named o.account_key o.account c'.accounts;
      repositories = leave_named o.repository_key o.repository c'.repositories;
    }
