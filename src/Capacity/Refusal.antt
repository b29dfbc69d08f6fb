-- ===== src/Capacity/Refusal.antt =====
-- A decision of `reserveRunnerCapacity` that refuses leaves no reservation behind.
use qiniu_ci_runner.Prelude.{
  ℕ, String, false, ◌≡◌, refl, inl, inr, arith, Result, ok, err, Bool-cases, on_branches, none,
  some, is_empty, leb, ltb, if◌then◌else◌,
}
use qiniu_ci_runner.Capacity.Admission.{
  RunnerAdmissionCapacity, RunnerCapacityObservation, Counts, reserve, finish, full_stage,
}
use qiniu_ci_runner.Capacity.Reserve.{Answers, Grant, granted, refused, decide}

reserve_kept :
    (c : RunnerAdmissionCapacity) (o : RunnerCapacityObservation) (n : Counts)
    → is_empty (reserve c o n).2 ≡ false
    → ((reserve c o n).0 ≡ c) × ((reserve c o n).1 ≡ o)
unfolding reserve
reserve_kept c o n h = elim (Bool-cases (is_empty (full_stage c o n))) [
  | inl t ↦ ground (arith, h, t)
  | inr f ↦ ground (arith, f)
]

-- A grant, or a refusal with the counters that finishing the observation alone leaves.
abbrev pub IsClean :
    RunnerAdmissionCapacity → RunnerCapacityObservation → RunnerAdmissionCapacity × Grant → Type 0
IsClean c o (c', granted o') = Unit {0}
IsClean c o (c', refused stage e) = c' ≡ finish c o

answered-IsClean :
    (c : RunnerAdmissionCapacity) (o : RunnerCapacityObservation) (stage : String) (r : Result ℕ)
    (f : ℕ → RunnerAdmissionCapacity × Grant)
    → ((n : ℕ) → IsClean c o (f n))
    → IsClean c o (elim r [ err e ↦ (finish c o, refused stage (some e)) | ok n ↦ f n ])
answered-IsClean c o stage (err e) f h = refl
answered-IsClean c o stage (ok n) f h = h n

reserve-IsClean :
    (c : RunnerAdmissionCapacity) (o : RunnerCapacityObservation) (n : Counts)
    → IsClean c o (
        if is_empty (reserve c o n).2
        then ((reserve c o n).0, granted (reserve c o n).1)
        else (finish (reserve c o n).0 (reserve c o n).1, refused (reserve c o n).2 none))
reserve-IsClean c o n =
    on_branches (IsClean c o) (is_empty (reserve c o n).2) _ _ (λ _. tt)
      (λ h. let (same, left) = reserve_kept c o n h in rw (same, left) refl)

-- Whatever the store answers and whatever the limits, a decision that refuses leaves the counters that
-- finishing the observation alone leaves.
pub decide-IsClean :
    (c : RunnerAdmissionCapacity) (o : RunnerCapacityObservation) (answers : Answers)
    (global profile account repository : ℕ)
    → IsClean c o (decide c o answers global profile account repository)
unfolding decide
decide-IsClean c o answers global profile account repository =
    answered-IsClean c o "global_capacity_check" answers.in_flight _ (λ g.
      on_branches (IsClean c o) (leb global g) _ _ (λ _. refl)
        (λ _.
          answered-IsClean c o "profile_capacity_check"
            (if ltb 0 profile then answers.in_flight_profile else ok 0) _
            (λ p.
              answered-IsClean c o "account_capacity_check"
                (if ltb 0 account then answers.in_flight_account else ok 0) _
                (λ a.
                  answered-IsClean c o "repository_capacity_check"
                    (if ltb 0 repository then answers.in_flight_repository else ok 0) _
                    (λ r. reserve-IsClean c o (record {
                      global_count = g;
                      global_limit = global;
                      profile_count = p;
                      profile_limit = profile;
                      account_count = a;
                      account_limit = account;
                      repository_count = r;
                      repository_limit = repository;
                    }))))))
