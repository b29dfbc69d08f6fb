-- ===== src/Examples/Capacity.antt =====
-- Capacity: one admission from its observation to its finish.
use qiniu_ci_runner.Prelude.{ok}
use qiniu_ci_runner.Capacity.Reserve.{Answers, decide}
use qiniu_ci_runner.Capacity.Refusal.{IsClean, decide-IsClean}
use qiniu_ci_runner.Prelude.{String, [], ◌∷◌, ◌≡◌, refl}
use qiniu_ci_runner.Capacity.Board.{find_or_new, join}
use qiniu_ci_runner.Capacity.Admission.{
  Counts, observe, reserve, full_stage, runner_capacity_profile_key, runner_repository_owner,
  normalize_runner_repository, join_named,
}
use qiniu_ci_runner.Capacity.Protocol.{
  Admission, World, watching, counted, claimed, Reach, begins, counts, reserves, here, next,
}
use qiniu_ci_runner.Capacity.Bound.{idle}
use qiniu_ci_runner.Examples.Data.{request}

abbrev as_is : String → String
as_is s = s

abbrev first : Admission
first = record { obs = (observe as_is (idle 1).cap request "small").1; seen = 0; phase = watching }

abbrev begun : World
begun = record (idle 1) {
  cap = (observe as_is (idle 1).cap request "small").0;
  admissions = first ∷ [];
}

abbrev ready : Admission
ready = record first { phase = counted 1 }

abbrev numbers : Counts
numbers = record {
  global_count = 1;
  global_limit = 2;
  profile_count = 0;
  profile_limit = 0;
  account_count = 0;
  account_limit = 0;
  repository_count = 0;
  repository_limit = 0;
}

abbrev admitted_world : World
admitted_world = record begun {
  cap = (reserve begun.cap first.obs numbers).0;
  admitted = 1;
  admissions = record ready { obs = (reserve begun.cap first.obs numbers).1; phase = claimed } ∷ [];
}

room : (reserve begun.cap first.obs numbers).2 ≡ ""
unfolding reserve full_stage observe runner_capacity_profile_key runner_repository_owner
    normalize_runner_repository join_named join find_or_new
room = refl

admission : Reach as_is 2 (idle 1) admitted_world
unfolding observe
admission =
    next (next (next here (begins request "small")) (counts [] [] first refl refl))
      (reserves [] [] ready numbers refl refl refl room)

-- The store finds all the places taken.
abbrev full : Answers
full = record {
  in_flight = ok 2;
  in_flight_profile = ok 0;
  in_flight_account = ok 0;
  in_flight_repository = ok 0;
}

decide-IsClean_example : IsClean begun.cap first.obs (decide begun.cap first.obs full 2 0 0 0)
decide-IsClean_example = decide-IsClean begun.cap first.obs full 2 0 0 0
