-- ===== src/Capacity/Protocol.antt =====
-- Any number of admissions at once, by the protocol of `internal/server/server_runner_capacity.go`:
-- each observes the counters, reads the store's count of requests in flight, reserves, writes its
-- request as `creating`, and finishes, while requests in flight end at any time.
use qiniu_ci_runner.Prelude.{
  ℕ, suc, ◌+◌, ◌-◌, ◌^◌, ◌<◌, String, Bool, true, false, List, ◌∷◌, ◌++◌, ◌≡◌,
}
use qiniu_ci_runner.Request.Types.{RunnerRequest}
use qiniu_ci_runner.Capacity.Admission.{
  RunnerAdmissionCapacity, RunnerCapacityObservation, Counts, observe, reserve, finish,
}

-- Where an admission stands; `counted` holds the count that it read.
pub data Phase : Type 0 where
  watching : Phase
  counted : ℕ → Phase
  claimed written : Phase

-- `seen` is the number of all admissions at the time of the observation.
pub record Admission : Type 0 where
  pub obs : RunnerCapacityObservation
  pub seen : ℕ
  pub phase : Phase

-- The counters, the number of all admissions, the requests in flight in the store, and the
-- admissions under way.
pub record World : Type 0 where
  pub cap : RunnerAdmissionCapacity
  pub admitted : ℕ
  pub in_flight : ℕ
  pub admissions : List Admission

abbrev pub is_claimed : Admission → Bool
is_claimed a = elim a.phase [
  | watching ↦ false
  | counted _ ↦ false
  | claimed ↦ true
  | written ↦ false
]

abbrev pub holds_reservation : Admission → Bool
holds_reservation a = elim a.phase [
  | watching ↦ false
  | counted _ ↦ false
  | claimed ↦ true
  | written ↦ true
]

-- A reservation is made on the count that was read, under the configured limit.
pub data Step (lower : String → String) (limit : ℕ) : World → World → Type 0 where
  begins :
      {w : World} (req : RunnerRequest) (name : String)
      → Step lower limit w (record w {
        cap = (observe lower w.cap req name).0;
        admissions =
            record { obs = (observe lower w.cap req name).1; seen = w.admitted; phase = watching }
            ∷ w.admissions;
      })
  counts :
      {w : World} (xs ys : List Admission) (a : Admission)
      → w.admissions ≡ xs ++ (a ∷ ys)
      → a.phase ≡ watching
      → Step lower limit w
          (record w { admissions = xs ++ (record a { phase = counted w.in_flight } ∷ ys) })
  reserves :
      {w : World} (xs ys : List Admission) (a : Admission) (n : Counts)
      → w.admissions ≡ xs ++ (a ∷ ys)
      → a.phase ≡ counted n.global_count
      → n.global_limit ≡ limit
      → (reserve w.cap a.obs n).2 ≡ ""
      → Step lower limit w (record w {
        cap = (reserve w.cap a.obs n).0;
        admitted = w.admitted + 1;
        admissions = xs ++ (record a { obs = (reserve w.cap a.obs n).1; phase = claimed } ∷ ys);
      })
  writes :
      {w : World} (xs ys : List Admission) (a : Admission)
      → w.admissions ≡ xs ++ (a ∷ ys)
      → a.phase ≡ claimed
      → Step lower limit w (record w {
        in_flight = w.in_flight + 1;
        admissions = xs ++ (record a { phase = written } ∷ ys);
      })
  finishes :
      {w : World} (xs ys : List Admission) (a : Admission)
      → w.admissions ≡ xs ++ (a ∷ ys)
      → Step lower limit w (record w { cap = finish w.cap a.obs; admissions = xs ++ ys })
  ends : {w : World} (n : ℕ) → w.in_flight ≡ suc n → Step lower limit w (record w { in_flight = n })

pub data Reach (lower : String → String) (limit : ℕ) (w : World) : World → Type 0 where
  here : Reach lower limit w w
  next : {u v : World} → Reach lower limit w u → Step lower limit u v → Reach lower limit w v

-- The sum that the check of a reservation forms, of the count that was read, what was pending at the
-- observation and the admissions since, is one that an `int` holds.
abbrev pub StepFits :
    {lower : String → String} {limit : ℕ} {w u : World} → Step lower limit w u → Type 0
StepFits {w = w} (reserves xs ys a n e p l h) =
    n.global_count + a.obs.pending + (w.admitted - a.seen) < 2 ^ 63
StepFits _ = Unit {0}

-- So it is in each reservation of a run.
abbrev pub Fits :
    {lower : String → String} {limit : ℕ} {w u : World} → Reach lower limit w u → Type 0
Fits here = Unit {0}
Fits (next r s) = Fits r × StepFits s
