-- ===== src/Capacity/Safety.antt =====
-- The protocol of `internal/server/server_runner_capacity.go` never oversubscribes: at every moment
-- the requests in flight and the reservations that are still to be written stay within the limit.
use mathlib.Core.Path.{subst₂}
use qiniu_ci_runner.Prelude.{
  ℕ, ◌+◌, ◌-◌, ◌%◌, ◌^◌, ◌≤◌, ◌<◌, String, true, false, List, ◌∷◌, ◌++◌, ◌≡◌, refl, arith, count,
  All, count-append, All-append, All-split, All-map, is_empty, if◌then◌else◌, subst, sym, ◌∙◌, ap,
  Bool-cases, inl, inr,
}
use qiniu_ci_runner.Request.Types.{RunnerRequest}
use qiniu_ci_runner.Capacity.Board.{next64, diff64, sum64, reaches}
use qiniu_ci_runner.Capacity.Admission.{
  RunnerAdmissionCapacity, RunnerCapacityObservation, Counts, observe, reserve, finish, full_stage,
}
use qiniu_ci_runner.Capacity.Protocol.{
  Phase, watching, counted, claimed, written, Admission, World, is_claimed, holds_reservation,
}

-- What an admission knows: while it watches, the writes still to come are covered by what was pending
-- and what has been admitted since; once it has counted, so are the requests in flight.
abbrev pub IsCovered : Phase → ℕ → ℕ → ℕ → RunnerCapacityObservation → ℕ → Type 0
IsCovered watching admitted in_flight unwritten o seen =
    (o.reserved ≡ false) × (unwritten ≤ o.pending + (admitted - seen))
IsCovered (counted g) admitted in_flight unwritten o seen =
    (o.reserved ≡ false) × (in_flight + unwritten ≤ g + o.pending + (admitted - seen))
IsCovered claimed admitted in_flight unwritten o seen = o.reserved ≡ true
IsCovered written admitted in_flight unwritten o seen = o.reserved ≡ true

abbrev pub IsSound : ℕ → ℕ → ℕ → Admission → Type 0
IsSound admitted in_flight unwritten a =
    (a.obs.started ≡ a.seen % 2 ^ 64)
    × (a.seen ≤ admitted)
    × IsCovered a.phase admitted in_flight unwritten a.obs a.seen

pub record Inv (limit : ℕ) (w : World) : Type 0 where
  pub exact : w.cap.started ≡ w.admitted % 2 ^ 64
  pub pending : w.cap.pending ≡ count holds_reservation w.admissions
  pub within : w.in_flight + count is_claimed w.admissions ≤ limit
  pub sound : All (IsSound w.admitted w.in_flight (count is_claimed w.admissions)) w.admissions

IsCovered-mono :
    (p : Phase) (o : RunnerCapacityObservation) (seen a a' f f' u u' : ℕ)
    → seen ≤ a
    → a ≤ a'
    → f' + u' ≤ f + u + (a' - a)
    → u' ≤ u + (a' - a)
    → IsCovered p a f u o seen
    → IsCovered p a' f' u' o seen
IsCovered-mono watching o seen a a' f f' u u' s h k l c = (c.0, omega (arith, c.1))
IsCovered-mono (counted g) o seen a a' f f' u u' s h k l c = (c.0, omega (arith, c.1))
IsCovered-mono claimed o seen a a' f f' u u' s h k l c = c
IsCovered-mono written o seen a a' f f' u u' s h k l c = c

pub IsSound-mono :
    (a a' f f' u u' : ℕ) (xs : List Admission)
    → a ≤ a'
    → f' + u' ≤ f + u + (a' - a)
    → u' ≤ u + (a' - a)
    → All (IsSound a f u) xs
    → All (IsSound a' f' u') xs
IsSound-mono a a' f f' u u' xs h k l =
    All-map (IsSound a f u) (IsSound a' f' u')
      (λ x s.
        (s.0, omega (arith, s.1), IsCovered-mono x.phase x.obs x.seen a a' f f' u u' s.1 h k l s.2))
      xs

pub observe_facts :
    (lower : String → String) (c : RunnerAdmissionCapacity) (req : RunnerRequest) (name : String)
    → ((observe lower c req name).0.started ≡ c.started)
      × ((observe lower c req name).0.pending ≡ c.pending)
      × ((observe lower c req name).1.started ≡ c.started)
      × ((observe lower c req name).1.pending ≡ c.pending)
      × ((observe lower c req name).1.reserved ≡ false)
unfolding observe
observe_facts lower c req name = (refl, refl, refl, refl, refl)

room_below : (sum limit : ℕ) → sum < 2 ^ 63 → reaches (sum % 2 ^ 64) limit ≡ false → sum < limit
room_below sum limit fits h = ground arith

-- A reservation that names no stage found room under the global limit.
global_room :
    (c : RunnerAdmissionCapacity) (o : RunnerCapacityObservation) (n : Counts)
    → is_empty (full_stage c o n) ≡ true
    → n.global_count + o.pending + diff64 c.started o.started < 2 ^ 63
    → n.global_count + o.pending + diff64 c.started o.started < n.global_limit
unfolding full_stage
global_room c o n h fits =
    elim (Bool-cases
      (reaches (sum64 n.global_count o.pending (diff64 c.started o.started)) n.global_limit)) [
        | inl e ↦ absurd (cc (rw (e, full_stage) at h))
        | inr e ↦ room_below (n.global_count + o.pending + diff64 c.started o.started) _ fits e
      ]

abbrev pub Reserved : RunnerAdmissionCapacity → RunnerCapacityObservation → Counts → Type 0
Reserved c o n =
    ((reserve c o n).0.started ≡ next64 c.started)
    × ((reserve c o n).0.pending ≡ c.pending + 1)
    × ((reserve c o n).1.started ≡ o.started)
    × ((reserve c o n).1.reserved ≡ true)

pub reserve_facts :
    (c : RunnerAdmissionCapacity) (o : RunnerCapacityObservation) (n : Counts)
    → (reserve c o n).2 ≡ ""
    → n.global_count + o.pending + diff64 c.started o.started < 2 ^ 63
    → Reserved c o n × (n.global_count + o.pending + diff64 c.started o.started < n.global_limit)
unfolding reserve
reserve_facts c o n h fits = elim (Bool-cases (is_empty (full_stage c o n))) [
  | inl e ↦ (rw (e, reserve) (refl, refl, refl, refl), global_room c o n e fits)
  | inr e ↦ absurd (cc (ap is_empty (rw (e, reserve) at h)))
]

pub finish_facts :
    (c : RunnerAdmissionCapacity) (o : RunnerCapacityObservation)
    → ((finish c o).started ≡ c.started)
      × ((finish c o).pending ≡ (if o.reserved then c.pending - 1 else c.pending))
unfolding finish
finish_facts c o = ground arith

-- The admissions split around one of them.
abbrev pub unwritten : List Admission → Admission → List Admission → ℕ
unwritten xs a ys = count is_claimed xs + count is_claimed (a ∷ ys)

abbrev pub held : List Admission → Admission → List Admission → ℕ
held xs a ys = count holds_reservation xs + count holds_reservation (a ∷ ys)

pub record Around (limit : ℕ) (w : World) (xs : List Admission) (a : Admission)
    (ys : List Admission) : Type 0 where
  pub exact : w.cap.started ≡ w.admitted % 2 ^ 64
  pub pending : w.cap.pending ≡ held xs a ys
  pub within : w.in_flight + unwritten xs a ys ≤ limit
  pub left : All (IsSound w.admitted w.in_flight (unwritten xs a ys)) xs
  pub here_ : IsSound w.admitted w.in_flight (unwritten xs a ys) a
  pub right : All (IsSound w.admitted w.in_flight (unwritten xs a ys)) ys

pub around :
    (limit : ℕ) (w : World) (xs ys : List Admission) (a : Admission)
    → w.admissions ≡ xs ++ (a ∷ ys)
    → Inv limit w
    → Around limit w xs a ys
around limit w xs ys a e v = record {
  exact = v.exact;
  pending = v.pending ∙ ap (count holds_reservation) e ∙ count-append holds_reservation xs (a ∷ ys);
  within = subst (λ n. w.in_flight + n ≤ limit) claims v.within;
  left = parts.0;
  here_ = parts.1.0;
  right = parts.1.1;
}
  where
    claims : count is_claimed w.admissions ≡ unwritten xs a ys
    claims = ap (count is_claimed) e ∙ count-append is_claimed xs (a ∷ ys)

    parts :
        All (IsSound w.admitted w.in_flight (unwritten xs a ys)) xs
        × All (IsSound w.admitted w.in_flight (unwritten xs a ys)) (a ∷ ys)
    parts =
        All-split (IsSound w.admitted w.in_flight (unwritten xs a ys)) xs (a ∷ ys)
          (subst₂ (λ n zs. All (IsSound w.admitted w.in_flight n) zs) claims e v.sound)

-- One admission is replaced, and the others still know what they knew.
pub replaced :
    (limit : ℕ) (w : World) (xs ys : List Admission) (a b : Admission)
    (cap : RunnerAdmissionCapacity) (admitted in_flight : ℕ)
    → Around limit w xs a ys
    → cap.started ≡ admitted % 2 ^ 64
    → cap.pending ≡ held xs b ys
    → in_flight + unwritten xs b ys ≤ limit
    → w.admitted ≤ admitted
    → in_flight + unwritten xs b ys ≤ w.in_flight + unwritten xs a ys + (admitted - w.admitted)
    → unwritten xs b ys ≤ unwritten xs a ys + (admitted - w.admitted)
    → IsSound admitted in_flight (unwritten xs b ys) b
    → Inv limit (record {
      cap = cap;
      admitted = admitted;
      in_flight = in_flight;
      admissions = xs ++ (b ∷ ys);
    })
replaced limit w xs ys a b cap admitted in_flight v s p r le f u good = record {
  exact = s;
  pending = p ∙ sym (count-append holds_reservation xs (b ∷ ys));
  within = subst (λ n. in_flight + n ≤ limit) (sym claims) r;
  sound =
      subst (λ n. All (IsSound admitted in_flight n) (xs ++ (b ∷ ys))) (sym claims)
        (All-append (IsSound admitted in_flight (unwritten xs b ys)) xs (b ∷ ys)
          (IsSound-mono w.admitted admitted w.in_flight in_flight (unwritten xs a ys)
            (unwritten xs b ys) xs le f u v.left)
          (
            good,
            IsSound-mono w.admitted admitted w.in_flight in_flight (unwritten xs a ys)
                (unwritten xs b ys) ys le f u v.right,
          ));
}
  where
    claims : count is_claimed (xs ++ (b ∷ ys)) ≡ unwritten xs b ys
    claims = count-append is_claimed xs (b ∷ ys)
