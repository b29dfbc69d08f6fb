-- ===== src/Capacity/Board.antt =====
-- A map from keys to shared counters, as the maps of `runnerAdmissionCapacity` in
-- `internal/server/server_runner_capacity.go`. A counter is an object on a heap: the map holds its
-- address, and so do the observations that use it.
use qiniu_ci_runner.Prelude.{
  ℕ, ◌+◌, ◌-◌, ◌%◌, ◌^◌, ◌≤◌, ◌<◌, Bool, Option, none, some, ◌≡◌, arith, ◌==◌, if◌then◌else◌, ◌&&◌,
  ltb, leb,
}

-- `runnerCapacityCounter`.
pub record Counter : Type 0 where
  pub started : ℕ
  pub pending : ℕ
  pub readers : ℕ

abbrev pub zero_counter : Counter
zero_counter = record { started = 0; pending = 0; readers = 0 }

-- `started` is a `uint64`.
abbrev pub next64 : ℕ → ℕ
next64 n = (n + 1) % 2 ^ 64

abbrev pub diff64 : ℕ → ℕ → ℕ
diff64 a b = (a + 2 ^ 64 - b) % 2 ^ 64

-- The sum of a count, what is pending and a difference, which Go converts by `int(...)`: the bits of
-- an `int`.
abbrev pub sum64 : ℕ → ℕ → ℕ → ℕ
sum64 count pending difference = (count + pending + difference) % 2 ^ 64

-- Whether an `int` of these bits is at least a limit that is not negative: from 2 ^ 63 on, the `int`
-- is negative, and below every such limit.
abbrev pub reaches : ℕ → ℕ → Bool
reaches bits limit = ltb bits (2 ^ 63) && leb limit bits

-- The differences of two counts stay exact while fewer than 2 ^ 64 admissions lie between them.
pub diff64_exact : (n m : ℕ) → m ≤ n → n < m + 2 ^ 64 → diff64 (n % 2 ^ 64) (m % 2 ^ 64) ≡ n - m
diff64_exact n m h k = omega arith

pub next64_exact : (n : ℕ) → next64 (n % 2 ^ 64) ≡ (n + 1) % 2 ^ 64
next64_exact n = omega arith

pub record Board (K : Type 0) : Type 0 where
  pub table : K → Option ℕ
  pub heap : ℕ → Counter
  pub next : ℕ

abbrev pub empty_board : {K : Type 0} → Board K
empty_board = record { table = λ k. none; heap = λ a. zero_counter; next = 0 }

module _ {K : Type 0} where
  abbrev pub set_counter : ℕ → (Counter → Counter) → Board K → Board K
  set_counter a f b = record b { heap = λ i. if i == a then f (b.heap i) else b.heap i }

  -- One more admission through the counter.
  abbrev pub admit : ℕ → Board K → Board K
  admit a = set_counter a (λ c. record c { started = next64 c.started; pending = c.pending + 1 })

  abbrev pub settle : ℕ → Board K → Board K
  settle a = set_counter a (λ c. record c { pending = c.pending - 1 })

module _ {K : Type 0} (same : K → K → Bool) where
  abbrev pub set_entry : K → Option ℕ → Board K → Board K
  set_entry k e b = record b { table = λ j. if same j k then e else b.table j }

  -- The counter of a key: the one in the map, or a new one that is put there.
  unfoldable pub find_or_new : K → Board K → Board K × ℕ
  find_or_new k b = elim (b.table k) [
    | some a ↦ (b, a)
    | none ↦ (
      set_entry k (some b.next) (record b {
        next = b.next + 1;
        heap = λ i. if i == b.next then zero_counter else b.heap i;
      }),
      b.next,
    )
  ]

  -- Find the counter and count one more reader of it.
  unfoldable pub join : K → Board K → Board K × ℕ
  join k b =
      let (b', a) = find_or_new k b in
      (set_counter a (λ c. record c { readers = c.readers + 1 }) b', a)

  -- One reader less; the last one takes the entry out of the map.
  unfoldable pub leave : K → ℕ → Board K → Board K
  leave k a b =
      let b' = set_counter a (λ c. record c { readers = c.readers - 1 }) b in
      if (b'.heap a).readers == 0 then set_entry k none b' else b'
