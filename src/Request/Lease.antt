-- ===== src/Request/Lease.antt =====
-- What a claim promises the workers, `ClaimNextRunnable` of `internal/state/runner_requests.go`: it
-- takes a runnable request whose turn is earliest, misses none, and while its lease lasts no claim
-- takes the request again.
use qiniu_ci_runner.Prelude.Order.{IsOrder}
use qiniu_ci_runner.Prelude.Table.{least-In, least-minimal}
use qiniu_ci_runner.Prelude.{
  ℕ, ◌+◌, String, Bool, true, false, List, [], ◌∷◌, Option, none, some, ◌≡◌, refl, sym, subst, ap,
  inl, inr, arith, some_inj, leb, if◌then◌else◌, update_where, find, least, select, Bool-cases,
  Option-cases, In, In-select, select-In,
}
use qiniu_ci_runner.Prelude.Table.{find-update, least-none, least-In, count-pos}
use qiniu_ci_runner.Request.Types.{Time}
use qiniu_ci_runner.Request.Record.{RunnerRequestRecord}
use qiniu_ci_runner.Request.Store.{Db, has_id}
use qiniu_ci_runner.Request.Queue.{claim_rows, is_runnable, goes_before, is_still_free, lease_to}
use qiniu_ci_runner.Request.Keys.{IsKeyed, same_id, same_id-swap, same_id_self, keeps_id}

abbrev candidates : Time → Db → List RunnerRequestRecord
candidates now db = select (is_runnable now) db.rows

module _ (by_id : String → String → Bool) (db : Db) (worker : String) (now : Time) (ttl : ℕ) where
  claim_missed :
      least (goes_before by_id) (candidates now db) ≡ none
      → claim_rows by_id db worker now ttl ≡ (db, none)
  unfolding claim_rows
  claim_missed e = rw (e, claim_rows)

  -- What a claim does once it has its candidate.
  module _ (c : RunnerRequestRecord) (k : IsKeyed db.rows)
      (e : least (goes_before by_id) (candidates now db) ≡ some c) where
    chosen : In c db.rows × (is_runnable now c ≡ true)
    chosen =
        In-select (is_runnable now) db.rows c (least-In (goes_before by_id) (candidates now db) c e)

    free : is_still_free c.id now c ≡ true
    free = ground (arith, chosen.1, same_id_self c)

    leased_rows : List RunnerRequestRecord
    leased_rows =
        update_where (is_still_free c.id now) (lease_to worker now (now + ttl) c.version) db.rows

    found : find (has_id c.id) leased_rows ≡ some (lease_to worker now (now + ttl) c.version c)
    unfolding leased_rows
    found =
        subst
          (λ b.
            find (has_id c.id) leased_rows
            ≡ some (if b then lease_to worker now (now + ttl) c.version c else c))
          free
          (find-update same_id (is_still_free c.id now) (lease_to worker now (now + ttl) c.version)
            (keeps_id (lease_to worker now (now + ttl) c.version) (λ r. refl)) same_id-swap
            same_id_self c db.rows k.ids chosen.0)

    claim_found :
        claim_rows by_id db worker now ttl
        ≡ (record db { rows = leased_rows }, some (lease_to worker now (now + ttl) c.version c))
    unfolding claim_rows leased_rows
    claim_found =
        ground (arith, found, count-pos (is_still_free c.id now) db.rows c chosen.0 free, e)

-- If no two rows share a key and a claim gives a request, then that request was runnable, its row is
-- now leased to the worker until `now + ttl` under the next version, with all else as it was, and it
-- is the row of its id in the table.
pub claim_sound :
    (by_id : String → String → Bool) (db : Db) (worker : String) (now : Time) (ttl : ℕ)
    (r : RunnerRequestRecord)
    → IsKeyed db.rows
    → (claim_rows by_id db worker now ttl).1 ≡ some r
    → (c : RunnerRequestRecord) × In c db.rows
      × (is_runnable now c ≡ true)
      × (r ≡ lease_to worker now (now + ttl) c.version c)
      × (find (has_id r.id) (claim_rows by_id db worker now ttl).0.rows ≡ some r)
claim_sound by_id db worker now ttl r k h =
    elim (Option-cases (least (goes_before by_id) (candidates now db))) [
      | inl e ↦ absurd (cc (rw (claim_missed by_id db worker now ttl e) at h))
      | inr (c, e) ↦
          let made = claim_found by_id db worker now ttl c k e in
          let same : lease_to worker now (now + ttl) c.version c ≡ r = some_inj (rw made at h) in
          (
            c,
            (chosen by_id db worker now ttl c k e).0,
            (chosen by_id db worker now ttl c k e).1,
            sym same,
            subst (λ q. find (has_id q.id) (claim_rows by_id db worker now ttl).0.rows ≡ some q)
                same (rw made (found by_id db worker now ttl c k e)),
          )
    ]

unselected :
    (now : Time) (db : Db) (c : RunnerRequestRecord)
    → (candidates now db ≡ [])
    → In c db.rows
    → is_runnable now c ≡ false
unselected now db c e m = elim (Bool-cases (is_runnable now c)) [
  | inl t ↦ absurd (subst (In c) e (select-In (is_runnable now) db.rows c m t))
  | inr f ↦ f
]

-- A claim that gives no request leaves the table as it was, and if no two rows share a key, then no
-- request was runnable.
pub claim_complete :
    (by_id : String → String → Bool) (db : Db) (worker : String) (now : Time) (ttl : ℕ)
    → IsKeyed db.rows
    → (claim_rows by_id db worker now ttl).1 ≡ none
    → ((claim_rows by_id db worker now ttl).0 ≡ db)
      × ((c : RunnerRequestRecord) → In c db.rows → is_runnable now c ≡ false)
claim_complete by_id db worker now ttl k h =
    elim (Option-cases (least (goes_before by_id) (candidates now db))) [
      | inl e ↦ (
        ap (λ (t : Db × Option RunnerRequestRecord). t.0) (claim_missed by_id db worker now ttl e),
        λ c m. unselected now db c (least-none (goes_before by_id) _ e) m,
      )
      | inr (c, e) ↦ absurd (cc (rw (claim_found by_id db worker now ttl c k e) at h))
    ]

module _ (by_id : String → String → Bool) (o : IsOrder by_id) where
  goes_before-irr : (a : RunnerRequestRecord) → goes_before by_id a a ≡ false
  goes_before-irr a = ground (arith, o.irr a.id)

  goes_before-asym :
      (a b : RunnerRequestRecord) → goes_before by_id a b ≡ true → goes_before by_id b a ≡ false
  goes_before-asym a b h = ground (arith, o.asym a.id b.id)

  goes_before_trans :
      (a b c : RunnerRequestRecord)
      → goes_before by_id a b ≡ false
      → goes_before by_id b c ≡ false
      → goes_before by_id a c ≡ false
  goes_before_trans a b c g h = ground (arith, o.trans a.id b.id c.id)

-- If the order of ids is total, no two rows share a key and a claim gives a request, then the request
-- is that of a runnable row which no other runnable row goes before, by its next retry or queueing
-- time, then its queueing time, then its id.
pub claim_earliest :
    (by_id : String → String → Bool) (db : Db) (worker : String) (now : Time) (ttl : ℕ)
    (r : RunnerRequestRecord)
    → IsOrder by_id
    → IsKeyed db.rows
    → (claim_rows by_id db worker now ttl).1 ≡ some r
    → (c : RunnerRequestRecord) × In c db.rows
      × (is_runnable now c ≡ true)
      × (r ≡ lease_to worker now (now + ttl) c.version c)
      × ((other : RunnerRequestRecord)
          → In other db.rows
          → is_runnable now other ≡ true
          → goes_before by_id other c ≡ false)
claim_earliest by_id db worker now ttl r o k h =
    elim (Option-cases (least (goes_before by_id) (candidates now db))) [
      | inl e ↦ absurd (cc (rw (claim_missed by_id db worker now ttl e) at h))
      | inr (c, e) ↦ (
        c,
        (chosen by_id db worker now ttl c k e).0,
        (chosen by_id db worker now ttl c k e).1,
        sym (some_inj (rw (claim_found by_id db worker now ttl c k e) at h)),
        λ other m t.
            least-minimal (goes_before by_id) (goes_before-irr by_id o) (goes_before-asym by_id o)
              (goes_before_trans by_id o) (candidates now db) c other e
              (select-In (is_runnable now) db.rows other m t),
      )
    ]

-- The lease of a row lasts until `until` at least.
abbrev pub is_leased : Time → RunnerRequestRecord → Bool
is_leased until row = elim row.lease_expires_at [ none ↦ false | some t ↦ leb until t ]

abbrev pub IsHeld : String → Time → List RunnerRequestRecord → Type 0
IsHeld id until rows =
    (row : RunnerRequestRecord) → In row rows → has_id id row ≡ true → is_leased until row ≡ true

-- Claims one after another, with the worker, the time and the length of each.
unfoldable pub claim_all :
    (String → String → Bool)
    → Db
    → List (String × Time × ℕ)
    → Db × List (Option RunnerRequestRecord)
claim_all by_id db [] = (db, [])
claim_all by_id db ((worker, now, ttl) ∷ calls) =
    let (db', claimed) = claim_rows by_id db worker now ttl in
    let (last, results) = claim_all by_id db' calls in (last, claimed ∷ results)
