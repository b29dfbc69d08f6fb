-- ===== src/Request/Exclusion.antt =====
-- The exclusion that a lease gives: `ClaimNextRunnable` of `internal/state/runner_requests.go` hands a
-- request to one worker at a time.
use qiniu_ci_runner.Prelude.{
  ℕ, ◌∙◌, ◌+◌, ◌<◌, String, Bool, true, false, List, [], ◌∷◌, Option, none, some, ◌≡◌, sym, subst,
  ap, inl, inr, ◌≢◌, arith, eq_iff, if◌then◌else◌, update_where, find, Bool-cases, Option-cases, In,
  find_sound, All,
}
use qiniu_ci_runner.Prelude.Table.{In-update, In-unique}
use qiniu_ci_runner.Request.Types.{Time}
use qiniu_ci_runner.Request.Record.{RunnerRequestRecord}
use qiniu_ci_runner.Request.Store.{Db, has_id}
use qiniu_ci_runner.Request.Queue.{claim_rows, is_runnable, is_past, is_still_free, lease_to}
use qiniu_ci_runner.Request.Keys.{IsKeyed, same_id, same_id-swap}
use qiniu_ci_runner.Request.Frames.{rows-claim_rows}
use qiniu_ci_runner.Request.History.{claim_rows-IsKeyed}
use qiniu_ci_runner.Request.Lease.{claim_sound, is_leased, IsHeld, claim_all}

-- A row whose lease lasts is not free.
leased-not_past :
    (now until : Time) (row : RunnerRequestRecord)
    → now < until
    → is_leased until row ≡ true
    → is_past row.lease_expires_at now ≡ false
leased-not_past now until row l h = ground arith

IsHeld-update :
    (id cid worker : String) (now until expires : Time) (version : ℕ)
    (rows : List RunnerRequestRecord)
    → now < until
    → IsHeld id until rows
    → IsHeld id until
        (update_where (is_still_free cid now) (lease_to worker now expires version) rows)
IsHeld-update id cid worker now until expires version rows l h row m e =
    let (a, n, q) =
      In-update same_id (is_still_free cid now) (lease_to worker now expires version) rows row m in
    kept a n q
  where
    kept :
        (a : RunnerRequestRecord)
        → In a rows
        → row ≡ (if is_still_free cid now a then lease_to worker now expires version a else a)
        → is_leased until row ≡ true
    kept a n q = elim (Bool-cases (is_still_free cid now a)) [
      | inl t ↦
          let e' : has_id id a ≡ true = subst (λ x. has_id id x ≡ true) (rw t at q) e in
          absurd (ground (arith, e', leased-not_past now until a l (h a n e'), t))
      | inr f ↦
          let q' : row ≡ a = rw f at q in
          subst (λ x. is_leased until x ≡ true) (sym q')
            (h a n (subst (λ x. has_id id x ≡ true) q' e))
    ]

IsHeld-claim :
    (by_id : String → String → Bool) (db : Db) (id worker : String) (now until : Time) (ttl : ℕ)
    → now < until
    → IsHeld id until db.rows
    → IsHeld id until (claim_rows by_id db worker now ttl).0.rows
IsHeld-claim by_id db id worker now until ttl l h = elim (rows-claim_rows by_id db worker now ttl) [
  | inl e ↦ rw e h
  | inr (c, e) ↦ rw e (IsHeld-update id c.id worker now until (now + ttl) c.version db.rows l h)
]

-- What a claim may give while the request `id` is held: any other request.
abbrev pub Avoids : String → Option RunnerRequestRecord → Type 0
Avoids id none = Unit {0}
Avoids id (some q) = q.id ≢ id

claim-Avoids :
    (by_id : String → String → Bool) (db : Db) (id worker : String) (now until : Time) (ttl : ℕ)
    → now < until
    → IsKeyed db.rows
    → IsHeld id until db.rows
    → Avoids id (claim_rows by_id db worker now ttl).1
claim-Avoids by_id db id worker now until ttl l k h =
    elim (Option-cases (claim_rows by_id db worker now ttl).1) [
      | inl e ↦ rw e tt
      | inr (q, e) ↦ rw e (λ same. clash q (claim_sound by_id db worker now ttl q k e) same)
    ]
  where
    clash :
        (q : RunnerRequestRecord)
        → ((c : RunnerRequestRecord) × In c db.rows
            × (is_runnable now c ≡ true)
            × (q ≡ lease_to worker now (now + ttl) c.version c)
            × (find (has_id q.id) (claim_rows by_id db worker now ttl).0.rows ≡ some q))
        → q.id ≡ id
        → ⊥
    clash q (c, m, runnable, made, _) same =
        let e : has_id id c ≡ true =
          (eq_iff c.id id).1 (sym (ap (λ (x : RunnerRequestRecord). x.id) made) ∙ same) in
        ground (arith, leased-not_past now until c l (h c m e), runnable)

claimed-IsHeld :
    (by_id : String → String → Bool) (db : Db) (worker : String) (now : Time) (ttl : ℕ)
    (r : RunnerRequestRecord)
    → IsKeyed db.rows
    → (claim_rows by_id db worker now ttl).1 ≡ some r
    → IsHeld r.id (now + ttl) (claim_rows by_id db worker now ttl).0.rows
claimed-IsHeld by_id db worker now ttl r k e row m same =
    let (c, _, _, made, at) = claim_sound by_id db worker now ttl r k e in
    let held = find_sound (has_id r.id) (claim_rows by_id db worker now ttl).0.rows r at in
    let keyed = claim_rows-IsKeyed by_id db worker now ttl k in
    let one : r ≡ row =
      In-unique same_id same_id-swap (claim_rows by_id db worker now ttl).0.rows r row keyed.ids
        held.0 m same in
    subst (λ x. is_leased (now + ttl) x ≡ true) (sym made ∙ one) (ground arith)

held-claim_all :
    (by_id : String → String → Bool) (db : Db) (id : String) (until : Time)
    (calls : List (String × Time × ℕ))
    → All (λ (c : String × Time × ℕ). c.1 < until) calls
    → IsKeyed db.rows
    → IsHeld id until db.rows
    → All (Avoids id) (claim_all by_id db calls).1
unfolding claim_all
held-claim_all by_id db id until [] before k h = tt
held-claim_all by_id db id until ((worker, now, ttl) ∷ calls) before k h = (
  claim-Avoids by_id db id worker now until ttl before.0 k h,
  held-claim_all by_id (claim_rows by_id db worker now ttl).0 id until calls before.1
      (claim_rows-IsKeyed by_id db worker now ttl k)
      (IsHeld-claim by_id db id worker now until ttl before.0 h),
)

-- If no two rows share a key and a claim gives the request `r` under a lease until `now + ttl`, then
-- none of the claims that follow it before that time, by any workers, gives a request of that id.
pub claim-exclusive :
    (by_id : String → String → Bool) (db : Db) (worker : String) (now : Time) (ttl : ℕ)
    (r : RunnerRequestRecord) (calls : List (String × Time × ℕ))
    → IsKeyed db.rows
    → (claim_rows by_id db worker now ttl).1 ≡ some r
    → All (λ (c : String × Time × ℕ). c.1 < now + ttl) calls
    → All (Avoids r.id) (claim_all by_id (claim_rows by_id db worker now ttl).0 calls).1
claim-exclusive by_id db worker now ttl r calls k e before =
    held-claim_all by_id (claim_rows by_id db worker now ttl).0 r.id (now + ttl) calls before
      (claim_rows-IsKeyed by_id db worker now ttl k) (claimed-IsHeld by_id db worker now ttl r k e)
