-- ===== src/Capacity/Bound.antt =====
-- The bound of `internal/server/server_runner_capacity.go` over every interleaving of admissions.
use qiniu_ci_runner.Prelude.{
  ℕ, suc, ◌+◌, ◌-◌, ◌^◌, ◌≤◌, ◌<◌, String, List, [], ◌∷◌, ◌++◌, ◌≡◌, refl, arith, count, All,
  count-append, All-append, subst, sym, ◌∙◌,
}
use qiniu_ci_runner.Request.Types.{RunnerRequest}
use qiniu_ci_runner.Capacity.Board.{diff64, diff64_exact, next64_exact}
use qiniu_ci_runner.Capacity.Admission.{Counts, observe, reserve, finish, no_admissions}
use qiniu_ci_runner.Capacity.Protocol.{
  Phase, watching, counted, claimed, written, Admission, World, is_claimed, holds_reservation, Step,
  StepFits, begins, counts, reserves, writes, finishes, ends,
}
use qiniu_ci_runner.Capacity.Safety.{
  IsCovered, IsSound, unwritten, held, Inv, Around, around, replaced, IsSound-mono, observe_facts,
  reserve_facts, finish_facts,
}

claimed-le-held : (xs : List Admission) → count is_claimed xs ≤ count holds_reservation xs
claimed-le-held [] = omega arith
claimed-le-held (x ∷ xs) = ground (arith, claimed-le-held xs)

begins-Inv :
    (lower : String → String) (limit : ℕ) (w : World) (req : RunnerRequest) (name : String)
    → Inv limit w
    → Inv limit (record w {
      cap = (observe lower w.cap req name).0;
      admissions =
          record { obs = (observe lower w.cap req name).1; seen = w.admitted; phase = watching }
          ∷ w.admissions;
    })
begins-Inv lower limit w req name v =
    let (s, p, os, op, r) = observe_facts lower w.cap req name in
    record {
      exact = s ∙ v.exact;
      pending = p ∙ v.pending;
      within = v.within;
      sound = (
        (
          os ∙ v.exact,
          omega arith,
          (r, omega (arith, op, v.pending, claimed-le-held w.admissions)),
        ),
        v.sound,
      );
    }

counts-Inv :
    (limit : ℕ) (w : World) (xs ys : List Admission) (a : Admission)
    → a.phase ≡ watching
    → Around limit w xs a ys
    → Inv limit (record w { admissions = xs ++ (record a { phase = counted w.in_flight } ∷ ys) })
counts-Inv limit w xs ys a e v =
    let b = record a { phase = counted w.in_flight } in
    let knows =
      subst (λ p. IsCovered p w.admitted w.in_flight (unwritten xs a ys) a.obs a.seen) e
        v.here_.2 in
    let same : unwritten xs b ys ≡ unwritten xs a ys = ground (arith, e) in
    let kept : held xs b ys ≡ held xs a ys = ground (arith, e) in
    replaced limit w xs ys a b w.cap w.admitted w.in_flight v v.exact (v.pending ∙ sym kept)
      (omega (arith, v.within, same)) (omega arith) (omega (arith, same)) (omega (arith, same))
      (v.here_.0, v.here_.1, (knows.0, omega (arith, knows.1, same)))

reserves-Inv :
    (limit : ℕ) (w : World) (xs ys : List Admission) (a : Admission) (n : Counts)
    → a.phase ≡ counted n.global_count
    → n.global_limit ≡ limit
    → (reserve w.cap a.obs n).2 ≡ ""
    → n.global_count + a.obs.pending + (w.admitted - a.seen) < 2 ^ 63
    → Around limit w xs a ys
    → Inv limit (record w {
      cap = (reserve w.cap a.obs n).0;
      admitted = w.admitted + 1;
      admissions = xs ++ (record a { obs = (reserve w.cap a.obs n).1; phase = claimed } ∷ ys);
    })
reserves-Inv limit w xs ys a n e l h near v =
    let b = record a { obs = (reserve w.cap a.obs n).1; phase = claimed } in
    let knows =
      subst (λ p. IsCovered p w.admitted w.in_flight (unwritten xs a ys) a.obs a.seen) e
        v.here_.2 in
    let since : diff64 w.cap.started a.obs.started ≡ w.admitted - a.seen =
      rw (v.exact, v.here_.0) (diff64_exact w.admitted a.seen v.here_.1 (omega (arith, near))) in
    let ((started, pending, os, flag), room) =
      reserve_facts w.cap a.obs n h (omega (arith, near, since)) in
    let more : unwritten xs b ys ≡ unwritten xs a ys + 1 = ground (arith, e) in
    let holds : held xs b ys ≡ held xs a ys + 1 = ground (arith, e) in
    replaced limit w xs ys a b (reserve w.cap a.obs n).0 (w.admitted + 1) w.in_flight v
      (started ∙ rw v.exact (next64_exact w.admitted)) (omega (arith, pending, v.pending, holds))
      (omega (arith, knows.1, room, since, l, more)) (omega arith) (omega (arith, more))
      (omega (arith, more)) (os ∙ v.here_.0, omega (arith, v.here_.1), flag)

writes-Inv :
    (limit : ℕ) (w : World) (xs ys : List Admission) (a : Admission)
    → a.phase ≡ claimed
    → Around limit w xs a ys
    → Inv limit (record w {
      in_flight = w.in_flight + 1;
      admissions = xs ++ (record a { phase = written } ∷ ys);
    })
writes-Inv limit w xs ys a e v =
    let b = record a { phase = written } in
    let knows =
      subst (λ p. IsCovered p w.admitted w.in_flight (unwritten xs a ys) a.obs a.seen) e
        v.here_.2 in
    let fewer : unwritten xs b ys + 1 ≡ unwritten xs a ys = ground (arith, e) in
    let kept : held xs b ys ≡ held xs a ys = ground (arith, e) in
    replaced limit w xs ys a b w.cap w.admitted (w.in_flight + 1) v v.exact (v.pending ∙ sym kept)
      (omega (arith, v.within, fewer)) (omega arith) (omega (arith, fewer)) (omega (arith, fewer))
      (v.here_.0, v.here_.1, knows)

-- A reservation is given back exactly by the admissions that hold one.
held-finish :
    (w : World) (xs ys : List Admission) (a : Admission) (p : Phase)
    → a.phase ≡ p
    → IsCovered p w.admitted w.in_flight (unwritten xs a ys) a.obs a.seen
    → w.cap.pending ≡ held xs a ys
    → (finish w.cap a.obs).pending ≡ count holds_reservation xs + count holds_reservation ys
held-finish w xs ys a watching e c h = ground (arith, (finish_facts w.cap a.obs).1)
held-finish w xs ys a (counted g) e c h = ground (arith, (finish_facts w.cap a.obs).1)
held-finish w xs ys a claimed e c h = ground (arith, (finish_facts w.cap a.obs).1)
held-finish w xs ys a written e c h = ground (arith, (finish_facts w.cap a.obs).1)

finishes-Inv :
    (limit : ℕ) (w : World) (xs ys : List Admission) (a : Admission)
    → Around limit w xs a ys
    → Inv limit (record w { cap = finish w.cap a.obs; admissions = xs ++ ys })
finishes-Inv limit w xs ys a v =
    let left : ℕ = count is_claimed xs + count is_claimed ys in
    let fewer : left ≤ unwritten xs a ys = ground arith in
    let claims : count is_claimed (xs ++ ys) ≡ left = count-append is_claimed xs ys in
    let keep =
      IsSound-mono w.admitted w.admitted w.in_flight w.in_flight (unwritten xs a ys) left in
    record {
      exact = (finish_facts w.cap a.obs).0 ∙ v.exact;
      pending =
          held-finish w xs ys a a.phase refl v.here_.2 v.pending
          ∙ sym (count-append holds_reservation xs ys);
      within = omega (arith, v.within, fewer, claims);
      sound =
          subst (λ n. All (IsSound w.admitted w.in_flight n) (xs ++ ys)) (sym claims)
            (All-append (IsSound w.admitted w.in_flight left) xs ys
              (keep xs (omega arith) (omega (arith, fewer)) (omega (arith, fewer)) v.left)
              (keep ys (omega arith) (omega (arith, fewer)) (omega (arith, fewer)) v.right));
    }

ends-Inv :
    (limit : ℕ) (w : World) (n : ℕ)
    → w.in_flight ≡ suc n
    → Inv limit w
    → Inv limit (record w { in_flight = n })
ends-Inv limit w n e v = record {
  exact = v.exact;
  pending = v.pending;
  within = omega (arith, v.within, e);
  sound =
      IsSound-mono w.admitted w.admitted w.in_flight n (count is_claimed w.admissions)
        (count is_claimed w.admissions) w.admissions (omega arith) (omega (arith, e)) (omega arith)
        v.sound;
}

pub Step-Inv :
    (lower : String → String) (limit : ℕ) {w u : World} (s : Step lower limit w u)
    → StepFits s
    → Inv limit w
    → Inv limit u
Step-Inv lower limit {w = w} (begins req name) fits v = begins-Inv lower limit w req name v
Step-Inv lower limit {w = w} (counts xs ys a e p) fits v =
    counts-Inv limit w xs ys a p (around limit w xs ys a e v)
Step-Inv lower limit {w = w} (reserves xs ys a n e p l h) fits v =
    reserves-Inv limit w xs ys a n p l h fits (around limit w xs ys a e v)
Step-Inv lower limit {w = w} (writes xs ys a e p) fits v =
    writes-Inv limit w xs ys a p (around limit w xs ys a e v)
Step-Inv lower limit {w = w} (finishes xs ys a e) fits v =
    finishes-Inv limit w xs ys a (around limit w xs ys a e v)
Step-Inv lower limit {w = w} (ends n e) fits v = ends-Inv limit w n e v

-- A world with no admission under way, and `n` requests in flight: runnerd has just started.
abbrev pub idle : ℕ → World
idle n = record { cap = no_admissions; admitted = 0; in_flight = n; admissions = [] }
