-- ===== src/Scheduler/Filling.antt =====
-- One page of the store fills a lane or ends its cycle: the room for operations in flight that
-- `schedule` adds to the limit is enough to skip all of them.
use qiniu_ci_runner.Prelude.{
  ◌∙◌, ◌+◌, ◌≤◌, String, Bool, true, false, not, ◌||◌, List, [], ◌∷◌, ◌≡◌, refl, sym, ◌⊎◌, inl, inr,
  arith, ok, if◌then◌else◌, leb, length, count, Bool-cases, str_eq, str_eq_sound, subst,
}
use qiniu_ci_runner.Scheduler.Lanes.{
  Kind, provision, monitor, cleanup, same_kind, capacity, Scheduler, is_busy, start, pass, walk,
  exhaust, take_page, Answer, query, schedule, Reach,
}
use qiniu_ci_runner.Scheduler.Bounds.{Inv, Reach-Inv, take_page-Inv}

abbrev pub lists : String → List String → Bool
lists id [] = false
lists id (x ∷ xs) = str_eq id x || lists id xs

abbrev pub NoRepeat : List String → Type 0
NoRepeat [] = Unit {0}
NoRepeat (x ∷ xs) = (lists x xs ≡ false) × NoRepeat xs

abbrev is_new : List (String × Kind) → String → Bool
is_new es id = not (is_busy id es)

same_kind_refl : (k : Kind) → same_kind k k ≡ true
same_kind_refl provision = refl
same_kind_refl monitor = refl
same_kind_refl cleanup = refl

count-new_elsewhere :
    (e : String × Kind) (es : List (String × Kind)) (ids : List String)
    → lists e.0 ids ≡ false
    → count (is_new (e ∷ es)) ids ≡ count (is_new es) ids
count-new_elsewhere e es [] h = refl
count-new_elsewhere e es (id ∷ ids) h = ground (arith, count-new_elsewhere e es ids)

count-new_one :
    (e : String × Kind) (es : List (String × Kind)) (ids : List String)
    → NoRepeat ids
    → count (is_new es) ids ≤ count (is_new (e ∷ es)) ids + 1
count-new_one e es [] h = omega arith
count-new_one e es (id ∷ ids) h = elim (Bool-cases (str_eq e.0 id)) [
  | inl t ↦
      let same =
        count-new_elsewhere e es ids
          (subst (λ x. lists x ids ≡ false) (sym (str_eq_sound e.0 id t)) h.0) in
      ground (arith, same)
  | inr f ↦ ground (arith, count-new_one e es ids h.1)
]

-- The pigeonhole of a page: at most as many of its deployments are busy as are in flight.
new-le :
    (es : List (String × Kind)) (ids : List String)
    → NoRepeat ids
    → length ids ≤ count (is_new es) ids + length es
new-le [] [] h = omega arith
new-le [] (id ∷ ids) h = ground (arith, new-le [] ids h.1)
new-le (e ∷ es) ids h = omega (arith, new-le es ids h, count-new_one e es ids h)

walk-full :
    (k : Kind) (s : Scheduler) (ids : List String)
    → (walk k s ids).1 ≡ false
    → ((walk k s ids).0.lanes k).active ≡ capacity k
unfolding walk
walk-full k s [] h = absurd (cc)
walk-full k s (id ∷ ids) h =
    let moved = if is_busy id s.in_flight then pass k id s else start k id s in
    ground (arith, walk-full k moved ids)

walk-active :
    (k : Kind) (s : Scheduler) (ids : List String)
    → NoRepeat ids
    → (walk k s ids).1 ≡ true
    → ((walk k s ids).0.lanes k).active ≡ (s.lanes k).active + count (is_new s.in_flight) ids
unfolding walk pass start
walk-active k s [] h w = omega arith
walk-active k s (id ∷ ids) h w = elim (Bool-cases (is_busy id s.in_flight)) [
  | inl t ↦ ground (arith, walk-active k (pass k id s) ids h.1, same_kind_refl k)
  | inr f ↦ ground (
    arith,
    walk-active k (start k id s) ids h.1,
    same_kind_refl k,
    count-new_elsewhere (id, k) s.in_flight ids h.0,
  )
]

abbrev IsDone : Kind → Scheduler → Type 0
IsDone k s = ((s.lanes k).exhausted ≡ true) ⊎ (capacity k ≤ (s.lanes k).active)

page-IsDone :
    (k : Kind) (s : Scheduler) (ids : List String) (more : Bool)
    → NoRepeat ids
    → (more ≡ true → length ids ≡ (query k s).limit)
    → IsDone k (take_page k s ids more)
unfolding take_page exhaust
page-IsDone k s ids more distinct full = elim (Bool-cases (walk k s ids).1) [
  | inl w ↦ ground (
    arith,
    walk-active k s ids distinct w,
    new-le s.in_flight ids distinct,
    same_kind_refl k,
    full,
    w,
    Bool-cases more,
  )
  | inr w ↦ ground (arith, walk-full k s ids w, w, Bool-cases more)
]

schedule-done :
    (k : Kind) (answers : List Answer) (s : Scheduler) → IsDone k s → schedule k answers s ≡ s
unfolding schedule
schedule-done k [] s d = refl
schedule-done k (answer ∷ answers) s (inl e) = ground (arith, e)
schedule-done k (answer ∷ answers) s (inr e) = ground (arith, e)

-- The lane rests at once, or takes the page and rests.
schedule-rests :
    (k : Kind) (answer : Answer) (answers : List Answer) (s : Scheduler) (ids : List String)
    (more : Bool)
    → answer (query k s) ≡ ok (ids, more)
    → IsDone k (take_page k s ids more)
    → (IsDone k s × (schedule k (answer ∷ answers) s ≡ s))
      ⊎ (schedule k (answer ∷ answers) s ≡ take_page k s ids more)
unfolding schedule
schedule-rests k answer answers s ids more e d =
    elim (Bool-cases ((s.lanes k).exhausted || leb (capacity k) (s.lanes k).active)) [
      | inl t ↦ inl (ground arith, ground (arith, t))
      | inr f ↦ inr (ground (arith, f, e, schedule-done k answers (take_page k s ids more) d))
    ]

done-exact :
    (k : Kind) (s : Scheduler)
    → Inv s
    → IsDone k s
    → ((s.lanes k).exhausted ≡ true) ⊎ ((s.lanes k).active ≡ capacity k)
done-exact k s i (inl e) = inl e
done-exact k s i (inr e) = inr (omega (arith, i.bounded k, e))

-- In any state that `Run` reaches, if the store answers a lane's query with a page without
-- repetition, which has as many deployments as the limit whenever there are more, then the lane asks
-- for no other page, and afterwards its cycle is over or it runs exactly its capacity.
pub schedule-page :
    {s : Scheduler} (k : Kind) (answer : Answer) (answers : List Answer) (ids : List String)
    (more : Bool)
    → Reach s
    → answer (query k s) ≡ ok (ids, more)
    → NoRepeat ids
    → (more ≡ true → length ids ≡ (query k s).limit)
    → (schedule k (answer ∷ answers) s ≡ schedule k (answer ∷ []) s)
      × ((((schedule k (answer ∷ answers) s).lanes k).exhausted ≡ true)
          ⊎ (((schedule k (answer ∷ answers) s).lanes k).active ≡ capacity k))
schedule-page {s} k answer answers ids more r e distinct full =
    let i = Reach-Inv r in
    let d = page-IsDone k s ids more distinct full in
    let exact = done-exact k (take_page k s ids more) (take_page-Inv k s ids more i) d in
    elim (schedule-rests k answer answers s ids more e d) [
      | inl (q, p) ↦ (p ∙ sym (schedule-done k (answer ∷ []) s q), rw p (done-exact k s i q))
      | inr p ↦ elim (schedule-rests k answer [] s ids more e d) [
        | inl (q, u) ↦ (schedule-done k (answer ∷ answers) s q ∙ sym u, rw p exact)
        | inr u ↦ (p ∙ sym u, rw p exact)
      ]
    ]
