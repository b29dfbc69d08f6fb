-- ===== src/Events/Latest.antt =====
-- The page of `ListRunnerEvents` has the latest events.
use qiniu_ci_runner.Prelude.{
  map, ℕ, suc, ◌+◌, ◌≤◌, String, Bool, true, List, [], ◌∷◌, ◌≡◌, sym, subst, ◌⊎◌, inl, inr, arith,
  ok, In, select, select-In, sort_by, take, length, ltb, Bool-cases, min, max, In-select,
}
use qiniu_ci_runner.Prelude.Sort.{
  IsSorted, sort-IsSorted, sort-In, In-sort, take-rest, take-take, left-out, length-take, In-take,
}
use qiniu_ci_runner.Events.Log.{
  event_of, RunnerEventRecord, Events, latest, clamp, listed, reversed_onto, list_runner_events,
}

In-reversed :
    (e : RunnerEventRecord) (xs ys : List RunnerEventRecord)
    → In e xs ⊎ In e ys
    → In e (reversed_onto xs ys)
In-reversed e [] ys (inr m) = m
In-reversed e [] ys (inl m) = absurd m
In-reversed e (x ∷ xs) ys (inl (inl q)) = In-reversed e xs (x ∷ ys) (inr (inl q))
In-reversed e (x ∷ xs) ys (inl (inr m)) = In-reversed e xs (x ∷ ys) (inl m)
In-reversed e (x ∷ xs) ys (inr m) = In-reversed e xs (x ∷ ys) (inr (inr m))

reversed-In :
    (e : RunnerEventRecord) (xs ys : List RunnerEventRecord)
    → In e (reversed_onto xs ys)
    → In e xs ⊎ In e ys
reversed-In e [] ys m = inr m
reversed-In e (x ∷ xs) ys m = elim (reversed-In e xs (x ∷ ys) m) [
  | inl n ↦ inl (inr n)
  | inr (inl q) ↦ inl (inl q)
  | inr (inr n) ↦ inr n
]

reversed-page :
    (e : RunnerEventRecord) (xs : List RunnerEventRecord) → In e (reversed_onto xs []) → In e xs
reversed-page e xs m = elim (reversed-In e xs [] m) [ inl n ↦ n | inr n ↦ absurd n ]

length-reversed :
    (xs ys : List RunnerEventRecord) → length (reversed_onto xs ys) ≡ length xs + length ys
length-reversed [] ys = omega arith
length-reversed (x ∷ xs) ys = omega (arith, length-reversed xs (x ∷ ys))

latest-IsSorted : (xs : List RunnerEventRecord) → IsSorted latest (sort_by latest xs)
latest-IsSorted =
    sort-IsSorted latest (λ a b h. ground (arith, h)) (λ a b c g h. ground (arith, g, h))

-- If the table opens, the listing answers with a page of at most the limit, which is between 1 and 500,
-- that has only events that the conditions admit, and each of those, unless the page is marked as
-- truncated and no event on it has a lower number than the one left out.
pub events_complete :
    (db : Events) (id : String) (before_id limit : ℕ) (types : List String)
    → db.available ≡ true
    → (page : List RunnerEventRecord) × (truncated : Bool) × (list_runner_events db id before_id
          limit types
        ≡ ok (map event_of page, truncated))
      × (length page ≤ min (max limit 1) 500)
      × ((e : RunnerEventRecord) → In e page → In e db.rows × (listed id before_id types e ≡ true))
      × ((e : RunnerEventRecord)
          → In e db.rows
          → listed id before_id types e ≡ true
          → In e page ⊎ ((truncated ≡ true) × ((b : RunnerEventRecord) → In b page → e.id ≤ b.id)))
unfolding list_runner_events
events_complete db id before_id limit types open_ =
    let p = listed id before_id types in
    let n = clamp limit in
    let sorted = sort_by latest (select p db.rows) in
    let found = take (suc n) sorted in
    let back : (b : RunnerEventRecord)
        → In b (reversed_onto (take n found) [])
        → In b (take n sorted) =
      λ b m. subst (In b) (take-take n sorted) (reversed-page b (take n found) m) in
    (
      reversed_onto (take n found) [],
      ltb n (length found),
      simp open_,
      omega (arith, length-reversed (take n found) [], length-take n found),
      λ e m.
          In-select p db.rows e
            (In-sort latest e (select p db.rows) (In-take latest n sorted e (back e m))),
      λ e m h.
          let there = sort-In latest e (select p db.rows) (select-In p db.rows e m h) in
          let onto : In e (take n sorted) → In e (reversed_onto (take n found) []) = λ i.
            In-reversed e (take n found) [] (inl (subst (In e) (sym (take-take n sorted)) i)) in
          elim (Bool-cases (ltb n (length found))) [
            | inr over ↦ inl (onto (left-out n sorted e there (ground (arith, over))))
            | inl more ↦
                elim (take-rest latest n sorted e (latest-IsSorted (select p db.rows)) there) [
                  | inl i ↦ inl (onto i)
                  | inr f ↦ inr (more, λ b m'. ground (arith, f b (back b m')))
                ]
          ],
    )
