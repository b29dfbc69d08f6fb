-- ===== src/Request/Paging.antt =====
-- The pages of `ListStatesCursor` against the rows that they leave out.
use qiniu_ci_runner.Prelude.{
  ℕ, suc, String, Bool, true, false, List, ◌≡◌, ◌≢◌, sym, subst, ◌⊎◌, inl, inr, arith, ltb, ◌==◌,
  In, select, In-select, select-In, sort_by, take, length, Bool-cases, count, str_eq_complete,
}
use qiniu_ci_runner.Prelude.Order.{IsOrder}
use qiniu_ci_runner.Prelude.Sort.{
  take-take, left-out, IsSorted, sort-IsSorted, sort-In, In-sort, In-take, take-rest,
}
use qiniu_ci_runner.Prelude.Table.{In-unique, count-zero, count-some}
use qiniu_ci_runner.Request.Record.{RunnerRequestRecord}
use qiniu_ci_runner.Request.Store.{has_id}
use qiniu_ci_runner.Request.Listing.{newest, is_after, cursor_rows, RunnerRequestCursor}
use qiniu_ci_runner.Request.Keys.{IsKeyed, same_id, same_id-swap}

abbrev pub cursor_of : RunnerRequestRecord → RunnerRequestCursor
cursor_of r = record { queued_at = r.queued_at; id = r.id }

module _ (by_id : String → String → Bool) (o : IsOrder by_id) where
  newest-asym : (a b : RunnerRequestRecord) → newest by_id a b ≡ true → newest by_id b a ≡ false
  newest-asym a b h = ground (arith, o.asym a.id b.id)

  newest_trans :
      (a b c : RunnerRequestRecord)
      → newest by_id a b ≡ false
      → newest by_id b c ≡ false
      → newest by_id a c ≡ false
  newest_trans a b c g h = ground (arith, o.trans a.id b.id c.id)

  -- Of two rows of different ids, one is after the other.
  pub is_after_total :
      (a b : RunnerRequestRecord)
      → newest by_id a b ≡ false
      → has_id a.id b ≡ false
      → is_after by_id (cursor_of b) a ≡ true
  is_after_total a b h ne = elim (Bool-cases (by_id b.id a.id)) [
    | inl t ↦ ground (arith, t)
    | inr f ↦ ground (arith, o.total a.id b.id, f, str_eq_complete b.id a.id)
  ]

pub page-IsSorted :
    (by_id : String → String → Bool) (o : IsOrder by_id) (p : RunnerRequestRecord → Bool)
    (rows : List RunnerRequestRecord)
    → IsSorted (newest by_id) (sort_by (newest by_id) (select p rows))
page-IsSorted by_id o p rows =
    sort-IsSorted (newest by_id) (newest-asym by_id o) (newest_trans by_id o) (select p rows)

-- A row of the table whose id is on a page is on the page.
same-In :
    (r : RunnerRequestRecord) (rows page : List RunnerRequestRecord)
    → IsKeyed rows
    → In r rows
    → ((b : RunnerRequestRecord) → In b page → In b rows)
    → count (has_id r.id) page ≢ 0
    → In r page
same-In r rows page k m all some_same =
    let (b, n, q) = count-some (has_id r.id) page some_same in
    subst (λ x. In x page) (sym (In-unique same_id same_id-swap rows r b k.ids m (all b n) q)) n

-- If the order of ids is total and no two rows share a key, then each row that passes the conditions
-- is on the page, or else there are more and it is after every row of the page, so that the page that
-- follows any of them can still have it.
pub cursor_complete :
    (by_id : String → String → Bool) (rows : List RunnerRequestRecord)
    (p : RunnerRequestRecord → Bool) (limit : ℕ) (r : RunnerRequestRecord)
    → IsOrder by_id
    → IsKeyed rows
    → In r rows
    → p r ≡ true
    → In r (cursor_rows by_id rows p limit).0
      ⊎ (((cursor_rows by_id rows p limit).1 ≡ true)
          × ((b : RunnerRequestRecord)
              → In b (cursor_rows by_id rows p limit).0
              → is_after by_id (cursor_of b) r ≡ true))
unfolding cursor_rows
cursor_complete by_id rows p limit r o k m h =
    let sorted = sort_by (newest by_id) (select p rows) in
    let page = take limit (take (suc limit) sorted) in
    let there = sort-In (newest by_id) r (select p rows) (select-In p rows r m h) in
    let back : (b : RunnerRequestRecord) → In b page → In b (take limit sorted) =
      λ b n. subst (In b) (take-take limit sorted) n in
    elim (Bool-cases (count (has_id r.id) page == 0)) [
      | inl none_same ↦ elim (Bool-cases (ltb limit (length (take (suc limit) sorted)))) [
        | inr over ↦ inl (
            subst (In r) (sym (take-take limit sorted))
              (left-out limit sorted r there (ground (arith, over))))
        | inl more ↦
            elim (take-rest (newest by_id) limit sorted r (page-IsSorted by_id o p rows) there) [
              | inl i ↦ inl (subst (In r) (sym (take-take limit sorted)) i)
              | inr f ↦ inr (
                more,
                λ b n.
                    is_after_total by_id o r b (f b (back b n))
                      (count-zero (has_id r.id) page b (ground (arith, none_same)) n),
              )
            ]
      ]
      | inr some_same ↦ inl (
          same-In r rows page k m
            (λ b n.
              (In-select p rows b (
                In-sort (newest by_id) b (select p rows)
                  (In-take (newest by_id) limit sorted b (back b n)))).0)
            (λ e. ground (arith, e, some_same)))
    ]
