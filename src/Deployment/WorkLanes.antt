-- ===== src/Deployment/WorkLanes.antt =====
-- The lanes of `ListDeploymentWork` against the places of a scope.
use qiniu_ci_runner.Prelude.{
  ℕ, ◌+◌, ◌≤◌, String, Bool, true, false, not, ◌&&◌, ◌||◌, List, [], ◌∷◌, ◌≡◌, refl, sym, ap, subst,
  ◌∙◌, inl, inr, arith, is_empty, leb, ltb, str_eq, eq_iff, All, All-In, In, count, select, sort_by,
  length, Bool-cases,
}
use qiniu_ci_runner.Prelude.Order.{IsOrder}
use qiniu_ci_runner.Prelude.Table
use qiniu_ci_runner.Prelude.Sort.{take_all, count-sort}
use qiniu_ci_runner.Prelude.Branches.{IsDistinct}
use qiniu_ci_runner.Request.Types.{Time}
use qiniu_ci_runner.Deployment.Types.{
  Status, queued, planning, creating, running, stopping, completed, expired, failed, other,
  is_active, is_failed, DeploymentRecord,
}
use qiniu_ci_runner.Deployment.Store.{takes_place, has_id}
use qiniu_ci_runner.Deployment.Sound.{same_id}
use qiniu_ci_runner.Deployment.Work.{by_row_id, is_starting, is_running, is_stopping, work_rows}
use qiniu_ci_runner.Deployment.WorkPages.{has_work, id_of, keyed-IsDistinct, work_rows-has_work}

abbrev pub bit : Bool → ℕ
bit true = 1
bit false = 0

and_true : (a : Bool) → (a && true) ≡ a
and_true true = refl
and_true false = refl

-- By status, by whether a Sandbox is left, and by whether the time is up.
by_status :
    (s : Status) (gone live up : Bool)
    → up ≡ not live
    → bit (is_starting s && live)
        + (bit (is_running s && live)
            + bit (
                is_stopping s
                || ((is_failed s && not gone) || ((is_starting s || is_running s) && up))))
      ≡ bit (is_active s || (is_failed s && not gone))
by_status queued gone true up h = ground arith
by_status queued gone false up h = ground arith
by_status planning gone true up h = ground arith
by_status planning gone false up h = ground arith
by_status creating gone true up h = ground arith
by_status creating gone false up h = ground arith
by_status running gone true up h = ground arith
by_status running gone false up h = ground arith
by_status stopping gone live up h = ground arith
by_status completed gone live up h = refl
by_status expired gone live up h = refl
by_status failed gone live up h = ground arith
by_status (other s) gone live up h = refl

due : (a b : ℕ) → leb a b ≡ not (ltb b a)
due a b = ground arith

module _ (row : DeploymentRecord) where
  no_other :
      (p : DeploymentRecord → Bool) (rows : List DeploymentRecord)
      → All (λ (y : DeploymentRecord). str_eq y.id row.id ≡ false) rows
      → count (has_id row.id) (select p rows) ≡ 0
  no_other p [] h = refl
  no_other p (y ∷ rows) h = elim (Bool-cases (p y)) [
    | inl t ↦ simp (t, h.0, no_other p rows h.1)
    | inr f ↦ simp (f, no_other p rows h.1)
  ]

  -- A row of a table is found once among those that pass a test, or not at all.
  once :
      (p : DeploymentRecord → Bool) (rows : List DeploymentRecord)
      → IsDistinct id_of rows
      → In row rows
      → count (has_id row.id) (select p rows) ≡ bit (p row)
  once p [] d m = absurd m
  once p (x ∷ rows) d (inl e) =
      let others =
        no_other p rows (
          subst (λ z. All (λ (y : DeploymentRecord). str_eq y.id z.id ≡ false) rows) (sym e) d.0) in
      subst (λ z. count (has_id row.id) (select p (z ∷ rows)) ≡ bit (p row)) e
        (elim (Bool-cases (p row)) [
          | inl t ↦ simp (t, others, (eq_iff row.id row.id).1 refl)
          | inr f ↦ simp (f, others)
        ])
  once p (x ∷ rows) d (inr m) =
      let apart = All-In (λ (y : DeploymentRecord). str_eq y.id x.id ≡ false) rows row d.0 m in
      let other : str_eq x.id row.id ≡ false =
        ground (arith, eq_iff x.id row.id, eq_iff row.id x.id, apart) in
      let rest = once p rows d.1 m in
      elim (Bool-cases (p x)) [ inl t ↦ simp (t, other, rest) | inr f ↦ simp (f, rest) ]

  module _ (by_id : String → String → Bool) (limit : ℕ) (now : Time) (rows : List DeploymentRecord)
      (order : IsOrder by_id) (k : Table.IsKeyed same_id rows)
      (named : All (λ (r : DeploymentRecord). by_id "" r.id ≡ true) rows) (m : In row rows) where
    -- A page with no more to come shows the row once if the lane has work on it, or not at all.
    shown :
        (kind : String)
        → length (work_rows by_id kind "" limit now rows) ≤ limit
        → count (has_id row.id) (work_rows by_id kind "" limit now rows)
          ≡ bit (has_work kind now row)
    shown kind h =
        let work = λ (r : DeploymentRecord). has_work kind now r && by_id "" r.id in
        let page = work_rows-has_work by_id kind "" limit now rows order k named in
        let first = All-In (λ (r : DeploymentRecord). by_id "" r.id ≡ true) rows row named m in
        let whole =
          page
          ∙ take_all limit (sort_by (by_row_id by_id) (select work rows))
              (subst (λ xs. length xs ≤ limit) page h) in
        ap (count (has_id row.id)) whole
        ∙ count-sort (by_row_id by_id) (has_id row.id) (select work rows)
        ∙ once work rows (keyed-IsDistinct rows k) m
        ∙ ap bit (rw first (and_true (has_work kind now row)))

-- Where ids are distinct and not empty, the database orders texts, and none of the three lanes that
-- provision, monitor and clean up has more than its first page: a deployment that takes a place in
-- its scope is found once on exactly one of the three pages, at any time, and any other deployment of
-- the table is on none.
pub lanes_partition :
    (by_id : String → String → Bool) (limit : ℕ) (now : Time) (rows : List DeploymentRecord)
    (row : DeploymentRecord)
    → IsOrder by_id
    → Table.IsKeyed same_id rows
    → All (λ (r : DeploymentRecord). by_id "" r.id ≡ true) rows
    → In row rows
    → length (work_rows by_id "provision" "" limit now rows) ≤ limit
    → length (work_rows by_id "monitor" "" limit now rows) ≤ limit
    → length (work_rows by_id "cleanup" "" limit now rows) ≤ limit
    → count (has_id row.id) (work_rows by_id "provision" "" limit now rows)
        + (count (has_id row.id) (work_rows by_id "monitor" "" limit now rows)
            + count (has_id row.id) (work_rows by_id "cleanup" "" limit now rows))
      ≡ bit (takes_place row)
lanes_partition by_id limit now rows row order k named m p q r =
    let on = shown row by_id limit now rows order k named m in
    rw (on "provision" p, on "monitor" q, on "cleanup" r)
      (by_status row.status (is_empty row.sandbox_id) (ltb now row.expires_at)
        (leb row.expires_at now) (due row.expires_at now))
