-- ===== src/Deployment/WorkPages.antt =====
-- `ListDeploymentWork`: a page read through the bounded branches of a union is the page of all the
-- rows that a lane has work on.
use qiniu_ci_runner.Prelude.{
  ℕ, suc, ◌≤◌, String, Bool, true, false, ◌&&◌, ◌||◌, List, [], ◌∷◌, ◌++◌, ◌≡◌, refl, sym, ap, ◌∙◌,
  inl, inr, arith, is_empty, str_eq, ltb, if◌then◌else◌, select, sort_by, take, All, Bool-cases,
}
use qiniu_ci_runner.Prelude.Order.{IsOrder}
use qiniu_ci_runner.Prelude.Table
use qiniu_ci_runner.Prelude.Sort.{select-sort}
use qiniu_ci_runner.Prelude.Branches.{
  IsDistinct, has_key, in_branches, meets_one, take-branches, sort-IsDistinct, in_branches_sound,
}
use qiniu_ci_runner.Request.Types.{Time}
use qiniu_ci_runner.Deployment.Types.{DeploymentRecord, is_active}
use qiniu_ci_runner.Deployment.Sound.{same_id}
use qiniu_ci_runner.Deployment.Work.{
  by_row_id, ids_of, work_ids, is_candidate, left_over, has_expired, is_starting, is_running,
  is_stopping, work_rows,
}

-- The reference: what a lane has work on, in one predicate.
abbrev pub has_work : String → Time → DeploymentRecord → Bool
has_work kind now row =
    if str_eq kind "provision"
    then is_starting row.status && ltb now row.expires_at
    else if str_eq kind "monitor"
    then is_running row.status && ltb now row.expires_at
    else if str_eq kind "cleanup"
    then is_stopping row.status || (left_over row || has_expired now row)
    else is_active row.status || left_over row

abbrev pub id_of : DeploymentRecord → String
id_of row = row.id

candidate-append :
    (row : DeploymentRecord) (ids more : List String)
    → is_candidate (ids ++ more) row ≡ (is_candidate ids row || is_candidate more row)
candidate-append row [] more = refl
candidate-append row (i ∷ ids) more = ground (arith, candidate-append row ids more)

candidate-has_key :
    (row : DeploymentRecord) (rows : List DeploymentRecord)
    → is_candidate (ids_of rows) row ≡ has_key id_of row.id rows
candidate-has_key row [] = refl
candidate-has_key row (x ∷ rows) = ap (λ t. str_eq row.id x.id || t) (candidate-has_key row rows)

pub keyed-IsDistinct :
    (rows : List DeploymentRecord) → Table.IsKeyed same_id rows → IsDistinct id_of rows
keyed-IsDistinct [] k = tt
keyed-IsDistinct (x ∷ rows) k = (unlike rows k.0, keyed-IsDistinct rows k.1)
  where
    unlike :
        (ys : List DeploymentRecord)
        → Table.IsFresh same_id x ys
        → All (λ (y : DeploymentRecord). str_eq y.id x.id ≡ false) ys
    unlike [] f = tt
    unlike (y ∷ ys) f = (f.0, unlike ys f.1)

and_right : (a b : Bool) → (a && b) ≡ true → b ≡ true
and_right a b h = ground (arith, h)

absorb : (c i e a : Bool) → c ≡ i → (i ≡ true → a ≡ true) → (c && (e || a)) ≡ i
absorb c true e a h g = let t = g refl in ground arith
absorb c false e a h g = ground arith

or2 : (a b a' b' : Bool) → a ≡ a' → b ≡ b' → (a || b) ≡ (a' || (b' || false))
or2 a b a' b' h g = ground (arith, h, g)

or3 :
    (a b c a' b' c' : Bool)
    → a ≡ a'
    → b ≡ b'
    → c ≡ c'
    → (a || (b || c)) ≡ (a' || (b' || (c' || false)))
or3 a b c a' b' c' h g k = ground (arith, h, g, k)

past_start :
    (by_id : String → String → Bool) (after id : String)
    → by_id "" id ≡ true
    → (is_empty after || by_id after id) ≡ by_id after id
past_start by_id String.[] id h = sym h
past_start by_id (String.◌∷◌ c s) id h = refl

spread2 : (p q a : Bool) → (p && a || (q && a || false)) ≡ ((p || q) && a)
spread2 p q a = ground arith

spread3 : (p q r a : Bool) → (p && a || (q && a || (r && a || false))) ≡ ((p || (q || r)) && a)
spread3 p q r a = ground arith

-- The branches of a union, each with its predicate, past the cursor.
module _ (by_id : String → String → Bool) (order : IsOrder by_id) (after : String) (limit : ℕ)
    (rows : List DeploymentRecord) where
  sorted : List DeploymentRecord
  sorted = sort_by (by_row_id by_id) rows

  abbrev branch : (DeploymentRecord → Bool) → (DeploymentRecord → Bool) × ℕ
  branch p = (λ (row : DeploymentRecord). p row && by_id after row.id, suc limit)

  row-asym : (a b : DeploymentRecord) → by_row_id by_id a b ≡ true → by_row_id by_id b a ≡ false
  row-asym a b h = order.asym a.id b.id h

  row_trans :
      (a b c : DeploymentRecord)
      → by_row_id by_id a b ≡ false
      → by_row_id by_id b c ≡ false
      → by_row_id by_id a c ≡ false
  row_trans a b c h g = order.trans a.id b.id c.id h g

  work_ids-branch :
      (p : DeploymentRecord → Bool) (row : DeploymentRecord)
      → is_candidate (work_ids by_id after limit p rows) row
        ≡ has_key id_of row.id (take (suc limit) (select (branch p).0 sorted))
  unfolding sorted
  work_ids-branch p row =
      candidate-has_key row
        (take (suc limit) (sort_by (by_row_id by_id) (select (branch p).0 rows)))
      ∙ ap (λ xs. has_key id_of row.id (take (suc limit) xs))
          (sym (select-sort (by_row_id by_id) row-asym row_trans (branch p).0 rows))

  agree :
      (f g : DeploymentRecord → Bool) (xs : List DeploymentRecord)
      → ((row : DeploymentRecord) → f row ≡ g row)
      → select f xs ≡ select g xs
  agree f g [] h = refl
  agree f g (x ∷ xs) h = ground (arith, h x, agree f g xs h)

  -- A union of branches, read past the cursor or from the start.
  union-page :
      (bs : List ((DeploymentRecord → Bool) × ℕ)) (candidate : DeploymentRecord → Bool)
      (work : DeploymentRecord → Bool)
      → Table.IsKeyed same_id rows
      → All (λ (b : (DeploymentRecord → Bool) × ℕ). suc limit ≤ b.1) bs
      → ((row : DeploymentRecord) → candidate row ≡ in_branches id_of bs sorted row.id)
      → ((row : DeploymentRecord) → meets_one id_of bs row ≡ (work row && by_id after row.id))
      → take (suc limit) (
          sort_by
            (by_row_id by_id)
            (select (λ row. candidate row && (is_empty after || by_id after row.id)) rows))
        ≡ take
            (suc limit)
            (sort_by (by_row_id by_id) (select (λ row. work row && by_id after row.id) rows))
  unfolding sorted
  union-page bs candidate work k places same meets =
      let past = λ (row : DeploymentRecord) (h : in_branches id_of bs sorted row.id ≡ true).
        in_branches_sound id_of (by_id after) bs sorted row.id
          (λ x m. and_right (work x) (by_id after x.id) (sym (meets x) ∙ m)) h in
      let chosen =
        λ (row : DeploymentRecord). candidate row && (is_empty after || by_id after row.id) in
      let first =
        agree chosen (λ row. in_branches id_of bs sorted row.id) sorted
          (λ row.
            absorb (candidate row) (in_branches id_of bs sorted row.id) (is_empty after)
              (by_id after row.id) (same row) (past row)) in
      ap (take (suc limit))
        (sym (select-sort (by_row_id by_id) row-asym row_trans chosen rows) ∙ first)
      ∙ take-branches id_of (suc limit) sorted bs
          (sort-IsDistinct id_of (by_row_id by_id) rows (keyed-IsDistinct rows k)) places
      ∙ ap (take (suc limit)) (
          agree (meets_one id_of bs) (λ row. work row && by_id after row.id) sorted meets
          ∙ select-sort (by_row_id by_id) row-asym row_trans (λ row. work row && by_id after row.id)
              rows)

  -- The three branches of the cleanup lane.
  cleanup-page :
      (now : Time)
      → Table.IsKeyed same_id rows
      → let ids = work_ids by_id after limit in
        take (suc limit) (
          sort_by (by_row_id by_id) (
            select
              (λ (row : DeploymentRecord).
                is_candidate
                  (ids (λ (r : DeploymentRecord). is_stopping r.status) rows
                    ++ (ids left_over rows ++ ids (has_expired now) rows))
                  row
                && (is_empty after || by_id after row.id))
              rows))
        ≡ take (suc limit) (
            sort_by (by_row_id by_id) (
              select
                (λ (row : DeploymentRecord).
                  (is_stopping row.status || (left_over row || has_expired now row))
                  && by_id after row.id)
                rows))
  cleanup-page now k =
      let ids = work_ids by_id after limit in
      let stops = λ (r : DeploymentRecord). is_stopping r.status in
      let bs = branch stops ∷ branch left_over ∷ branch (has_expired now) ∷ [] in
      union-page bs
        (is_candidate (ids stops rows ++ (ids left_over rows ++ ids (has_expired now) rows)))
        (λ row. is_stopping row.status || (left_over row || has_expired now row)) k
        (omega arith, (omega arith, (omega arith, tt)))
        (λ row.
          candidate-append row (ids stops rows) (ids left_over rows ++ ids (has_expired now) rows)
          ∙ ap (λ t. is_candidate (ids stops rows) row || t)
              (candidate-append row (ids left_over rows) (ids (has_expired now) rows))
          ∙ or3 (is_candidate (ids stops rows) row) (is_candidate (ids left_over rows) row)
              (is_candidate (ids (has_expired now) rows) row)
              (has_key id_of row.id (take (suc limit) (select (branch stops).0 sorted)))
              (has_key id_of row.id (take (suc limit) (select (branch left_over).0 sorted)))
              (has_key id_of row.id (take (suc limit) (select (branch (has_expired now)).0 sorted)))
              (work_ids-branch stops row) (work_ids-branch left_over row)
              (work_ids-branch (has_expired now) row))
        (λ row. spread3 (stops row) (left_over row) (has_expired now row) (by_id after row.id))

  -- The two branches of all work.
  all-page :
      Table.IsKeyed same_id rows
      → let ids = work_ids by_id after limit in
        take (suc limit) (
          sort_by (by_row_id by_id) (
            select
              (λ (row : DeploymentRecord).
                is_candidate
                  (ids (λ (r : DeploymentRecord). is_active r.status) rows ++ ids left_over rows)
                  row
                && (is_empty after || by_id after row.id))
              rows))
        ≡ take (suc limit) (
            sort_by (by_row_id by_id) (
              select
                (λ (row : DeploymentRecord).
                  (is_active row.status || left_over row) && by_id after row.id)
                rows))
  all-page k =
      let ids = work_ids by_id after limit in
      let actives = λ (r : DeploymentRecord). is_active r.status in
      let bs = branch actives ∷ branch left_over ∷ [] in
      union-page bs (is_candidate (ids actives rows ++ ids left_over rows))
        (λ row. is_active row.status || left_over row) k (omega arith, (omega arith, tt))
        (λ row.
          candidate-append row (ids actives rows) (ids left_over rows)
          ∙ or2 (is_candidate (ids actives rows) row) (is_candidate (ids left_over rows) row)
              (has_key id_of row.id (take (suc limit) (select (branch actives).0 sorted)))
              (has_key id_of row.id (take (suc limit) (select (branch left_over).0 sorted)))
              (work_ids-branch actives row) (work_ids-branch left_over row))
        (λ row. spread2 (actives row) (left_over row) (by_id after row.id))

  past-cursor :
      (f : DeploymentRecord → Bool) (xs : List DeploymentRecord)
      → All (λ (row : DeploymentRecord). by_id "" row.id ≡ true) xs
      → select (λ row. f row && (is_empty after || by_id after row.id)) xs
        ≡ select (λ row. f row && by_id after row.id) xs
  past-cursor f [] h = refl
  past-cursor f (x ∷ xs) h = ground (arith, past_start by_id after x.id h.0, past-cursor f xs h.1)

-- Where ids are distinct and not empty, and the database orders texts, the page of a lane is the
-- first rows, in the order of ids, past the cursor that the lane has work on, one more than the limit.
pub work_rows-has_work :
    (by_id : String → String → Bool) (kind after : String) (limit : ℕ) (now : Time)
    (rows : List DeploymentRecord)
    → IsOrder by_id
    → Table.IsKeyed same_id rows
    → All (λ (row : DeploymentRecord). by_id "" row.id ≡ true) rows
    → work_rows by_id kind after limit now rows
      ≡ take (suc limit) (
          sort_by
            (by_row_id by_id)
            (select (λ (row : DeploymentRecord). has_work kind now row && by_id after row.id) rows))
unfolding work_rows
work_rows-has_work by_id kind after limit now rows order k named =
    elim (Bool-cases (str_eq kind "provision")) [
      | inl a ↦ rw a (
          ap (λ xs. take (suc limit) (sort_by (by_row_id by_id) xs))
            (past-cursor by_id order after limit rows
              (λ row. is_starting row.status && ltb now row.expires_at) rows named))
      | inr a ↦ elim (Bool-cases (str_eq kind "monitor")) [
        | inl b ↦
            rw (a, b)
              (ap (λ xs. take (suc limit) (sort_by (by_row_id by_id) xs))
                (past-cursor by_id order after limit rows
                  (λ row. is_running row.status && ltb now row.expires_at) rows named))
        | inr b ↦ elim (Bool-cases (str_eq kind "cleanup")) [
          | inl c ↦ rw (a, b, c) (cleanup-page by_id order after limit rows now k)
          | inr c ↦ rw (a, b, c) (all-page by_id order after limit rows k)
        ]
      ]
    ]
