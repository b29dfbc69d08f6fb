-- ===== src/Deployment/Totals.antt =====
-- The total that goes with a page is the number of the rows that the filter shows.
use qiniu_ci_runner.Prelude.{
  ◌+◌, String, Bool, true, false, ◌||◌, List, [], ◌∷◌, ◌++◌, ◌≡◌, refl, sym, ap, ◌∙◌, inl, inr,
  arith, eq_iff, Result, ok, >>=-eq-ok, str_eq, str_eq_sound, split, count, count-same, Bool-cases,
  Option-cases,
}
use qiniu_ci_runner.Deployment.Types.{Status, DeploymentRecord}
use qiniu_ci_runner.Deployment.Store.{is_found}
use qiniu_ci_runner.Deployment.Filter.{
  is_one_of, status_group, group_statuses, is_unfiltered, deployment_list_status_values, counts_of,
  sum_groups, list_total, is_shown,
}
use qiniu_ci_runner.Deployment.Groups.{
  IsGroup, group_name, total_where-count, status_group-IsGroup, IsGroup-is_one_of,
  IsGroup-group_count,
}

ok_inj : (a b : List Status) → ◌≡◌ {A = Result (List Status)} (ok a) (ok b) → a ≡ b
ok_inj a b h = cc

count-none : (rows : List DeploymentRecord) → count (λ _. false) rows ≡ 0
count-none [] = refl
count-none (row ∷ rows) = count-none rows

-- A filter that is accepted: a new group, and an accepted rest.
group_statuses-eq-ok :
    (seen : List String) (g : String) (gs : List String) (ss : List Status)
    → group_statuses seen (g ∷ gs) ≡ ok ss
    → (sg : List Status) × (rs : List Status) × (is_found (str_eq g) seen ≡ false)
      × IsGroup g sg
      × (group_statuses (g ∷ seen) gs ≡ ok rs)
      × (ss ≡ sg ++ rs)
unfolding group_statuses
group_statuses-eq-ok seen g gs ss h = elim (Bool-cases (is_found (str_eq g) seen)) [
  | inl t ↦ absurd (cc (rw t at h))
  | inr f ↦ elim (Option-cases (status_group g)) [
    | inl e ↦ absurd (cc (rw (f, e) at h))
    | inr (sg, e) ↦
        let (rs, rest, same) = >>=-eq-ok (group_statuses (g ∷ seen) gs) _ (rw (f, e) at h) in
        (sg, rs, f, status_group-IsGroup g sg e, rest, ok_inj ss (sg ++ rs) (sym same))
  ]
]

-- No group comes again.
unseen :
    (seen gs : List String) (ss : List Status) (k : String)
    → group_statuses seen gs ≡ ok ss
    → is_found (str_eq k) seen ≡ true
    → is_found (λ g. str_eq g k) gs ≡ false
unseen seen [] ss k h m = refl
unseen seen (g ∷ gs) ss k h m =
    let (sg, rs, new, _, rest, _) = group_statuses-eq-ok seen g gs ss h in
    let later = unseen (g ∷ seen) gs rs k rest (ground (arith, m)) in
    elim (Bool-cases (str_eq g k)) [
      | inl t ↦ absurd (cc (ap (λ x. is_found (str_eq x) seen) (str_eq_sound g k t)))
      | inr f ↦ ground (arith, f, later)
    ]

is_one_of-append :
    (xs ys : List Status) (s : Status) → is_one_of (xs ++ ys) s ≡ (is_one_of xs s || is_one_of ys s)
is_one_of-append [] ys s = refl
is_one_of-append (x ∷ xs) ys s = ground (arith, is_one_of-append xs ys s)

shown-groups :
    (seen gs : List String) (ss : List Status) (s : Status)
    → group_statuses seen gs ≡ ok ss
    → is_one_of ss s ≡ is_found (λ g. str_eq g (group_name s)) gs
unfolding group_statuses
shown-groups seen [] ss s h = ap (λ x. is_one_of x s) (ok_inj ss [] (sym h))
shown-groups seen (g ∷ gs) ss s h =
    let (sg, rs, _, group, rest, same) = group_statuses-eq-ok seen g gs ss h in
    ap (λ x. is_one_of x s) same
    ∙ is_one_of-append sg rs s
    ∙ ap (λ b. b || is_one_of rs s) (IsGroup-is_one_of g sg group s)
    ∙ ap (λ b. str_eq g (group_name s) || b) (shown-groups (g ∷ seen) gs rs s rest)

count-or :
    (p q : DeploymentRecord → Bool) (rows : List DeploymentRecord)
    → ((row : DeploymentRecord) → p row ≡ true → q row ≡ false)
    → count (λ row. p row || q row) rows ≡ count p rows + count q rows
count-or p q [] h = refl
count-or p q (row ∷ rows) h = ground (arith, h row, count-or p q rows h)

sum_groups-count :
    (seen gs : List String) (ss : List Status) (rows : List DeploymentRecord)
    → group_statuses seen gs ≡ ok ss
    → sum_groups (counts_of rows) gs
      ≡ count (λ (row : DeploymentRecord). is_found (λ g. str_eq g (group_name row.status)) gs) rows
unfolding sum_groups
sum_groups-count seen [] ss rows h = sym (count-none rows)
sum_groups-count seen (g ∷ gs) ss rows h =
    let (sg, rs, _, group, rest, _) = group_statuses-eq-ok seen g gs ss h in
    let here = λ (row : DeploymentRecord). str_eq g (group_name row.status) in
    let later = λ (row : DeploymentRecord). is_found (λ k. str_eq k (group_name row.status)) gs in
    let apart = count-or here later rows (λ row t.
      unseen (g ∷ seen) gs rs (group_name row.status) rest
        (ground (arith, eq_iff g (group_name row.status), eq_iff (group_name row.status) g, t))) in
    omega (
      arith,
      IsGroup-group_count g sg rows group,
      sum_groups-count (g ∷ seen) gs rs rows rest,
      apart,
    )

-- For a filter that is accepted, the total that the counts by status give is the number of the rows
-- that the filter shows.
pub list_total-count :
    (status : String) (statuses : List Status) (rows : List DeploymentRecord)
    → deployment_list_status_values status ≡ ok statuses
    → list_total status statuses (counts_of rows) ≡ count (is_shown statuses) rows
unfolding list_total deployment_list_status_values counts_of
list_total-count status [] rows h = total_where-count (λ _. true) rows
list_total-count status (s ∷ statuses) rows h = elim (Bool-cases (is_unfiltered status)) [
  | inl t ↦ absurd (cc (rw t at h))
  | inr f ↦
      let accepted : group_statuses [] (split 44 status) ≡ ok (s ∷ statuses) = rw f at h in
      sum_groups-count [] (split 44 status) (s ∷ statuses) rows accepted
      ∙ sym (
          count-same (is_shown (s ∷ statuses))
            (λ (row : DeploymentRecord).
              is_found (λ g. str_eq g (group_name row.status)) (split 44 status))
            rows (λ row. shown-groups [] (split 44 status) (s ∷ statuses) row.status accepted))
]
