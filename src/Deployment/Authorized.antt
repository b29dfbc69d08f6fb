-- ===== src/Deployment/Authorized.antt =====
-- Which deployments an access list authorizes.
use qiniu_ci_runner.Prelude.{
  ℕ, String, Bool, true, not, ◌&&◌, ◌||◌, List, [], ◌∷◌, ◌++◌, ◌≡◌, refl, ap, ◌∙◌, inl, inr, arith,
  is_empty, str_eq, str_eq_sound, trim_space, ◌==◌, select, sort_by, insert_by, map, Bool-cases,
}
use qiniu_ci_runner.Deployment.Types.{DeploymentRecord}
use qiniu_ci_runner.Deployment.Store.{is_found}
use qiniu_ci_runner.Deployment.Access.{
  GitHubInstallationRepositoryAccess, is_text_in, unique_from, unique_lower_trimmed, add_texts,
  grant, repositories_by_installation, lower_installation, has_repositories, access_of,
  normalize_github_installation_repository_access, authorized_deployment_repositories,
}

-- An item of the list names the installation and the repository, up to case and outer space.
abbrev pub names_repository :
    (String → String) → ℕ → String → GitHubInstallationRepositoryAccess → Bool
names_repository to_lower id name item =
    not (item.installation_id == 0)
    && ((id == item.installation_id)
        && (not (is_empty name)
            && is_found (λ value. str_eq name (to_lower (trim_space value))) item.repositories))

module _ {A : Type 0} (before : A → A → Bool) (p : A → Bool) where
  found-insert : (a : A) (xs : List A) → is_found p (insert_by before a xs) ≡ (p a || is_found p xs)
  found-insert a [] = refl
  found-insert a (x ∷ xs) = ground (arith, found-insert a xs)

  found-sort : (xs : List A) → is_found p (sort_by before xs) ≡ is_found p xs
  found-sort [] = refl
  found-sort (x ∷ xs) = found-insert x (sort_by before xs) ∙ ap (λ b. p x || b) (found-sort xs)

found-append :
    {A : Type 0} (p : A → Bool) (xs ys : List A)
    → is_found p (xs ++ ys) ≡ (is_found p xs || is_found p ys)
found-append p [] ys = refl
found-append p (x ∷ xs) ys = ground (arith, found-append p xs ys)

unique_from-names :
    (to_lower : String → String) (name : String) (seen values : List String)
    → (is_text_in name seen || is_text_in name (unique_from to_lower seen values)) ≡ (
        is_text_in name seen
        || (not (is_empty name)
            && is_found (λ value. str_eq name (to_lower (trim_space value))) values))
unfolding unique_from
unique_from-names to_lower name seen [] = ground arith
unique_from-names to_lower name seen (value ∷ values) =
    let v = to_lower (trim_space value) in
    let same = λ (t : str_eq name v ≡ true). str_eq_sound name v t in
    elim (Bool-cases (is_empty v || is_text_in v seen)) [
      | inl skip ↦
          let ih = unique_from-names to_lower name seen values in
          elim (Bool-cases (str_eq name v)) [
            | inl t ↦
                let a = ap is_empty (same t) in
                let b = ap (λ x. is_text_in x seen) (same t) in
                rw skip (ground (arith, t, a, b, ih))
            | inr f ↦ rw skip (ground (arith, f, ih))
          ]
      | inr new ↦
          let ih = unique_from-names to_lower name (v ∷ seen) values in
          elim (Bool-cases (str_eq name v)) [
            | inl t ↦ let a = ap is_empty (same t) in rw new (ground (arith, t, a, ih))
            | inr f ↦ rw new (ground (arith, f, ih))
          ]
    ]

add_texts-names :
    (s : String) (set texts : List String)
    → is_text_in s (add_texts set texts) ≡ (is_text_in s set || is_text_in s texts)
add_texts-names s set [] = ground arith
add_texts-names s set (x ∷ texts) = elim (Bool-cases (is_text_in x set)) [
  | inl t ↦
      let ih = add_texts-names s set texts in
      elim (Bool-cases (str_eq s x)) [
        | inl e ↦
            let b = ap (λ y. is_text_in y set) (str_eq_sound s x e) in
            rw t (ground (arith, e, b, ih))
        | inr e ↦ rw t (ground (arith, e, ih))
      ]
  | inr f ↦
      let ih = add_texts-names s (set ++ x ∷ []) texts in
      let more = found-append (str_eq s) set (x ∷ []) in rw f (ground (arith, ih, more))
]

module _ (id : ℕ) (name : String) where
  abbrev holds : List (ℕ × List String) → Bool
  holds groups = is_found (λ (g : ℕ × List String). (id == g.0) && is_text_in name g.1) groups

  grant-holds :
      (i : ℕ) (names : List String) (groups : List (ℕ × List String))
      → holds (grant i names groups) ≡ (holds groups || ((id == i) && is_text_in name names))
  unfolding grant
  grant-holds i names [] = ground (arith, add_texts-names name [] names)
  grant-holds i names (g ∷ groups) = elim (Bool-cases (g.0 == i)) [
    | inl t ↦ let more = add_texts-names name g.1 names in rw t (ground (arith, t, more))
    | inr f ↦ let ih = grant-holds i names groups in rw f (ground (arith, f, ih))
  ]

  collected-holds :
      (to_lower : String → String) (items : List GitHubInstallationRepositoryAccess)
      (groups : List (ℕ × List String))
      → holds (repositories_by_installation to_lower items groups)
        ≡ (holds groups || is_found (names_repository to_lower id name) items)
  unfolding repositories_by_installation unique_lower_trimmed
  collected-holds to_lower [] groups = ground arith
  collected-holds to_lower (item ∷ items) groups = elim (Bool-cases (item.installation_id == 0)) [
    | inl t ↦ let ih = collected-holds to_lower items groups in rw t (ground (arith, t, ih))
    | inr f ↦
        let names = unique_lower_trimmed to_lower item.repositories in
        let ih = collected-holds to_lower items (grant item.installation_id names groups) in
        let more = grant-holds item.installation_id names groups in
        let named = unique_from-names to_lower name [] item.repositories in
        rw f (ground (arith, f, ih, more, named))
  ]

  selected-holds :
      (groups : List (ℕ × List String)) → holds (select has_repositories groups) ≡ holds groups
  selected-holds [] = refl
  selected-holds ((i, []) ∷ groups) = ground (arith, selected-holds groups)
  selected-holds ((i, s ∷ names) ∷ groups) = ground (arith, selected-holds groups)

  mapped-holds :
      (by_text : String → String → Bool) (groups : List (ℕ × List String))
      → is_found
          (λ (item : GitHubInstallationRepositoryAccess).
            (id == item.installation_id) && is_text_in name item.repositories)
          (map (access_of by_text) groups)
        ≡ holds groups
  mapped-holds by_text [] = refl
  mapped-holds by_text (g ∷ groups) =
      ap
        (λ b.
          ((id == g.0) && b)
          || is_found
              (λ (item : GitHubInstallationRepositoryAccess).
                (id == item.installation_id) && is_text_in name item.repositories)
              (map (access_of by_text) groups))
        (found-sort by_text (str_eq name) g.1)
      ∙ ap (λ b. ((id == g.0) && is_text_in name g.1) || b) (mapped-holds by_text groups)

-- A query authorizes a deployment exactly if some item of the access list, of an installation other
-- than 0, is of its installation and names its repository, which has a name, up to case and outer
-- space, whatever the order and the repetitions of the list.
pub authorized_iff :
    (to_lower lower : String → String) (by_text : String → String → Bool)
    (access : List GitHubInstallationRepositoryAccess) (row : DeploymentRecord)
    → authorized_deployment_repositories to_lower lower by_text access row
      ≡ is_found
          (names_repository to_lower row.github_installation_id (lower row.repository_full_name))
          access
unfolding authorized_deployment_repositories normalize_github_installation_repository_access
authorized_iff to_lower lower by_text access row =
    let id = row.github_installation_id in
    let name = lower row.repository_full_name in
    let groups = repositories_by_installation to_lower access [] in
    let asked = λ (g : ℕ × List String). (id == g.0) && is_text_in name g.1 in
    mapped-holds id name by_text (sort_by lower_installation (select has_repositories groups))
    ∙ found-sort lower_installation asked (select has_repositories groups)
    ∙ selected-holds id name groups
    ∙ collected-holds id name to_lower access []
