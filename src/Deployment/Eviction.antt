-- ===== src/Deployment/Eviction.antt =====
-- The loop that makes room for an event, against its reference: drop the oldest event until the new
-- one fits.
use qiniu_ci_runner.Prelude.{
  ℕ, ◌<◌, Bool, true, false, not, ◌&&◌, List, [], ◌∷◌, ◌++◌, ◌≡◌, ◌⊎◌, refl, sym, ap, subst, ◌∙◌,
  inl, inr, arith, if◌then◌else◌, select, All, All-select, Bool-cases,
}
use qiniu_ci_runner.Prelude.Sort.{IsSorted}
use qiniu_ci_runner.Deployment.Types.{DeploymentEventRecord}
use qiniu_ci_runner.Deployment.Store.{is_listed}
use qiniu_ci_runner.Deployment.Budget.{Budget, older, budget_of, fits, without, choose}

-- The reference: the longest run of the latest events beside which a message of that length fits.
unfoldable pub keep_latest : ℕ → List DeploymentEventRecord → List DeploymentEventRecord
unfolding budget_of
keep_latest size [] = []
keep_latest size (e ∷ es) =
    let rest = keep_latest size es in if fits size (budget_of (e ∷ es)) then e ∷ es else rest

-- The ids of a timeline increase.
abbrev pub IsRising : List DeploymentEventRecord → Type 0
IsRising [] = Unit {0}
IsRising (e ∷ es) = All (λ (f : DeploymentEventRecord). e.id < f.id) es × IsRising es

abbrev pub ids_of : List DeploymentEventRecord → List ℕ
ids_of [] = []
ids_of (e ∷ es) = e.id ∷ ids_of es

-- What a batch chooses: a run of the oldest events, which the reference drops too.
pub record Chosen (size : ℕ) (batch later : List DeploymentEventRecord) (ids : List ℕ)
    (left : Budget) : Type 0 where
  pub gone : List DeploymentEventRecord
  pub stays : List DeploymentEventRecord
  pub splits : batch ≡ gone ++ stays
  pub named : ids ≡ ids_of gone
  pub exact : left ≡ budget_of (stays ++ later)
  pub agrees : keep_latest size (batch ++ later) ≡ keep_latest size (stays ++ later)
  pub done : (stays ≡ []) ⊎ (fits size left ≡ true)

pub Budget-eq : (a b : Budget) → a.events ≡ b.events → a.bytes ≡ b.bytes → a ≡ b
Budget-eq a b h g =
    ap (λ (n : ℕ). record { events = n; bytes = a.bytes }) h
    ∙ ap (λ (n : ℕ). record { events = b.events; bytes = n }) g

without-budget :
    (e : DeploymentEventRecord) (es : List DeploymentEventRecord)
    → without e (budget_of (e ∷ es)) ≡ budget_of es
unfolding budget_of
without-budget e es =
    Budget-eq (without e (budget_of (e ∷ es))) (budget_of es) (omega arith) (omega arith)

keep-later :
    (size : ℕ) (e : DeploymentEventRecord) (es : List DeploymentEventRecord)
    → fits size (budget_of (e ∷ es)) ≡ false
    → keep_latest size (e ∷ es) ≡ keep_latest size es
unfolding keep_latest
keep-later size e es h = simp (h)

pub keep-all :
    (size : ℕ) (es : List DeploymentEventRecord)
    → fits size (budget_of es) ≡ true
    → keep_latest size es ≡ es
unfolding keep_latest
keep-all size [] h = refl
keep-all size (e ∷ es) h = simp (h)

pub choose-Chosen :
    (size : ℕ) (batch later : List DeploymentEventRecord) (b : Budget)
    → b ≡ budget_of (batch ++ later)
    → Chosen size batch later (choose size batch b).0 (choose size batch b).1
unfolding choose
choose-Chosen size [] later b h = record {
  gone = [];
  stays = [];
  splits = refl;
  named = refl;
  exact = h;
  agrees = refl;
  done = inl refl;
}
choose-Chosen size (e ∷ es) later b h = elim (Bool-cases (fits size b)) [
  | inl t ↦ rw t (record {
    gone = [];
    stays = e ∷ es;
    splits = refl;
    named = refl;
    exact = h;
    agrees = refl;
    done = inr t;
  })
  | inr f ↦
      let c =
        choose-Chosen size es later (without e b)
          (ap (without e) h ∙ without-budget e (es ++ later)) in
      rw f (record {
        gone = e ∷ c.gone;
        stays = c.stays;
        splits = ap (◌∷◌ e) c.splits;
        named = ap (◌∷◌ e.id) c.named;
        exact = c.exact;
        agrees =
            keep-later size e (es ++ later) (subst (λ (x : Budget). fits size x ≡ false) h f)
            ∙ c.agrees;
        done = c.done;
      })
]

pub rising-IsSorted : (es : List DeploymentEventRecord) → IsRising es → IsSorted older es
rising-IsSorted [] h = tt
rising-IsSorted (e ∷ es) h = (above es h.0, rising-IsSorted es h.1)
  where
    above :
        (fs : List DeploymentEventRecord)
        → All (λ (f : DeploymentEventRecord). e.id < f.id) fs
        → All (λ f. older f e ≡ false) fs
    above [] g = tt
    above (f ∷ fs) g = (ground (arith, g.0), above fs g.1)

select-agree :
    (p q : DeploymentEventRecord → Bool) (es : List DeploymentEventRecord)
    → All (λ e. p e ≡ q e) es
    → select p es ≡ select q es
select-agree p q [] h = refl
select-agree p q (e ∷ es) h = ground (arith, h.0, select-agree p q es h.1)

-- The ids of a run of the oldest events name no later event.
later-unlisted :
    (x : ℕ) (ids : List ℕ) (es : List DeploymentEventRecord)
    → All (λ (f : DeploymentEventRecord). x < f.id) es
    → All (λ f. not (is_listed f.id ids) ≡ not (is_listed f.id (x ∷ ids))) es
later-unlisted x ids [] h = tt
later-unlisted x ids (e ∷ es) h = (ground (arith, h.0), later-unlisted x ids es h.1)

IsRising-later : (gone es : List DeploymentEventRecord) → IsRising (gone ++ es) → IsRising es
IsRising-later [] es h = h
IsRising-later (e ∷ gone) es h = IsRising-later gone es h.1

keeps_all :
    (es : List DeploymentEventRecord)
    → select (λ (e : DeploymentEventRecord). not (is_listed e.id [])) es ≡ es
keeps_all [] = refl
keeps_all (e ∷ es) = ap (◌∷◌ e) (keeps_all es)

pub select-unlisted :
    (gone es : List DeploymentEventRecord)
    → IsRising (gone ++ es)
    → select (λ (e : DeploymentEventRecord). not (is_listed e.id (ids_of gone))) (gone ++ es) ≡ es
select-unlisted [] es h = keeps_all es
select-unlisted (e ∷ gone) es h =
    let rest =
      sym (
        select-agree (λ f. not (is_listed f.id (ids_of gone)))
          (λ f. not (is_listed f.id (e.id ∷ ids_of gone))) (gone ++ es)
          (later-unlisted e.id (ids_of gone) (gone ++ es) h.0))
      ∙ select-unlisted gone es h.1 in
    ground (arith, rest)

-- What is left of the timeline of a revision, and of the others, after a deletion.
module _ (mine q : DeploymentEventRecord → Bool) where
  pub timeline-dropped :
      (es : List DeploymentEventRecord)
      → select mine (select (λ e. not (mine e && q e)) es)
        ≡ select (λ e. not (q e)) (select mine es)
  timeline-dropped [] = refl
  timeline-dropped (e ∷ es) = ground (arith, timeline-dropped es)

  pub others-dropped :
      (es : List DeploymentEventRecord)
      → select (λ e. not (mine e)) (select (λ e. not (mine e && q e)) es)
        ≡ select (λ e. not (mine e)) es
  others-dropped [] = refl
  others-dropped (e ∷ es) = ground (arith, others-dropped es)

pub select-IsRising :
    (p : DeploymentEventRecord → Bool) (es : List DeploymentEventRecord)
    → IsRising es
    → IsRising (select p es)
select-IsRising p [] h = tt
select-IsRising p (e ∷ es) h =
    elim (p e) as (λ t. IsRising (if t then e ∷ select p es else select p es)) [
      | true ↦ (
        All-select (λ (f : DeploymentEventRecord). e.id < f.id) p es h.0,
        select-IsRising p es h.1,
      )
      | false ↦ select-IsRising p es h.1
    ]
