-- ===== src/Analysis/Sequence.antt =====
-- internal/analysis/sequence.go: whether a window holds the story a rule is written for.
use seagull_backend_v.Base.{
  ℕ, suc, ◌≤◌, ◌<◌, ◌≡◌, ◌↔◌, Bool, true, false, ◌&&◌, ◌+◌, List, [], ◌∷◌, text_Eq, nat_eq, ◌==◌,
  not, length, Bool-cases, inl, inr, arith,
}
use seagull_backend_v.DetectionState.Observation.{EventName, event_Eq, Observation}
use seagull_backend_v.Analysis.Stages.{has, stages_of}

module _ (stages : ℕ) (without : EventName) where
  -- Whether an observation may stand at a stage.
  unfoldable pub stands : Observation → ℕ → Bool
  unfolding has stages_of
  stands seen stage = not (seen.event == without) && has (stages_of seen.value) stage

  -- What the loop of `ordered` takes from a window when it holds `told` already.
  unfoldable pub told_from : List Observation → ℕ → List Observation
  unfolding stands
  told_from [] told = []
  told_from (seen ∷ window) told = elim (told == stages) [
    | true ↦ []
    | false ↦ elim (stands seen told) [
      | true ↦ seen ∷ told_from window (suc told)
      | false ↦ told_from window told
    ]
  ]

-- `ordered`: the observations that tell the story, and whether they tell all of it.
unfoldable pub ordered : List Observation → ℕ → EventName → List Observation × Bool
unfolding told_from
ordered window stages without =
    let told = told_from stages without window 0 in (told, length told == stages)

module _ (stages : ℕ) (without : EventName) where
  -- An observation of the window for each stage from `stage` on, in the window's order: any such
  -- choice, not the earliest.
  pub data Tells : List Observation → ℕ → Type 0 where
    whole : {window : List Observation} {stage : ℕ} → stage ≡ stages → Tells window stage
    skip :
        {seen : Observation} {window : List Observation} {stage : ℕ}
        → Tells window stage
        → Tells (seen ∷ window) stage
    take :
        {seen : Observation} {window : List Observation} {stage : ℕ}
        → stands stages without seen stage ≡ true
        → Tells window (suc stage)
        → Tells (seen ∷ window) stage

  -- What tells the story from a stage on tells it from the next stage on.
  Tells-suc :
      (window : List Observation) (stage : ℕ)
      → stage < stages
      → Tells window stage
      → Tells window (suc stage)
  Tells-suc window stage l (whole e) = absurd (omega arith)
  Tells-suc (seen ∷ window) stage l (skip t) = skip (Tells-suc window stage l t)
  Tells-suc (seen ∷ window) stage l (take e t) = skip t

  told_from-Tells :
      (window : List Observation) (stage : ℕ)
      → stage + length (told_from stages without window stage) ≡ stages
      → Tells window stage
  unfolding told_from
  told_from-Tells [] stage h = whole (omega arith)
  told_from-Tells (seen ∷ window) stage h = elim (Bool-cases (stage == stages)) [
    | inl e ↦ whole (ground arith)
    | inr e ↦ elim (Bool-cases (stands stages without seen stage)) [
      | inl s ↦ take s (told_from-Tells window (suc stage) (ground arith))
      | inr s ↦ skip (told_from-Tells window stage (ground arith))
    ]
  ]

  Tells-told_from :
      (window : List Observation) (stage : ℕ)
      → stage ≤ stages
      → Tells window stage
      → stage + length (told_from stages without window stage) ≡ stages
  unfolding told_from
  Tells-told_from [] stage l (whole e) = ground arith
  Tells-told_from (seen ∷ window) stage l t = elim (Bool-cases (stage == stages)) [
    | inl e ↦ ground arith
    | inr e ↦
        let below : stage < stages = ground arith in
        elim (Bool-cases (stands stages without seen stage)) [
          | inl s ↦
              let held =
                Tells-told_from window (suc stage) below (later window seen stage below t) in
              ground arith
          | inr s ↦
              let held = Tells-told_from window stage l (skipped window seen stage below s t) in
              ground arith
        ]
  ]
    where
      later :
          (window : List Observation) (seen : Observation) (stage : ℕ)
          → stage < stages
          → Tells (seen ∷ window) stage
          → Tells window (suc stage)
      later window seen stage l (whole e) = absurd (omega arith)
      later window seen stage l (skip t) = Tells-suc window stage l t
      later window seen stage l (take e t) = t

      skipped :
          (window : List Observation) (seen : Observation) (stage : ℕ)
          → stage < stages
          → stands stages without seen stage ≡ false
          → Tells (seen ∷ window) stage
          → Tells window stage
      skipped window seen stage l s (whole e) = absurd (omega arith)
      skipped window seen stage l s (skip t) = t
      skipped window seen stage l s (take e t) = absurd (cc)

-- The story that is read out of a window, taking the earliest observation for each stage, is
-- complete exactly when some choice of observations, one for each stage and in the window's
-- order, tells it.
pub ordered_iff :
    (window : List Observation) (stages : ℕ) (without : EventName)
    → ((ordered window stages without).1 ≡ true) ↔ Tells stages without window 0
unfolding ordered
ordered_iff window stages without = (
  λ h. told_from-Tells stages without window 0 (ground arith),
  λ t. let held = Tells-told_from stages without window 0 (omega arith) t in ground arith,
)
