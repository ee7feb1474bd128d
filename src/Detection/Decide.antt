-- ===== src/Detection/Decide.antt =====
-- internal/detection/decide.go: what a compiled rule makes of an event, and which stages of a
-- sequence an event satisfies.
use seagull_backend_v.Base.{
  ℕ, zero, suc, ◌+◌, ◌<◌, ◌≡◌, refl, sym, ap, ap₂, ◌∙◌, subst, true, false, not, ◌&&◌, ◌||◌, Option,
  none, some, List, [], ◌∷◌, Text, nat_eq, ◌==◌, is_nil, length, get_elem?, is_some, ◌≤◌, arith,
  if◌then◌else◌,
}
use seagull_backend_v.Analysis.Stages.{max_stages, has, add, any, has-add, has_zero}
use seagull_backend_v.Detection.Value.{Numbers, Value}
use seagull_backend_v.Detection.Node.{Evidence, Node, Event, holds}
use seagull_backend_v.Detection.Meaning.{means, holds_lem}
use seagull_backend_v.Detection.Sufficient.{all_of, Agrees, evidence_enough}

-- An event as the executor reads it: its class, and what it holds in each field.
pub record Record (N : Type 0) : Type 0 where
  pub event_class : ℕ
  pub fields : Event N

pub record Staged (N : Type 0) : Type 0 where
  pub name : Text
  pub root : Node N

-- A compiled rule: its class, and the tree it matches with or the stages of its sequence.
pub record Program (N : Type 0) : Type 0 where
  pub class_of : ℕ
  pub root : Node N
  pub stages : List (Staged N)

module _ {N : Type 0} ⦃numbers : Numbers N⦄ (wrote : Text → Value N → Text) where
  -- The first loop of `Satisfied`, from a stage on.
  unfoldable pub reached_from : ℕ → ℕ → List (Staged N) → Event N → ℕ
  unfolding holds add
  reached_from index reached [] event = reached
  reached_from index reached (stage ∷ stages) event =
      let next =
        if (holds wrote stage.root event none false).0 then add reached index else reached in
      reached_from (suc index) next stages event

  -- The second loop, which gathers the evidence of the stages reached.
  unfoldable pub gather_from :
      ℕ → ℕ → List (Staged N) → Event N → Option (List Evidence) → Option (List Evidence)
  unfolding holds has
  gather_from index reached [] event into = into
  gather_from index reached (stage ∷ stages) event into =
      let next = if has reached index then (holds wrote stage.root event into false).1 else into in
      gather_from (suc index) reached stages event next

  unfoldable pub satisfied : Program N → Record N → ℕ × List Evidence
  unfolding reached_from gather_from any
  satisfied p event =
      let reached = reached_from 0 0 p.stages event.fields in
      if not (event.event_class == p.class_of)
      then (0, [])
      else if not (any reached)
      then (0, [])
      else (reached, all_of (gather_from 0 reached p.stages event.fields (some [])))

  -- `Decide`: what in the event answered the rule, `none` where it does not match.
  unfoldable pub decide : Program N → Record N → Option (List Evidence)
  unfolding satisfied holds any
  decide p event =
      let (reached, evidence) = satisfied p event in
      if not (event.event_class == p.class_of)
      then none
      else if not (is_nil p.stages)
      then (if any reached then some evidence else none)
      else if not (holds wrote p.root event.fields none false).0
      then none
      else some (all_of (holds wrote p.root event.fields (some []) false).1)

  next_reached : ℕ → ℕ → Staged N → Event N → ℕ
  unfolding means add
  next_reached index reached stage event =
      if means stage.root event then add reached index else reached

  reached_next :
      (index reached : ℕ) (stage : Staged N) (stages : List (Staged N)) (event : Event N)
      → reached_from index reached (stage ∷ stages) event
        ≡ reached_from (suc index) (next_reached index reached stage event) stages event
  unfolding reached_from next_reached
  reached_next index reached stage stages event =
      rw (holds_lem wrote stage.root event none false) refl

  has-next_reached :
      (index reached j : ℕ) (stage : Staged N) (event : Event N)
      → index < max_stages
      → has (next_reached index reached stage event) j
        ≡ ((index == j && means stage.root event) || has reached j)
  unfolding next_reached
  has-next_reached index reached j stage event l = ground (arith, has-add index j reached l)

  -- A stage that is behind is not touched.
  has-reached_behind :
      (index reached j : ℕ) (stages : List (Staged N)) (event : Event N)
      → index + length stages ≤ max_stages
      → j < index
      → has (reached_from index reached stages event) j ≡ has reached j
  has-reached_behind index reached j [] event l b = unfold reached_from in refl
  has-reached_behind index reached j (stage ∷ stages) event l b =
      ap (λ n. has n j) (reached_next index reached stage stages event)
      ∙ has-reached_behind (suc index) (next_reached index reached stage event) j stages event
          (omega arith) (omega arith)
      ∙ has-next_reached index reached j stage event (omega arith)
      ∙ ground arith

  has-reached_from :
      (index reached i : ℕ) (stages : List (Staged N)) (stage : Staged N) (event : Event N)
      → index + length stages ≤ max_stages
      → get_elem? stages i ≡ some stage
      → has (reached_from index reached stages event) (index + i)
        ≡ (means stage.root event || has reached (index + i))
  has-reached_from index reached i [] stage event l g = absurd (cc)
  has-reached_from index reached zero (first ∷ stages) stage event l g =
      let same : first ≡ stage = cc in
      ap₂ has (reached_next index reached first stages event) (omega arith)
      ∙ has-reached_behind (suc index) (next_reached index reached first event) index stages event
          (omega arith) (omega arith)
      ∙ has-next_reached index reached index first event (omega arith)
      ∙ ap₂ (λ b c. b || c) (ground arith ∙ ap (λ (st : Staged N). means st.root event) same)
          (ap (has reached) (omega arith))
  has-reached_from index reached (suc i) (first ∷ stages) stage event l g =
      ap₂ has (reached_next index reached first stages event) (omega arith)
      ∙ has-reached_from (suc index) (next_reached index reached first event) i stages stage event
          (omega arith) g
      ∙ ap (λ b. means stage.root event || b)
          (ap (has (next_reached index reached first event)) (omega arith)
            ∙ has-next_reached index reached (index + suc i) first event (omega arith)
            ∙ ground arith)

  -- A rule without a sequence matches an event exactly when the event is of its class and its
  -- tree says so.
  pub decide-means :
      (p : Program N) (event : Record N)
      → p.stages ≡ []
      → is_some (decide p event) ≡ (event.event_class == p.class_of && means p.root event.fields)
  unfolding decide
  decide-means p event n = ground (arith, n, holds_lem wrote p.root event.fields none false)

  matched :
      (p : Program N) (event : Record N) (evidence : List Evidence)
      → p.stages ≡ []
      → decide p event ≡ some evidence
      → ((event.event_class == p.class_of) ≡ true)
        × ((holds wrote p.root event.fields none false).0 ≡ true)
        × (evidence ≡ all_of (holds wrote p.root event.fields (some []) false).1)
  unfolding decide
  matched p event evidence n d = (ground arith, ground arith, ground arith)

  -- Where a rule without a sequence matches an event, it matches every event of the same class
  -- that holds the same in each field that the evidence of the match names.
  pub decide_alike :
      (p : Program N) (event other : Record N) (evidence : List Evidence)
      → p.stages ≡ []
      → decide p event ≡ some evidence
      → other.event_class ≡ event.event_class
      → Agrees event.fields other.fields evidence
      → is_some (decide p other) ≡ true
  decide_alike p event other evidence n d c a =
      let (class, held, told) = matched p event evidence n d in
      let alike =
        evidence_enough wrote event.fields other.fields p.root
          (subst (Agrees event.fields other.fields) told a) in
      decide-means p other n
      ∙ ap₂ (λ x y. x && y) (ap (λ x. x == p.class_of) c ∙ class)
          (sym (holds_lem wrote p.root other.fields none false) ∙ alike ∙ held)

  -- In the class of the rule and with no more stages than a byte has bits, an event is said to
  -- reach a stage exactly when the tree of that stage says so of it.
  pub has-satisfied :
      (p : Program N) (event : Record N) (i : ℕ) (stage : Staged N)
      → (event.event_class == p.class_of) ≡ true
      → length p.stages ≤ max_stages
      → get_elem? p.stages i ≡ some stage
      → has (satisfied p event).0 i ≡ means stage.root event.fields
  unfolding satisfied any
  has-satisfied p event i stage c l g =
      let whole : has (reached_from 0 0 p.stages event.fields) i ≡ means stage.root event.fields =
        ap (has (reached_from 0 0 p.stages event.fields)) (omega arith)
        ∙ has-reached_from 0 0 i p.stages stage event.fields (omega arith) g
        ∙ ap (λ b. means stage.root event.fields || b) (has_zero (0 + i))
        ∙ ground arith in
      ground (arith, c, whole, has_zero i)
