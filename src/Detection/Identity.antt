-- ===== src/Detection/Identity.antt =====
-- internal/detection/detected.go, `identify`: the text that a detection is named by the digest of.
use seagull_backend_v.Base.{
  ℕ, ◌≡◌, ◌↔◌, ◌⊎◌, refl, sym, ap, ◌∙◌, subst, true, false, List, [], ◌∷◌, ◌++◌, Text, text_Eq,
  text_eq, text_eq_iff, ◌==◌, if◌then◌else◌, In, length, arith, Bool-cases, inl, inr,
  cons_injective,
}
use seagull_backend_v.Base.Sort.{text_before, sort, In-sort, compact, In-compact}
use seagull_backend_v.Written.{
  digits, digits_injective, write_all, write_all_injective, append-split,
}

pub record SentEvent : Type 0 where
  pub agent : Text
  pub event : Text

unfoldable pub agents_of : List SentEvent → List Text
agents_of [] = []
agents_of (s ∷ from) = s.agent ∷ agents_of from

-- `byAgent[agent]`.
unfoldable pub events_of : Text → List SentEvent → List Text
unfolding text_eq
events_of agent [] = []
events_of agent (s ∷ from) =
    let rest = events_of agent from in if s.agent == agent then s.event ∷ rest else rest

-- What is written of the agents, in their order.
unfoldable pub agent_parts : List SentEvent → List Text → List Text
unfolding events_of sort text_before digits
agent_parts from [] = []
agent_parts from (agent ∷ agents) =
    let events = sort text_before (events_of agent from) in
    agent ∷ digits (length events) ∷ events ++ agent_parts from agents

-- `slices.Sorted(maps.Keys(byAgent))`.
unfoldable pub sorted_agents : List SentEvent → List Text
unfolding agents_of sort text_before compact
sorted_agents from = compact (sort text_before (agents_of from))

-- What `identify` hands to the digest.
unfoldable pub identity_text : Text → ℕ → Text → List SentEvent → Text
unfolding write_all digits agent_parts sorted_agents
identity_text rule revision tenant from =
    write_all (rule ∷ digits revision ∷ tenant ∷ agent_parts from (sorted_agents from))

In-sorted_agents :
    (a : Text) (from : List SentEvent) → In a (sorted_agents from) ↔ In a (agents_of from)
unfolding sorted_agents
In-sorted_agents a from = (
  λ m.
      (In-sort text_before a (agents_of from)).0
        ((In-compact a (sort text_before (agents_of from))).0 m),
  λ m.
      (In-compact a (sort text_before (agents_of from))).1
        ((In-sort text_before a (agents_of from)).1 m),
)

In-agents_of : (s : SentEvent) (from : List SentEvent) → In s from → In s.agent (agents_of from)
unfolding agents_of
In-agents_of s [] m = absurd m
In-agents_of s (x ∷ from) (inl e) = inl (ap (λ (y : SentEvent). y.agent) e)
In-agents_of s (x ∷ from) (inr m) = inr (In-agents_of s from m)

In-events_of :
    (s : SentEvent) (from : List SentEvent) → In s from → In s.event (events_of s.agent from)
unfolding events_of
In-events_of s [] m = absurd m
In-events_of s (x ∷ from) (inl e) =
    let same = (text_eq_iff x.agent s.agent).1 (sym (ap (λ (y : SentEvent). y.agent) e)) in
    rw same (inl (ap (λ (y : SentEvent). y.event) e))
In-events_of s (x ∷ from) (inr m) = elim (Bool-cases (x.agent == s.agent)) [
  | inl t ↦ rw t (inr (In-events_of s from m))
  | inr t ↦ rw t (In-events_of s from m)
]

events_of_own :
    (agent : Text) (x : SentEvent) (from : List SentEvent)
    → (x.agent == agent) ≡ true
    → events_of agent (x ∷ from) ≡ x.event ∷ events_of agent from
unfolding events_of
events_of_own agent x from t = rw t refl

events_of_other :
    (agent : Text) (x : SentEvent) (from : List SentEvent)
    → (x.agent == agent) ≡ false
    → events_of agent (x ∷ from) ≡ events_of agent from
unfolding events_of
events_of_other agent x from t = rw t refl

events_of-In :
    (s : SentEvent) (from : List SentEvent) → In s.event (events_of s.agent from) → In s from
events_of-In s [] m = absurd (unfold events_of in m)
events_of-In s (x ∷ from) m = elim (Bool-cases (x.agent == s.agent)) [
  | inl t ↦
      first (λ n. events_of-In s from n) ((text_eq_iff x.agent s.agent).0 t)
        (subst (In s.event) (events_of_own s.agent x from t) m)
  | inr t ↦ inr (events_of-In s from (subst (In s.event) (events_of_other s.agent x from t) m))
]
  where
    first :
        (In s.event (events_of s.agent from) → In s from)
        → x.agent ≡ s.agent
        → (s.event ≡ x.event) ⊎ In s.event (events_of s.agent from)
        → (s ≡ x) ⊎ In s from
    first rest a (inl e) = inl (cc)
    first rest a (inr n) = inr (rest n)

-- Texts that say the same say the same agents, and of each of them the same events.
same_parts :
    (f g : List SentEvent) (ps qs : List Text)
    → agent_parts f ps ≡ agent_parts g qs
    → (a : Text) → In a ps
    → In a qs × (sort text_before (events_of a f) ≡ sort text_before (events_of a g))
unfolding agent_parts
same_parts f g [] qs h a m = absurd m
same_parts f g (x ∷ ps) [] h a m = absurd (omega (arith, ap length h))
same_parts f g (x ∷ ps) (y ∷ qs) h a m =
    let xs = sort text_before (events_of x f) in
    let ys = sort text_before (events_of y g) in
    let (agent, h) = cons_injective x y _ _ h in
    let (count, h) = cons_injective (digits (length xs)) (digits (length ys)) _ _ h in
    let (events, h) = append-split xs ys _ _ (digits_injective (length xs) (length ys) count) h in
    each agent events (λ n. same_parts f g ps qs h a n) m
  where
    each :
        x ≡ y
        → sort text_before (events_of x f) ≡ sort text_before (events_of y g)
        → (In a ps
            → In a qs × (sort text_before (events_of a f) ≡ sort text_before (events_of a g)))
        → (a ≡ x) ⊎ In a ps
        → In a (y ∷ qs) × (sort text_before (events_of a f) ≡ sort text_before (events_of a g))
    each e v rest (inl m) = (
      inl (m ∙ e),
      ap (λ z. sort text_before (events_of z f)) m
          ∙ v
          ∙ ap (λ z. sort text_before (events_of z g)) (sym (m ∙ e)),
    )
    each e v rest (inr m) = let (n, w) = rest m in (inr n, w)

same_events :
    (f g : List SentEvent)
    → agent_parts f (sorted_agents f) ≡ agent_parts g (sorted_agents g)
    → (s : SentEvent) → In s f
    → In s g
same_events f g h s m =
    let held = (In-sorted_agents s.agent f).1 (In-agents_of s f m) in
    let (agent, events) = same_parts f g (sorted_agents f) (sorted_agents g) h s.agent held in
    events_of-In s g (
      (In-sort text_before s.event (events_of s.agent g)).0 (
        subst (In s.event) events
          ((In-sort text_before s.event (events_of s.agent f)).1 (In-events_of s f m))))

-- Two detections whose names are digests of the same text are of the same rule, revision and
-- tenant, and of the same events of the same agents.
pub identity_text_injective :
    (q r : Text) (m n : ℕ) (t u : Text) (f g : List SentEvent)
    → identity_text q m t f ≡ identity_text r n u g
    → (q ≡ r) × (m ≡ n) × (t ≡ u) × ((s : SentEvent) → In s f ↔ In s g)
unfolding identity_text
identity_text_injective q r m n t u f g h =
    let (rule, h) = cons_injective q r _ _ (write_all_injective _ _ h) in
    let (revision, h) = cons_injective (digits m) (digits n) _ _ h in
    let (tenant, h) = cons_injective t u _ _ h in
    (
      rule,
      digits_injective m n revision,
      tenant,
      λ s. (same_events f g h s, same_events g f (sym h) s),
    )
