-- ===== src/Detection/Meaning.antt =====
-- What a compiled rule says of an event, with nothing about how it is walked or what is gathered.
use seagull_backend_v.Base.{
  ℕ, ◌≡◌, refl, ap, Bool, true, false, not, ◌&&◌, ◌||◌, Option, List, Text, arith,
}
use seagull_backend_v.Detection.Value.{Numbers, Value, answered}
use seagull_backend_v.Detection.Node.{
  Evidence, evidence_Eq, Node, conjunction, disjunction, negation, comparison, Nodes, done, term,
  Event, mark_of, holds, all_hold, any_holds,
}

module _ {N : Type 0} ⦃numbers : Numbers N⦄ where
  unfoldable mutual
    unfolding answered

    pub means : Node N → Event N → Bool
    means (comparison c) event = answered (event c.field) c
    means (negation n) event = not (means n event)
    means (conjunction ns) event = all_mean ns event
    means (disjunction ns) event = any_means ns event

    pub all_mean : Nodes N → Event N → Bool
    all_mean done event = true
    all_mean (term n ns) event = means n event && all_mean ns event

    pub any_means : Nodes N → Event N → Bool
    any_means done event = false
    any_means (term n ns) event = means n event || any_means ns event

module _ {N : Type 0} ⦃numbers : Numbers N⦄ (wrote : Text → Value N → Text) where
  mutual
    unfolding holds means

    pub holds_lem :
        (n : Node N) (event : Event N) (into : Option (List Evidence)) (negated : Bool)
        → (holds wrote n event into negated).0 ≡ means n event
    holds_lem (comparison c) event into negated = refl
    holds_lem (negation n) event into negated = ap not (holds_lem n event into (not negated))
    holds_lem (conjunction ns) event into negated = all_hold-all_mean ns event into negated
    holds_lem (disjunction ns) event into negated =
        any_holds-any_means (mark_of into) ns event into negated

    pub all_hold-all_mean :
        (ns : Nodes N) (event : Event N) (into : Option (List Evidence)) (negated : Bool)
        → (all_hold wrote ns event into negated).0 ≡ all_mean ns event
    all_hold-all_mean done event into negated = refl
    all_hold-all_mean (term n ns) event into negated =
        let first = holds_lem n event into negated in
        let rest = all_hold-all_mean ns event (holds wrote n event into negated).1 negated in
        ground (arith, first, rest)

    pub any_holds-any_means :
        (mark : ℕ) (ns : Nodes N) (event : Event N) (into : Option (List Evidence)) (negated : Bool)
        → (any_holds wrote mark ns event into negated).0 ≡ any_means ns event
    any_holds-any_means mark done event into negated = refl
    any_holds-any_means mark (term n ns) event into negated =
        let first = holds_lem n event into negated in
        let rest = any_holds-any_means mark ns event (holds wrote n event into negated).1 negated in
        ground (arith, first, rest)

  -- Whether a rule holds of an event is what the rule says of it, whatever is gathered.
  pub holds-means :
      (n : Node N) (event : Event N) (into : Option (List Evidence)) (negated : Bool)
      → (holds wrote n event into negated).0 ≡ means n event
  holds-means n event into negated = holds_lem n event into negated
