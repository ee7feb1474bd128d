-- ===== src/Detection/Node.antt =====
-- internal/detection/compile.go and decide.go: the tree that a rule compiles to, and the walk
-- that decides an event by it and gathers what in the event decided it. An event is what it holds
-- in each field (`read` walks the message's descriptors); the text of a value (`wrote`) is a
-- parameter.
use seagull_backend_v.Base.{
  ℕ, ◌≡◌, ◌↔◌, Bool, true, false, not, ◌&&◌, Option, none, some, List, [], ◌∷◌, ◌++◌, Text, text_Eq,
  text_eq, text_eq_iff, Eq, ◌==◌, if◌then◌else◌, length, contains, arith, eq_of, zero, suc, is_some,
}
use seagull_backend_v.Detection.Value.{Numbers, Value, Operator, Comparison, answered}

pub record Evidence : Type 0 where
  pub field : Text
  pub operator : Operator
  pub negated : Bool
  pub held : Text
  pub absent : Bool

unfoldable pub Operator-discrete : Discrete Operator
Operator-discrete = hlevel

instance abbrev pub operator_Eq : Eq Operator
operator_Eq = eq_of Operator-discrete

unfoldable bool_same : Bool → Bool → Bool
bool_same a b = if a then b else not b

unfoldable pub evidence_eq : Evidence → Evidence → Bool
unfolding text_eq bool_same
evidence_eq a b =
    a.field == b.field
    && a.operator == b.operator
    && bool_same a.negated b.negated
    && a.held == b.held
    && bool_same a.absent b.absent

bool_same_iff : (a b : Bool) → (bool_same a b ≡ true) ↔ (a ≡ b)
unfolding bool_same
bool_same_iff a b = ground arith

pub evidence_eq_iff : (a b : Evidence) → (evidence_eq a b ≡ true) ↔ (a ≡ b)
unfolding evidence_eq
evidence_eq_iff a b = ground (
  arith,
  text_eq_iff a.field b.field,
  operator_Eq.beq_iff a.operator b.operator,
  bool_same_iff a.negated b.negated,
  text_eq_iff a.held b.held,
  bool_same_iff a.absent b.absent,
)

instance abbrev pub evidence_Eq : Eq Evidence
evidence_Eq = record { beq = evidence_eq; beq_iff = evidence_eq_iff }

mutual
  pub data Node (N : Type 0) : Type 0 where
    conjunction : Nodes N → Node N
    disjunction : Nodes N → Node N
    negation : Node N → Node N
    comparison : Comparison N → Node N

  pub data Nodes (N : Type 0) : Type 0 where
    done : Nodes N
    term : Node N → Nodes N → Nodes N

-- What was gathered, up to a mark (`(*into)[:mark]`).
unfoldable pub up_to : ℕ → List Evidence → List Evidence
up_to zero into = []
up_to (suc mark) [] = []
up_to (suc mark) (e ∷ into) = e ∷ up_to mark into

-- `len(*into)`, and `*into = (*into)[:mark]`.
unfoldable pub mark_of : Option (List Evidence) → ℕ
mark_of none = 0
mark_of (some into) = length into

unfoldable pub cut_back : ℕ → Option (List Evidence) → Option (List Evidence)
unfolding up_to
cut_back mark none = none
cut_back mark (some into) = some (up_to mark into)

abbrev pub Event : Type 0 → Type 0
Event N = Text → Option (Value N)

module _ {N : Type 0} ⦃numbers : Numbers N⦄ (wrote : Text → Value N → Text) where
  unfoldable pub held_text : Comparison N → Option (Value N) → Text
  held_text c none = []
  held_text c (some value) = wrote c.field value

  unfoldable pub saw : Comparison N → Option (Value N) → Bool → Evidence
  unfolding held_text
  saw c carried negated = record {
    field = c.field;
    operator = c.operator;
    negated = negated;
    held = held_text c carried;
    absent = not (is_some carried);
  }

  -- `into` gathers nothing where it is nil.
  unfoldable pub gathered :
      Comparison N → Option (Value N) → Bool → Option (List Evidence) → Option (List Evidence)
  unfolding saw contains evidence_eq
  gathered c carried negated none = none
  gathered c carried negated (some into) =
      let seen = saw c carried negated in
      some (if contains into seen then into else into ++ seen ∷ [])

  unfoldable mutual
    unfolding answered gathered mark_of cut_back

    pub holds : Node N → Event N → Option (List Evidence) → Bool → Bool × Option (List Evidence)
    holds (comparison c) event into negated =
        (answered (event c.field) c, gathered c (event c.field) negated into)
    holds (negation n) event into negated =
        let inner = holds n event into (not negated) in (not inner.0, inner.1)
    holds (conjunction ns) event into negated = all_hold ns event into negated
    holds (disjunction ns) event into negated = any_holds (mark_of into) ns event into negated

    pub all_hold : Nodes N → Event N → Option (List Evidence) → Bool → Bool × Option (List Evidence)
    all_hold done event into negated = (true, into)
    all_hold (term n ns) event into negated =
        let first = holds n event into negated in
        elim first.0 [ false ↦ (false, first.1) | true ↦ all_hold ns event first.1 negated ]

    pub any_holds :
        ℕ → Nodes N → Event N → Option (List Evidence) → Bool → Bool × Option (List Evidence)
    any_holds mark done event into negated = (false, into)
    any_holds mark (term n ns) event into negated =
        let first = holds n event into negated in
        elim first.0 [
          | false ↦ any_holds mark ns event first.1 negated
          | true ↦ (true, (holds n event (cut_back mark first.1) negated).1)
        ]
