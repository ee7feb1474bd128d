-- ===== src/Detection/Contradiction.antt =====
-- internal/detection/contradiction.go: what a conjunction asks of one field, and when the
-- compiler refuses it because no value answers all of it. The sentence of a refusal is left out.
use seagull_backend_v.Base.{
  ℕ, Bool, true, false, not, ◌&&◌, ◌||◌, Option, none, some, List, [], ◌∷◌, ◌++◌, Text, text_Eq,
  nat_eq, ◌==◌, if◌then◌else◌, ltb, leb, contains, is_nil,
}
use seagull_backend_v.Detection.Value.{
  Numbers, Value, Operator, equals, one_of, starts_with, ends_with, above, at_least, below, at_most,
  Comparison, has_prefix, has_suffix, text_in, ranged, is_present, number_in, is_member, answers,
}
use seagull_backend_v.Detection.Node.{
  operator_Eq, Node, conjunction, disjunction, negation, comparison, Nodes, done, term,
}

-- One comparison as a node asks it, with the negation that stands over it.
pub record Asked (N : Type 0) : Type 0 where
  pub compare : Comparison N
  pub negated : Bool

-- What a conjunction leaves a single field; `bounded` says that a range was asked for.
pub record Window (N : Type 0) : Type 0 where
  pub allowed : Option (List (Value N))
  pub low : ℕ
  pub high : ℕ
  pub low_open : Bool
  pub high_open : Bool
  pub bounded : Bool

abbrev pub affirmative : Bool → Operator → Bool
affirmative negated equals = not negated
affirmative negated one_of = not negated
affirmative negated _ = false

-- Neither of two parts that a text begins with, or ends with, is a part of the other.
unfoldable pub apart : Operator → Text → Text → Bool
unfolding has_prefix has_suffix
apart starts_with one other = not (has_prefix other one) && not (has_prefix one other)
apart ends_with one other = not (has_suffix other one) && not (has_suffix one other)
apart _ one other = false

abbrev pub fits_answer : Bool → Option Bool → Bool
fits_answer negated none = true
fits_answer negated (some held) = if held then not negated else negated

module _ {N : Type 0} ⦃numbers : Numbers N⦄ where
  -- `directly`, under a conjunction: the comparisons it asks, with nested conjunctions folded in.
  unfoldable mutual
    pub directly : Nodes N → List (Asked N)
    directly done = []
    directly (term n ns) = asked_by n ++ directly ns

    pub asked_by : Node N → List (Asked N)
    asked_by (comparison c) = record { compare = c; negated = false } ∷ []
    asked_by (negation (comparison c)) = record { compare = c; negated = true } ∷ []
    asked_by (negation n) = []
    asked_by (conjunction ns) = directly ns
    asked_by (disjunction ns) = []

  unfoldable pub kept : List (Value N) → List (Value N) → List (Value N)
  unfolding is_member
  kept allowed [] = []
  kept allowed (l ∷ narrowed) =
      let rest = kept allowed narrowed in if is_member allowed l then l ∷ rest else rest

  -- `allow`, `none` where nothing is left.
  unfoldable pub allow : Window N → Comparison N → Option (Window N)
  unfolding kept
  allow w c = elim w.allowed [
    | none ↦ some (record w { allowed = some c.literals })
    | some allowed ↦
        if is_nil (kept allowed c.literals)
        then none
        else some (record w { allowed = some (kept allowed c.literals) })
  ]

  unfoldable pub limited : Window N → Operator → ℕ → Window N
  limited w above against =
      if ltb w.low against || (against == w.low && not w.low_open)
      then record w { low = against; low_open = true }
      else w
  limited w at_least against =
      if ltb w.low against then record w { low = against; low_open = false } else w
  limited w below against =
      if ltb against w.high || (against == w.high && not w.high_open)
      then record w { high = against; high_open = true }
      else w
  limited w at_most against =
      if ltb against w.high then record w { high = against; high_open = false } else w
  limited w _ against = w

  unfoldable pub first_number : List (Value N) → Option ℕ
  unfolding number_in
  first_number [] = none
  first_number (l ∷ ls) = number_in l

  unfoldable pub closed : Window N → Bool
  closed w = ltb w.high w.low || (w.low == w.high && (w.low_open || w.high_open))

  unfoldable pub moved : Window N → Operator → Option ℕ → Window N
  unfolding limited
  moved w operator none = w
  moved w operator (some against) = limited w operator against

  -- `limit`; a literal that is not a number moves nothing.
  unfoldable pub limit : Window N → Comparison N → Option (Window N)
  unfolding moved first_number closed
  limit w c =
      let next = moved w c.operator (first_number c.literals) in
      if closed next then none else some (record next { bounded = true })

  unfoldable pub within_number : Window N → Option ℕ → Bool
  within_number w none = true
  within_number w (some value) =
      not (ltb value w.low || (value == w.low && w.low_open))
      && (leb value w.high && not (value == w.high && w.high_open))

  unfoldable pub within : Window N → Value N → Bool
  unfolding number_in within_number
  within w v = within_number w (number_in v)

  unfoldable pub satisfies : Value N → Asked N → Bool
  unfolding answers
  satisfies v q = fits_answer q.negated (answers v q.compare)

  unfoldable pub any_within : Window N → List (Value N) → Bool
  unfolding within
  any_within w [] = false
  any_within w (l ∷ ls) = within w l || any_within w ls

  unfoldable pub any_satisfies : Asked N → List (Value N) → Bool
  unfolding satisfies
  any_satisfies q [] = false
  any_satisfies q (l ∷ ls) = satisfies l q || any_satisfies q ls

  unfoldable pub first_text : List (Value N) → Text
  first_text [] = []
  first_text (l ∷ ls) = text_in l

  unfoldable pub against_each : Operator → Text → List (Asked N) → Bool
  unfolding apart first_text
  against_each operator one [] = false
  against_each operator one (q ∷ rest) =
      let other = first_text q.compare.literals in
      (not q.negated && q.compare.operator == operator && apart operator one other)
      || against_each operator one rest

  unfoldable pub conflicting : List (Asked N) → Bool
  unfolding against_each
  conflicting [] = false
  conflicting (q ∷ rest) =
      (not q.negated && against_each q.compare.operator (first_text q.compare.literals) rest)
      || conflicting rest

  unfoldable pub ruled_out : List (Asked N) → List (Value N) → Bool
  unfolding any_satisfies
  ruled_out [] allowed = false
  ruled_out (q ∷ rest) allowed = not (any_satisfies q allowed) || ruled_out rest allowed

  unfoldable pub leaves : Window N → List (Asked N) → Bool
  unfolding conflicting any_within ruled_out
  leaves w rest = elim w.allowed [
    | none ↦ conflicting rest
    | some allowed ↦ (w.bounded && not (any_within w allowed)) || ruled_out rest allowed
  ]

  abbrev pub with_rest : List (Asked N) → Option (Window N) → Option (Window N × List (Asked N))
  with_rest rest none = none
  with_rest rest (some w) = some (w, rest)

  -- One turn of the loop of `empty`, `none` where it refuses.
  unfoldable pub ask : Asked N → Window N → List (Asked N) → Option (Window N × List (Asked N))
  unfolding allow limit ranged
  ask q w rest =
      if is_present q.compare.operator
      then some (w, rest)
      else if q.negated
      then some (w, rest ++ q ∷ [])
      else if affirmative q.negated q.compare.operator
      then with_rest rest (allow w q.compare)
      else if ranged q.compare.operator
      then with_rest rest (limit w q.compare)
      else some (w, rest ++ q ∷ [])

  unfoldable pub empty_from : List (Asked N) → Window N → List (Asked N) → Bool
  unfolding ask leaves
  empty_from [] w rest = leaves w rest
  empty_from (q ∷ qs) w rest = elim (ask q w rest) [
    | none ↦ true
    | some next ↦ empty_from qs next.0 next.1
  ]

  abbrev pub wide : Window N
  wide = record {
    allowed = none;
    low = 0;
    high = numbers.infinity;
    low_open = false;
    high_open = false;
    bounded = false;
  }

  -- `empty`: whether what is asked of one field is refused.
  unfoldable pub empty : List (Asked N) → Bool
  unfolding empty_from
  empty questions = empty_from questions wide []

  unfoldable pub of_field : Text → List (Asked N) → List (Asked N)
  of_field field [] = []
  of_field field (q ∷ qs) =
      let rest = of_field field qs in if q.compare.field == field then q ∷ rest else rest

  unfoldable pub fields_from : List (Asked N) → List Text → List Text
  unfolding contains
  fields_from [] order = order
  fields_from (q ∷ qs) order =
      fields_from qs
        (if contains order q.compare.field then order else order ++ q.compare.field ∷ [])

  unfoldable pub refused_in : List Text → List (Asked N) → Bool
  unfolding empty of_field
  refused_in [] questions = false
  refused_in (f ∷ fs) questions = empty (of_field f questions) || refused_in fs questions

  -- `narrowed`: whether what a conjunction asks of some field is refused.
  unfoldable pub narrowed : List (Asked N) → Bool
  unfolding fields_from refused_in
  narrowed questions = refused_in (fields_from questions []) questions
