-- ===== src/Alert/Key.antt =====
-- internal/alert/key.go, the text that an alert's correlation key is a digest of, and
-- internal/detection/held.go, what a detection says of a field. The digest, the kinds of the
-- contract's fields, Go's unquoting, and the names of classes and severities are parameters.
pub mod Correlation
use seagull_backend_v.Base.{
  ℕ, ◌≡◌, ◌↔◌, refl, sym, ap, ap₂, ◌∙◌, subst, Bool, true, false, not, ◌&&◌, ◌||◌, Option, none,
  some, List, [], ◌∷◌, ◌++◌, Text, text_Eq, text_eq, text_eq_iff, nat_eq, bytes, Eq, ◌==◌, ◌!=◌,
  if◌then◌else◌, In, is_nil, is_some, length, arith, inl, inr, cons_injective,
}
use seagull_backend_v.Base.Sort.{text_before, sort, In-sort, compact, In-compact}
use seagull_backend_v.Written.{write_all, write_all_injective}

-- What a detection says of one field: evidence as a rule writes it, or a group as an event
-- carries it.
pub record Said : Type 0 where
  pub field : Text
  pub held : Text
  pub absent : Bool

pub record Detection : Type 0 where
  pub tenant : Text
  pub rule : Text
  pub agent : Text
  pub event_class : ℕ
  pub severity : ℕ
  pub evidence : List Said
  pub aggregated : List Said
  pub correlated : List Said

-- `strings.CutPrefix`, `none` where the text does not begin with the part.
unfoldable pub cut_prefix : Text → Text → Option Text
cut_prefix [] t = some t
cut_prefix (c ∷ p) [] = none
cut_prefix (c ∷ p) (d ∷ t) = let rest = cut_prefix p t in if c == d then rest else none

-- `Part.Field`.
unfoldable pub field_of : Text → Option Text
unfolding cut_prefix
field_of part = elim (cut_prefix (bytes "evidence:") part) [
  | none ↦ none
  | some field ↦ if is_nil field then none else some field
]

unfoldable pub said_in : Text → List Said → Option Said
unfolding text_eq
said_in field [] = none
said_in field (s ∷ said) = if s.field == field then some s else said_in field said

abbrev pub absent_marker : Text
absent_marker = 0 ∷ bytes "absent"

unfoldable pub distinct : List Text → List Text
unfolding sort text_before compact
distinct keyed = compact (sort text_before keyed)

unfoldable pub find_grouped : Text → Detection → Option Said
unfolding said_in
find_grouped field made = elim (said_in field made.aggregated) [
  | some s ↦ some s
  | none ↦ said_in field made.correlated
]

module _ (is_text : Text → Bool) (unquote : Text → Option Text) (class severity : ℕ → Text) where
  abbrev or_as_is : Text → Option Text → Text
  or_as_is held none = held
  or_as_is held (some unquoted) = unquoted

  -- `carried`: a text is unquoted, everything else is as it was written.
  unfoldable pub carried : Text → Text → Text
  carried field held = if not (is_text field) then held else or_as_is held (unquote held)

  -- `find`: what is held, and whether it is absent; `none` where nothing is said of the field.
  unfoldable pub find : Detection → Text → Option (Text × Bool)
  unfolding said_in carried find_grouped
  find made field = elim (said_in field made.evidence) [
    | some s ↦ some (carried field s.held, s.absent)
    | none ↦ elim (find_grouped field made) [ some s ↦ some (s.held, s.absent) | none ↦ none ]
  ]

  unfoldable pub held_in : Detection → Text → Option Text
  unfolding find
  held_in made field = elim (find made field) [
    | none ↦ none
    | some (held, absent) ↦ if absent then none else some held
  ]

  unfoldable pub speaks : Detection → Text → Bool
  unfolding find
  speaks made field = is_some (find made field)

  unfoldable named_part : Detection → Text → Option Text
  unfolding text_eq
  named_part made part =
      if part == bytes "rule"
      then (if is_nil made.rule then none else some made.rule)
      else if part == bytes "agent"
      then (if is_nil made.agent then none else some made.agent)
      else if part == bytes "class"
      then (if made.event_class == 0 then none else some (class made.event_class))
      else if part == bytes "severity"
      then (if made.severity == 0 then none else some (severity made.severity))
      else none

  -- `Part.Of`: what a detection holds in a part.
  unfoldable pub part_of : Detection → Text → Option Text
  unfolding field_of held_in named_part
  part_of made part = elim (field_of part) [
    | some field ↦ held_in made field
    | none ↦ named_part made part
  ]

  abbrev or_absent : Option Text → Text
  or_absent none = absent_marker
  or_absent (some value) = value

  -- What is written of a part.
  unfoldable pub shown : Detection → Text → Text
  unfolding part_of
  shown made part = or_absent (part_of made part)

  unfoldable pub shown_parts : Detection → List Text → List Text
  unfolding shown
  shown_parts made [] = []
  shown_parts made (part ∷ parts) = part ∷ shown made part ∷ shown_parts made parts

  -- What `CorrelationKey` hands to the digest.
  unfoldable pub correlation_text : Detection → List Text → Text
  unfolding shown_parts distinct write_all
  correlation_text made keyed = write_all (made.tenant ∷ shown_parts made (distinct keyed))

  -- `Unspoken`: the parts that say nothing of a detection.
  unfoldable pub unspoken_from : Detection → List Text → List Text
  unfolding field_of speaks
  unspoken_from made [] = []
  unspoken_from made (part ∷ parts) =
      let rest = unspoken_from made parts in
      elim (field_of part) [
        | none ↦ rest
        | some field ↦ if speaks made field then rest else part ∷ rest
      ]

  unfoldable pub unspoken : Detection → List Text → List Text
  unfolding unspoken_from distinct
  unspoken made keyed = unspoken_from made (distinct keyed)
