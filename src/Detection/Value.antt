-- ===== src/Detection/Value.antt =====
-- internal/detection/decide.go (`answered`), contradiction.go (`answers`, `numberIn`) and
-- expression.go: what a comparison asks of the value that an event holds in its field. The types
-- of numbers of the contract are an interface: Go's `==` on two numbers of a field's type, and a
-- number as a float64. A float64 is its place in the order of all of them, `none` where it is not
-- a number, so what Go's `<` says of two of them is what `<` says of their places; the place of negative
-- infinity is 0, and `infinity` that of the positive one.
use seagull_backend_v.Base.{
  ℕ, ◌≤◌, ◌≡◌, Bool, true, false, ◌&&◌, ◌||◌, not, Option, none, some, List, [], ◌∷◌, Text, text_Eq,
  text_eq, nat_eq, ◌==◌, if◌then◌else◌, ltb, leb,
}

pub record Numbers (N : Type 0) : Type 0 where
  pub same : N → N → Bool
  pub float_of : N → Option ℕ
  pub infinity : ℕ
  pub finite : (a : N) (f : ℕ) → float_of a ≡ some f → f ≤ infinity
  pub same_comm : (a b : N) → same a b ≡ true → same b a ≡ true
  pub same_trans : (a b c : N) → same a b ≡ true → same b c ≡ true → same a c ≡ true
  pub same_float : (a b : N) → same a b ≡ true → float_of a ≡ float_of b

-- A leaf of an event: a text, a truth, a choice by its number in the enumeration, or a number.
pub data Value (N : Type 0) : Type 0 where
  text : Text → Value N
  truth : Bool → Value N
  choice : ℕ → Value N
  number : N → Value N

pub data Operator : Type 0 where
  equals one_of contains starts_with ends_with : Operator
  above at_least below at_most present : Operator

pub record Comparison (N : Type 0) : Type 0 where
  pub field : Text
  pub operator : Operator
  pub literals : List (Value N)

-- `strings.HasPrefix`, `strings.HasSuffix` and `strings.Contains`, the part sought first.
unfoldable pub has_prefix : Text → Text → Bool
has_prefix [] t = true
has_prefix (c ∷ p) [] = false
has_prefix (c ∷ p) (d ∷ t) = let rest = has_prefix p t in c == d && rest

unfoldable pub has_suffix : Text → Text → Bool
unfolding text_eq
has_suffix p [] = text_eq p []
has_suffix p (c ∷ t) = let rest = has_suffix p t in text_eq p (c ∷ t) || rest

unfoldable pub has_part : Text → Text → Bool
unfolding has_prefix
has_part p [] = has_prefix p []
has_part p (c ∷ t) = let rest = has_part p t in has_prefix p (c ∷ t) || rest

-- `Value.String` of a text; the rule language asks the operators on text of text fields alone.
abbrev pub text_in : {N : Type 0} → Value N → Text
text_in (text t) = t
text_in _ = []

unfoldable pub compares : Operator → ℕ → ℕ → Bool
compares above value against = ltb against value
compares at_least value against = leb against value
compares below value against = ltb value against
compares at_most value against = leb value against
compares _ value against = false

unfoldable pub ranged : Operator → Bool
ranged above = true
ranged at_least = true
ranged below = true
ranged at_most = true
ranged _ = false

-- The last part of `answers`, on the numbers that a value and a literal hold.
unfoldable pub answers_number : Operator → Option ℕ → Option ℕ → Option Bool
unfolding compares ranged
answers_number operator (some value) (some against) =
    if ranged operator then some (compares operator value against) else none
answers_number operator _ _ = none

abbrev pub decided : Option Bool → Bool
decided none = false
decided (some held) = held

abbrev pub is_present : Operator → Bool
is_present present = true
is_present _ = false

module _ {N : Type 0} ⦃numbers : Numbers N⦄ where
  -- `==` on what two values hold.
  unfoldable pub same_value : Value N → Value N → Bool
  unfolding text_eq
  same_value (text a) (text b) = text_eq a b
  same_value (truth a) (truth b) = if a then b else not b
  same_value (choice a) (choice b) = a == b
  same_value (number a) (number b) = numbers.same a b
  same_value _ _ = false

  -- `numberIn`, `none` where it is not a number.
  unfoldable pub number_in : Value N → Option ℕ
  number_in (number n) = numbers.float_of n
  number_in _ = none

  unfoldable pub is_member : List (Value N) → Value N → Bool
  unfolding same_value
  is_member [] v = false
  is_member (l ∷ ls) v = same_value v l || is_member ls v

  -- `answers` with the first literal, `none` where it is not decided.
  unfoldable pub answers_first : Operator → Value N → Value N → List (Value N) → Option Bool
  unfolding same_value is_member has_part has_prefix has_suffix answers_number number_in
  answers_first equals value literal literals = some (same_value value literal)
  answers_first one_of value literal literals = some (is_member (literal ∷ literals) value)
  answers_first contains value literal literals = some (has_part (text_in literal) (text_in value))
  answers_first starts_with value literal literals =
      some (has_prefix (text_in literal) (text_in value))
  answers_first ends_with value literal literals =
      some (has_suffix (text_in literal) (text_in value))
  answers_first operator value literal literals =
      answers_number operator (number_in value) (number_in literal)

  -- Every operator but `present` reads a literal, which `Validate` requires; without one nothing
  -- is decided here.
  unfoldable pub answers_with : Operator → Value N → List (Value N) → Option Bool
  unfolding answers_first
  answers_with operator value [] = none
  answers_with operator value (literal ∷ literals) = answers_first operator value literal literals

  unfoldable pub answers : Value N → Comparison N → Option Bool
  unfolding answers_with
  answers value c = answers_with c.operator value c.literals

  unfoldable pub answered : Option (Value N) → Comparison N → Bool
  unfolding answers
  answered none c = false
  answered (some value) c = is_present c.operator || decided (answers value c)
