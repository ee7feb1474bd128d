-- ===== src/Alert/State.antt =====
-- internal/alert/state.go. A Go `State` is a string: the five declared ones are constructors
-- (`Open` is `opened`), `unset` is the empty string and `unnamed` any other.
use seagull_backend_v.Base.{
  ℕ, ◌≡◌, refl, Bool, true, false, ◌||◌, Option, none, some, List, [], ◌∷◌, Text, Eq, ◌==◌,
  contains, arith, ℕ_discrete, eq_of,
}

pub data State : Type 0 where
  unset opened acknowledged in_investigation resolved false_positive : State
  unnamed : Text → State

unfoldable pub State-discrete : Discrete State
State-discrete = hlevel ℕ_discrete

instance abbrev pub state_eq : Eq State
state_eq = eq_of State-discrete

abbrev pub states : List State
states = opened ∷ acknowledged ∷ in_investigation ∷ resolved ∷ false_positive ∷ []

unfoldable pub is_valid : State → Bool
unfolding contains
is_valid s = contains states s

unfoldable pub is_closed : State → Bool
is_closed s = s == resolved || s == false_positive

-- The table `moves`; a state with no entry has no moves.
unfoldable pub reachable : State → List State
reachable opened = acknowledged ∷ in_investigation ∷ resolved ∷ false_positive ∷ []
reachable acknowledged = in_investigation ∷ resolved ∷ false_positive ∷ []
reachable in_investigation = resolved ∷ false_positive ∷ []
reachable resolved = opened ∷ []
reachable false_positive = opened ∷ []
reachable _ = []

unfoldable pub legal : State → State → Bool
unfolding reachable contains
legal from to = contains (reachable from) to

-- Which moves say that an earlier decision was wrong.
unfoldable pub explains : State → State → Bool
unfolding is_closed
explains from to = to == false_positive || is_closed from

pub data WireState : Type 0 where
  unspecified wire_open wire_acknowledged wire_in_investigation : WireState
  wire_resolved wire_false_positive : WireState
  unrecognised : ℕ → WireState

-- The table `wire`; a state with no entry reads as the enum's zero.
unfoldable pub to_wire : State → WireState
to_wire opened = wire_open
to_wire acknowledged = wire_acknowledged
to_wire in_investigation = wire_in_investigation
to_wire resolved = wire_resolved
to_wire false_positive = wire_false_positive
to_wire _ = unspecified

unfoldable pub from_wire : WireState → Option State
from_wire wire_open = some opened
from_wire wire_acknowledged = some acknowledged
from_wire wire_in_investigation = some in_investigation
from_wire wire_resolved = some resolved
from_wire wire_false_positive = some false_positive
from_wire _ = none

pub from_wire-to_wire : (s : State) → is_valid s ≡ true → from_wire (to_wire s) ≡ some s
unfolding is_valid from_wire to_wire State-discrete
from_wire-to_wire unset h = cc
from_wire-to_wire opened h = refl
from_wire-to_wire acknowledged h = refl
from_wire-to_wire in_investigation h = refl
from_wire-to_wire resolved h = refl
from_wire-to_wire false_positive h = refl
from_wire-to_wire (unnamed t) h = cc

pub legal-valid : (from to : State) → legal from to ≡ true → is_valid to ≡ true
unfolding legal is_valid
legal-valid from to h = ground arith

pub legal-differs : (from to : State) → legal from to ≡ true → (to == from) ≡ false
unfolding legal
legal-differs from to h = ground arith

pub unset_not_valid : is_valid unset ≡ false
unfolding is_valid State-discrete
unset_not_valid = refl
