-- ===== src/Agent/State.antt =====
-- internal/agent/state.go. A Go `State` is a string: the five declared ones are constructors,
-- `unset` is the empty string and `unnamed` any other. `WireState` is the contract's enum, which
-- is open: `unrecognised` holds a number this build does not declare.
use seagull_backend_v.Base.{
  ℕ, Bool, ◌||◌, Option, none, some, List, [], ◌∷◌, Text, Eq, ◌==◌, contains, ℕ_discrete, eq_of,
}

pub data State : Type 0 where
  unset pending active disabled revoked decommissioned : State
  unnamed : Text → State

unfoldable pub State-discrete : Discrete State
State-discrete = hlevel ℕ_discrete

instance abbrev pub state_eq : Eq State
state_eq = eq_of State-discrete

abbrev pub states : List State
states = pending ∷ active ∷ disabled ∷ revoked ∷ decommissioned ∷ []

unfoldable pub is_valid : State → Bool
unfolding contains
is_valid s = contains states s

unfoldable pub is_final : State → Bool
is_final s = s == revoked || s == decommissioned

unfoldable pub admits : State → Bool
admits s = s == pending || s == active

-- The table `moves`; a state with no entry has no moves.
unfoldable pub reachable : State → List State
reachable pending = disabled ∷ revoked ∷ decommissioned ∷ []
reachable active = disabled ∷ revoked ∷ decommissioned ∷ []
reachable disabled = active ∷ revoked ∷ decommissioned ∷ []
reachable _ = []

unfoldable pub legal : State → State → Bool
unfolding reachable contains
legal from to = contains (reachable from) to

pub data WireState : Type 0 where
  unspecified wire_pending wire_active wire_disabled wire_revoked wire_decommissioned : WireState
  unrecognised : ℕ → WireState

-- The table `wire`; a state with no entry reads as the enum's zero.
unfoldable pub to_wire : State → WireState
to_wire pending = wire_pending
to_wire active = wire_active
to_wire disabled = wire_disabled
to_wire revoked = wire_revoked
to_wire decommissioned = wire_decommissioned
to_wire _ = unspecified

unfoldable pub from_wire : WireState → Option State
from_wire wire_pending = some pending
from_wire wire_active = some active
from_wire wire_disabled = some disabled
from_wire wire_revoked = some revoked
from_wire wire_decommissioned = some decommissioned
from_wire _ = none
