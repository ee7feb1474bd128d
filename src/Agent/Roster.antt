-- ===== src/Agent/Roster.antt =====
-- internal/agent/roster.go: what the gateway keeps of the registry's decisions.
pub mod Join
use seagull_backend_v.Base.{
  ℕ, zero, suc, ◌+◌, ◌≤◌, ◌<◌, ◌≡◌, refl, Bool, true, false, not, ◌&&◌, ◌||◌, Option, none, some,
  List, [], ◌∷◌, arith, Text, text_Eq, nat_eq, ◌==◌, ◌!=◌, if◌then◌else◌, is_nil, is_some, Result,
  ok, err, ltb, length, decides, ◌>>=◌, ◌>>◌, refuse_if,
}
use seagull_backend_v.Base.Map.{Map, lookup, insert}
use seagull_backend_v.Agent.State.{admits, from_wire}
use seagull_backend_v.Agent.Record.{Admission, Error, malformed, conflict}
use seagull_backend_v.Agent.Register.{tenant}

pub record Decided : Type 0 where
  pub admitted : Bool
  pub tenant : Text
  pub revision : ℕ

abbrev pub Roster : Type 0
Roster = Map Text Decided

unfoldable pub new_roster : Roster
new_roster = []

-- The checks before the lock is taken: what the record decides, or why it says nothing.
unfoldable pub read : Admission → Result Error Decided
read record' = do
  refuse_if (is_nil record'.agent_id) malformed
  elim (from_wire record'.state) [
    | none ↦ err malformed
    | some state ↦ do
      tenant record'.tenant_id
      ok (record {
        admitted = admits state;
        tenant = record'.tenant_id;
        revision = record'.revision;
      })
  ]

abbrev pub bool_differs : Bool → Bool → Bool
bool_differs true b = not b
bool_differs false b = b

-- Neither of two decisions made at one revision.
unfoldable pub undecided : ℕ → Decided
undecided r = record { admitted = false; tenant = []; revision = r }

-- The `switch` under the lock: what is held from then on, and the error.
unfoldable pub settle : Option Decided → Decided → Decided × Option Error
settle none next = (next, none)
settle (some held) next =
    if ltb next.revision held.revision
    then (held, none)
    else if next.revision == held.revision && bool_differs held.admitted next.admitted
    then (undecided held.revision, some conflict)
    else if next.revision == held.revision && held.tenant != next.tenant
    then (undecided held.revision, some conflict)
    else (next, none)

unfoldable pub apply : Roster → Admission → Roster × Option Error
apply known record' = elim (read record') [
  | err e ↦ (known, some e)
  | ok next ↦
      let (held, failed) = settle (lookup record'.agent_id known) next in
      (insert record'.agent_id held known, failed)
]

-- `held := r.known[agentID]` reads the zero value where nothing is held.
unfoldable pub refused_entry : Option Decided → Decided
refused_entry none = record { admitted = false; tenant = []; revision = 0 }
refused_entry (some held) = record held { admitted = false }

unfoldable pub refuse : Roster → Text → Roster
refuse known agent_id =
    if is_nil agent_id then known else insert agent_id (refused_entry (lookup agent_id known)) known

-- The tenant of one entry, `none` where the agent is not admitted.
unfoldable pub tenant_held : Option Decided → Option Text
tenant_held none = none
tenant_held (some held) = if held.admitted then some held.tenant else none

unfoldable pub tenant_of : Roster → Text → Option Text
unfolding tenant_held
tenant_of known agent_id = tenant_held (lookup agent_id known)

unfoldable pub knows : Roster → Text → Bool
knows known agent_id = is_some (lookup agent_id known)

unfoldable pub known_count : Roster → ℕ
known_count known = length known

unfoldable pub refused_count : Roster → ℕ
refused_count [] = 0
refused_count ((k, held) ∷ known) =
    if held.admitted then refused_count known else suc (refused_count known)
