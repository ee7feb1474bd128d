-- ===== src/Examples/Agent.antt =====
-- An agent of internal/agent that is registered, bound, renewed and revoked.
use seagull_backend_v.Base.{
  ◌≡◌, ◌≢◌, ◌↔◌, refl, true, false, Option, none, some, [], arith, Text, text_Eq, bytes, ok, err,
  text_eq, contains,
}
use seagull_backend_v.Identifier.{valid_agent_id, valid_identifier, matches, every}
use seagull_backend_v.Agent.State.{
  State, unset, active, disabled, revoked, is_final, admits, legal, reachable, is_valid,
  State-discrete, from_wire, wire_active, wire_revoked,
}
use seagull_backend_v.Agent.Record.{Agent, Identity, Platform, Error, within}
use seagull_backend_v.Agent.Identity.{bindable, bindable_held, hexadecimal}
use seagull_backend_v.Agent.Register.{Registration, IsRegistrable}
use seagull_backend_v.Agent.Move.{
  Move, Asked, apply, permitted, accepted_identity, moved_agent, transition, asks_again, answering,
}
use seagull_backend_v.Agent.Lifecycle.{Moves, apply-Moves, final-apply}
use seagull_backend_v.Agent.Renewal.{Entitled, renewal-apply, asks_again-answering}

abbrev hex : Text
hex = bytes "0123456789abcdef0123456789abcdef0123456789abcdef0123456789abcdef"

abbrev certificate : Identity
certificate = record {
  subject = bytes "a1";
  serial = bytes "0a";
  fingerprint_sha256 = hex;
  issued_at = some 5;
  expires_at = some 90;
}

abbrev linux : Platform
linux = record { os = bytes "linux"; architecture = bytes "amd64"; hostname = bytes "host" }

abbrev asked : Registration
asked = record {
  agent_id = bytes "a1";
  tenant_id = bytes "acme";
  agent_version = bytes "v1";
  note = [];
  platform = linux;
}

abbrev enrolled : Agent
enrolled = record {
  agent_id = bytes "a1";
  schema_version = 1;
  tenant_id = bytes "acme";
  state = wire_active;
  platform = linux;
  agent_version = bytes "v1";
  identity = some certificate;
  registered_at = some 1;
  changed_by = bytes "op";
  changed_at = some 1;
  revision = 2;
}

abbrev gone : Agent
gone = record enrolled { state = wire_revoked }

abbrev no_bound : Asked
no_bound = record { presented = []; request = [] }

abbrev disables : Move
disables = record {
  to = disabled;
  identity = none;
  note = bytes "lost";
  actor = bytes "op";
  now = 9;
  authority = [];
  presented_fingerprint = [];
  request = [];
  bound = no_bound;
  renewal = false;
  expected = 2;
}

abbrev renews : Move
renews = record disables {
  to = unset;
  identity = some certificate;
  note = [];
  presented_fingerprint = hex;
  request = bytes "q";
  renewal = true;
}

abbrev renews_again : Move
renews_again = record renews { bound = answering renews }

registrable : IsRegistrable asked
unfolding valid_agent_id valid_identifier matches every
registrable = record {
  named = refl;
  tenant_named = refl;
  tenant_said = λ h. cc;
  tenant_fits = omega arith;
  version_fits = omega arith;
  note_fits = omega arith;
  os_fits = omega arith;
  architecture_fits = omega arith;
  hostname_fits = omega arith;
}

actor_said : bytes "op" ≢ []
actor_said h = cc

applies :
    apply enrolled disables
    ≡ ok (
      moved_agent active enrolled disables,
      transition enrolled (moved_agent active enrolled disables) disables,
    )
unfolding apply from_wire within permitted accepted_identity is_valid legal reachable contains
    State-discrete text_eq
applies = refl

apply-Moves_example :
    Moves enrolled disables
      (moved_agent active enrolled disables)
      (transition enrolled (moved_agent active enrolled disables) disables)
apply-Moves_example = apply-Moves enrolled disables applies

renewed :
    apply enrolled renews
    ≡ ok (
      moved_agent active enrolled renews,
      transition enrolled (moved_agent active enrolled renews) renews,
    )
unfolding apply from_wire within permitted accepted_identity bindable bindable_held admits is_final
    is_valid State-discrete text_eq hexadecimal
renewed = refl

renewal-apply_example :
    (s : State) × (from_wire wire_active ≡ some s)
    × (admits s ≡ true)
    × (◌≡◌ {A = Option Identity} (some certificate) (some certificate))
    × Entitled enrolled renews
unfolding moved_agent
renewal-apply_example = renewal-apply enrolled renews renewed refl refl

revoked_stored : from_wire wire_revoked ≡ some revoked
unfolding from_wire
revoked_stored = refl

revoked_final : is_final revoked ≡ true
unfolding is_final State-discrete
revoked_final = refl

final-apply_example : (e : Error) × (apply gone renews ≡ err e)
final-apply_example = final-apply gone renews revoked revoked_stored revoked_final

asks_again-answering_example :
    (asks_again renews_again ≡ true)
    ↔ ((true ≡ true) × (bytes "q" ≢ []) × (bytes "q" ≡ bytes "q") × (hex ≡ hex))
asks_again-answering_example = asks_again-answering renews renews_again refl

a1_valid : valid_agent_id (bytes "a1") ≡ true
unfolding valid_agent_id matches every
a1_valid = refl
