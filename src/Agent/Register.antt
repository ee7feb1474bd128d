-- ===== src/Agent/Register.antt =====
-- internal/agent/register.go: a registration, checked and made into a pending agent.
use seagull_backend_v.Base.{
  ℕ, ◌≤◌, ◌≡◌, ◌≢◌, true, not, ◌||◌, none, some, [], arith, Text, ltb, is_nil, length, Result, ok,
  ◌>>◌, refuse_if,
}
use seagull_backend_v.Identifier.{valid_agent_id, valid_identifier}
use seagull_backend_v.Agent.State.{unspecified, pending, to_wire}
use seagull_backend_v.Agent.Record.{
  Agent, Platform, Transition, Error, malformed, no_actor, within, max_note_length,
  max_version_length,
}

-- The bounds of internal/event/limits.go that a registration is held to.
abbrev pub max_tenant_id_length : ℕ
max_tenant_id_length = 64

abbrev pub max_operating_system : ℕ
max_operating_system = 128

abbrev pub max_architecture_len : ℕ
max_architecture_len = 32

abbrev pub max_hostname_length : ℕ
max_hostname_length = 255

pub record Registration : Type 0 where
  pub agent_id : Text
  pub tenant_id : Text
  pub agent_version : Text
  pub note : Text
  pub platform : Platform

unfoldable pub tenant : Text → Result Error (Unit {0})
tenant value = do
  refuse_if (is_nil value) malformed
  refuse_if (ltb max_tenant_id_length (length value) || not (valid_identifier value)) malformed

pub platform : Platform → Result Error (Unit {0})
unfolding within
platform declared = do
  within declared.os max_operating_system
  within declared.architecture max_architecture_len
  within declared.hostname max_hostname_length

pub registered : Registration → Text → ℕ → Agent
unfolding to_wire
registered asked actor now = record {
  agent_id = asked.agent_id;
  schema_version = 1;
  tenant_id = asked.tenant_id;
  state = to_wire pending;
  platform = asked.platform;
  agent_version = asked.agent_version;
  identity = none;
  registered_at = some now;
  changed_by = actor;
  changed_at = some now;
  revision = 1;
}

unfoldable pub register : Registration → Text → ℕ → Result Error (Agent × Transition)
unfolding tenant platform within registered
register asked actor now = do
  refuse_if (is_nil actor) no_actor
  refuse_if (not (valid_agent_id asked.agent_id)) malformed
  tenant asked.tenant_id
  within asked.agent_version max_version_length
  within asked.note max_note_length
  platform asked.platform
  let made = registered asked actor now
  ok (
    made,
    record {
      agent_id = made.agent_id;
      revision = made.revision;
      from = unspecified;
      to = made.state;
      actor = actor;
      stamp = some now;
      note = asked.note;
    },
  )

-- What a registration has to say of itself.
pub record IsRegistrable (asked : Registration) : Type 0 where
  pub named : valid_agent_id asked.agent_id ≡ true
  pub tenant_named : valid_identifier asked.tenant_id ≡ true
  pub tenant_said : asked.tenant_id ≢ []
  pub tenant_fits : length asked.tenant_id ≤ max_tenant_id_length
  pub version_fits : length asked.agent_version ≤ max_version_length
  pub note_fits : length asked.note ≤ max_note_length
  pub os_fits : length asked.platform.os ≤ max_operating_system
  pub architecture_fits : length asked.platform.architecture ≤ max_architecture_len
  pub hostname_fits : length asked.platform.hostname ≤ max_hostname_length

pub register-eq-ok :
    (asked : Registration) (actor : Text) (now : ℕ) {made : Agent} {line : Transition}
    → register asked actor now ≡ ok (made, line)
    → IsRegistrable asked × (made ≡ registered asked actor now)
unfolding register
register-eq-ok asked actor now h = ground arith

-- A registration by somebody, with usable names of the agent and of the tenant and no field past
-- its ceiling, is never refused and makes the pending agent it describes.
pub register-total :
    (asked : Registration) (actor : Text) (now : ℕ)
    → actor ≢ []
    → IsRegistrable asked
    → (line : Transition) × (register asked actor now ≡ ok (registered asked actor now, line))
unfolding register
register-total asked actor now a r = (
  record {
    agent_id = asked.agent_id;
    revision = 1;
    from = unspecified;
    to = to_wire pending;
    actor = actor;
    stamp = some now;
    note = asked.note;
  },
  ground arith,
)
