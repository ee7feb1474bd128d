-- ===== src/Agent/Move.antt =====
-- internal/agent/move.go: one act on a registered agent.
use seagull_backend_v.Base.{
  ℕ, ◌+◌, ◌%◌, ◌^◌, Bool, not, ◌&&◌, Option, none, some, [], Text, text_Eq, nat_eq, ◌==◌, ◌!=◌,
  if◌then◌else◌, is_nil, is_some, Result, ok, err, ◌>>=◌, ◌>>◌, refuse_if,
}
use seagull_backend_v.Agent.State.{
  State, unset, pending, active, state_eq, is_valid, is_final, admits, legal, to_wire, from_wire,
}
use seagull_backend_v.Agent.Record.{
  Agent, Identity, Transition, Admission, Error, illegal_move, nothing_asked, no_actor, moved_since,
  needs_reason, unknown_state, certificate_replaced, malformed_identity, unknown_stored_state,
  within, max_note_length,
}
use seagull_backend_v.Agent.Identity.{bindable}

pub record Asked : Type 0 where
  pub presented : Text
  pub request : Text

pub record Move : Type 0 where
  pub to : State
  pub identity : Option Identity
  pub note : Text
  pub actor : Text
  pub now : ℕ
  pub authority : Text
  pub presented_fingerprint : Text
  pub request : Text
  pub bound : Asked
  pub renewal : Bool
  pub expected : ℕ

unfoldable pub asks_again : Move → Bool
asks_again m =
    m.request != [] && m.request == m.bound.request && m.presented_fingerprint == m.bound.presented

-- `GetIdentity().GetFingerprintSha256()`, which reads an absent identity as empty.
abbrev pub held_fingerprint : Agent → Text
held_fingerprint current = elim (current.identity) [
  | none ↦ []
  | some held ↦ held.fingerprint_sha256
]

abbrev pub binding : Move → Bool
binding move = is_some move.identity

abbrev pub changing : State → Move → Bool
changing from move = move.to != unset && move.to != from

abbrev pub stored_state : Agent → Result Error State
stored_state current = elim (from_wire current.state) [
  | none ↦ err unknown_stored_state
  | some s ↦ ok s
]

-- The cases of the `switch`, in its order; no case is the code going on.
unfoldable pub permitted : State → Agent → Move → Result Error (Unit {0})
permitted from current move = do
  refuse_if (move.to != unset && not (is_valid move.to)) unknown_state
  refuse_if (not (changing from move) && not (binding move)) nothing_asked
  refuse_if (binding move && is_final from) malformed_identity
  refuse_if (binding move && move.renewal && not (admits from)) illegal_move
  refuse_if
      (binding move
        && move.renewal
        && move.presented_fingerprint != held_fingerprint current
        && not (asks_again move))
      certificate_replaced
  refuse_if (changing from move && not (legal from move.to)) illegal_move
  refuse_if (changing from move && is_nil move.note) needs_reason

unfoldable pub accepted_identity : Agent → Move → Result Error (Unit {0})
accepted_identity current move =
    if binding move then bindable current.agent_id move.identity move.now else ok tt

-- The state a move that is allowed leaves the agent in.
unfoldable pub state_after : State → Move → State
state_after from move =
    if changing from move then move.to else if binding move && from == pending then active else from

abbrev pub next_revision : ℕ → ℕ
next_revision r = (r + 1) % 2 ^ 64

abbrev pub identity_after : Agent → Move → Option Identity
identity_after current move = if binding move then move.identity else current.identity

-- The clone with what the move writes: revision, author and time always, the identity where one
-- is bound, the state where it is bound out of `pending` or changed.
unfoldable pub moved_agent : State → Agent → Move → Agent
moved_agent from current move = record current {
  revision = next_revision current.revision;
  changed_by = move.actor;
  changed_at = some move.now;
  identity = identity_after current move;
  state =
      if changing from move
      then to_wire move.to
      else if binding move && from == pending
      then to_wire active
      else current.state;
}

unfoldable pub transition : Agent → Agent → Move → Transition
transition current after move = record {
  agent_id = after.agent_id;
  revision = after.revision;
  from = current.state;
  to = after.state;
  actor = move.actor;
  stamp = some move.now;
  note = move.note;
}

unfoldable pub apply : Agent → Move → Result Error (Agent × Transition)
apply current move = do
  from ← stored_state current
  refuse_if (is_nil move.actor) no_actor
  refuse_if (move.expected != 0 && move.expected != current.revision) moved_since
  within move.note max_note_length
  permitted from current move
  accepted_identity current move
  let after = moved_agent from current move
  ok (after, transition current after move)

unfoldable pub admission : Agent → Admission
admission moved = record {
  agent_id = moved.agent_id;
  tenant_id = moved.tenant_id;
  state = moved.state;
  revision = moved.revision;
  changed_at = moved.changed_at;
}

-- internal/agent/certificate.go.
pub record CertificateRecord : Type 0 where
  pub agent_id : Text
  pub identity : Option Identity
  pub authority_subject : Text
  pub issued_by : Text

unfoldable pub certificate : Agent → Move → Option CertificateRecord
certificate moved move =
    if not (is_some move.identity)
    then none
    else some (record {
      agent_id = moved.agent_id;
      identity = moved.identity;
      authority_subject = move.authority;
      issued_by = move.actor;
    })

unfoldable pub answering : Move → Asked
answering move =
    if not move.renewal
    then record { presented = []; request = [] }
    else record { presented = move.presented_fingerprint; request = move.request }
