-- ===== src/Agent/Record.antt =====
-- The messages of the agent contract, as far as internal/agent reads and writes them, and the
-- errors of the package. An instant is a number of nanoseconds since the zero time; a timestamp
-- that is absent or invalid is `none`.
use seagull_backend_v.Base.{ℕ, Option, Text, Result, refuse_if, ltb, length}
use seagull_backend_v.Agent.State.{WireState}

abbrev pub Timestamp : Type 0
Timestamp = Option ℕ

pub record Identity : Type 0 where
  pub subject : Text
  pub serial : Text
  pub fingerprint_sha256 : Text
  pub issued_at : Timestamp
  pub expires_at : Timestamp

pub record Platform : Type 0 where
  pub os : Text
  pub architecture : Text
  pub hostname : Text

pub record Agent : Type 0 where
  pub agent_id : Text
  pub schema_version : ℕ
  pub tenant_id : Text
  pub state : WireState
  pub platform : Platform
  pub agent_version : Text
  pub identity : Option Identity
  pub registered_at : Timestamp
  pub changed_by : Text
  pub changed_at : Timestamp
  pub revision : ℕ

pub record Transition : Type 0 where
  pub agent_id : Text
  pub revision : ℕ
  pub from : WireState
  pub to : WireState
  pub actor : Text
  pub stamp : Timestamp
  pub note : Text

pub record Admission : Type 0 where
  pub agent_id : Text
  pub tenant_id : Text
  pub state : WireState
  pub revision : ℕ
  pub changed_at : Timestamp

pub data Error : Type 0 where
  illegal_move nothing_asked no_actor moved_since needs_reason unknown_state : Error
  certificate_replaced malformed malformed_identity conflict unknown_stored_state : Error

abbrev pub max_note_length : ℕ
max_note_length = 512

abbrev pub max_version_length : ℕ
max_version_length = 64

-- `within`: a field is no longer than its ceiling.
unfoldable pub within : Text → ℕ → Result Error (Unit {0})
within value maximum = refuse_if (ltb maximum (length value)) malformed
