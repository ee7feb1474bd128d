-- ===== src/Agent/Gateway.antt =====
-- cmd/ingest-gateway/roster.go: what the gateway makes of the agents' log, record by record. The
-- decoding of a record's value is a parameter, since the contract's messages are generated.
pub mod Batches
pub mod Entries
pub mod Convergence
pub mod Refusals
pub mod Decisions
use seagull_backend_v.Base.{
  ℕ, Option, none, some, List, [], ◌∷◌, Text, text_Eq, ◌!=◌, if◌then◌else◌, is_nil,
}
use seagull_backend_v.Agent.Record.{Admission, Error}
use seagull_backend_v.Agent.Roster.{Roster, apply, refuse}

-- What is read of a record of the broker.
pub record LogRecord : Type 0 where
  pub key : Text
  pub value : Text
  pub offset : ℕ

-- Why a record cannot be read: it does not decode, it is keyed by another agent than it decides
-- about, or the roster refuses it.
pub data Unread : Type 0 where
  undecodable : Unread
  keyed_apart : Unread
  rejected : Error → Unread

-- The error that ends the reading: where in the log, and the error it wraps.
pub record Ended : Type 0 where
  pub offset : ℕ
  pub cause : Unread

-- What the loop does with the error of a record: one that cannot be read refuses the agent it is
-- keyed by, and ends the reading where it is keyed by none.
unfoldable pub weighed : LogRecord → Roster × Option Unread → Roster × Option Ended
weighed record' (after, none) = (after, none)
weighed record' (after, some e) =
    if is_nil record'.key
    then (after, some (record { offset = record'.offset; cause = e }))
    else (refuse after record'.key, none)

module _ (unmarshal : Text → Option Admission) where
  unfoldable pub read_record : Roster → LogRecord → Roster × Option Unread
  read_record known record' = elim (unmarshal record'.value) [
    | none ↦ (known, some undecodable)
    | some admission ↦
        if admission.agent_id != record'.key
        then (known, some keyed_apart)
        else let (after, failed) = apply known admission in
          (after, elim failed [ none ↦ none | some e ↦ some (rejected e) ])
  ]

  unfoldable pub take_in : Roster → LogRecord → Roster × Option Ended
  unfolding weighed
  take_in known record' = weighed record' (read_record known record')

  -- `roster.applying`.
  unfoldable pub applying : Roster → List LogRecord → Roster × Option Ended
  applying known [] = (known, none)
  applying known (record' ∷ records) =
      let (after, ended) = take_in known record' in
      elim ended [ none ↦ applying after records | some e ↦ (after, some e) ]
