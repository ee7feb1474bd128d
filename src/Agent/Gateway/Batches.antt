-- ===== src/Agent/Gateway/Batches.antt =====
-- How cmd/ingest-gateway/roster.go comes through a log that the broker delivers in batches.
use seagull_backend_v.Base.{
  ◌≡◌, refl, Option, none, some, List, [], ◌∷◌, ◌++◌, Text, Option-cases, inl, inr,
}
use seagull_backend_v.Agent.Record.{Admission}
use seagull_backend_v.Agent.Roster.{Roster}
use seagull_backend_v.Agent.Gateway.{LogRecord, Ended, take_in, applying}

-- The next batch is delivered to what the one before it left, unless that one ended the reading.
next_batch : Roster × Option Ended → (Roster → Roster × Option Ended) → Roster × Option Ended
next_batch (known, none) deliver = deliver known
next_batch (known, some e) deliver = (known, some e)

-- Two batches that are delivered one after the other come to what they come to as one log.
applying-append :
    (unmarshal : Text → Option Admission) (known : Roster) (first second : List LogRecord)
    → applying unmarshal known (first ++ second)
      ≡ next_batch (applying unmarshal known first) (λ after. applying unmarshal after second)
unfolding applying next_batch
applying-append unmarshal known [] second = refl
applying-append unmarshal known (record' ∷ first) second =
    elim (Option-cases (take_in unmarshal known record').1) [
      | inl e ↦
          rw (e, applying)
            (applying-append unmarshal (take_in unmarshal known record').0 first second)
      | inr (x, e) ↦ rw (e, applying) refl
    ]
