-- ===== src/Agent/Gateway/Entries.antt =====
-- What the records of one agent make of its entry, in the log that cmd/ingest-gateway reads.
use seagull_backend_v.Base.{
  ◌≡◌, refl, true, false, Option, none, some, List, [], ◌∷◌, arith, Text, text_Eq, text_eq_iff,
  ◌==◌, if◌then◌else◌, is_nil, is_some, ok, Option-cases, Bool-cases, Result-cases, inl, inr, err,
}
use seagull_backend_v.Base.Map.{lookup, insert, lookup-insert, lookup-insert_self}
use seagull_backend_v.Agent.Record.{Admission}
use seagull_backend_v.Agent.Roster.{
  Decided, Roster, read, settle, undecided, apply, refuse, refused_entry,
}
use seagull_backend_v.Agent.Gateway.{
  LogRecord, Unread, rejected, undecodable, keyed_apart, read_record, take_in, applying,
}

-- What one record makes of the entry of its agent: a decision is settled with what is held, and
-- where none can be read the agent is refused.
unfoldable pub entered : Option Decided → Option Decided → Decided
entered held none = refused_entry held
entered held (some next) = (settle held next).0

-- The records that are keyed by an agent, in their order.
unfoldable pub own : Text → List LogRecord → List LogRecord
own k [] = []
own k (record' ∷ records) = if record'.key == k then record' ∷ own k records else own k records

settle-conflict :
    (held : Option Decided) (next : Decided)
    → is_some (settle held next).1 ≡ true
    → refused_entry (some (settle held next).0) ≡ (settle held next).0
unfolding settle undecided refused_entry
settle-conflict none next h = cc
settle-conflict (some held) next h = ground arith

read-named : (a : Admission) {next : Decided} → read a ≡ ok next → is_nil a.agent_id ≡ false
unfolding read
read-named a h = ground arith

module _ (unmarshal : Text → Option Admission) where
  -- What a record decides about the agent it is keyed by, `none` where that cannot be read.
  unfoldable pub decision : LogRecord → Option Decided
  decision record' = elim (unmarshal record'.value) [
    | none ↦ none
    | some a ↦
        if a.agent_id == record'.key
        then elim (read a) [ err e ↦ none | ok next ↦ some next ]
        else none
  ]

  unfoldable pub noted : Text → Option Decided → LogRecord → Option Decided
  noted k held record' =
      if is_nil record'.key
      then held
      else if record'.key == k
      then some (entered held (decision record'))
      else held

  -- What a record that can be read does: it is settled with what is held of its agent.
  read_record-decided :
      (known : Roster) (record' : LogRecord) (next : Decided)
      → decision record' ≡ some next
      → (is_nil record'.key ≡ false)
        × (read_record unmarshal known record' ≡ (
          insert record'.key (settle (lookup record'.key known) next).0 known,
          elim (settle (lookup record'.key known) next).1 [
            | none ↦ none
            | some e ↦ some (rejected e)
          ],
        ))
  unfolding read_record decision apply
  read_record-decided known record' next e = elim (Option-cases (unmarshal record'.value)) [
    | inl u ↦ ground arith
    | inr (a, u) ↦ elim (Result-cases (read a)) [
      | inl (n, r) ↦ ground (arith, text_eq_iff a.agent_id record'.key, read-named a r)
      | inr (x, r) ↦ ground (arith, text_eq_iff a.agent_id record'.key)
    ]
  ]

  read_record-undecided :
      (known : Roster) (record' : LogRecord)
      → decision record' ≡ none
      → (e : Unread) × (read_record unmarshal known record' ≡ (known, some e))
  unfolding read_record decision apply
  read_record-undecided known record' e = elim (Option-cases (unmarshal record'.value)) [
    | inl u ↦ (undecodable, ground arith)
    | inr (a, u) ↦ elim (Bool-cases (a.agent_id == record'.key)) [
      | inl k ↦ elim (Result-cases (read a)) [
        | inl (n, r) ↦ ground arith
        | inr (x, r) ↦ (rejected x, ground arith)
      ]
      | inr k ↦ (keyed_apart, ground arith)
    ]
  ]

  -- What is left of a record that decides: its entry, refused or not.
  take_in-decided :
      (known : Roster) (record' : LogRecord) (next : Decided) (k : Text)
      → decision record' ≡ some next
      → (is_nil record'.key ≡ false)
        × ((take_in unmarshal known record').1 ≡ none)
        × (lookup k (take_in unmarshal known record').0 ≡ (
            if record'.key == k
            then some (settle (lookup record'.key known) next).0
            else lookup k known))
  unfolding take_in refuse
  take_in-decided known record' next k e =
      let (n, f) = read_record-decided known record' next e in
      let done = (settle (lookup record'.key known) next).0 in
      elim (Option-cases (settle (lookup record'.key known) next).1) [
        | inl q ↦ (
          n,
          rw (f, q, take_in) refl,
          rw (f, q, take_in) (lookup-insert record'.key k done known),
        )
        | inr (x, q) ↦ (
          n,
          rw (f, q, n, take_in) refl,
          rw (f, q, n, take_in)
              (ground (
                arith,
                text_eq_iff record'.key k,
                settle-conflict (lookup record'.key known) next,
                lookup-insert_self record'.key done known,
                lookup-insert record'.key k done known,
                lookup-insert record'.key k (refused_entry (some done))
                    (insert record'.key done known),
              )),
        )
      ]

  -- A record changes the entry of the agent it is keyed by and of no other.
  pub lookup-take_in :
      (known : Roster) (record' : LogRecord) (k : Text)
      → lookup k (take_in unmarshal known record').0 ≡ noted k (lookup k known) record'
  unfolding noted entered take_in refuse
  lookup-take_in known record' k = elim (Option-cases (decision record')) [
    | inl e ↦
        let (x, f) = read_record-undecided known record' e in
        rw (f, e, take_in, noted)
          (ground (
            arith,
            text_eq_iff record'.key k,
            lookup-insert record'.key k (refused_entry (lookup record'.key known)) known,
          ))
    | inr (next, e) ↦
        let (n, f, g) = take_in-decided known record' next k e in
        rw (g, e, noted) (ground (arith, text_eq_iff record'.key k))
  ]

  take_in-named :
      (known : Roster) (record' : LogRecord)
      → (take_in unmarshal known record').1 ≡ none
      → is_nil record'.key ≡ false
  unfolding take_in
  take_in-named known record' h = elim (Option-cases (decision record')) [
    | inl e ↦
        let (x, f) = read_record-undecided known record' e in
        let g = rw (f, take_in) at h in ground arith
    | inr (next, e) ↦ (take_in-decided known record' next [] e).0
  ]

  -- A reading that comes to the end of the log did not end at its first record.
  pub applying-end :
      (known : Roster) (record' : LogRecord) (log : List LogRecord)
      → (applying unmarshal known (record' ∷ log)).1 ≡ none
      → (is_nil record'.key ≡ false)
        × (applying unmarshal known (record' ∷ log)
            ≡ applying unmarshal (take_in unmarshal known record').0 log)
  unfolding applying
  applying-end known record' log h = elim (Option-cases (take_in unmarshal known record').1) [
    | inl e ↦ (take_in-named known record' e, rw (e, applying) refl)
    | inr (x, e) ↦ let g = rw (e, applying) at h in cc
  ]

  -- What an agent's own records make of its entry, one after another.
  unfoldable pub entries : Option Decided → List LogRecord → Option Decided
  entries held [] = held
  entries held (record' ∷ log) = entries (some (entered held (decision record'))) log

  entries-own :
      (held : Option Decided) (record' : LogRecord) (log : List LogRecord) (k : Text)
      → is_nil record'.key ≡ false
      → entries (noted k held record') (own k log) ≡ entries held (own k (record' ∷ log))
  unfolding entries own noted
  entries-own held record' log k n = elim (Bool-cases (record'.key == k)) [
    | inl e ↦ rw (n, e) refl
    | inr e ↦ rw (n, e) refl
  ]

  -- An entry is made of the agent's own records, in their order.
  pub lookup-applying :
      (known : Roster) (log : List LogRecord) (k : Text)
      → (applying unmarshal known log).1 ≡ none
      → lookup k (applying unmarshal known log).0 ≡ entries (lookup k known) (own k log)
  lookup-applying known [] k h = unfold applying entries own in refl
  lookup-applying known (record' ∷ log) k h =
      let (n, e) = applying-end known record' log h in
      rw
        (
          e,
          lookup-applying (take_in unmarshal known record').0 log k (rw e at h),
          lookup-take_in known record' k,
        )
        (entries-own (lookup k known) record' log k n)
