-- ===== src/Agent/Gateway/Refusals.antt =====
-- When a refusal stands that the gateway of cmd/ingest-gateway/roster.go read in the agents' log.
use seagull_backend_v.Base.{
  ℕ, ◌≤◌, ◌≡◌, refl, false, Option, none, some, List, [], ◌∷◌, arith, Text, text_Eq, nat_eq, ◌==◌,
  is_nil, All, Option-cases, Bool-cases, inl, inr,
}
use seagull_backend_v.Base.Map.{lookup}
use seagull_backend_v.Agent.Record.{Admission}
use seagull_backend_v.Agent.Roster.{
  Decided, Roster, settle, undecided, refused_entry, tenant_held, tenant_of,
}
use seagull_backend_v.Agent.Gateway.{LogRecord, take_in, applying}
use seagull_backend_v.Agent.Gateway.Entries.{decision, entered, noted, own, lookup-take_in}

abbrev Refused : ℕ → Option Decided → Type 0
Refused r none = ⊥
Refused r (some held) = (held.admitted ≡ false) × (r ≤ held.revision)

Refused-tenant_held : (r : ℕ) (held : Option Decided) → Refused r held → tenant_held held ≡ none
unfolding tenant_held
Refused-tenant_held r none h = absurd h
Refused-tenant_held r (some held) h = ground arith

-- A refusal is left by an unreadable record and by a decision no newer than it.
entered-Refused :
    (r : ℕ) (held p : Option Decided)
    → Refused r held
    → ((next : Decided) → p ≡ some next → next.revision ≤ r)
    → Refused r (some (entered held p))
unfolding entered refused_entry settle undecided
entered-Refused r none p h u = absurd h
entered-Refused r (some held) none h u = ground arith
entered-Refused r (some held) (some next) h u = ground (arith, u next refl)

module _ (unmarshal : Text → Option Admission) where
  -- What the records decide, where they can be read, they decide at `r` or before.
  abbrev pub UpTo : ℕ → List LogRecord → Type 0
  UpTo r = All (λ a. (next : Decided) → decision unmarshal a ≡ some next → next.revision ≤ r)

  noted-Refused :
      (r : ℕ) (k : Text) (held : Option Decided) (a : LogRecord) (log : List LogRecord)
      → Refused r held
      → UpTo r (own k (a ∷ log))
      → Refused r (noted unmarshal k held a) × UpTo r (own k log)
  unfolding own noted
  noted-Refused r k held a log h u = elim (Bool-cases (a.key == k)) [
    | inl e ↦
        let v = rw e at u in
        rw e (elim (Bool-cases (is_nil a.key)) [
          | inl n ↦ rw n (h, v.1)
          | inr n ↦ rw n (entered-Refused r held (decision unmarshal a) h v.0, v.1)
        ])
    | inr e ↦
        let v = rw e at u in
        rw e (elim (Bool-cases (is_nil a.key)) [ inl n ↦ rw n (h, v) | inr n ↦ rw n (h, v) ])
  ]

  applying-Refused :
      (r : ℕ) (k : Text) (known : Roster) (log : List LogRecord)
      → Refused r (lookup k known)
      → UpTo r (own k log)
      → Refused r (lookup k (applying unmarshal known log).0)
  unfolding applying
  applying-Refused r k known [] h u = h
  applying-Refused r k known (a ∷ log) h u =
      let (g, v) = noted-Refused r k (lookup k known) a log h u in
      let t = rw (← lookup-take_in unmarshal known a k) at g in
      elim (Option-cases (take_in unmarshal known a).1) [
        | inl e ↦ rw (e, applying) (applying-Refused r k (take_in unmarshal known a).0 log t v)
        | inr (x, e) ↦ rw (e, applying) t
      ]

  -- An agent that the roster holds as refused at a revision is admitted by no records of that
  -- revision or of earlier ones, nor by any that cannot be read, however many are read, in
  -- whatever order, and whether or not the reading comes to the end of the log.
  pub refused-applying :
      (known : Roster) (k : Text) (held : Decided) (log : List LogRecord)
      → lookup k known ≡ some held
      → held.admitted ≡ false
      → UpTo held.revision (own k log)
      → tenant_of (applying unmarshal known log).0 k ≡ none
  unfolding tenant_of
  refused-applying known k held log e f u =
      Refused-tenant_held held.revision (lookup k (applying unmarshal known log).0)
        (applying-Refused held.revision k known log (rw e (f, omega arith)) u)
