-- ===== src/Agent/Gateway/Decisions.antt =====
-- Which record of the agents' log the gateway of cmd/ingest-gateway/roster.go answers with.
use seagull_backend_v.Base.{
  ℕ, ◌<◌, ◌≡◌, refl, ◌∙◌, Bool, true, false, ◌&&◌, Option, none, some, List, [], ◌∷◌, ◌++◌, arith,
  Text, text_Eq, text_eq_iff, nat_eq, ◌==◌, if◌then◌else◌, is_some, All, Option-cases, Bool-cases,
  inl, inr,
}
use seagull_backend_v.Base.Map.{lookup}
use seagull_backend_v.Agent.Record.{Admission}
use seagull_backend_v.Agent.Roster.{
  Decided, Roster, settle, undecided, refused_entry, tenant_held, tenant_of,
}
use seagull_backend_v.Agent.Gateway.{LogRecord, applying}
use seagull_backend_v.Agent.Gateway.Entries.{decision, entered, entries, own, lookup-applying}

-- What is held of an agent is older than `r`, or nothing is.
abbrev pub HeldBefore : ℕ → Option Decided → Type 0
HeldBefore r none = Unit {0}
HeldBefore r (some held) = held.revision < r

entered-HeldBefore :
    (r : ℕ) (held p : Option Decided)
    → 0 < r
    → HeldBefore r held
    → ((next : Decided) → p ≡ some next → next.revision < r)
    → HeldBefore r (some (entered held p))
unfolding entered refused_entry settle undecided
entered-HeldBefore r none none z h u = z
entered-HeldBefore r (some held) none z h u = h
entered-HeldBefore r none (some next) z h u = ground (arith, u next refl)
entered-HeldBefore r (some held) (some next) z h u = ground (arith, u next refl)

entered-newest :
    (held : Option Decided) (next : Decided)
    → HeldBefore next.revision held
    → entered held (some next) ≡ next
unfolding entered settle
entered-newest none next b = refl
entered-newest (some held) next b = ground arith

entered-unread : (held : Decided) → entered (some held) none ≡ record held { admitted = false }
unfolding entered refused_entry
entered-unread held = refl

entered-older :
    (held next : Decided) → next.revision < held.revision → entered (some held) (some next) ≡ held
unfolding entered settle
entered-older held next l = ground arith

own-append : (k : Text) (l m : List LogRecord) → own k (l ++ m) ≡ own k l ++ own k m
unfolding own
own-append k [] m = refl
own-append k (r ∷ l) m = elim (Bool-cases (r.key == k)) [
  | inl e ↦ rw (e, own-append k l m) refl
  | inr e ↦ rw (e, own-append k l m) refl
]

own_self : (a : LogRecord) (l : List LogRecord) → own a.key (a ∷ l) ≡ a ∷ own a.key l
unfolding own
own_self a l = ground (arith, text_eq_iff a.key a.key)

tenant_held-if :
    (h : Decided) (b : Bool)
    → tenant_held (some (if b then h else record h { admitted = false }))
      ≡ (if h.admitted && b then some h.tenant else none)
unfolding tenant_held
tenant_held-if h b = ground arith

module _ (unmarshal : Text → Option Admission) where
  -- What the records decide, where they can be read, they decide before `r`.
  abbrev pub Before : ℕ → List LogRecord → Type 0
  Before r = All (λ a. (next : Decided) → decision unmarshal a ≡ some next → next.revision < r)

  -- Each of the records can be read.
  unfoldable pub all_readable : List LogRecord → Bool
  all_readable [] = true
  all_readable (a ∷ log) = is_some (decision unmarshal a) && all_readable log

  entries-append :
      (held : Option Decided) (l m : List LogRecord)
      → entries unmarshal held (l ++ m) ≡ entries unmarshal (entries unmarshal held l) m
  unfolding entries
  entries-append held [] m = refl
  entries-append held (a ∷ l) m = entries-append (some (entered held (decision unmarshal a))) l m

  entries-HeldBefore :
      (r : ℕ) (held : Option Decided) (log : List LogRecord)
      → 0 < r
      → HeldBefore r held
      → Before r log
      → HeldBefore r (entries unmarshal held log)
  unfolding entries
  entries-HeldBefore r held [] z h b = h
  entries-HeldBefore r held (a ∷ log) z h b =
      entries-HeldBefore r (some (entered held (decision unmarshal a))) log z
        (entered-HeldBefore r held (decision unmarshal a) z h b.0) b.1

  -- Older records leave what is held, and unreadable ones refuse it.
  entries-older :
      (held : Decided) (log : List LogRecord)
      → Before held.revision log
      → entries unmarshal (some held) log
        ≡ some (if all_readable log then held else record held { admitted = false })
  unfolding entries all_readable
  entries-older held [] b = refl
  entries-older held (a ∷ log) b = elim (Option-cases (decision unmarshal a)) [
    | inl e ↦
        rw (e, entered-unread held)
          (entries-older (record held { admitted = false }) log b.1 ∙ ground arith)
    | inr (next, e) ↦ rw (e, entered-older held next (b.0 next e)) (entries-older held log b.1)
  ]

  entries-newest :
      (held : Option Decided) (a : LogRecord) (next : Decided) (before after : List LogRecord)
      → decision unmarshal a ≡ some next
      → 0 < next.revision
      → HeldBefore next.revision held
      → Before next.revision before
      → Before next.revision after
      → entries unmarshal held (before ++ a ∷ after)
        ≡ some (if all_readable after then next else record next { admitted = false })
  unfolding entries
  entries-newest held a next before after e z h b c =
      rw
        (
          entries-append held before (a ∷ after),
          e,
          entered-newest (entries unmarshal held before) next
              (entries-HeldBefore next.revision held before z h b),
        )
        (entries-older next after c)

  -- A record of an agent that can be read, decides at a revision other than zero, and is newer
  -- than what the roster holds of the agent and than every other record of it, decides wherever
  -- in the log it stands: once the log is read to its end, the answer is the tenant it names where
  -- it admits the agent and every later record of the agent can be read, and otherwise the agent
  -- is refused.
  pub newest-applying :
      (known : Roster) (a : LogRecord) (next : Decided) (before after : List LogRecord)
      → decision unmarshal a ≡ some next
      → 0 < next.revision
      → HeldBefore next.revision (lookup a.key known)
      → Before next.revision (own a.key before)
      → Before next.revision (own a.key after)
      → (applying unmarshal known (before ++ a ∷ after)).1 ≡ none
      → tenant_of (applying unmarshal known (before ++ a ∷ after)).0 a.key
        ≡ (if next.admitted && all_readable (own a.key after) then some next.tenant else none)
  unfolding tenant_of
  newest-applying known a next before after e z h b c done =
      rw
        (
          lookup-applying unmarshal known (before ++ a ∷ after) a.key done,
          own-append a.key before (a ∷ after),
          own_self a after,
          entries-newest (lookup a.key known) a next (own a.key before) (own a.key after) e z h b c,
        )
        (tenant_held-if next (all_readable (own a.key after)))
