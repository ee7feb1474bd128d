-- ===== src/Agent/Gateway/Convergence.antt =====
-- What two gateways answer that read the agents' log of cmd/ingest-gateway/roster.go in different
-- orders.
use mathlib.Core.Logic.{∥∥₁_elim}
use mathlib.Core.List.{Perm, Permᴰ}
use seagull_backend_v.Base.{
  ◌≡◌, ◌≢◌, refl, sym, ◌∙◌, ap, ap₂, subst, Option, none, some, List, Text, text_Eq, All,
}
use seagull_backend_v.Base.Map.{lookup}
use seagull_backend_v.Agent.Record.{Admission}
use seagull_backend_v.Agent.Roster.{Decided, Roster, tenant_held, tenant_of}
use seagull_backend_v.Agent.Roster.Join.{settle_either_order}
use seagull_backend_v.Agent.Gateway.{LogRecord, applying}
use seagull_backend_v.Agent.Gateway.Entries.{decision, entered, entries, own, lookup-applying}

Answer-set : IsSet (Option Text)
Answer-set = hlevel

entered_comm :
    (held p q : Option Decided)
    → p ≢ none
    → q ≢ none
    → entered (some (entered held p)) q ≡ entered (some (entered held q)) p
unfolding entered
entered_comm held none q h g = absurd (h refl)
entered_comm held (some x) none h g = absurd (g refl)
entered_comm held (some x) (some y) h g = settle_either_order held x y

module _ (unmarshal : Text → Option Admission) where
  -- Each of the records says what was decided about its agent.
  abbrev pub Readable : List LogRecord → Type 0
  Readable = All (λ r. decision unmarshal r ≢ none)

  Readable-perm : {log log' : List LogRecord} → Permᴰ log log' → Readable log → Readable log'
  Readable-perm Permᴰ.nil h = h
  Readable-perm (Permᴰ.cons {a = a} {b = b} e p) h =
      (subst (λ x. decision unmarshal x ≢ none) e h.0, Readable-perm p h.1)
  Readable-perm (Permᴰ.swap e f) h = (
    subst (λ x. decision unmarshal x ≢ none) f h.1.0,
    (subst (λ x. decision unmarshal x ≢ none) e h.0, h.1.1),
  )
  Readable-perm (Permᴰ.trans p q) h = Readable-perm q (Readable-perm p h)

  entries-perm :
      {log log' : List LogRecord} (held : Option Decided)
      → Permᴰ log log'
      → Readable log
      → entries unmarshal held log ≡ entries unmarshal held log'
  unfolding entries
  entries-perm held Permᴰ.nil h = refl
  entries-perm held (Permᴰ.cons {a = a} {b = b} {l₂ = l} e p) h =
      entries-perm (some (entered held (decision unmarshal a))) p h.1
      ∙ ap (λ x. entries unmarshal (some (entered held (decision unmarshal x))) l) e
  entries-perm held (Permᴰ.swap {a = a} {b = b} {l = l} e f) h =
      ap (λ x. entries unmarshal (some x) l)
        (entered_comm held (decision unmarshal a) (decision unmarshal b) h.0 h.1.0)
      ∙ ap₂
          (λ x y.
            entries unmarshal
              (some (entered (some (entered held (decision unmarshal y))) (decision unmarshal x)))
              l)
          e f
  entries-perm held (Permᴰ.trans p q) h =
      entries-perm held p h ∙ entries-perm held q (Readable-perm p h)

  -- Two gateways start from one roster and each reads a log to its end. Where the records that
  -- are keyed by an agent are the same in both, in any two orders, and each of them can be read,
  -- the gateways answer alike for that agent, whatever else the logs hold.
  pub tenant_of-applying-perm :
      (known : Roster) (log log' : List LogRecord) (k : Text)
      → (applying unmarshal known log).1 ≡ none
      → (applying unmarshal known log').1 ≡ none
      → Perm (own k log) (own k log')
      → Readable (own k log)
      → tenant_of (applying unmarshal known log).0 k ≡ tenant_of (applying unmarshal known log').0 k
  unfolding tenant_of
  tenant_of-applying-perm known log log' k h g p r = ∥∥₁_elim p (Answer-set _ _) λ d.
      ap tenant_held (
        lookup-applying unmarshal known log k h
        ∙ entries-perm (lookup k known) d r
        ∙ sym (lookup-applying unmarshal known log' k g))

  -- Gateways that start from one roster, read a log to its end and read the records of an agent in
  -- one order answer alike for that agent, whatever else the logs hold and wherever in between.
  pub tenant_of-applying-own :
      (known : Roster) (log log' : List LogRecord) (k : Text)
      → (applying unmarshal known log).1 ≡ none
      → (applying unmarshal known log').1 ≡ none
      → own k log ≡ own k log'
      → tenant_of (applying unmarshal known log).0 k ≡ tenant_of (applying unmarshal known log').0 k
  unfolding tenant_of
  tenant_of-applying-own known log log' k h g e =
      rw (lookup-applying unmarshal known log k h, lookup-applying unmarshal known log' k g, e) refl
