-- ===== src/Agent/Renewal.antt =====
-- internal/agent/certificate.go and internal/agent/move.go: which renewals succeed, and which is
-- told from anybody else presenting a certificate that was replaced.
use seagull_backend_v.Base.{
  ◌≡◌, ◌≢◌, ◌↔◌, true, none, some, [], arith, text_Eq, text_eq_iff, inl, inr, ok, Option-cases,
}
use seagull_backend_v.Agent.State.{State, admits, from_wire}
use seagull_backend_v.Agent.Record.{Agent, Identity, Transition}
use seagull_backend_v.Agent.Move.{
  Move, asks_again, answering, held_fingerprint, apply, binding, moved_agent,
}
use seagull_backend_v.Agent.Lifecycle.{apply-Went, permitted-Permits}

-- Against what the platform recorded of a binding, a move asks again exactly when the binding
-- was a renewal, and the move carries the renewal's request, which is not empty, and presents
-- the certificate that the renewal presented.
pub asks_again-answering :
    (first second : Move)
    → second.bound ≡ answering first
    → (asks_again second ≡ true) ↔ (
        (first.renewal ≡ true)
        × (second.request ≢ [])
        × (second.request ≡ first.request)
        × (second.presented_fingerprint ≡ first.presented_fingerprint))
unfolding asks_again answering
asks_again-answering first second b = (
  λ h. ground (
    arith,
    text_eq_iff second.request [],
    text_eq_iff second.request first.request,
    text_eq_iff second.presented_fingerprint first.presented_fingerprint,
  ),
  λ h. ground (
    arith,
    text_eq_iff second.request [],
    text_eq_iff second.request first.request,
    text_eq_iff second.presented_fingerprint first.presented_fingerprint,
  ),
)

-- What entitles a renewal: the certificate bound to the agent, having asked for the one that is
-- bound, or, where nothing is bound, no certificate at all.
pub data Entitled (current : Agent) (move : Move) : Type 0 where
  presents_bound :
      (held : Identity)
      → current.identity ≡ some held
      → move.presented_fingerprint ≡ held.fingerprint_sha256
      → Entitled current move
  asked_before : asks_again move ≡ true → Entitled current move
  none_bound : current.identity ≡ none → move.presented_fingerprint ≡ [] → Entitled current move

presented-Entitled :
    (current : Agent) (move : Move)
    → move.presented_fingerprint ≡ held_fingerprint current
    → Entitled current move
presented-Entitled current move h = elim (Option-cases current.identity) [
  | inl e ↦ none_bound e ground arith
  | inr (held, e) ↦ presents_bound held e ground arith
]

-- A renewal with an identity that succeeds came from an agent the platform still listens to, and
-- binds that identity. It presented the fingerprint of the certificate bound to the agent, or
-- asked again for the renewal that bound it, or the agent had no certificate and it presented
-- none.
pub renewal-apply :
    (current : Agent) (move : Move) {after : Agent} {line : Transition}
    → apply current move ≡ ok (after, line)
    → move.renewal ≡ true
    → binding move ≡ true
    → (s : State) × (from_wire current.state ≡ some s)
      × (admits s ≡ true)
      × (after.identity ≡ move.identity)
      × Entitled current move
renewal-apply current move h r b =
    let (from, w) = apply-Went current move h in
    let p = permitted-Permits from current move w.allowed in
    (
      from,
      w.stored,
      p.renewing b r,
      unfold moved_agent in ground arith,
      elim (p.presenting b r) [
        | inl e ↦ presented-Entitled current move e
        | inr e ↦ asked_before e
      ],
    )
