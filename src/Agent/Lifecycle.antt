-- ===== src/Agent/Lifecycle.antt =====
-- What internal/agent's state machine promises of a move and of any sequence of moves.
use seagull_backend_v.Base.{
  ◌≤◌, ◌≡◌, ◌≢◌, ◌⊎◌, inl, inr, refl, subst, true, false, ◌&&◌, some, [], arith, text_Eq,
  text_eq_iff, nat_eq, ◌==◌, Result, ok, err, Option-cases, Bool-cases, length,
}
use seagull_backend_v.Agent.State.{
  State, unset, pending, active, disabled, revoked, decommissioned, State-discrete, state_eq,
  is_valid, is_final, admits, legal, to_wire, from_wire, WireState,
}
use seagull_backend_v.Agent.Record.{Agent, Transition, Error, max_note_length, within}
use seagull_backend_v.Agent.Move.{
  Move, apply, permitted, accepted_identity, moved_agent, transition, changing, binding, asks_again,
  held_fingerprint, state_after, next_revision,
}

from_wire-to_wire : (s : State) → is_valid s ≡ true → from_wire (to_wire s) ≡ some s
unfolding is_valid from_wire to_wire State-discrete
from_wire-to_wire State.unset h = cc
from_wire-to_wire pending h = refl
from_wire-to_wire active h = refl
from_wire-to_wire disabled h = refl
from_wire-to_wire revoked h = refl
from_wire-to_wire decommissioned h = refl
from_wire-to_wire (State.unnamed t) h = cc

to_wire-from_wire : (w : WireState) (s : State) → from_wire w ≡ some s → to_wire s ≡ w
unfolding from_wire to_wire
to_wire-from_wire w s h = ground arith

-- What a successful move went through.
pub record Went (current : Agent) (move : Move) (after : Agent) (line : Transition) (from : State)
    : Type 0 where
  pub stored : from_wire current.state ≡ some from
  pub attributed : move.actor ≢ []
  pub fresh : (move.expected ≡ 0) ⊎ (move.expected ≡ current.revision)
  pub noted : length move.note ≤ max_note_length
  pub allowed : permitted from current move ≡ ok tt
  pub usable : accepted_identity current move ≡ ok tt
  pub result : after ≡ moved_agent from current move
  pub recorded : line ≡ transition current after move

pub apply-Went :
    (current : Agent) (move : Move) {after : Agent} {line : Transition}
    → apply current move ≡ ok (after, line)
    → (from : State) × Went current move after line from
unfolding apply within
apply-Went current move h = elim (Option-cases (from_wire current.state)) [
  | inl e ↦ ground arith
  | inr (from, e) ↦ (from, ground arith)
]

-- Which moves the `switch` lets through.
pub record Permits (from : State) (current : Agent) (move : Move) : Type 0 where
  pub names_state : (move.to ≡ unset) ⊎ (is_valid move.to ≡ true)
  pub asks : (changing from move ≡ true) ⊎ (binding move ≡ true)
  pub bindable_still : binding move ≡ true → is_final from ≡ false
  pub renewing : binding move ≡ true → move.renewal ≡ true → admits from ≡ true
  pub presenting :
      binding move ≡ true
      → move.renewal ≡ true
      → (move.presented_fingerprint ≡ held_fingerprint current) ⊎ (asks_again move ≡ true)
  pub on_table : changing from move ≡ true → legal from move.to ≡ true
  pub reasoned : changing from move ≡ true → move.note ≢ []

pub permitted-Permits :
    (from : State) (current : Agent) (move : Move)
    → permitted from current move ≡ ok tt
    → Permits from current move
unfolding permitted
permitted-Permits from current move h =
    ground (arith, text_eq_iff move.presented_fingerprint (held_fingerprint current))

-- How the state may change: not at all, out of `pending` by being given an identity, or along
-- the table of moves, with a reason.
pub data Goes (from : State) (move : Move) (to : State) : Type 0 where
  stays : to ≡ from → Goes from move to
  activates : from ≡ pending → to ≡ active → binding move ≡ true → Goes from move to
  moves : to ≡ move.to → legal from to ≡ true → move.note ≢ [] → Goes from move to

state_after-Goes :
    (from : State) (current : Agent) (move : Move)
    → Permits from current move
    → Goes from move (state_after from move)
unfolding state_after
state_after-Goes from current move p = elim (Bool-cases (changing from move)) [
  | inl c ↦ moves (rw c) (rw c (p.on_table c)) (p.reasoned c)
  | inr c ↦ rw c (elim (Bool-cases (binding move && from == pending)) [
    | inl b ↦ activates (ground arith) (rw b) (ground arith)
    | inr b ↦ stays (rw b)
  ])
]

legal-valid : (from to : State) → legal from to ≡ true → is_valid to ≡ true
unfolding legal is_valid
legal-valid from to h = ground arith

active_stored : from_wire (to_wire active) ≡ some active
unfolding from_wire to_wire
active_stored = refl

-- The stored state of the result is the state the move leads to.
moved-stored :
    (current : Agent) (move : Move) (from : State)
    → from_wire current.state ≡ some from
    → Permits from current move
    → from_wire (moved_agent from current move).state ≡ some (state_after from move)
unfolding moved_agent state_after
moved-stored current move from e p = elim (Bool-cases (changing from move)) [
  | inl c ↦ rw c (from_wire-to_wire move.to (legal-valid from move.to (p.on_table c)))
  | inr c ↦ rw c (elim (Bool-cases (binding move && from == pending)) [
    | inl b ↦ rw b active_stored
    | inr b ↦ rw b e
  ])
]

-- What `apply` promises of a move that succeeds.
pub record Moves (current : Agent) (move : Move) (after : Agent) (line : Transition) : Type 0 where
  pub from : State
  pub to : State
  pub was : from_wire current.state ≡ some from
  pub becomes : from_wire after.state ≡ some to
  pub goes : Goes from move to
  pub same_agent : after.agent_id ≡ current.agent_id
  pub same_tenant : after.tenant_id ≡ current.tenant_id
  pub revised : after.revision ≡ next_revision current.revision
  pub attributed : (after.changed_by ≡ move.actor) × (move.actor ≢ [])
  pub line_from : line.from ≡ current.state
  pub line_to : line.to ≡ after.state
  pub line_revision : line.revision ≡ after.revision
  pub line_agent : line.agent_id ≡ after.agent_id
  pub line_actor : line.actor ≡ move.actor
  pub line_note : line.note ≡ move.note

-- A move of an agent that succeeds leads from the stored state to one that the table of moves, a
-- binding or standing still gives, keeps the agent's name and tenant, is somebody's, raises the
-- revision, and leaves a line that says from where to where, by whom, why and at which revision.
pub apply-Moves :
    (current : Agent) (move : Move) {after : Agent} {line : Transition}
    → apply current move ≡ ok (after, line)
    → Moves current move after line
unfolding transition
apply-Moves current move {after} {line} h =
    let (from, w) = apply-Went current move h in
    let p = permitted-Permits from current move w.allowed in
    record {
      from = from;
      to = state_after from move;
      was = w.stored;
      becomes = rw w.result (moved-stored current move from w.stored p);
      goes = state_after-Goes from current move p;
      same_agent = unfold moved_agent in ground arith;
      same_tenant = unfold moved_agent in ground arith;
      revised = unfold moved_agent in ground arith;
      attributed = unfold moved_agent in ground arith;
      line_from = ground arith;
      line_to = ground arith;
      line_revision = ground arith;
      line_agent = ground arith;
      line_actor = ground arith;
      line_note = ground arith;
    }

final-legal : (from to : State) → is_final from ≡ true → legal from to ≡ false
unfolding is_final legal
final-legal from to h = ground arith

permitted-final :
    (from : State) (current : Agent) (move : Move)
    → is_final from ≡ true
    → permitted from current move ≢ ok tt
permitted-final from current move f h =
    let p = permitted-Permits from current move h in
    elim p.asks [
      | inl c ↦ cc (final-legal from move.to f, p.on_table c)
      | inr b ↦ cc (p.bindable_still b)
    ]

-- An agent stored as revoked or decommissioned is never moved: whatever is asked of it is
-- refused.
pub final-apply :
    (current : Agent) (move : Move) (s : State)
    → from_wire current.state ≡ some s
    → is_final s ≡ true
    → (e : Error) × (apply current move ≡ err e)
final-apply current move s h f = refused (apply current move) refl
  where
    refused :
        (r : Result Error (Agent × Transition)) → apply current move ≡ r → (e : Error) × (r ≡ err e)
    refused (err e) p = (e, refl)
    refused (ok (after, line)) p =
        let (from, w) = apply-Went current move p in
        absurd (
          permitted-final s current move f
            (subst (λ x. permitted x current move ≡ ok tt) (ground arith) w.allowed))
