-- ===== src/Alert/Lifecycle.antt =====
-- What internal/alert/move.go promises of a move and of any sequence of moves.
use seagull_backend_v.Base.{
  ◌^◌, ◌<◌, ◌≡◌, ◌≢◌, ◌⊎◌, inl, inr, sym, subst, true, some, [], arith, text_Eq, nat_eq,
  if◌then◌else◌, is_some, ok, err, Option-cases, Bool-cases,
}
use seagull_backend_v.Alert.State.{
  State, unset, state_eq, is_valid, is_closed, legal, explains, to_wire, from_wire,
  from_wire-to_wire, legal-valid, legal-differs, unset_not_valid,
}
use seagull_backend_v.Alert.Move.{
  Alert, Closure, Move, Transition, apply, permitted, moved_alert, transition, stored_state,
  changing, reassigning, closure, next_revision, moved_since,
}

-- What a successful move went through.
record Went (current : Alert) (move : Move) (after : Alert) (line : Transition) (from : State)
    : Type 0 where
  pub stored : from_wire current.state ≡ some from
  pub attributed : move.actor ≢ []
  pub fresh : (move.expected ≡ 0) ⊎ (move.expected ≡ current.revision)
  pub allowed : permitted from current move ≡ ok tt
  pub result : after ≡ moved_alert from current move
  pub recorded : line ≡ transition current after move

apply-Went :
    (current : Alert) (move : Move) {after : Alert} {line : Transition}
    → apply current move ≡ ok (after, line)
    → (from : State) × Went current move after line from
unfolding apply
apply-Went current move h = elim (Option-cases (from_wire current.state)) [
  | inl e ↦ ground arith
  | inr (from, e) ↦ (from, ground arith)
]

-- Which moves the `switch` lets through.
record Permits (from : State) (current : Alert) (move : Move) : Type 0 where
  pub names_state : (move.to ≡ unset) ⊎ (is_valid move.to ≡ true)
  pub asks : (changing from move ≡ true) ⊎ (reassigning current move ≡ true)
  pub on_table : changing from move ≡ true → legal from move.to ≡ true
  pub reasoned : changing from move ≡ true → explains from move.to ≡ true → move.note ≢ []

permitted-Permits :
    (from : State) (current : Alert) (move : Move)
    → permitted from current move ≡ ok tt
    → Permits from current move
unfolding permitted
permitted-Permits from current move h = ground arith

unfoldable state_after : State → Move → State
state_after from move = if changing from move then move.to else from

-- An alert carries a closure exactly when its state is an ending, and the closure names it.
pub record IsConsistent (a : Alert) : Type 0 where
  pub state : State
  pub stored : from_wire a.state ≡ some state
  pub closed : is_closed state ≡ is_some a.closure
  pub named : (c : Closure) → a.closure ≡ some c → c.state ≡ a.state

moved-stored :
    (current : Alert) (move : Move) (from : State)
    → from_wire current.state ≡ some from
    → Permits from current move
    → from_wire (moved_alert from current move).state ≡ some (state_after from move)
unfolding moved_alert state_after
moved-stored current move from e p = elim (Bool-cases (changing from move)) [
  | inl c ↦ rw c (from_wire-to_wire move.to (legal-valid from move.to (p.on_table c)))
  | inr c ↦ rw c e
]

-- What `apply` promises of a move that succeeds.
pub record Advances (current : Alert) (move : Move) (after : Alert) (line : Transition)
    : Type 0 where
  pub from : State
  pub to : State
  pub was : from_wire current.state ≡ some from
  pub becomes : from_wire after.state ≡ some to
  pub on_table : (to ≡ from) ⊎ (legal from to ≡ true)
  pub reasoned : to ≢ from → explains from to ≡ true → line.note ≢ []
  pub same_analysis : after.analysis ≡ current.analysis
  pub revised : after.revision ≡ next_revision current.revision
  pub attributed : (after.changed_by ≡ line.actor) × (line.actor ≢ [])
  pub line_from : line.from ≡ current.state
  pub line_to : line.to ≡ after.state
  pub line_revision : line.revision ≡ after.revision
  pub line_assignee : line.assignee ≡ after.assignee
  pub line_alert : line.alert_id ≡ current.analysis.alert_id

-- A move of an alert that succeeds follows the table of moves or keeps the state, has a reason
-- where it says that an earlier decision was wrong, leaves the analytical half alone, raises the
-- revision, and leaves one line that says from where to where, by whom and at which revision.
pub apply-Advances :
    (current : Alert) (move : Move) {after : Alert} {line : Transition}
    → apply current move ≡ ok (after, line)
    → Advances current move after line
unfolding transition moved_alert
apply-Advances current move {after} {line} h =
    let (from, w) = apply-Went current move h in
    let p = permitted-Permits from current move w.allowed in
    record {
      from = from;
      to = state_after from move;
      was = w.stored;
      becomes =
          subst (λ (a : Alert). from_wire a.state ≡ some (state_after from move)) (sym w.result)
            (moved-stored current move from w.stored p);
      on_table = unfold state_after in ground arith;
      reasoned = λ d e. unfold state_after in ground arith;
      same_analysis = ground arith;
      revised = ground arith;
      attributed = ground arith;
      line_from = ground arith;
      line_to = ground arith;
      line_revision = ground arith;
      line_assignee = ground arith;
      line_alert = ground arith;
    }

moved_alert-IsConsistent :
    (from : State) (current : Alert) (move : Move)
    → from_wire current.state ≡ some from
    → Permits from current move
    → IsConsistent current
    → IsConsistent (moved_alert from current move)
unfolding moved_alert state_after closure
moved_alert-IsConsistent from current move e p c = record {
  state = state_after from move;
  stored = moved-stored current move from e p;
  closed = ground arith;
  named = λ k q. ground (arith, c.named k);
}

-- Every move keeps an alert closed exactly when it carries a closure that names its ending.
pub apply-IsConsistent :
    (current : Alert) (move : Move) {after : Alert} {line : Transition}
    → apply current move ≡ ok (after, line)
    → IsConsistent current
    → IsConsistent after
apply-IsConsistent current move h c =
    let (from, w) = apply-Went current move h in
    subst IsConsistent (sym w.result) (
      moved_alert-IsConsistent from current move w.stored
        (permitted-Permits from current move w.allowed) c)

legal-changing :
    (from : State) (move : Move) → legal from move.to ≡ true → changing from move ≡ true
legal-changing from move l =
    ground (arith, legal-valid from move.to l, legal-differs from move.to l, unset_not_valid)

legal-permitted :
    (from : State) (current : Alert) (move : Move)
    → legal from move.to ≡ true
    → (explains from move.to ≡ true → move.note ≢ [])
    → permitted from current move ≡ ok tt
unfolding permitted
legal-permitted from current move l n =
    ground (arith, legal-valid from move.to l, legal-changing from move l)

-- A change of an alert's stored state along the table, by somebody, at any or at the current
-- revision and with a reason where one is needed, is never refused and stores the state asked
-- for.
pub apply-total :
    (current : Alert) (move : Move) (from : State)
    → from_wire current.state ≡ some from
    → legal from move.to ≡ true
    → move.actor ≢ []
    → (move.expected ≡ 0) ⊎ (move.expected ≡ current.revision)
    → (explains from move.to ≡ true → move.note ≢ [])
    → (after : Alert) × (line : Transition) × (apply current move ≡ ok (after, line))
      × (after.state ≡ to_wire move.to)
unfolding apply moved_alert
apply-total current move from e l a x n = (
  moved_alert from current move,
  transition current (moved_alert from current move) move,
  ground (arith, legal-changing from move l, legal-permitted from current move l n),
  rw (legal-changing from move l),
)

-- Of two people who act on one revision, which is neither 0 nor past the counter's range, the
-- second is told: once a first move succeeds, whatever somebody asks of the alert at the
-- revision it had is refused as overtaken.
pub second-apply :
    (current : Alert) (first second : Move) {after : Alert} {line : Transition}
    → current.revision < 2 ^ 64
    → apply current first ≡ ok (after, line)
    → second.actor ≢ []
    → second.expected ≡ current.revision
    → second.expected ≢ 0
    → apply after second ≡ err moved_since
unfolding apply
second-apply current first second {after} u h a e z =
    let m = apply-Advances current first h in
    rw (m.becomes, stored_state) (ground (arith, m.revised))
