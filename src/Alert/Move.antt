-- ===== src/Alert/Move.antt =====
-- internal/alert/move.go: one act on an alert. The alert's analytical half, which no move
-- touches, is the field `analysis`.
use seagull_backend_v.Base.{
  ℕ, ◌+◌, ◌%◌, ◌^◌, Bool, false, not, ◌&&◌, Option, none, some, Text, text_Eq, nat_eq, ◌!=◌,
  if◌then◌else◌, is_nil, Result, ok, err, ◌>>=◌, ◌>>◌, refuse_if,
}
use seagull_backend_v.Alert.State.{
  State, unset, state_eq, is_valid, is_closed, legal, explains, WireState, to_wire, from_wire,
}

pub data Error : Type 0 where
  illegal_move nothing_asked no_actor moved_since needs_reason unknown_state : Error
  unknown_stored_state : Error

pub record Closure : Type 0 where
  pub state : WireState
  pub reason : Text
  pub closed_by : Text
  pub closed_at : ℕ

-- What `Raise` copies out of the detection.
pub record Analysis : Type 0 where
  pub alert_id : Text
  pub tenant_id : Text
  pub detection_id : Text
  pub rule_id : Text
  pub severity : ℕ
  pub event_class : ℕ
  pub agent_id : Text
  pub event_time : Option ℕ

pub record Alert : Type 0 where
  pub analysis : Analysis
  pub raised_at : ℕ
  pub state : WireState
  pub assignee : Text
  pub closure : Option Closure
  pub changed_by : Text
  pub changed_at : ℕ
  pub revision : ℕ
  pub correlation_key : Text
  pub occurrences : ℕ
  pub first_seen : ℕ
  pub last_seen : ℕ

pub record Transition : Type 0 where
  pub alert_id : Text
  pub revision : ℕ
  pub from : WireState
  pub to : WireState
  pub assignee : Text
  pub actor : Text
  pub stamp : ℕ
  pub note : Text

pub record Move : Type 0 where
  pub to : State
  pub assignee : Option Text
  pub note : Text
  pub actor : Text
  pub now : ℕ
  pub expected : ℕ

abbrev pub stored_state : Alert → Result Error State
stored_state current = elim (from_wire current.state) [
  | none ↦ err unknown_stored_state
  | some s ↦ ok s
]

abbrev pub changing : State → Move → Bool
changing from move = move.to != unset && move.to != from

abbrev pub differs_from : Option Text → Text → Bool
differs_from none held = false
differs_from (some to) held = to != held

abbrev pub reassigning : Alert → Move → Bool
reassigning current move = differs_from move.assignee current.assignee

-- The cases of the `switch`, in its order.
unfoldable pub permitted : State → Alert → Move → Result Error (Unit {0})
permitted from current move = do
  refuse_if (move.to != unset && not (is_valid move.to)) unknown_state
  refuse_if (not (changing from move) && not (reassigning current move)) nothing_asked
  refuse_if (changing from move && not (legal from move.to)) illegal_move
  refuse_if (changing from move && explains from move.to && is_nil move.note) needs_reason

unfoldable pub closure : Move → Option Closure
closure move =
    if not (is_closed move.to)
    then none
    else some (record {
      state = to_wire move.to;
      reason = move.note;
      closed_by = move.actor;
      closed_at = move.now;
    })

abbrev pub assigned_to : Option Text → Text → Text
assigned_to none held = held
assigned_to (some to) held = to

abbrev pub next_revision : ℕ → ℕ
next_revision r = (r + 1) % 2 ^ 64

unfoldable pub moved_alert : State → Alert → Move → Alert
moved_alert from current move = record current {
  revision = next_revision current.revision;
  changed_by = move.actor;
  changed_at = move.now;
  assignee =
      if reassigning current move
      then assigned_to move.assignee current.assignee
      else current.assignee;
  state = if changing from move then to_wire move.to else current.state;
  closure = if changing from move then closure move else current.closure;
}

unfoldable pub transition : Alert → Alert → Move → Transition
transition current after move = record {
  alert_id = after.analysis.alert_id;
  revision = after.revision;
  from = current.state;
  to = after.state;
  assignee = after.assignee;
  actor = move.actor;
  stamp = move.now;
  note = move.note;
}

unfoldable pub apply : Alert → Move → Result Error (Alert × Transition)
apply current move = do
  from ← stored_state current
  refuse_if (is_nil move.actor) no_actor
  refuse_if (move.expected != 0 && move.expected != current.revision) moved_since
  permitted from current move
  let after = moved_alert from current move
  ok (after, transition current after move)
