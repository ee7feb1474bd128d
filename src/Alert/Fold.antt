-- ===== src/Alert/Fold.antt =====
-- internal/postgres/fold.go: how the store folds a detection into the alert that is open, holds
-- it back for a cooldown, or raises an alert for it. The tables are lists; a statement's
-- `ON CONFLICT DO NOTHING` is the row that is already there. What the database refuses (a lost
-- connection, a rolled back transaction) is not modelled: a batch is written or it is not.
pub mod Invariant
pub mod Replay
use seagull_backend_v.Base.{
  ℕ, zero, suc, max, ◌+◌, ◌≡◌, Bool, true, false, not, ◌&&◌, ◌||◌, Option, none, some, List, [],
  ◌∷◌, ◌++◌, Text, text_Eq, nat_eq, ◌==◌, if◌then◌else◌, ltb, is_some, bytes,
}
use seagull_backend_v.Alert.State.{WireState, unspecified, wire_resolved, wire_false_positive}
use seagull_backend_v.Alert.Move.{Alert, Closure, Transition}

pub data Outcome : Type 0 where
  raised folded repeated cooled_down : Outcome

pub record Candidate : Type 0 where
  pub alert : Alert
  pub detection_id : Text
  pub key : Text
  pub happened : ℕ
  pub window : ℕ
  pub cooldown : ℕ

pub record Occurrence : Type 0 where
  pub alert_id : Text
  pub detection_id : Text
  pub event_time : ℕ

pub record Store : Type 0 where
  pub alerts : List Alert
  pub transitions : List Transition
  pub occurrences : List Occurrence

abbrev pub tenant_of : Candidate → Text
tenant_of c = c.alert.analysis.tenant_id

-- `state IN ('resolved','false_positive')`.
unfoldable pub is_ended : WireState → Bool
is_ended wire_resolved = true
is_ended wire_false_positive = true
is_ended _ = false

-- `alreadyFolded`.
unfoldable pub already_folded : Text → List Occurrence → Bool
already_folded detection [] = false
already_folded detection (o ∷ os) = o.detection_id == detection || already_folded detection os

abbrev pub later_seen : Alert → Option Alert → Option Alert
later_seen a none = some a
later_seen a (some b) = if ltb a.last_seen b.last_seen then some b else some a

-- `openWithKey`: the open alert under a tenant and a key that was seen last.
unfoldable pub open_alert : Text → Text → List Alert → Option Alert
open_alert tenant key [] = none
open_alert tenant key (a ∷ more) =
    let rest = open_alert tenant key more in
    if a.analysis.tenant_id == tenant && a.correlation_key == key && not (is_ended a.state)
    then later_seen a rest
    else rest

abbrev pub later : Option Closure → Option ℕ → Option ℕ
later none t = t
later (some c) none = some c.closed_at
later (some c) (some t) = some (max c.closed_at t)

-- `closedWithKey`: when the alert closed last under a tenant and a key was closed.
unfoldable pub last_closed : Text → Text → List Alert → Option ℕ
last_closed tenant key [] = none
last_closed tenant key (a ∷ more) =
    let rest = last_closed tenant key more in
    if a.analysis.tenant_id == tenant && a.correlation_key == key && is_ended a.state
    then later a.closure rest
    else rest

-- `coolingDown`.
unfoldable pub cooling_down : Store → Candidate → Bool
cooling_down s c = elim (last_closed (tenant_of c) c.key s.alerts) [
  | none ↦ false
  | some closed_at ↦ ltb c.happened (closed_at + c.cooldown)
]

-- `foldInto`.
unfoldable pub fold_into : Text → ℕ → List Alert → List Alert
fold_into id happened [] = []
fold_into id happened (a ∷ more) =
    (if a.analysis.alert_id == id
      then record a { occurrences = a.occurrences + 1; last_seen = max a.last_seen happened }
      else a)
    ∷ fold_into id happened more

-- `insertOccurrence`, at most one for a detection.
unfoldable pub insert_occurrence : Text → Candidate → List Occurrence → List Occurrence
insert_occurrence into c os =
    if already_folded c.detection_id os
    then os
    else record { alert_id = into; detection_id = c.detection_id; event_time = c.happened } ∷ os

unfoldable pub has_alert : Text → List Alert → Bool
has_alert id [] = false
has_alert id (a ∷ more) = a.analysis.alert_id == id || has_alert id more

-- `insertAlert`.
unfoldable pub insert_alert : Alert → List Alert → List Alert
insert_alert a more = if has_alert a.analysis.alert_id more then more else a ∷ more

unfoldable pub has_line : Text → ℕ → List Transition → Bool
has_line id revision [] = false
has_line id revision (l ∷ ls) =
    (l.alert_id == id && l.revision == revision) || has_line id revision ls

-- `insertTransition`.
unfoldable pub insert_transition : Transition → List Transition → List Transition
insert_transition l ls = if has_line l.alert_id l.revision ls then ls else l ∷ ls

-- `alert.Raised`: the first line of the trail.
pub raised_line : Alert → Transition
raised_line a = record {
  alert_id = a.analysis.alert_id;
  revision = a.revision;
  from = unspecified;
  to = a.state;
  assignee = [];
  actor = bytes "platform";
  stamp = a.raised_at;
  note = bytes "raised by " ++ a.analysis.rule_id;
}

-- `raise`.
unfoldable pub raise : Store → Candidate → Store
raise s c =
    let a = record c.alert { correlation_key = c.key } in
    record {
      alerts = insert_alert a s.alerts;
      transitions = insert_transition (raised_line a) s.transitions;
      occurrences = insert_occurrence a.analysis.alert_id c s.occurrences;
    }

unfoldable pub fold_open : Store → Candidate → Alert → Store
fold_open s c a = record s {
  alerts = fold_into a.analysis.alert_id c.happened s.alerts;
  occurrences = insert_occurrence a.analysis.alert_id c s.occurrences;
}

-- The alert a candidate folds into: the one that is open, unless it was seen too long ago.
unfoldable pub absorbing : Store → Candidate → Option Alert
absorbing s c = elim (open_alert (tenant_of c) c.key s.alerts) [
  | none ↦ none
  | some a ↦ if ltb (a.last_seen + c.window) c.happened then none else some a
]

-- `open == "" && candidate.Cooldown > 0` and the answer of `coolingDown`.
unfoldable pub held_back : Store → Candidate → Bool
held_back s c =
    not (is_some (open_alert (tenant_of c) c.key s.alerts)) && ltb 0 c.cooldown && cooling_down s c

-- `record`.
unfoldable pub record_one : Store → Candidate → Store × Outcome
record_one s c =
    if already_folded c.detection_id s.occurrences then (s, repeated) else elim (absorbing s c) [
      | some a ↦ (fold_open s c a, folded)
      | none ↦ if held_back s c then (s, cooled_down) else (raise s c, raised)
    ]

-- The loop of `Record`.
unfoldable pub record_all : Store → List Candidate → Store × List Outcome
record_all s [] = (s, [])
record_all s (c ∷ cs) =
    let (t, outcome) = record_one s c in
    let (last, outcomes) = record_all t cs in (last, outcome ∷ outcomes)
