-- ===== src/Examples/Alert.antt =====
-- An alert of internal/alert that two people resolve at one revision.
use seagull_backend_v.Base.{
  ℕ, ◌≡◌, ◌≢◌, inr, refl, true, none, some, [], ◌∷◌, Text, bytes, ok, contains,
}
use seagull_backend_v.Alert.State.{
  opened, resolved, false_positive, State-discrete, is_valid, is_closed, legal, reachable, explains,
  to_wire, from_wire, wire_open,
}
use seagull_backend_v.Alert.Move.{
  Alert, Analysis, Move, Transition, apply, permitted, moved_alert, transition,
}
use seagull_backend_v.Alert.Lifecycle.{Advances, IsConsistent, apply-Advances, apply-total}
use seagull_backend_v.Alert.Trail.{run, Leads, run-IsConsistent, run-Leads}

abbrev pub analysis : Analysis
analysis = record {
  alert_id = bytes "d1";
  tenant_id = bytes "acme";
  detection_id = bytes "d1";
  rule_id = bytes "r";
  severity = 2;
  event_class = 1;
  agent_id = bytes "a1";
  event_time = some 4;
}

abbrev pub alert : Alert
alert = record {
  analysis = analysis;
  raised_at = 5;
  state = wire_open;
  assignee = [];
  closure = none;
  changed_by = bytes "platform";
  changed_at = 5;
  revision = 1;
  correlation_key = bytes "k";
  occurrences = 1;
  first_seen = 4;
  last_seen = 4;
}

abbrev resolves : Move
resolves = record {
  to = resolved;
  assignee = none;
  note = [];
  actor = bytes "ana";
  now = 9;
  expected = 1;
}

abbrev dismisses : Move
dismisses = record {
  to = false_positive;
  assignee = none;
  note = bytes "test";
  actor = bytes "bo";
  now = 9;
  expected = 1;
}

abbrev closed : Alert
closed = moved_alert opened alert resolves

applies : apply alert resolves ≡ ok (closed, transition alert closed resolves)
unfolding apply from_wire permitted is_valid legal reachable contains explains is_closed
    State-discrete
applies = refl

apply-Advances_example : Advances alert resolves closed (transition alert closed resolves)
apply-Advances_example = apply-Advances alert resolves applies

consistent : IsConsistent alert
unfolding from_wire is_closed State-discrete
consistent = record { state = opened; stored = refl; closed = refl; named = λ c h. cc }

run-IsConsistent_example : IsConsistent (run alert (resolves ∷ dismisses ∷ [])).0
run-IsConsistent_example = run-IsConsistent alert (resolves ∷ dismisses ∷ []) consistent

run-Leads_example :
    let (last, lines) = run alert (resolves ∷ dismisses ∷ []) in
    Leads (bytes "d1") last.state last.revision wire_open 1 lines
run-Leads_example = run-Leads alert (resolves ∷ dismisses ∷ [])

said : (m : Text) → (c : ℕ) → (c ∷ m) ≢ []
said m c h = cc

is_stored : from_wire wire_open ≡ some opened
unfolding from_wire
is_stored = refl

on_table : legal opened resolved ≡ true
unfolding legal reachable contains State-discrete
on_table = refl

unexplained : explains opened resolved ≡ true → (the_note : Text) → the_note ≢ []
unfolding explains is_closed State-discrete
unexplained h n = cc

apply-total_example :
    (after : Alert) × (line : Transition) × (apply alert resolves ≡ ok (after, line))
    × (after.state ≡ to_wire resolved)
apply-total_example =
    apply-total alert resolves opened is_stored on_table (said (bytes "na") b'a') (inr refl)
      (λ h. unexplained h [])
