-- ===== src/Examples/Fold.antt =====
-- A batch of detections that internal/postgres/fold.go records, and records again.
use seagull_backend_v.Base.{
  ℕ, ◌≡◌, ◌≢◌, refl, some, List, [], ◌∷◌, Text, text_Eq, bytes, text_eq, All,
}
use seagull_backend_v.Alert.State.{wire_resolved}
use seagull_backend_v.Alert.Fold.{
  Candidate, Store, raised, folded, repeated, cooled_down, record_one, record_all, already_folded,
  open_alert, last_closed, cooling_down, fold_into, insert_occurrence, has_alert, insert_alert,
  has_line, insert_transition, raise, fold_open, absorbing, held_back, is_ended,
}
use seagull_backend_v.Alert.Fold.Invariant.{WellKept, record_all-WellKept}
use seagull_backend_v.Alert.Fold.Replay.{record_all-record_all}
use seagull_backend_v.Examples.Alert.{alert, analysis}

abbrev candidate : Text → ℕ → Candidate
candidate d happened = record {
  alert = record alert {
    analysis = record analysis { alert_id = d; detection_id = d };
    first_seen = happened;
    last_seen = happened;
  };
  detection_id = d;
  key = bytes "k";
  happened = happened;
  window = 10;
  cooldown = 5;
}

abbrev empty : Store
empty = record { alerts = []; transitions = []; occurrences = [] }

abbrev batch : List Candidate
batch = candidate (bytes "d1") 4 ∷ candidate (bytes "d2") 6 ∷ []

outcomes : (record_all empty batch).1 ≡ raised ∷ folded ∷ []
unfolding record_all record_one already_folded open_alert last_closed cooling_down fold_into
    insert_occurrence has_alert insert_alert has_line insert_transition raise fold_open absorbing
    held_back is_ended text_eq
outcomes = refl

record_all-WellKept_example : WellKept (record_all empty batch).0
record_all-WellKept_example =
    record_all-WellKept empty batch
      (
        record { named_by = refl; counts_one = refl },
        (record { named_by = refl; counts_one = refl }, tt),
      )
      (record { counted = tt; named = tt; owned = tt })

none_held_back : All (λ o. o ≢ cooled_down) (record_all empty batch).1
none_held_back = rw outcomes ((λ h. cc), ((λ h. cc), tt))

record_all-record_all_example :
    record_all (record_all empty batch).0 batch
    ≡ ((record_all empty batch).0, repeated ∷ repeated ∷ [])
record_all-record_all_example = record_all-record_all empty batch none_held_back

-- A store whose one alert under the key was closed at the instant 5.
abbrev closed_at_five : Store
closed_at_five = record {
  alerts =
      record alert {
        analysis = record analysis { alert_id = bytes "d0" };
        state = wire_resolved;
        closure =
            some (record {
              state = wire_resolved;
              reason = [];
              closed_by = bytes "ana";
              closed_at = 5;
            });
      }
      ∷ [];
  transitions = [];
  occurrences = record { alert_id = bytes "d0"; detection_id = bytes "d0"; event_time = 1 } ∷ [];
}

abbrev straddling : List Candidate
straddling = candidate (bytes "d1") 8 ∷ candidate (bytes "d2") 11 ∷ []

-- A detection that a cooldown held back is folded when its batch is recorded again.
held_back_first : (record_all closed_at_five straddling).1 ≡ cooled_down ∷ raised ∷ []
unfolding record_all record_one already_folded open_alert last_closed cooling_down fold_into
    insert_occurrence has_alert insert_alert has_line insert_transition raise fold_open absorbing
    held_back is_ended text_eq
held_back_first = refl

held_back_then_folded :
    (record_all (record_all closed_at_five straddling).0 straddling).1 ≡ folded ∷ repeated ∷ []
unfolding record_all record_one already_folded open_alert last_closed cooling_down fold_into
    insert_occurrence has_alert insert_alert has_line insert_transition raise fold_open absorbing
    held_back is_ended text_eq
held_back_then_folded = refl
