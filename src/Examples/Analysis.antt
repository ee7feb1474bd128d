-- ===== src/Examples/Analysis.antt =====
-- A story of two stages, told by two events of a key, whichever is delivered first.
use seagull_backend_v.Base.{
  ◌≡◌, ◌≢◌, ◌↔◌, refl, ap, true, false, [], ◌∷◌, arith, text_Eq, text_eq, text_eq_iff, bytes,
}
use seagull_backend_v.Base.Map.{lookup}
use seagull_backend_v.DetectionState.Observation.{EventName, event_Eq, event_eq, Observation}
use seagull_backend_v.DetectionState.Window.{Held, last_of, place}
use seagull_backend_v.DetectionState.Window.Shape.{has_event, count_value}
use seagull_backend_v.Analysis.Stages.{has, stages_of}
use seagull_backend_v.Analysis.Sequence.{stands, told_from, ordered, Tells, ordered_iff}
use seagull_backend_v.Analysis.Completed.{nameless}
use seagull_backend_v.Analysis.Story.{is_told, one_if, found_by, AreApart, found_by_either_order}

abbrev fresh : Held
fresh = record { window = 10; seen = []; ids = []; values = [] }

abbrev login : Observation
login = record {
  event = record { agent = bytes "a1"; id = bytes "e1" };
  time = 20;
  value = 1 ∷ [];
  partition = 0;
  skew = 0;
}

abbrev logout : Observation
logout = record {
  event = record { agent = bytes "a1"; id = bytes "e2" };
  time = 25;
  value = 2 ∷ [];
  partition = 0;
  skew = 0;
}

told_in_order : (ordered (login ∷ logout ∷ []) 2 nameless).1 ≡ true
unfolding ordered told_from stands has stages_of event_eq text_eq
told_in_order = refl

untold_out_of_order : (ordered (logout ∷ login ∷ []) 2 nameless).1 ≡ false
unfolding ordered told_from stands has stages_of event_eq text_eq
untold_out_of_order = refl

ordered_iff_example :
    ((ordered (login ∷ logout ∷ []) 2 nameless).1 ≡ true) ↔ Tells 2 nameless (login ∷ logout ∷ []) 0
ordered_iff_example = ordered_iff (login ∷ logout ∷ []) 2 nameless

named : (o : Observation) → o.event.id ≢ [] → o.event ≢ nameless
named o n h = n (ap (λ (e : EventName). e.id) h)

names_differ : login.event ≢ logout.event
unfolding text_eq
names_differ h = cc ((text_eq_iff (bytes "e1") (bytes "e2")).1 (ap (λ (e : EventName). e.id) h))

apart : AreApart fresh login logout 3
unfolding lookup has_event count_value last_of
apart = record {
  sound = record { sorted = tt; once = tt; events = λ e. refl; counts = λ v h. refl };
  named = (named login (λ h. cc), (named logout (λ h. cc), tt));
  new = (refl, refl);
  events = names_differ;
  instants = λ h. omega arith;
  room = omega arith;
  inside = (omega arith, (omega arith, tt));
}

untold : is_told [] 2 ≡ false
unfolding is_told ordered told_from
untold = refl

found_by_either_order_example :
    let whole = one_if (is_told (place logout (place login [])) 2) in
    (found_by 2 fresh login logout 3 ≡ whole) × (found_by 2 fresh logout login 3 ≡ whole)
found_by_either_order_example = found_by_either_order 2 fresh login logout 3 apart untold
