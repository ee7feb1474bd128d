-- ===== src/Examples/Window.antt =====
-- A key of internal/detectionstate that two events arrive at.
use seagull_backend_v.Base.{
  ◌+◌, max, ◌≤◌, ◌≡◌, ◌≢◌, refl, ap, true, false, [], arith, text_Eq, text_eq, text_eq_iff, bytes,
  length,
}
use seagull_backend_v.Base.Map.{lookup}
use seagull_backend_v.DetectionState.Bounds.{Bounds}
use seagull_backend_v.DetectionState.Observation.{EventName, event_Eq, Observation}
use seagull_backend_v.DetectionState.Window.{
  Held, last_of, place, cutoff_of, state, observe, in_time,
}
use seagull_backend_v.DetectionState.Window.Shape.{has_event, WellFormed, count_value}
use seagull_backend_v.DetectionState.Window.Observe.{
  in_window, newest, observe-WellFormed, observe-seen, observe_bounded, observe-observe,
}
use seagull_backend_v.DetectionState.Window.Order.{observe_either_order}

abbrev fresh : Held
fresh = record { window = 10; seen = []; ids = []; values = [] }

abbrev login : Observation
login = record {
  event = record { agent = bytes "a1"; id = bytes "e1" };
  time = 20;
  value = bytes "u";
  partition = 0;
  skew = 0;
}

abbrev logout : Observation
logout = record {
  event = record { agent = bytes "a1"; id = bytes "e2" };
  time = 25;
  value = bytes "u";
  partition = 0;
  skew = 0;
}

fresh-WellFormed : WellFormed fresh
unfolding lookup has_event count_value
fresh-WellFormed = record { sorted = tt; once = tt; events = λ e. refl; counts = λ v h. refl }

new_event : (o : Observation) → has_event o.event fresh.seen ≡ false
unfolding has_event
new_event o = refl

timely : cutoff_of fresh login ≤ login.time
unfolding cutoff_of last_of
timely = omega arith

observe-WellFormed_example : WellFormed (observe fresh login 3).0
observe-WellFormed_example = observe-WellFormed fresh login 3 fresh-WellFormed

observe-seen_example :
    (observe fresh login 3).0.seen ≡ newest 3 (place login (in_window (cutoff_of fresh login) []))
observe-seen_example = observe-seen fresh login 3 fresh-WellFormed (new_event login) timely

observe_bounded_example :
    let r = observe fresh login 3 in (length r.0.seen ≤ 3) × (r.1.count ≡ length r.0.seen)
observe_bounded_example = observe_bounded fresh login 3 fresh-WellFormed (omega arith)

observe-observe_example :
    let after = (observe fresh login 3).0 in
    observe after login 3 ≡ (after, record (state after 3) { repeated = true }, in_time)
observe-observe_example =
    observe-observe fresh login 3 fresh-WellFormed (new_event login) timely (omega arith)

names_differ : login.event ≢ logout.event
unfolding text_eq
names_differ h = cc ((text_eq_iff (bytes "e1") (bytes "e2")).1 (ap (λ (e : EventName). e.id) h))

instants_differ : login.time ≢ logout.time
instants_differ h = omega arith

spans_login : max logout.time (max login.time (last_of fresh.seen)) ≤ login.time + fresh.window
unfolding last_of
spans_login = omega arith

spans_logout : max logout.time (max login.time (last_of fresh.seen)) ≤ logout.time + fresh.window
unfolding last_of
spans_logout = omega arith

observe_either_order_example :
    (observe (observe fresh login 3).0 logout 3).0.seen
    ≡ (observe (observe fresh logout 3).0 login 3).0.seen
observe_either_order_example =
    observe_either_order fresh login logout 3 fresh-WellFormed (new_event login) (new_event logout)
      names_differ instants_differ (omega arith) spans_login spans_logout

abbrev small : Bounds
small = record {
  window = 10;
  observations_per_key = 3;
  keys = 5;
  keys_per_tenant = 4;
  keys_per_rule = 2;
}
