-- ===== src/DetectionState/Window.antt =====
-- internal/detectionstate/keeper.go, the type `held`: the observations of one key inside its
-- window, in event time, with an index of their events and of their values. `newest.Add(-window)`
-- stops at 0 here; nothing is before an instant at or before the zero time, so every comparison
-- with the cutoff answers alike.
pub mod Shape
pub mod Observe
pub mod Order
use seagull_backend_v.Base.{
  ℕ, zero, suc, pred, max, ◌+◌, ◌-◌, ◌≡◌, Bool, true, false, ◌&&◌, ◌||◌, Option, none, some, List,
  [], ◌∷◌, Text, text_Eq, nat_eq, ◌==◌, if◌then◌else◌, ltb, leb, length, is_nil, is_some,
}
use seagull_backend_v.Base.Map.{Map, lookup, insert, delete}
use seagull_backend_v.DetectionState.Observation.{EventName, event_Eq, Observation, State}

pub record Held : Type 0 where
  pub window : ℕ
  pub seen : List Observation
  pub ids : Map EventName (Unit {0})
  pub values : Map Text ℕ

-- `last`, the zero time where nothing is held.
unfoldable pub last_of : List Observation → ℕ
last_of [] = 0
last_of (o ∷ []) = o.time
last_of (o ∷ p ∷ os) = last_of (p ∷ os)

unfoldable pub expires : Held → ℕ
unfolding last_of
expires h = last_of h.seen + h.window

abbrev first_of : List Observation → ℕ
first_of [] = 0
first_of (o ∷ os) = o.time

unfoldable pub state : Held → ℕ → State
unfolding last_of
state h ceiling = record {
  first = first_of h.seen;
  last = last_of h.seen;
  count = length h.seen;
  distinct = if is_nil h.seen then 0 else length h.values;
  saturated = if is_nil h.seen then false else leb ceiling (length h.seen);
  repeated = false;
}

-- The place that `sort.Search` finds: before the first observation of a later instant.
unfoldable pub place : Observation → List Observation → List Observation
place o [] = o ∷ []
place o (p ∷ os) = if ltb o.time p.time then o ∷ p ∷ os else p ∷ place o os

abbrev pub count_held : Option ℕ → ℕ
count_held none = 0
count_held (some n) = n

-- `values[value]++`, for a value that is not empty.
unfoldable pub add_value : Text → Map Text ℕ → Map Text ℕ
add_value v values = if is_nil v then values else insert v (count_held (lookup v values) + 1) values

-- `values[value]--`, and the key deleted where nothing is left.
unfoldable pub drop_value : Text → Map Text ℕ → Map Text ℕ
drop_value v values =
    if is_nil v
    then values
    else if leb (count_held (lookup v values)) 1
    then delete v values
    else insert v (count_held (lookup v values) - 1) values

unfoldable pub insert_seen : Held → Observation → Held
unfolding place add_value
insert_seen h o = record h {
  seen = place o h.seen;
  ids = insert o.event tt h.ids;
  values = add_value o.value h.values;
}

-- `discard(0)`: the oldest observation `gone`, and those after it.
unfoldable pub discard : Held → Observation → List Observation → Held
unfolding drop_value
discard h gone os = record h {
  seen = os;
  ids = delete gone.event h.ids;
  values = drop_value gone.value h.values;
}

-- The loop of `expire`, over the observations held.
unfoldable pub expire_from : ℕ → List Observation → Held → Held
unfolding discard
expire_from cutoff [] h = h
expire_from cutoff (o ∷ os) h =
    let rest = expire_from cutoff os (discard h o os) in if ltb o.time cutoff then rest else h

unfoldable pub expire : Held → ℕ → Held
unfolding expire_from
expire h cutoff = expire_from cutoff h.seen h

-- The loop that holds a key to its ceiling.
unfoldable pub trim_from : ℕ → List Observation → Held → Held
unfolding discard
trim_from ceiling [] h = h
trim_from ceiling (o ∷ os) h =
    let rest = trim_from ceiling os (discard h o os) in
    if ltb ceiling (length (o ∷ os)) then rest else h

-- Where the window of a key begins once an observation arrives.
unfoldable pub cutoff_of : Held → Observation → ℕ
unfolding last_of
cutoff_of h o = max o.time (last_of h.seen) - h.window

pub data Fold : Type 0 where
  in_time too_late : Fold

-- The part of `observe` after the event is known to be new.
unfoldable pub observe_new : Held → Observation → ℕ → Held × Fold
unfolding expire insert_seen trim_from cutoff_of
observe_new h o ceiling =
    let kept = expire h (cutoff_of h o) in
    if ltb o.time (cutoff_of h o)
    then (kept, too_late)
    else let added = insert_seen kept o in (trim_from ceiling added.seen added, in_time)

unfoldable pub observe : Held → Observation → ℕ → Held × State × Fold
unfolding observe_new state
observe h o ceiling =
    if is_some (lookup o.event h.ids)
    then (h, record (state h ceiling) { repeated = true }, in_time)
    else let (after, outcome) = observe_new h o ceiling in (after, state after ceiling, outcome)
