-- ===== src/DetectionState/Observation.antt =====
-- internal/detectionstate/observation.go and state.go: what one event contributes to a key, and
-- what a key holds. An instant is a number of nanoseconds since the zero time.
use seagull_backend_v.Base.{
  ℕ, ◌≡◌, ◌↔◌, Bool, true, ◌&&◌, Option, none, some, arith, Text, text_Eq, text_eq, text_eq_iff,
  nat_eq, Eq, ◌==◌, if◌then◌else◌, ltb, length, is_nil,
}

pub record EventName : Type 0 where
  pub agent : Text
  pub id : Text

unfoldable pub event_eq : EventName → EventName → Bool
unfolding text_eq
event_eq a b = a.agent == b.agent && a.id == b.id

pub event_eq_iff : (a b : EventName) → (event_eq a b ≡ true) ↔ (a ≡ b)
unfolding event_eq
event_eq_iff a b = ground (arith, text_eq_iff a.agent b.agent, text_eq_iff a.id b.id)

instance abbrev pub event_Eq : Eq EventName
event_Eq = record { beq = event_eq; beq_iff = event_eq_iff }

pub record Observation : Type 0 where
  pub event : EventName
  pub time : ℕ
  pub value : Text
  pub partition : ℕ
  pub skew : ℕ

pub data ObservationError : Type 0 where
  no_event no_agent no_time value_too_long : ObservationError

abbrev pub max_value_length : ℕ
max_value_length = 512

unfoldable pub validate : Observation → Option ObservationError
validate o =
    if is_nil o.event.id
    then some no_event
    else if is_nil o.event.agent
    then some no_agent
    else if o.time == 0
    then some no_time
    else if ltb max_value_length (length o.value)
    then some value_too_long
    else none

pub record State : Type 0 where
  pub first : ℕ
  pub last : ℕ
  pub count : ℕ
  pub distinct : ℕ
  pub saturated : Bool
  pub repeated : Bool
