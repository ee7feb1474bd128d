-- ===== src/DetectionState/Bounds.antt =====
-- internal/detectionstate/bounds.go: the declared bounds of a store. A duration is a number of
-- nanoseconds; one that is not positive is 0 here.
use seagull_backend_v.Base.{
  ℕ, ◌^◌, ◌≤◌, ◌<◌, ◌≡◌, ◌↔◌, Bool, ◌&&◌, ◌||◌, Option, none, some, arith, nat_eq, ◌==◌,
  if◌then◌else◌, ltb, not, is_nil, List, Text, is_nil, List, Text,
}

-- `detection.MaxWithin`, a day, and `detection.MaxCount`.
abbrev pub max_window : ℕ
max_window = 86_400_000_000_000

abbrev pub max_observations_per_key : ℕ
max_observations_per_key = 4096

abbrev pub max_keys : ℕ
max_keys = 2 ^ 20

pub data BoundsError : Type 0 where
  no_window no_observations no_keys no_tenant_keys no_rule_keys : BoundsError
  window_too_long unreachable unorderable : BoundsError

pub record Bounds : Type 0 where
  pub window : ℕ
  pub observations_per_key : ℕ
  pub keys : ℕ
  pub keys_per_tenant : ℕ
  pub keys_per_rule : ℕ

-- `Validate`, `none` where nothing is wrong.
unfoldable pub validate : Bounds → Option BoundsError
validate b =
    if b.window == 0 || ltb max_window b.window
    then some no_window
    else if b.observations_per_key == 0 || ltb max_observations_per_key b.observations_per_key
    then some no_observations
    else if b.keys == 0 || ltb max_keys b.keys
    then some no_keys
    else if b.keys_per_tenant == 0 || ltb b.keys b.keys_per_tenant
    then some no_tenant_keys
    else if b.keys_per_rule == 0 || ltb b.keys_per_tenant b.keys_per_rule
    then some no_rule_keys
    else none

-- What a counting rule asks of a key (`detection.Count`).
pub record Count : Type 0 where
  pub at_least : ℕ
  pub within : ℕ
  pub group_by : List Text

unfoldable pub counts : Count → Bool
counts c = not (c.at_least == 0 && c.within == 0 && is_nil c.group_by)

unfoldable pub admits : Bounds → Count → Option BoundsError
unfolding counts
admits b c =
    if not (counts c)
    then none
    else if ltb b.window c.within
    then some window_too_long
    else if ltb b.observations_per_key c.at_least
    then some unreachable
    else none

-- What a sequence asks of a key (`detection.Sequence`), by how many stages it has.
pub record Sequence : Type 0 where
  pub stages : ℕ
  pub within : ℕ
  pub group_by : List Text

unfoldable pub correlates : Sequence → Bool
correlates s = ltb 0 s.stages || not (s.within == 0) || not (is_nil s.group_by)

unfoldable pub orders : Bounds → Sequence → Option BoundsError
unfolding correlates
orders b s =
    if not (correlates s)
    then none
    else if ltb b.window s.within
    then some window_too_long
    else if ltb b.observations_per_key s.stages
    then some unorderable
    else none

-- The memory a valid store may hold is bounded before it runs.
pub record IsBounded (b : Bounds) : Type 0 where
  pub window_set : (0 < b.window) × (b.window ≤ max_window)
  pub observations_set :
      (0 < b.observations_per_key) × (b.observations_per_key ≤ max_observations_per_key)
  pub keys_set : (0 < b.keys) × (b.keys ≤ max_keys)
  pub tenant_set : (0 < b.keys_per_tenant) × (b.keys_per_tenant ≤ b.keys)
  pub rule_set : (0 < b.keys_per_rule) × (b.keys_per_rule ≤ b.keys_per_tenant)

-- The bounds of a state store are accepted exactly when the window, the observations of a key
-- and the keys are positive and within their ceilings, and the quotas of a tenant and of a rule
-- are positive and within what the store and the tenant hold.
pub validate_iff : (b : Bounds) → (validate b ≡ none) ↔ IsBounded b
unfolding validate
validate_iff b = (λ h. ground arith, λ h. ground arith)
