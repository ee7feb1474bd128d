-- ===== src/Examples/Keeper.antt =====
-- A small store that two tenants send to, and what pressure does to it.
use seagull_backend_v.Base.{
  ℕ, ◌<◌, ◌≡◌, ◌≢◌, refl, none, some, List, [], ◌∷◌, arith, Text, bytes, length, text_Eq, text_eq,
  text_eq_iff,
}
use seagull_backend_v.Base.Map.{lookup}
use seagull_backend_v.DetectionState.Bounds.{Bounds, validate}
use seagull_backend_v.DetectionState.Observation.{Observation}
use seagull_backend_v.DetectionState.Observation
use seagull_backend_v.DetectionState.Key.{Key}
use seagull_backend_v.DetectionState.Keeper.{
  key_eq, Keeper, rule_at_capacity, fold, fold_all, new_keeper,
}
use seagull_backend_v.DetectionState.Keeper.Within.{IsBelow}
use seagull_backend_v.DetectionState.Keeper.Ceilings.{fold_all-IsBelow}
use seagull_backend_v.DetectionState.Keeper.Isolation.{fold_isolated}

abbrev small : Bounds
small = record {
  window = 10;
  observations_per_key = 3;
  keys = 5;
  keys_per_tenant = 2;
  keys_per_rule = 1;
}

abbrev key_of : Text → Text → Text → Key
key_of tenant rule group = record { tenant = tenant; rule = rule; group = group }

abbrev seen_at : Text → ℕ → Observation
seen_at id time = record {
  event = record { agent = bytes "a"; id = id };
  time = time;
  value = [];
  partition = 0;
  skew = 0;
}

abbrev calls : List (Key × Observation × ℕ)
calls =
    (key_of (bytes "t") (bytes "r") (bytes "g"), seen_at (bytes "e1") 20, 10)
    ∷ (key_of (bytes "u") (bytes "r") (bytes "g"), seen_at (bytes "e2") 21, 10)
    ∷ []

abbrev held : Keeper
held = fold_all (new_keeper small) calls

small_valid : validate small ≡ none
unfolding validate
small_valid = refl

fold_all-IsBelow_example : IsBelow small (fold_all (new_keeper small) calls)
fold_all-IsBelow_example = fold_all-IsBelow small calls small_valid

-- A second key of a rule that may hold one is refused while the first is inside its window.
second_refused :
    (fold held (key_of (bytes "t") (bytes "r") (bytes "h")) (seen_at (bytes "e3") 22) 10).1.0
    ≡ some rule_at_capacity
unfolding fold fold_all new_keeper lookup key_eq text_eq Observation.validate
second_refused = refl

-- Once the stream has moved past the first one's window, the second is let in.
second_held :
    (fold held (key_of (bytes "t") (bytes "r") (bytes "h")) (seen_at (bytes "e3") 40) 10).1.0 ≡ none
unfolding fold fold_all new_keeper lookup key_eq text_eq Observation.validate
second_held = refl

few : length held.keys < small.keys
unfolding fold_all new_keeper lookup key_eq text_eq Observation.validate
few = omega arith

tenants_differ : bytes "u" ≢ bytes "t"
unfolding text_eq
tenants_differ h = cc ((text_eq_iff (bytes "u") (bytes "t")).1 h)

fold_isolated_example :
    lookup
      (bytes "u")
      (fold held
        (key_of (bytes "t") (bytes "r") (bytes "h"))
        (seen_at (bytes "e3") 40)
        10).0.tenants
    ≡ lookup (bytes "u") held.tenants
fold_isolated_example =
    fold_isolated (bytes "u") small held (key_of (bytes "t") (bytes "r") (bytes "h"))
      (seen_at (bytes "e3") 40) 10 tenants_differ few fold_all-IsBelow_example
