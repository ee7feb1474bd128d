-- ===== src/Examples/Limiter.antt =====
-- A limiter of internal/platform/ratelimit whose buckets hold two calls each and never refill.
use seagull_backend_v.Base.{
  ℕ, zero, suc, ◌≡◌, ◌≢◌, refl, Bool, true, false, [], ◌∷◌, arith, text_Eq, text_eq, text_eq_iff,
  bytes, is_some,
}
use seagull_backend_v.Base.Map.{lookup}
use seagull_backend_v.Limiter.{Buckets, Limiter, allow}
use seagull_backend_v.Limiter.Invariant.{IsSound, Distinct, has_key, allow-IsSound}

abbrev spends : ℕ → ℕ → ℕ × Bool
spends zero now = (0, false)
spends (suc n) now = (n, true)

abbrev two_calls : Buckets
two_calls = record { Bucket = ℕ; new_bucket = 2; allow_bucket = spends }

abbrev ana_called : Limiter two_calls
ana_called = record {
  capacity = 2;
  order = record { key = bytes "ana"; limiter = 1 } ∷ [];
  buckets = (bytes "ana", tt) ∷ [];
}

ana_called-IsSound : IsSound two_calls ana_called
unfolding Distinct has_key lookup text_eq
ana_called-IsSound = record {
  distinct = (refl, tt);
  index = λ k. ground arith;
  bounded = omega arith;
}

allow-IsSound_example : IsSound two_calls (allow two_calls ana_called (bytes "bo") 7).0
allow-IsSound_example = allow-IsSound two_calls ana_called (bytes "bo") 7 ana_called-IsSound

ana_is_not_bo : bytes "ana" ≢ bytes "bo"
unfolding text_eq
ana_is_not_bo h = cc ((text_eq_iff (bytes "ana") (bytes "bo")).1 h)

ana_known : is_some (lookup (bytes "ana") ana_called.buckets) ≡ true
unfolding lookup text_eq
ana_known = refl
