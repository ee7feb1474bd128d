-- ===== src/Examples/Correlation.antt =====
-- Detections keyed by their rule and by the user in their evidence.
use seagull_backend_v.Base.{
  ℕ, ◌≡◌, ◌↔◌, refl, Bool, true, false, Option, some, List, [], ◌∷◌, Text, text_Eq, text_eq, bytes,
}
use seagull_backend_v.Alert.Key.{Detection, correlation_text, unspoken}
use seagull_backend_v.Alert.Key.Correlation.{HoldAlike, correlation_text_iff}

unfoldable all_text : Text → Bool
all_text field = true

unfoldable as_is : Text → Option Text
as_is held = some held

unfoldable unnamed : ℕ → Text
unnamed n = []

abbrev made : Text → Text → Detection
made tenant agent = record {
  tenant = tenant;
  rule = bytes "r";
  agent = agent;
  event_class = 1;
  severity = 2;
  evidence = record { field = bytes "user"; held = bytes "bo"; absent = false } ∷ [];
  aggregated = [];
  correlated = [];
}

abbrev keyed : List Text
keyed = bytes "rule" ∷ bytes "evidence:user" ∷ bytes "rule" ∷ []

-- Two agents of one tenant fold into one alert, two tenants never do.
agents_fold :
    correlation_text all_text as_is unnamed unnamed (made (bytes "t") (bytes "a1")) keyed
    ≡ correlation_text all_text as_is unnamed unnamed (made (bytes "t") (bytes "a2")) keyed
unfolding correlation_text
agents_fold = refl

-- Nothing is said of the source, so keying by it keeps nothing apart.
source_unspoken :
    unspoken all_text as_is unnamed unnamed
      (made (bytes "t") (bytes "a1"))
      (bytes "evidence:source" ∷ keyed)
    ≡ bytes "evidence:source" ∷ []
unfolding unspoken text_eq
source_unspoken = refl

correlation_text_iff_example :
    (correlation_text all_text as_is unnamed unnamed (made (bytes "t") (bytes "a1")) keyed
      ≡ correlation_text all_text as_is unnamed unnamed (made (bytes "u") (bytes "a1")) keyed)
    ↔ ((bytes "t" ≡ bytes "u")
        × HoldAlike all_text as_is unnamed unnamed
            (made (bytes "t") (bytes "a1"))
            (made (bytes "u") (bytes "a1"))
            keyed)
correlation_text_iff_example =
    correlation_text_iff all_text as_is unnamed unnamed (made (bytes "t") (bytes "a1"))
      (made (bytes "u") (bytes "a1")) keyed
