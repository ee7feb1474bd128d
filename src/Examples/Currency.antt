-- ===== src/Examples/Currency.antt =====
-- A copy of internal/ingest/currency.go that is confirmed once, and then not again in time.
use seagull_backend_v.Base.{◌+◌, ◌≤◌, ◌≡◌, refl, true, false, [], ◌∷◌, In, ok}
use seagull_backend_v.Currency.{
  Options, Currency, new_currency, Asked, run, confirm, answered, is_stale, age, is_stale-run,
}

abbrev options : Options
options = record {
  has_log = true;
  every = 5;
  stale_after = 10;
  has_registry = true;
  has_logger = true;
}

abbrev fresh : Currency
fresh = record {
  every = 5;
  stale_after = 10;
  started = 100;
  confirmed = 0;
  newest = 0;
  stale = true;
}

abbrev current : Asked
current = record { at = 105; failed = false; behind = 0; newest = 90; looked_at = 106 }

abbrev unreachable : Asked
unreachable = record { at = 110; failed = true; behind = 0; newest = 0; looked_at = 115 }

made : new_currency options 100 ≡ ok fresh
unfolding new_currency
made = refl

admits : is_stale (run fresh (current ∷ unreachable ∷ [])) 115 ≡ false
unfolding is_stale run confirm answered age
admits = refl

past_its_bound : is_stale (run fresh (current ∷ unreachable ∷ [])) 116 ≡ true
unfolding is_stale run confirm answered age
past_its_bound = refl

is_stale-run_example :
    (a : Asked) × In a (current ∷ unreachable ∷ [])
    × (a.failed ≡ false)
    × (a.behind ≡ 0)
    × (115 ≤ a.at + 10)
is_stale-run_example = is_stale-run options 100 115 (current ∷ unreachable ∷ []) made admits
