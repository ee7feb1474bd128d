-- ===== src/Currency.antt =====
-- internal/ingest/currency.go: whether a gateway's copy of the registry's decisions is recent
-- enough to admit by. The log that is asked is a parameter: what it answers stands in each
-- `Asked`. Metrics and log lines are left out. An instant is a number of nanoseconds since 1970,
-- and 0 where nothing was confirmed, as in the source.
use seagull_backend_v.Base.{
  ℕ, ◌+◌, ◌-◌, ◌*◌, ◌≤◌, ◌≡◌, ◌⊎◌, inl, inr, refl, ◌∙◌, Bool, true, false, not, ◌||◌, List, [], ◌∷◌,
  arith, nat_eq, ◌==◌, if◌then◌else◌, ltb, In, Result, ok, ◌>>◌, refuse_if,
}

-- `every` and `staleAfter`; a duration that is negative, which is refused as 0 is, is 0 here.
pub record Options : Type 0 where
  pub has_log : Bool
  pub every : ℕ
  pub stale_after : ℕ
  pub has_registry : Bool
  pub has_logger : Bool

pub data Error : Type 0 where
  no_log no_interval too_impatient nowhere_to_report : Error

pub record Currency : Type 0 where
  pub every : ℕ
  pub stale_after : ℕ
  pub started : ℕ
  pub confirmed : ℕ
  pub newest : ℕ
  pub stale : Bool

unfoldable pub new_currency : Options → ℕ → Result Error Currency
new_currency o now = do
  refuse_if (not o.has_log) no_log
  refuse_if (o.every == 0) no_interval
  refuse_if (ltb o.stale_after (2 * o.every)) too_impatient
  refuse_if (not o.has_registry || not o.has_logger) nowhere_to_report
  ok (record {
    every = o.every;
    stale_after = o.stale_after;
    started = now;
    confirmed = 0;
    newest = 0;
    stale = true;
  })

unfoldable pub age : Currency → ℕ → ℕ
age c now = if ltb 0 c.confirmed then now - c.confirmed else now - c.started

-- `Stale`.
unfoldable pub is_stale : Currency → ℕ → Bool
unfolding age
is_stale c now = c.confirmed == 0 || ltb c.stale_after (age c now)

-- One question to the log: when it was asked, what came back, and when that was looked at.
pub record Asked : Type 0 where
  pub at : ℕ
  pub failed : Bool
  pub behind : ℕ
  pub newest : ℕ
  pub looked_at : ℕ

unfoldable pub answered : Currency → Asked → Currency
answered c a = record c {
  confirmed = if a.failed || ltb 0 a.behind then c.confirmed else a.at;
  newest = if a.newest == 0 then c.newest else a.newest;
}

unfoldable pub confirm : Currency → Asked → Currency
unfolding answered is_stale
confirm c a = let next = answered c a in record next { stale = is_stale next a.looked_at }

unfoldable pub run : Currency → List Asked → Currency
run c [] = c
run c (a ∷ more) = run (confirm c a) more

confirm_cases :
    (c : Currency) (a : Asked)
    → ((confirm c a).confirmed ≡ c.confirmed)
      ⊎ ((a.failed ≡ false) × (a.behind ≡ 0) × ((confirm c a).confirmed ≡ a.at))
unfolding confirm
confirm_cases c a = ground arith

-- What the copy counts as confirmed is what it did before, or when a question was asked whose
-- answer was that nothing is missing.
run_confirmed :
    (c : Currency) (history : List Asked)
    → ((run c history).confirmed ≡ c.confirmed)
      ⊎ ((a : Asked) × In a history
          × (a.failed ≡ false)
          × (a.behind ≡ 0)
          × ((run c history).confirmed ≡ a.at))
unfolding run
run_confirmed c [] = inl refl
run_confirmed c (a ∷ more) = elim (run_confirmed (confirm c a) more) [
  | inr (b, m, f, z, e) ↦ inr (b, inr m, f, z, e)
  | inl kept ↦ elim (confirm_cases c a) [
    | inl e ↦ inl (kept ∙ e)
    | inr (f, z, e) ↦ inr (a, inl refl, f, z, kept ∙ e)
  ]
]

run-stale_after :
    (c : Currency) (history : List Asked) → (run c history).stale_after ≡ c.stale_after
unfolding run
run-stale_after c [] = refl
run-stale_after c (a ∷ more) = run-stale_after (confirm c a) more ∙ (unfold confirm in refl)

-- A gateway whose copy of the registry's decisions was made with accepted options and is not
-- stale at an instant asked the log, no more than the bound on staleness before that instant, a
-- question that was answered and whose answer was that the copy missed nothing.
pub is_stale-run :
    (o : Options) (started now : ℕ) {c : Currency} (history : List Asked)
    → new_currency o started ≡ ok c
    → is_stale (run c history) now ≡ false
    → (a : Asked) × In a history
      × (a.failed ≡ false)
      × (a.behind ≡ 0)
      × (now ≤ a.at + o.stale_after)
unfolding is_stale age
is_stale-run o started now {c} history n h = elim (run_confirmed c history) [
  | inl e ↦ absurd (ground (arith, fresh))
  | inr (a, m, f, z, e) ↦ (a, m, f, z, ground (arith, fresh, run-stale_after c history))
]
  where
    fresh : (c.confirmed ≡ 0) × (c.stale_after ≡ o.stale_after)
    fresh = unfold new_currency in ground arith
