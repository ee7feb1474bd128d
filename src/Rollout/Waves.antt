-- ===== src/Rollout/Waves.antt =====
-- internal/agentupdate/rollout.go: a rollout as it is asked for, `validateWaves` and `distinct`.
use seagull_backend_v.Base.{
  ℕ, max, ◌*◌, ◌^◌, ◌≤◌, ◌<◌, ◌≡◌, refl, Bool, true, false, not, ◌&&◌, ◌||◌, Option, none, some,
  List, [], ◌∷◌, arith, Text, text_Eq, nat_eq, ◌==◌, ◌!=◌, if◌then◌else◌, ltb, leb, length, is_nil,
  is_some, contains, All, Result, ok, ◌>>=◌, ◌>>◌, refuse_if, >>=-eq-ok,
}
use seagull_backend_v.Identifier.{valid_identifier}

abbrev pub max_waves : ℕ
max_waves = 16

abbrev pub max_canary_agents : ℕ
max_canary_agents = 100

abbrev pub max_running : ℕ
max_running = 10000

abbrev pub max_agent_id_length : ℕ
max_agent_id_length = 64

abbrev pub min_soak : ℕ
min_soak = 60 * 10 ^ 9

abbrev pub max_soak : ℕ
max_soak = 30 * 24 * 3600 * 10 ^ 9

-- What `IsValid` and `AsDuration` answer of a wave's soak; a negative duration, which is below
-- every bound that the code compares it with, is 0 here.
pub record Soak : Type 0 where
  pub is_valid : Bool
  pub as_duration : ℕ

pub record Wave : Type 0 where
  pub agent_ids : List Text
  pub percent : ℕ
  pub soak : Option Soak
  pub running : ℕ

pub record Rollout : Type 0 where
  pub tenant_id : Text
  pub version : Text
  pub agent_ids : List Text
  pub waves : List Wave
  pub failures : ℕ
  pub note : Text

pub data Error : Type 0 where
  no_actor malformed rollout_unknown rollout_state : Error

-- `distinct`: the agents named, each a usable identifier and none twice.
unfoldable pub distinct_from : List Text → List Text → Result Error (List Text)
distinct_from seen [] = ok seen
distinct_from seen (id ∷ ids) = do
  refuse_if (ltb max_agent_id_length (length id) || not (valid_identifier id)) malformed
  refuse_if (contains seen id) malformed
  distinct_from (id ∷ seen) ids

unfoldable pub distinct : List Text → Result Error (List Text)
distinct ids = distinct_from [] ids

-- Whether a wave names nobody the rollout does not.
unfoldable pub within_population : List Text → List Text → Bool
within_population population [] = true
within_population population (id ∷ ids) = contains population id && within_population population ids

-- The first `switch` of the loop, in its order.
unfoldable pub shaped : Wave → ℕ → Bool → Result Error (Unit {0})
shaped wave reached last = do
  refuse_if (not (is_nil wave.agent_ids) && ltb 0 wave.percent) malformed
  refuse_if (is_nil wave.agent_ids && wave.percent == 0) malformed
  refuse_if (ltb max_canary_agents (length wave.agent_ids)) malformed
  refuse_if (ltb 100 wave.percent || (ltb 0 wave.percent && leb wave.percent reached)) malformed
  refuse_if (last && wave.percent != 100) malformed
  refuse_if (last && (is_some wave.soak || wave.running != 0)) malformed

-- The second `switch`: what opens the next wave.
unfoldable pub soaked : Option Soak → ℕ → Result Error (Unit {0})
soaked none running = refuse_if (running != 0) malformed
soaked (some soak) running = do
  refuse_if (not soak.is_valid || ltb soak.as_duration min_soak || ltb max_soak soak.as_duration)
      malformed
  refuse_if (running == 0 || ltb max_running running) malformed

unfoldable pub validate_wave : List Text → Wave → ℕ → Bool → Result Error (Unit {0})
validate_wave population wave reached last = do
  shaped wave reached last
  canaries ← distinct wave.agent_ids
  refuse_if (not (is_nil population) && not (within_population population canaries)) malformed
  if last then ok tt else soaked wave.soak wave.running

-- The loop of `validateWaves`.
unfoldable pub validate_from : List Text → ℕ → List Wave → Result Error (Unit {0})
validate_from population reached [] = ok tt
validate_from population reached (wave ∷ waves) = do
  validate_wave population wave reached (is_nil waves)
  validate_from population (max reached wave.percent) waves

unfoldable pub validate_waves : List Wave → List Text → Result Error (Unit {0})
validate_waves waves population = do
  refuse_if (is_nil waves || ltb max_waves (length waves)) malformed
  validate_from population 0 waves

-- The share that the last wave opens, 0 where there is none.
unfoldable pub last_percent : List Wave → ℕ
last_percent [] = 0
last_percent (wave ∷ []) = wave.percent
last_percent (wave ∷ next ∷ waves) = last_percent (next ∷ waves)

-- What `validateWaves` makes sure of, without the loop.
pub record AreUsable (waves : List Wave) : Type 0 where
  pub some_wave : 0 < length waves
  pub bounded : length waves ≤ max_waves
  pub shares : All (λ (w : Wave). w.percent ≤ 100) waves
  pub whole : last_percent waves ≡ 100

validate_wave-percent :
    (population : List Text) (wave : Wave) (reached : ℕ) (last : Bool)
    → validate_wave population wave reached last ≡ ok tt
    → (wave.percent ≤ 100) × (last ≡ true → wave.percent ≡ 100)
unfolding validate_wave shaped
validate_wave-percent population wave reached last h = ground arith

validate_from-shares :
    (population : List Text) (reached : ℕ) (waves : List Wave)
    → validate_from population reached waves ≡ ok tt
    → All (λ (w : Wave). w.percent ≤ 100) waves
unfolding validate_from
validate_from-shares population reached [] h = tt
validate_from-shares population reached (wave ∷ waves) h =
    let (_, e, rest) = >>=-eq-ok (validate_wave population wave reached (is_nil waves)) _ h in
    (
      (validate_wave-percent population wave reached (is_nil waves) e).0,
      validate_from-shares population (max reached wave.percent) waves rest,
    )

validate_from-whole :
    (population : List Text) (reached : ℕ) (wave : Wave) (waves : List Wave)
    → validate_from population reached (wave ∷ waves) ≡ ok tt
    → last_percent (wave ∷ waves) ≡ 100
unfolding validate_from last_percent
validate_from-whole population reached wave [] h =
    let (_, e, rest) = >>=-eq-ok (validate_wave population wave reached true) _ h in
    (validate_wave-percent population wave reached true e).1 refl
validate_from-whole population reached wave (next ∷ waves) h =
    let (_, e, rest) = >>=-eq-ok (validate_wave population wave reached false) _ h in
    validate_from-whole population (max reached wave.percent) next waves rest

pub validate_waves-AreUsable :
    (waves : List Wave) (population : List Text)
    → validate_waves waves population ≡ ok tt
    → AreUsable waves
unfolding validate_waves
validate_waves-AreUsable [] population h = cc
validate_waves-AreUsable (wave ∷ waves) population h =
    let (_, e, rest) =
      >>=-eq-ok (refuse_if (ltb max_waves (length (wave ∷ waves))) malformed) _ h in
    record {
      some_wave = omega arith;
      bounded = ground arith;
      shares = validate_from-shares population 0 (wave ∷ waves) rest;
      whole = validate_from-whole population 0 wave waves rest;
    }
