-- ===== src/Rollout/Reach.antt =====
-- internal/agentupdate/rollout.go: which agents the waves opened so far reach, and the release
-- that an agent is asked to run. The first eight bytes of a SHA-256 digest, as a number, are a
-- parameter: nothing here depends on what they are.
pub mod Steps
pub mod Offers
use seagull_backend_v.Base.{
  ℕ, zero, suc, max, min, ◌+◌, ◌*◌, ◌%◌, ◌^◌, ◌≤◌, ◌<◌, ◌≡◌, ◌⊎◌, inl, inr, refl, sym, ap, ◌∙◌,
  Bool, true, false, not, ◌&&◌, ◌||◌, Option, none, some, List, [], ◌∷◌, ◌++◌, arith, Text, text_Eq,
  nat_eq, ◌==◌, ◌!=◌, if◌then◌else◌, ltb, leb, length, is_nil, contains, All, Bool-cases,
}
use seagull_backend_v.Rollout.Waves.{Wave, Rollout, AreUsable, last_percent, max_waves}
use seagull_backend_v.Rollout.Change.{State, active, state_eq, Record}

abbrev pub places : ℕ
places = 10000

unfoldable pub take {ℓ} : {A : Type ℓ} → ℕ → List A → List A
take zero xs = []
take (suc n) [] = []
take (suc n) (x ∷ xs) = x ∷ take n xs

-- The loop of `Reaches`: true where a wave names the agent, else the test of the share at its end.
unfoldable pub reached_by : ℕ → Text → ℕ → List Wave → Bool
reached_by standing agent share [] = ltb 0 share && ltb standing (share * 100 % 2 ^ 32)
reached_by standing agent share (wave ∷ waves) =
    contains wave.agent_ids agent || reached_by standing agent (max share wave.percent) waves

module _ (digest : Text → ℕ) where
  unfoldable pub place : Text → Text → ℕ
  place rollout_id agent_id = digest (rollout_id ++ (0 ∷ agent_id)) % places

  unfoldable pub reaches : Text → Rollout → ℕ → Text → Bool
  unfolding place reached_by take
  reaches rollout_id rollout opened agent_id =
      if is_nil rollout.waves
      then false
      else reached_by (place rollout_id agent_id) agent_id 0
          (take (min (opened + 1) (length rollout.waves)) rollout.waves)

  unfoldable pub offered : Option Record → Bool → Text → Text
  unfolding reaches
  offered none member agent_id = []
  offered (some held) member agent_id =
      if not member || held.state != active
      then []
      else if not (reaches held.rollout_id held.rollout held.wave agent_id)
      then []
      else held.rollout.version

  unfoldable pub wanted : Text → Option Record → Bool → Text → Text
  unfolding offered
  wanted assigned held member agent_id =
      if assigned != [] then assigned else offered held member agent_id

reached_by-share :
    (standing : ℕ) (agent : Text) (share : ℕ) (waves : List Wave)
    → All (λ (w : Wave). w.percent ≤ 100) waves
    → 0 < share
    → share ≤ 100
    → standing < share * 100
    → reached_by standing agent share waves ≡ true
unfolding reached_by
reached_by-share standing agent share [] a p l h = ground arith
reached_by-share standing agent share (wave ∷ waves) a p l h = ground (
  arith,
  reached_by-share standing agent (max share wave.percent) waves a.1 (omega arith)
      (omega (arith, a.0)) (omega arith),
)

All-take :
    (n : ℕ) (waves : List Wave)
    → All (λ (w : Wave). w.percent ≤ 100) waves
    → All (λ (w : Wave). w.percent ≤ 100) (take n waves)
unfolding take
All-take zero waves a = tt
All-take (suc n) [] a = tt
All-take (suc n) (wave ∷ waves) a = (a.0, All-take n waves a.1)

reached_by-longer :
    (standing : ℕ) (agent : Text) (share m n : ℕ) (waves : List Wave)
    → All (λ (w : Wave). w.percent ≤ 100) waves
    → share ≤ 100
    → m ≤ n
    → reached_by standing agent share (take m waves) ≡ true
    → reached_by standing agent share (take n waves) ≡ true
unfolding take reached_by
reached_by-longer standing agent share zero n waves a l le h =
    reached_by-share standing agent share (take n waves) (All-take n waves a) (ground arith) l
      (ground arith)
reached_by-longer standing agent share (suc m) zero waves a l le h = absurd (omega arith)
reached_by-longer standing agent share (suc m) (suc n) [] a l le h = h
reached_by-longer standing agent share (suc m) (suc n) (wave ∷ waves) a l le h = ground (
  arith,
  reached_by-longer standing agent (max share wave.percent) m n waves a.1 (omega (arith, a.0))
      (omega arith),
)

reached_by-whole :
    (standing : ℕ) (agent : Text) (share : ℕ) (waves : List Wave)
    → All (λ (w : Wave). w.percent ≤ 100) waves
    → share ≤ 100
    → last_percent waves ≡ 100
    → standing < places
    → reached_by standing agent share waves ≡ true
unfolding reached_by last_percent
reached_by-whole standing agent share [] a l e p = absurd (omega arith)
reached_by-whole standing agent share (wave ∷ []) a l e p = ground arith
reached_by-whole standing agent share (wave ∷ next ∷ waves) a l e p = ground (
  arith,
  reached_by-whole standing agent (max share wave.percent) (next ∷ waves) a.1 (omega (arith, a.0)) e
      p,
)

take-length : (waves : List Wave) → take (length waves) waves ≡ waves
unfolding take
take-length [] = refl
take-length (wave ∷ waves) = ap (λ ws. wave ∷ ws) (take-length waves)

-- The waves that are open reach whoever fewer of them reached: opening a wave of a usable rollout
-- withdraws its release from nobody.
pub reaches-later :
    (digest : Text → ℕ) (id : Text) (rollout : Rollout) (opened later : ℕ) (agent : Text)
    → AreUsable rollout.waves
    → opened ≤ later
    → reaches digest id rollout opened agent ≡ true
    → reaches digest id rollout later agent ≡ true
unfolding reaches
reaches-later digest id rollout opened later agent u l h = ground (
  arith,
  reached_by-longer (place digest id agent) agent 0 (min (opened + 1) (length rollout.waves))
      (min (later + 1) (length rollout.waves)) rollout.waves u.shares (omega arith) (omega arith),
)

-- Once every wave of a rollout with usable waves is open, it reaches every agent, whatever the
-- digest places it at.
pub reaches-all :
    (digest : Text → ℕ) (id : Text) (rollout : Rollout) (opened : ℕ) (agent : Text)
    → AreUsable rollout.waves
    → length rollout.waves ≤ opened + 1
    → reaches digest id rollout opened agent ≡ true
unfolding reaches
reaches-all digest id rollout opened agent u l =
    let every : min (opened + 1) (length rollout.waves) ≡ length rollout.waves = omega arith in
    rw (every, take-length rollout.waves)
      (ground (
        arith,
        reached_by-whole (place digest id agent) agent 0 rollout.waves u.shares (omega arith)
            u.whole (unfold place in omega arith),
      ))
