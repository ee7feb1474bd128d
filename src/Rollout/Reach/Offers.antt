-- ===== src/Rollout/Reach/Offers.antt =====
-- internal/agentupdate: what the gate opens and pauses, and what agents are asked to run as a
-- rollout goes on.
use seagull_backend_v.Base.{
  ℕ, ◌+◌, ◌≤◌, ◌<◌, ◌≡◌, ◌↔◌, Bool, true, some, List, [], arith, Text, text_Eq, nat_eq, length,
  get_elem?,
}
use seagull_backend_v.Rollout.Waves.{Wave, Soak}
use seagull_backend_v.Rollout.Change.{active, paused, state_eq, Record, Progress}
use seagull_backend_v.Rollout.Gate.{
  open_next, gate, weigh_at, weigh, settled, changed, paused_by_gate,
}
use seagull_backend_v.Rollout.Reach.{reaches, offered, reaches-later}
use seagull_backend_v.Rollout.Reach.Steps.{Act, run, Stands, run-Keeps}

-- An agent that a rollout with usable waves reaches, standing at one of them, is asked to run
-- its release after any changes and readings that leave it active: opening waves, pausing and
-- resuming withdraw the release from nobody it reached.
pub offered-run :
    (digest : Text → ℕ) (held : Record) (acts : List Act) (agent : Text)
    → Stands held
    → reaches digest held.rollout_id held.rollout held.wave agent ≡ true
    → (run held acts).state ≡ active
    → offered digest (some (run held acts)) true agent ≡ held.rollout.version
unfolding offered
offered-run digest held acts agent s h a =
    let l = run-Keeps held acts s in
    let after = run held acts in
    let kept : reaches digest after.rollout_id after.rollout after.wave agent ≡ true =
      rw (l.same_id, l.same_rollout)
        (reaches-later digest held.rollout_id held.rollout held.wave after.wave agent s.usable
          l.onward h) in
    ground (arith, kept, l.same_rollout)

-- With a wave at its index, a rollout's gate opens the next one exactly when the rollout is
-- active, fewer agents failed than pause it, a later wave is left, and the wave has a soak that
-- has passed since it opened with enough agents running the release.
pub gate_open_iff :
    (held : Record) (p : Progress) (now : ℕ) (wave : Wave)
    → get_elem? held.rollout.waves held.wave ≡ some wave
    → (gate held p now ≡ open_next) ↔ (
        (held.state ≡ active)
        × (p.failed < held.rollout.failures)
        × (held.wave + 1 < length held.rollout.waves)
        × ((soak : Soak) × (wave.soak ≡ some soak) × (held.wave_opened_at + soak.as_duration ≤ now))
        × (wave.running ≤ p.running))
unfolding gate weigh_at weigh
gate_open_iff held p now wave e = (λ h. ground arith, λ h. ground arith)

-- A reading of an active rollout that counts as many failures as pause it leaves it paused at
-- the wave it was at, whatever else was read, and no agent is asked to run its release.
pub settled_failing :
    (digest : Text → ℕ) (held : Record) (p : Progress) (reason : Text) (now : ℕ) (member : Bool)
    (agent : Text)
    → held.state ≡ active
    → held.rollout.failures ≤ p.failed
    → ((settled held p reason now).state ≡ paused)
      × ((settled held p reason now).wave ≡ held.wave)
      × (offered digest (some (settled held p reason now)) member agent ≡ [])
unfolding settled gate paused_by_gate changed offered
settled_failing digest held p reason now member agent a f =
    (ground arith, ground arith, ground arith)
