-- ===== src/Rollout/Change.antt =====
-- internal/agentupdate/rollout.go: a rollout's record, and what an operator's change makes of it.
use seagull_backend_v.Base.{
  ℕ, ◌+◌, ◌%◌, ◌^◌, Bool, true, false, not, ◌&&◌, ◌||◌, Text, text_Eq, nat_eq, Eq, eq_of,
  ℕ_discrete, ◌==◌, ◌!=◌, ltb, leb, length, is_nil, is_some, Result, ok, ◌>>=◌, ◌>>◌, refuse_if,
}
use seagull_backend_v.Release.Version.{parse_version}
use seagull_backend_v.Identifier.{valid_identifier}
use seagull_backend_v.Rollout.Waves.{
  Rollout, Error, no_actor, malformed, rollout_state, distinct, validate_waves,
}

pub data State : Type 0 where
  unspecified active paused aborted superseded : State

unfoldable pub State-discrete : Discrete State
State-discrete = hlevel ℕ_discrete

instance abbrev pub state_eq : Eq State
state_eq = eq_of State-discrete

pub record Progress : Type 0 where
  pub agents : ℕ
  pub reached : ℕ
  pub pinned : ℕ
  pub pending : ℕ
  pub running : ℕ
  pub failed : ℕ
  pub acknowledged : ℕ
  pub ineligible : ℕ

abbrev pub no_progress : Progress
no_progress = record {
  agents = 0;
  reached = 0;
  pinned = 0;
  pending = 0;
  running = 0;
  failed = 0;
  acknowledged = 0;
  ineligible = 0;
}

pub record Record : Type 0 where
  pub rollout_id : Text
  pub rollout : Rollout
  pub state : State
  pub wave : ℕ
  pub wave_opened_at : ℕ
  pub created_by : Text
  pub created_at : ℕ
  pub changed_by : Text
  pub changed_at : ℕ
  pub reason : Text
  pub progress : Progress

abbrev pub max_note_length : ℕ
max_note_length = 512

abbrev pub max_rollout_agents : ℕ
max_rollout_agents = 10000

abbrev pub max_failures : ℕ
max_failures = 10000

unfoldable pub attributable : Text → Text → Result Error (Unit {0})
attributable actor note = do
  refuse_if (is_nil actor) no_actor
  refuse_if (ltb max_note_length (length note)) malformed

-- `AcceptRollout`, with the identifier drawn at random as its last argument.
unfoldable pub accept_rollout : Rollout → Text → ℕ → Text → Result Error Record
accept_rollout asked actor now id = do
  attributable actor asked.note
  refuse_if
      (is_nil asked.tenant_id
        || ltb 64 (length asked.tenant_id)
        || not (valid_identifier asked.tenant_id))
      malformed
  refuse_if (ltb max_rollout_agents (length asked.agent_ids)) malformed
  refuse_if (asked.failures == 0 || ltb max_failures asked.failures) malformed
  refuse_if (not (is_some (parse_version asked.version))) malformed
  population ← distinct asked.agent_ids
  validate_waves asked.waves population
  ok (record {
    rollout_id = id;
    rollout = asked;
    state = active;
    wave = 0;
    wave_opened_at = now;
    created_by = actor;
    created_at = now;
    changed_by = actor;
    changed_at = now;
    reason = asked.note;
    progress = no_progress;
  })

pub data Action : Type 0 where
  pause resume advance abort : Action

pub record Change : Type 0 where
  pub tenant_id : Text
  pub rollout_id : Text
  pub action : Action
  pub actor : Text
  pub now : ℕ
  pub note : Text

unfoldable pub in_force : State → Bool
in_force s = s == active || s == paused

abbrev pub next_wave : ℕ → ℕ
next_wave wave = (wave + 1) % 2 ^ 32

-- The cases of the `switch` of `Apply`: the record with what the action writes, and whether it
-- resumed the rollout.
unfoldable pub acted : Action → ℕ → Record → Result Error (Record × Bool)
unfolding in_force
acted pause now held = do
  refuse_if (held.state != active) rollout_state
  ok (record held { state = paused }, false)
acted resume now held = do
  refuse_if (held.state != paused) rollout_state
  ok (record held { state = active }, true)
acted advance now held = do
  refuse_if (held.state != active) rollout_state
  refuse_if (leb (length held.rollout.waves) (held.wave + 1)) rollout_state
  ok (record held { wave = next_wave held.wave; wave_opened_at = now }, false)
acted abort now held = do
  refuse_if (held.state != active && held.state != paused) rollout_state
  ok (record held { state = aborted }, false)

-- `AcceptedChange.Apply`.
unfoldable pub apply : Change → Record → Result Error (Record × Bool)
apply c held = do
  r ← acted c.action c.now held
  ok (record r.0 { changed_by = c.actor; changed_at = c.now; reason = c.note }, r.1)
