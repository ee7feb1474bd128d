-- ===== src/Examples/Rollout.antt =====
-- A rollout of internal/agentupdate that opens to one agent first and then to all.
use seagull_backend_v.Base.{
  ℕ, ◌+◌, ◌*◌, ◌^◌, ◌≤◌, ◌<◌, ◌≡◌, ◌↔◌, ◌⊎◌, refl, true, none, some, [], ◌∷◌, arith, Text, bytes,
  ok, text_eq, contains, length,
}
use seagull_backend_v.Identifier.{valid_identifier, matches, every}
use seagull_backend_v.Rollout.Waves.{
  Wave, Soak, Rollout, AreUsable, validate_waves, validate_from, validate_wave, shaped, soaked,
  distinct, distinct_from, last_percent,
}
use seagull_backend_v.Rollout.Change.{
  Record, Change, Progress, active, paused, State-discrete, state_eq, accept_rollout, attributable,
  no_progress, Action, pause, advance, in_force, apply, acted,
}
use seagull_backend_v.Rollout.Gate.{gate, open_next, settled}
use seagull_backend_v.Rollout.Reach.{reaches, offered, reaches-all, reached_by, take}
use seagull_backend_v.Rollout.Reach.Steps.{operator, run, step, Stands, accepted-run}
use seagull_backend_v.Rollout.Reach.Offers.{offered-run, gate_open_iff, settled_failing}
use seagull_backend_v.Release.Version.{
  parse_version, parse_version_after, cut_at, core_of, split, numeric, decimal,
}
use seagull_backend_v.Rollout.Names.{parse_state, state_name}

abbrev canary : Wave
canary = record {
  agent_ids = bytes "a1" ∷ [];
  percent = 0;
  soak = some (record { is_valid = true; as_duration = 60 * 10 ^ 9 });
  running = 1;
}

abbrev everyone : Wave
everyone = record { agent_ids = []; percent = 100; soak = none; running = 0 }

abbrev request : Rollout
request = record {
  tenant_id = bytes "acme";
  version = bytes "v2.0.0";
  agent_ids = [];
  waves = canary ∷ everyone ∷ [];
  failures = 2;
  note = [];
}

abbrev started : Record
started = record {
  rollout_id = bytes "r1";
  rollout = request;
  state = active;
  wave = 0;
  wave_opened_at = 5;
  created_by = bytes "op";
  created_at = 5;
  changed_by = bytes "op";
  changed_at = 5;
  reason = [];
  progress = no_progress;
}

abbrev asks : Action → Change
asks a = record {
  tenant_id = bytes "acme";
  rollout_id = bytes "r1";
  action = a;
  actor = bytes "op";
  now = 7;
  note = [];
}

abbrev digest : Text → ℕ
digest s = length s

abbrev read_failing : Progress
read_failing = record {
  agents = 9;
  reached = 3;
  pinned = 0;
  pending = 0;
  running = 1;
  failed = 2;
  acknowledged = 0;
  ineligible = 0;
}

abbrev read_well : Progress
read_well = record {
  agents = 9;
  reached = 1;
  pinned = 0;
  pending = 0;
  running = 1;
  failed = 0;
  acknowledged = 0;
  ineligible = 0;
}

starts : accept_rollout request (bytes "op") 5 (bytes "r1") ≡ ok started
unfolding accept_rollout parse_version parse_version_after cut_at core_of split numeric decimal
    attributable validate_waves validate_from validate_wave shaped soaked distinct distinct_from
    valid_identifier matches every contains
starts = refl

usable : AreUsable request.waves
unfolding last_percent
usable = record {
  some_wave = omega arith;
  bounded = omega arith;
  shares = (omega arith, (omega arith, tt));
  whole = refl;
}

stands : Stands started
stands = record { usable = usable; at = omega arith }

accepted-run_example :
    let then_ = run started (operator (asks advance) ∷ []) in
    let last = run then_ (operator (asks pause) ∷ []) in
    Stands then_
    × (then_.rollout ≡ request)
    × (then_.wave ≤ last.wave)
    × ((in_force then_.state ≡ true) ⊎ (last.state ≡ then_.state))
accepted-run_example =
    accepted-run request (bytes "op") 5 (bytes "r1") (operator (asks advance) ∷ [])
      (operator (asks pause) ∷ []) starts

reached : reaches digest (bytes "r1") request 0 (bytes "a1") ≡ true
unfolding reaches reached_by take contains text_eq
reached = refl

advanced : (run started (operator (asks advance) ∷ [])).state ≡ active
unfolding run step apply acted State-discrete
advanced = refl

offered-run_example :
    offered digest (some (run started (operator (asks advance) ∷ []))) true (bytes "a1")
    ≡ bytes "v2.0.0"
offered-run_example =
    offered-run digest started (operator (asks advance) ∷ []) (bytes "a1") stands reached advanced

reaches-all_example : reaches digest (bytes "r1") request 1 (bytes "a2") ≡ true
reaches-all_example = reaches-all digest (bytes "r1") request 1 (bytes "a2") usable (omega arith)

gate_open_iff_example : (gate started read_well (5 + 60 * 10 ^ 9) ≡ open_next) ↔ (
    (active ≡ active)
    × (0 < 2)
    × (1 < 2)
    × ((soak : Soak) × (canary.soak ≡ some soak) × (5 + soak.as_duration ≤ 5 + 60 * 10 ^ 9))
    × (1 ≤ 1))
gate_open_iff_example = gate_open_iff started read_well (5 + 60 * 10 ^ 9) canary refl

settled_failing_example :
    ((settled started read_failing [] 9).state ≡ paused)
    × ((settled started read_failing [] 9).wave ≡ 0)
    × (offered digest (some (settled started read_failing [] 9)) true (bytes "a1") ≡ [])
settled_failing_example =
    settled_failing digest started read_failing [] 9 true (bytes "a1") refl (omega arith)

paused_is_read : parse_state (bytes "paused") ≡ some paused
unfolding parse_state state_name text_eq
paused_is_read = refl
