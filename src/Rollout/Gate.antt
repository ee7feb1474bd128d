-- ===== src/Rollout/Gate.antt =====
-- internal/agentupdate/progress.go: what a rollout counts of its agents, and its gates.
use seagull_backend_v.Base.{
  ℕ, ◌+◌, ◌%◌, ◌^◌, ◌≡◌, ◌⊎◌, inl, inr, refl, Bool, true, false, ◌||◌, none, some, List, [], ◌∷◌,
  ◌++◌, Text, text_Eq, nat_eq, bytes, ◌!=◌, if◌then◌else◌, ltb, leb, length, get_elem?,
}
use seagull_backend_v.Rollout.Waves.{Wave}
use seagull_backend_v.Rollout.Change.{active, paused, state_eq, Progress, Record, next_wave}

pub data Outcome : Type 0 where
  pending running failed ineligible : Outcome

pub record Tally : Type 0 where
  pub progress : Progress
  pub failing : List Text

abbrev more : ℕ → ℕ
more n = (n + 1) % 2 ^ 32

-- `Tally.Count`.
unfoldable pub count : Tally → Text → Outcome → Bool → Tally
count t agent running acknowledged = record t {
  progress = record (t.progress) { running = more t.progress.running };
}
count t agent failed true = record t {
  progress = record (t.progress) { acknowledged = more t.progress.acknowledged };
}
count t agent failed false = record {
  progress = record (t.progress) { failed = more t.progress.failed };
  failing = t.failing ++ (agent ∷ []);
}
count t agent ineligible acknowledged = record t {
  progress = record (t.progress) { ineligible = more t.progress.ineligible };
}
count t agent pending acknowledged = record t {
  progress = record (t.progress) { pending = more t.progress.pending };
}

pub data Step : Type 0 where
  hold pause_now open_next : Step

-- What follows once the wave at the rollout's index is found: its soak and who runs the release.
unfoldable pub weigh : Record → Progress → ℕ → Wave → Step
weigh held p now wave = elim (wave.soak) [
  | none ↦ hold
  | some soak ↦
      if ltb now (held.wave_opened_at + soak.as_duration) || ltb p.running wave.running
      then hold
      else open_next
]

-- `waves[index]`, which is there once the index is known not to be the last one.
unfoldable pub weigh_at : Record → Progress → ℕ → Step
weigh_at held p now = elim (get_elem? held.rollout.waves held.wave) [
  | none ↦ hold
  | some wave ↦ weigh held p now wave
]

-- `Gate`, less the sentence that says why.
unfoldable pub gate : Record → Progress → ℕ → Step
gate held p now =
    if held.state != active
    then hold
    else if leb held.rollout.failures p.failed
    then pause_now
    else if leb (length held.rollout.waves) (held.wave + 1)
    then hold
    else weigh_at held p now

-- `changed`: who changed it, when and why, on a record that is otherwise the one that was read.
unfoldable pub changed : Record → Text → ℕ → Record
changed held reason now = record held {
  changed_by = bytes "platform";
  changed_at = now;
  reason = reason;
}

unfoldable pub opened_by_gate : Record → Text → ℕ → Record
unfolding changed
opened_by_gate held reason now = record (changed held reason now) {
  wave = next_wave held.wave;
  wave_opened_at = now;
}

unfoldable pub paused_by_gate : Record → Text → ℕ → Record
unfolding changed
paused_by_gate held reason now = record (changed held reason now) { state = paused }

-- What one reading of a rollout settles (internal/control/rollouts.go, the end of `settle`).
unfoldable pub settled : Record → Progress → Text → ℕ → Record
unfolding gate opened_by_gate paused_by_gate
settled held p reason now =
    let next = record held { progress = p } in
    elim (gate next p now) [
      | hold ↦ next
      | pause_now ↦ paused_by_gate next reason now
      | open_next ↦ opened_by_gate next reason now
    ]

pub Step-cases : (s : Step) → (s ≡ hold) ⊎ (s ≡ pause_now) ⊎ (s ≡ open_next)
Step-cases hold = inl refl
Step-cases pause_now = inr (inl refl)
Step-cases open_next = inr (inr refl)
