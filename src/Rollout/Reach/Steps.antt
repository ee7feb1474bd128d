-- ===== src/Rollout/Reach/Steps.antt =====
-- internal/agentupdate and internal/control/rollouts.go: what any sequence of operators' changes
-- and readings of the agents makes of a rollout.
use seagull_backend_v.Base.{
  ℕ, ◌+◌, ◌≤◌, ◌<◌, ◌≡◌, ◌≢◌, ◌⊎◌, inl, inr, refl, sym, ap, subst, ◌∙◌, Bool, true, false, List, [],
  ◌∷◌, arith, Text, text_Eq, nat_eq, if◌then◌else◌, length, Bool-cases, ok, err, Result-cases,
}
use seagull_backend_v.Rollout.Waves.{
  Rollout, AreUsable, validate_waves, validate_waves-AreUsable, distinct,
}
use seagull_backend_v.Rollout.Change.{
  active, state_eq, Record, Progress, Change, Action, acted, apply, in_force, accept_rollout,
}
use seagull_backend_v.Rollout.Gate.{
  hold, open_next, Step-cases, gate, settled, changed, opened_by_gate, paused_by_gate,
}

pub data Act : Type 0 where
  operator : Change → Act
  reading : Progress → Text → ℕ → Act

-- A change that is refused is not written, and only a rollout in force is read.
unfoldable pub step : Record → Act → Record
step held (operator c) = elim (apply c held) [ ok r ↦ r.0 | err e ↦ held ]
step held (reading p reason now) =
    let next = settled held p reason now in if in_force held.state then next else held

unfoldable pub run : Record → List Act → Record
run held [] = held
run held (act ∷ acts) = run (step held act) acts

-- A rollout whose waves are usable stands at one of them.
pub record Stands (held : Record) : Type 0 where
  pub usable : AreUsable held.rollout.waves
  pub at : held.wave < length held.rollout.waves

-- What no step undoes: what was asked, the waves that are open, and the end of a rollout.
pub record Keeps (held after : Record) : Type 0 where
  pub same_id : after.rollout_id ≡ held.rollout_id
  pub same_rollout : after.rollout ≡ held.rollout
  pub onward : held.wave ≤ after.wave
  pub within : after.wave < length held.rollout.waves
  pub ended : in_force held.state ≡ false → after.state ≡ held.state

accepted-AreUsable :
    (asked : Rollout) (actor : Text) (now : ℕ) (id : Text) {held : Record}
    → accept_rollout asked actor now id ≡ ok held
    → AreUsable asked.waves × (held.rollout ≡ asked) × (held.wave ≡ 0)
unfolding accept_rollout
accepted-AreUsable asked actor now id h = elim (Result-cases (distinct asked.agent_ids)) [
  | inr (e, d) ↦ absurd (ground arith)
  | inl (population, d) ↦
      let valid : validate_waves asked.waves population ≡ ok tt = ground arith in
      (validate_waves-AreUsable asked.waves population valid, ground arith, ground arith)
]

acted-Keeps :
    (a : Action) (now : ℕ) (held after : Record) (resumed : Bool)
    → acted a now held ≡ ok (after, resumed)
    → Stands held
    → Keeps held after
unfolding acted
acted-Keeps a now held after resumed h s = record {
  same_id = ground arith;
  same_rollout = ground arith;
  onward = ground (arith, s.at, s.usable.bounded);
  within = ground (arith, s.at, s.usable.bounded);
  ended = λ e. ground arith;
}

Keeps-refl : (held : Record) → Stands held → Keeps held held
Keeps-refl held s = record {
  same_id = refl;
  same_rollout = refl;
  onward = omega arith;
  within = s.at;
  ended = λ e. refl;
}

Keeps-Stands : (held after : Record) → Stands held → Keeps held after → Stands after
Keeps-Stands held after s l = record {
  usable = subst (λ r. AreUsable r.waves) (sym l.same_rollout) s.usable;
  at = subst (λ r. after.wave < length r.waves) (sym l.same_rollout) l.within;
}

operator-Keeps : (held : Record) (c : Change) → Stands held → Keeps held (step held (operator c))
unfolding step apply
operator-Keeps held c s = elim (Result-cases (acted c.action c.now held)) [
  | inr (e, h) ↦ rw (step, apply, h) (Keeps-refl held s)
  | inl ((after, resumed), h) ↦
      let l = acted-Keeps c.action c.now held after resumed h s in
      rw (step, apply, h)
        (record {
          same_id = l.same_id;
          same_rollout = l.same_rollout;
          onward = l.onward;
          within = l.within;
          ended = l.ended;
        })
]

-- A gate opens a wave only of a rollout that has another one.
gate-open-room :
    (held : Record) (p : Progress) (now : ℕ)
    → gate held p now ≡ open_next
    → held.wave + 1 < length held.rollout.waves
unfolding gate
gate-open-room held p now h = ground arith

gate-active :
    (held : Record) (p : Progress) (now : ℕ) → gate held p now ≢ hold → held.state ≡ active
unfolding gate
gate-active held p now h = ground arith

settled-Keeps :
    (held : Record) (p : Progress) (reason : Text) (now : ℕ)
    → Stands held
    → in_force held.state ≡ true
    → Keeps held (settled held p reason now)
unfolding settled opened_by_gate paused_by_gate changed
settled-Keeps held p reason now s f =
    elim (Step-cases (gate (record held { progress = p }) p now)) [
      | inl e ↦
          rw (settled, e)
            (record {
              same_id = refl;
              same_rollout = refl;
              onward = omega arith;
              within = s.at;
              ended = λ n. refl;
            })
      | inr (inl e) ↦
          rw (settled, e)
            (record {
              same_id = refl;
              same_rollout = refl;
              onward = omega arith;
              within = s.at;
              ended = λ n. ground arith;
            })
      | inr (inr e) ↦
          let room = gate-open-room (record held { progress = p }) p now e in
          rw (settled, e)
            (record {
              same_id = refl;
              same_rollout = refl;
              onward = omega (arith, room, s.usable.bounded);
              within = omega (arith, room, s.usable.bounded);
              ended = λ n. refl;
            })
    ]

step-Keeps : (held : Record) (act : Act) → Stands held → Keeps held (step held act)
unfolding step
step-Keeps held (operator c) s = operator-Keeps held c s
step-Keeps held (reading p reason now) s = elim (Bool-cases (in_force held.state)) [
  | inl f ↦ rw f (settled-Keeps held p reason now s f)
  | inr f ↦ rw f (Keeps-refl held s)
]

Keeps-trans : (a b c : Record) → Keeps a b → Keeps b c → Keeps a c
Keeps-trans a b c l m = record {
  same_id = m.same_id ∙ l.same_id;
  same_rollout = m.same_rollout ∙ l.same_rollout;
  onward = omega (arith, l.onward, m.onward);
  within = subst (λ r. c.wave < length r.waves) l.same_rollout m.within;
  ended = λ e. m.ended (ap in_force (l.ended e) ∙ e) ∙ l.ended e;
}

pub run-Keeps : (held : Record) (acts : List Act) → Stands held → Keeps held (run held acts)
unfolding run
run-Keeps held [] s = Keeps-refl held s
run-Keeps held (act ∷ acts) s =
    let l = step-Keeps held act s in
    Keeps-trans held (step held act) _ l
      (run-Keeps (step held act) acts (Keeps-Stands held (step held act) s l))

-- From the moment a rollout is accepted, whatever operators ask and whatever its agents report,
-- it stays the rollout that was asked, with usable waves and standing at one of them; its waves
-- only ever open; and once it has ended it stays as it ended.
pub accepted-run :
    (request : Rollout) (actor : Text) (now : ℕ) (id : Text) {held : Record} (acts more : List Act)
    → accept_rollout request actor now id ≡ ok held
    → let then_ = run held acts in
      let last = run then_ more in
      Stands then_
      × (then_.rollout ≡ request)
      × (then_.wave ≤ last.wave)
      × ((in_force then_.state ≡ true) ⊎ (last.state ≡ then_.state))
accepted-run request actor now id {held} acts more h =
    let (u, same, zero_wave) = accepted-AreUsable request actor now id h in
    let s : Stands held = record {
      usable = subst (λ r. AreUsable r.waves) (sym same) u;
      at =
          subst (λ r. held.wave < length r.waves) (sym same)
            (omega (arith, u.some_wave, zero_wave));
    } in
    let l = run-Keeps held acts s in
    let t = Keeps-Stands held (run held acts) s l in
    let m = run-Keeps (run held acts) more t in
    (
      t,
      l.same_rollout ∙ same,
      m.onward,
      elim (Bool-cases (in_force (run held acts).state)) [
        | inl going ↦ inl going
        | inr over ↦ inr (m.ended over)
      ],
    )
