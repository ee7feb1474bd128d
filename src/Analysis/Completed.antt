-- ===== src/Analysis/Completed.antt =====
-- internal/analysis/sequence.go, `completed`, and internal/analysis/count.go, `reached`, once the
-- key of the event is open: what the engine makes of one event of the key.
use seagull_backend_v.Base.{
  ℕ, ◌≤◌, ◌≡◌, refl, ◌∙◌, false, not, List, [], nat_eq, if◌then◌else◌, ltb, arith,
}
use seagull_backend_v.DetectionState.Observation.{EventName, event_Eq, Observation, State}
use seagull_backend_v.DetectionState.Window.{
  Held, Fold, cutoff_of, observe_new, observe, in_time, too_late,
}
use seagull_backend_v.DetectionState.Window.Shape.{has_event, WellFormed}
use seagull_backend_v.Analysis.Stages.{any, stages_text}
use seagull_backend_v.Analysis.Sequence.{ordered}

-- `EventName{}`, which no event has: `Observation.Validate` refuses it.
abbrev pub nameless : EventName
nameless = record { agent = []; id = [] }

pub data Outcome : Type 0 where
  untouched refused repeated staged : Outcome
  told : List Observation → Outcome

-- After the fold: whether the window tells the story, and did not without this event.
unfoldable pub judge : ℕ → List Observation → EventName → Outcome
unfolding ordered
judge stages window event =
    let (story, complete) = ordered window stages nameless in
    if not complete then staged else if (ordered window stages event).1 then staged else told story

unfoldable pub answer : ℕ → Observation → Held × State × Fold → Outcome
unfolding judge
answer stages seen (after, state, too_late) = refused
answer stages seen (after, state, in_time) =
    if state.repeated then repeated else judge stages after.seen seen.event

-- The part of `completed` after the event is known to satisfy some stage.
unfoldable pub follow : ℕ → Held → Observation → ℕ → Held × Outcome
unfolding observe answer
follow stages h seen ceiling =
    let fold = observe h seen ceiling in (fold.0, answer stages seen fold)

-- `completed`, of an event that satisfies the stages `reached`.
unfoldable pub completed : ℕ → ℕ → Held → Observation → ℕ → Held × Outcome
unfolding any stages_text follow
completed stages reached h o ceiling =
    if not (any reached)
    then (h, untouched)
    else follow stages h (record o { value = stages_text reached }) ceiling

pub data Tally : Type 0 where
  late again counted reached : Tally

unfoldable pub tally : ℕ → Held × State × Fold → Tally
tally at_least (after, state, too_late) = late
tally at_least (after, state, in_time) =
    if state.repeated then again else if ltb state.count at_least then counted else reached

-- `reached`, of a rule that counts to `at_least`.
unfoldable pub count_reached : ℕ → Held → Observation → ℕ → Held × Tally
unfolding observe tally
count_reached at_least h o ceiling = let fold = observe h o ceiling in (fold.0, tally at_least fold)

pub timely_fold :
    (h : Held) (o : Observation) (ceiling : ℕ)
    → WellFormed h
    → has_event o.event h.seen ≡ false
    → cutoff_of h o ≤ o.time
    → ((observe h o ceiling).2 ≡ in_time) × ((observe h o ceiling).1.repeated ≡ false)
unfolding observe observe_new
timely_fold h o ceiling w n t =
    let timely : ltb o.time (cutoff_of h o) ≡ false = ground arith in
    rw (w.events o.event ∙ n, timely) (refl, refl)

-- What the engine answers to a new event that is in time.
pub follow_timely :
    (stages : ℕ) (h : Held) (o : Observation) (ceiling : ℕ)
    → WellFormed h
    → has_event o.event h.seen ≡ false
    → cutoff_of h o ≤ o.time
    → (follow stages h o ceiling).1 ≡ judge stages (observe h o ceiling).0.seen o.event
unfolding follow answer
follow_timely stages h o ceiling w n t =
    let (timely, new) = timely_fold h o ceiling w n t in ground arith
