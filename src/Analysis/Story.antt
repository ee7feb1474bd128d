-- ===== src/Analysis/Story.antt =====
-- internal/analysis/sequence.go: a story is found by the event that makes it whole, once.
use seagull_backend_v.Base.{
  ℕ, suc, max, ◌+◌, ◌-◌, ◌≤◌, ◌<◌, ◌≡◌, ◌≢◌, refl, sym, ap, ap₂, ◌∙◌, subst, Bool, true, false, not,
  ◌&&◌, List, [], ◌∷◌, nat_eq, ◌==◌, if◌then◌else◌, ltb, length, All, Bool-cases, inl, inr, arith,
}
use seagull_backend_v.DetectionState.Observation.{EventName, event_Eq, event_eq_iff, Observation}
use seagull_backend_v.DetectionState.Window.{Held, last_of, place, cutoff_of, observe}
use seagull_backend_v.DetectionState.Window.Shape.{has_event, WellFormed, has_event-place}
use seagull_backend_v.DetectionState.Window.Observe.{
  in_window-later, All-mono, length-place, observe-WellFormed,
}
use seagull_backend_v.DetectionState.Window.Order.{observe_room, place_comm, cutoff-observe}
use seagull_backend_v.Analysis.Sequence.{
  stands, told_from, ordered, Tells, whole, skip, take, ordered_iff,
}
use seagull_backend_v.Analysis.Completed.{Outcome, nameless, judge, follow, follow_timely, told}

unfoldable pub is_told : List Observation → ℕ → Bool
unfolding ordered
is_told window stages = (ordered window stages nameless).1

unfoldable pub times : Outcome → ℕ
times (told story) = 1
times _ = 0

abbrev pub one_if : Bool → ℕ
one_if true = 1
one_if false = 0

-- No observation of the window lacks a name.
abbrev pub Named : List Observation → Type 0
Named window = All (λ q. q.event ≢ nameless) window

unstanding : (stages : ℕ) (o : Observation) (stage : ℕ) → stands stages o.event o stage ≡ false
unfolding stands
unstanding stages o stage = ground (arith, event_eq_iff o.event o.event)

Tells-place :
    (stages : ℕ) (o : Observation) (window : List Observation) (stage : ℕ)
    → Tells stages nameless window stage
    → Tells stages nameless (place o window) stage
unfolding place
Tells-place stages o window stage (whole e) = whole e
Tells-place stages o (p ∷ os) stage (skip t) = elim (Bool-cases (ltb o.time p.time)) [
  | inl e ↦ rw e (skip (skip t))
  | inr e ↦ rw e (skip (Tells-place stages o os stage t))
]
Tells-place stages o (p ∷ os) stage (take s t) = elim (Bool-cases (ltb o.time p.time)) [
  | inl e ↦ rw e (skip (take s t))
  | inr e ↦ rw e (take s (Tells-place stages o os (suc stage) t))
]

module _ (stages : ℕ) (e : EventName) where
  told_from_done :
      (window : List Observation) (stage : ℕ)
      → (stage == stages) ≡ true
      → told_from stages e window stage ≡ []
  unfolding told_from
  told_from_done [] stage d = refl
  told_from_done (o ∷ os) stage d = ground arith

  told_from_step :
      (o : Observation) (window : List Observation) (stage : ℕ)
      → told_from stages e (o ∷ window) stage ≡ (
          if stage == stages
          then []
          else if stands stages e o stage
          then o ∷ told_from stages e window (suc stage)
          else told_from stages e window stage)
  unfolding told_from
  told_from_step o window stage = ground arith

  told_from_skip :
      (o : Observation) (window : List Observation) (stage : ℕ)
      → stands stages e o stage ≡ false
      → told_from stages e (o ∷ window) stage ≡ told_from stages e window stage
  unfolding told_from
  told_from_skip o window stage s = ground (arith, told_from_done window stage)

  stands_other :
      (o : Observation) (stage : ℕ)
      → (o.event == e) ≡ false
      → o.event ≢ nameless
      → stands stages e o stage ≡ stands stages nameless o stage
  unfolding stands
  stands_other o stage d m = ground (arith, event_eq_iff o.event nameless)

told_from_other :
    (stages : ℕ) (e : EventName) (window : List Observation) (stage : ℕ)
    → has_event e window ≡ false
    → Named window
    → told_from stages e window stage ≡ told_from stages nameless window stage
unfolding has_event
told_from_other stages e [] stage n m = unfold told_from in refl
told_from_other stages e (o ∷ os) stage n m =
    let here = stands_other stages e o stage (ground arith) m.0 in
    let later = told_from_other stages e os (suc stage) (ground arith) m.1 in
    let past = told_from_other stages e os stage (ground arith) m.1 in
    rw
      (
        told_from_step stages e o os stage,
        told_from_step stages nameless o os stage,
        here,
        later,
        past,
      )
      refl

-- Leaving an event out of a window that it was put in is leaving it as it was.
told_from-place :
    (stages : ℕ) (o : Observation) (window : List Observation) (stage : ℕ)
    → has_event o.event window ≡ false
    → Named window
    → told_from stages o.event (place o window) stage ≡ told_from stages nameless window stage
unfolding place has_event
told_from-place stages o [] stage n m =
    told_from_skip stages o.event o [] stage (unstanding stages o stage) ∙ unfold told_from in refl
told_from-place stages o (p ∷ os) stage n m = elim (Bool-cases (ltb o.time p.time)) [
  | inl e ↦ rw e (
      told_from_skip stages o.event o (p ∷ os) stage (unstanding stages o stage)
      ∙ told_from_other stages o.event (p ∷ os) stage n m)
  | inr e ↦
      let here = stands_other stages o.event p stage (ground arith) m.0 in
      let later = told_from-place stages o os (suc stage) (ground arith) m.1 in
      let past = told_from-place stages o os stage (ground arith) m.1 in
      rw e (
        rw
          (
            told_from_step stages o.event p (place o os) stage,
            told_from_step stages nameless p os stage,
            here,
            later,
            past,
          )
          refl)
]

is_told-place :
    (stages : ℕ) (o : Observation) (window : List Observation)
    → is_told window stages ≡ true
    → is_told (place o window) stages ≡ true
unfolding is_told
is_told-place stages o window h =
    (ordered_iff (place o window) stages nameless).1
      (Tells-place stages o window 0 ((ordered_iff window stages nameless).0 h))

left_out :
    (stages : ℕ) (o : Observation) (window : List Observation)
    → has_event o.event window ≡ false
    → Named window
    → (ordered (place o window) stages o.event).1 ≡ is_told window stages
unfolding is_told ordered
left_out stages o window n m =
    ap (λ xs. length xs == stages) (told_from-place stages o window 0 n m)

-- A new event finds the story exactly where its window tells it and did not before.
times-judge :
    (stages : ℕ) (o : Observation) (window : List Observation)
    → has_event o.event window ≡ false
    → Named window
    → times (judge stages (place o window) o.event)
      ≡ one_if (is_told (place o window) stages && not (is_told window stages))
unfolding judge times
times-judge stages o window n m =
    let left = left_out stages o window n m in rw left (unfold is_told in ground arith)

times-follow :
    (stages : ℕ) (h : Held) (o : Observation) (ceiling : ℕ)
    → WellFormed h
    → Named h.seen
    → length h.seen < ceiling
    → has_event o.event h.seen ≡ false
    → All (λ q. cutoff_of h o ≤ q.time) h.seen
    → cutoff_of h o ≤ o.time
    → times (follow stages h o ceiling).1
      ≡ one_if (is_told (place o h.seen) stages && not (is_told h.seen stages))
times-follow stages h o ceiling w m r n k t =
    ap times (follow_timely stages h o ceiling w n t)
    ∙ ap (λ window. times (judge stages window o.event))
        (observe_room h o ceiling w n t r ∙ ap (place o) (in_window-later (cutoff_of h o) h.seen k))
    ∙ times-judge stages o h.seen n m

All-place :
    (P : Observation → Type 0) (o : Observation) (window : List Observation)
    → P o
    → All P window
    → All P (place o window)
unfolding place
All-place P o [] e h = (e, tt)
All-place P o (p ∷ os) e h = elim (Bool-cases (ltb o.time p.time)) [
  | inl t ↦ rw t (e, h)
  | inr t ↦ rw t (h.0, All-place P o os e h.1)
]

-- How many times two events, one after the other, find the story.
unfoldable pub found_by : ℕ → Held → Observation → Observation → ℕ → ℕ
unfolding times follow
found_by stages h o p ceiling =
    let first = follow stages h o ceiling in
    times first.1 + times (follow stages first.0 p ceiling).1

-- The newest instant of a key once two events have arrived.
abbrev pub newest_of : Held → Observation → Observation → ℕ
newest_of h o p = max p.time (max o.time (last_of h.seen))

-- Two events that a key takes whichever is first: both new, named, in time, of different names
-- and instants, in a key with room for both that forgets nothing by then.
pub record AreApart (h : Held) (o p : Observation) (ceiling : ℕ) : Type 0 where
  pub sound : WellFormed h
  pub named : Named (o ∷ p ∷ h.seen)
  pub new : (has_event o.event h.seen ≡ false) × (has_event p.event h.seen ≡ false)
  pub events : o.event ≢ p.event
  pub instants : o.time ≢ p.time
  pub room : suc (length h.seen) < ceiling
  pub inside : All (λ q. newest_of h o p - h.window ≤ q.time) (o ∷ p ∷ h.seen)

AreApart_comm :
    (h : Held) (o p : Observation) (ceiling : ℕ) → AreApart h o p ceiling → AreApart h p o ceiling
AreApart_comm h o p ceiling a = record {
  sound = a.sound;
  named = (a.named.1.0, (a.named.0, a.named.1.1));
  new = (a.new.1, a.new.0);
  events = λ e. a.events (sym e);
  instants = λ e. a.instants (sym e);
  room = a.room;
  inside =
      let same : newest_of h p o - h.window ≤ newest_of h o p - h.window = omega arith in
      let within = All-mono _ _ (o ∷ p ∷ h.seen) same a.inside in
      (within.1.0, (within.0, within.1.1));
}

found_by_first :
    (stages : ℕ) (h : Held) (o p : Observation) (ceiling : ℕ)
    → AreApart h o p ceiling
    → is_told h.seen stages ≡ false
    → found_by stages h o p ceiling ≡ one_if (is_told (place p (place o h.seen)) stages)
unfolding found_by follow
found_by_first stages h o p ceiling a u =
    ap₂ (λ m n. m + n)
      (times-follow stages h o ceiling a.sound a.named.1.1 (omega (arith, a.room)) a.new.0 begins
        timely)
      (times-follow stages after p ceiling (observe-WellFormed h o ceiling a.sound)
        (subst Named (sym left) (All-place _ o h.seen a.named.0 a.named.1.1))
        (rw left (omega (arith, a.room, length-place o h.seen)))
        (rw (left, has_event-place p.event o h.seen)
          (ground (arith, a.new.1, a.events, event_eq_iff o.event p.event)))
        (rw (moved, left) (All-place _ o h.seen a.inside.0 a.inside.1.1)) (rw moved a.inside.1.0))
    ∙ rw (left, u) (ground (arith, is_told-place stages p (place o h.seen)))
  where
    within : cutoff_of h o ≤ newest_of h o p - h.window
    within = unfold cutoff_of in omega arith

    begins : All (λ q. cutoff_of h o ≤ q.time) h.seen
    begins = All-mono (cutoff_of h o) _ h.seen within a.inside.1.1

    timely : cutoff_of h o ≤ o.time
    timely = omega (arith, within, a.inside.0)

    after : Held
    after = (observe h o ceiling).0

    left : after.seen ≡ place o h.seen
    left =
        observe_room h o ceiling a.sound a.new.0 timely (omega (arith, a.room))
        ∙ ap (place o) (in_window-later (cutoff_of h o) h.seen begins)

    moved : cutoff_of after p ≡ newest_of h o p - h.window
    moved = cutoff-observe h o p ceiling a.sound a.new.0 timely (omega (arith, a.room))

-- Two events that a key takes whichever is first (new, named, in time, of different names and
-- instants, with room for both, when nothing is forgotten by then) find a story that was not
-- told before them once if the window that holds both tells it and never if it does not, in
-- either order.
pub found_by_either_order :
    (stages : ℕ) (h : Held) (o p : Observation) (ceiling : ℕ)
    → AreApart h o p ceiling
    → is_told h.seen stages ≡ false
    → let whole = one_if (is_told (place p (place o h.seen)) stages) in
      (found_by stages h o p ceiling ≡ whole) × (found_by stages h p o ceiling ≡ whole)
found_by_either_order stages h o p ceiling a u = (
  found_by_first stages h o p ceiling a u,
  found_by_first stages h p o ceiling (AreApart_comm h o p ceiling a) u
      ∙ ap (λ window. one_if (is_told window stages))
          (place_comm p o h.seen (λ e. a.instants (sym e))),
)
