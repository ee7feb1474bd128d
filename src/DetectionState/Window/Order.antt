-- ===== src/DetectionState/Window/Order.antt =====
-- The order in which a key's events arrive: the window is a function of the events in it.
use seagull_backend_v.Base.{
  ℕ, suc, max, ◌+◌, ◌-◌, ◌≤◌, ◌<◌, ◌≡◌, ◌≢◌, refl, sym, subst, ap, ap₂, ◌∙◌, false, List, [], ◌∷◌,
  nat_eq, ltb, leb, length, Bool-cases, inl, inr, arith,
}
use seagull_backend_v.DetectionState.Observation.{event_Eq, event_eq_iff, Observation}
use seagull_backend_v.DetectionState.Window.{
  Held, last_of, place, insert_seen, discard, expire_from, expire, trim_from, cutoff_of,
  observe_new, observe,
}
use seagull_backend_v.DetectionState.Window.Shape.{has_event, Sorted, WellFormed, has_event-place}
use seagull_backend_v.DetectionState.Window.Observe.{
  in_window, observe-seen, expire-seen, expire-WellFormed, observe-WellFormed, length-in_window,
  newest-all, length-place, has_event-in_window, in_window-later, All-mono,
}

discard_window :
    (h : Held) (o : Observation) (os : List Observation) → (discard h o os).window ≡ h.window
unfolding discard
discard_window h o os = refl

expire_from-window :
    (c : ℕ) (os : List Observation) (h : Held) → (expire_from c os h).window ≡ h.window
unfolding expire_from
expire_from-window c [] h = refl
expire_from-window c (o ∷ os) h =
    ground (arith, expire_from-window c os (discard h o os), discard_window h o os)

trim_from-window : (c : ℕ) (os : List Observation) (h : Held) → (trim_from c os h).window ≡ h.window
unfolding trim_from
trim_from-window c [] h = refl
trim_from-window c (o ∷ os) h =
    ground (arith, trim_from-window c os (discard h o os), discard_window h o os)

expire_window : (h : Held) (c : ℕ) → (expire h c).window ≡ h.window
unfolding expire
expire_window h c = expire_from-window c h.seen h

insert_seen_window : (h : Held) (o : Observation) → (insert_seen h o).window ≡ h.window
unfolding insert_seen
insert_seen_window h o = refl

observe_window :
    (h : Held) (o : Observation) (ceiling : ℕ) → (observe h o ceiling).0.window ≡ h.window
unfolding observe observe_new
observe_window h o ceiling =
    let kept = expire h (cutoff_of h o) in
    ground (
      arith,
      expire_window h (cutoff_of h o),
      insert_seen_window kept o,
      trim_from-window ceiling (insert_seen kept o).seen (insert_seen kept o),
    )

last_of-later :
    (p : Observation) (os : List Observation) → Sorted (p ∷ os) → p.time ≤ last_of (p ∷ os)
unfolding last_of
last_of-later p [] s = omega arith
last_of-later p (q ∷ os) s = omega (arith, s.0.0, last_of-later q os s.1)

last_of-cons-place :
    (p o : Observation) (os : List Observation) → last_of (p ∷ place o os) ≡ last_of (place o os)
unfolding last_of place
last_of-cons-place p o [] = refl
last_of-cons-place p o (q ∷ os) = ground arith

last_of-place :
    (o : Observation) (os : List Observation)
    → Sorted os
    → last_of (place o os) ≡ max o.time (last_of os)
unfolding place last_of
last_of-place o [] s = omega arith
last_of-place o (p ∷ []) s = ground arith
last_of-place o (p ∷ q ∷ os) s = elim (Bool-cases (ltb o.time p.time)) [
  | inl t ↦ rw t (ground (arith, last_of-later p (q ∷ os) s))
  | inr t ↦ rw t (last_of-cons-place p o (q ∷ os) ∙ last_of-place o (q ∷ os) s.1)
]

in_window-place :
    (c : ℕ) (o : Observation) (os : List Observation)
    → c ≤ o.time
    → in_window c (place o os) ≡ place o (in_window c os)
unfolding in_window place
in_window-place c o [] l = ground arith
in_window-place c o (p ∷ os) l = ground (arith, in_window-place c o os l)

in_window-in_window :
    (b c : ℕ) (os : List Observation) → b ≤ c → in_window c (in_window b os) ≡ in_window c os
unfolding in_window
in_window-in_window b c [] l = refl
in_window-in_window b c (o ∷ os) l = ground (arith, in_window-in_window b c os l)

pub place_comm :
    (o p : Observation) (os : List Observation)
    → o.time ≢ p.time
    → place p (place o os) ≡ place o (place p os)
unfolding place
place_comm o p [] d = ground arith
place_comm o p (q ∷ os) d = ground (arith, place_comm o p os d)

-- Keeping only a window does not move the newest instant that an event in it is measured by.
max-last_of-in_window :
    (c t : ℕ) (os : List Observation)
    → Sorted os
    → c ≤ t
    → max t (last_of (in_window c os)) ≡ max t (last_of os)
unfolding in_window last_of
max-last_of-in_window c t [] s l = refl
max-last_of-in_window c t (p ∷ []) s l = ground arith
max-last_of-in_window c t (p ∷ q ∷ os) s l = elim (Bool-cases (leb c p.time)) [
  | inl e ↦
      let whole =
        in_window-later c (p ∷ q ∷ os)
          (ground arith, All-mono c p.time (q ∷ os) (ground arith) s.0) in
      ap (λ xs. max t (last_of xs)) whole
  | inr e ↦ rw e (max-last_of-in_window c t (q ∷ os) s.1 l)
]

in_window-Sorted : (h : Held) (c : ℕ) → WellFormed h → Sorted (in_window c h.seen)
in_window-Sorted h c w = subst Sorted (expire-seen h c w) (expire-WellFormed h c w).sorted

-- What one timely observation leaves of a key with room for it.
pub observe_room :
    (h : Held) (o : Observation) (ceiling : ℕ)
    → WellFormed h
    → has_event o.event h.seen ≡ false
    → cutoff_of h o ≤ o.time
    → length h.seen < ceiling
    → (observe h o ceiling).0.seen ≡ place o (in_window (cutoff_of h o) h.seen)
observe_room h o ceiling w n t l =
    observe-seen h o ceiling w n t
    ∙ newest-all ceiling _ (
        omega (
          arith,
          length-place o (in_window (cutoff_of h o) h.seen),
          length-in_window (cutoff_of h o) h.seen,
        ))

-- The window after two observations, in terms of the instants alone.
pub cutoff-observe :
    (h : Held) (o p : Observation) (ceiling : ℕ)
    → WellFormed h
    → has_event o.event h.seen ≡ false
    → cutoff_of h o ≤ o.time
    → length h.seen < ceiling
    → cutoff_of (observe h o ceiling).0 p ≡ max p.time (max o.time (last_of h.seen)) - h.window
unfolding cutoff_of
cutoff-observe h o p ceiling w n t l =
    rw (observe_window h o ceiling, observe_room h o ceiling w n t l)
      (omega (
        arith,
        last_of-place o (in_window (cutoff_of h o) h.seen) (in_window-Sorted h (cutoff_of h o) w),
        max-last_of-in_window (cutoff_of h o) o.time h.seen w.sorted t,
      ))

-- Where a key stands after two timely observations: what the later window leaves, with both.
pub observe_two :
    (h : Held) (o p : Observation) (ceiling : ℕ)
    → WellFormed h
    → has_event o.event h.seen ≡ false
    → has_event p.event h.seen ≡ false
    → o.event ≢ p.event
    → suc (length h.seen) < ceiling
    → let c = max p.time (max o.time (last_of h.seen)) - h.window in
      c ≤ o.time
      → c ≤ p.time
      → (observe (observe h o ceiling).0 p ceiling).0.seen ≡ place p (place o (in_window c h.seen))
observe_two h o p ceiling w n m d l t u =
    observe_room after p ceiling (observe-WellFormed h o ceiling w) fresh
      (subst (λ x. x ≤ p.time) (sym begins) u) room
    ∙ ap (place p) (
        ap₂ in_window begins left
        ∙ in_window-place _ o (in_window first h.seen) t
        ∙ ap (place o) (in_window-in_window first _ h.seen earlier))
  where
    after : Held
    after = (observe h o ceiling).0

    first : ℕ
    first = cutoff_of h o

    earlier : first ≤ max p.time (max o.time (last_of h.seen)) - h.window
    earlier = unfold cutoff_of in omega arith

    timely : first ≤ o.time
    timely = omega (arith, earlier)

    left : after.seen ≡ place o (in_window first h.seen)
    left = observe_room h o ceiling w n timely (omega arith)

    begins : cutoff_of after p ≡ max p.time (max o.time (last_of h.seen)) - h.window
    begins = cutoff-observe h o p ceiling w n timely (omega arith)

    fresh : has_event p.event after.seen ≡ false
    fresh =
        rw (left, has_event-place p.event o (in_window first h.seen))
          (ground (
            arith,
            event_eq_iff p.event o.event,
            event_eq_iff o.event p.event,
            has_event-in_window p.event first h.seen m,
          ))

    room : length after.seen < ceiling
    room =
        rw left
          (omega (arith, length-place o (in_window first h.seen), length-in_window first h.seen))

-- Two new events with different names and different instants, each inside the window that the
-- newer leaves, leave a well-formed key that has room for both with the same observations
-- whichever is delivered first.
pub observe_either_order :
    (h : Held) (o p : Observation) (ceiling : ℕ)
    → WellFormed h
    → has_event o.event h.seen ≡ false
    → has_event p.event h.seen ≡ false
    → o.event ≢ p.event
    → o.time ≢ p.time
    → suc (length h.seen) < ceiling
    → max p.time (max o.time (last_of h.seen)) ≤ o.time + h.window
    → max p.time (max o.time (last_of h.seen)) ≤ p.time + h.window
    → (observe (observe h o ceiling).0 p ceiling).0.seen
      ≡ (observe (observe h p ceiling).0 o ceiling).0.seen
observe_either_order h o p ceiling w n m d e l t u =
    observe_two h o p ceiling w n m d l (omega arith) (omega arith)
    ∙ place_comm o p (in_window begins h.seen) e
    ∙ ap (λ c. place o (place p (in_window c h.seen))) (omega arith)
    ∙ sym (observe_two h p o ceiling w m n (λ q. d (sym q)) l (omega arith) (omega arith))
  where
    begins : ℕ
    begins = max p.time (max o.time (last_of h.seen)) - h.window
