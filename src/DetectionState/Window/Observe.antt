-- ===== src/DetectionState/Window/Observe.antt =====
-- What one observation makes of a key (internal/detectionstate/keeper.go, `observe`), against a
-- description of the window that says nothing of how it is kept.
use seagull_backend_v.Base.{
  ℕ, suc, ◌≤◌, ◌<◌, ◌≡◌, refl, sym, ap, ◌∙◌, true, false, List, [], ◌∷◌, text_Eq, nat_eq,
  if◌then◌else◌, ltb, leb, length, is_some, All, Bool-cases, inl, inr, arith,
}
use seagull_backend_v.Base.Map.{lookup}
use seagull_backend_v.DetectionState.Observation.{EventName, event_Eq, event_eq_iff, Observation}
use seagull_backend_v.DetectionState.Window.{
  Held, place, insert_seen, discard, expire_from, expire, trim_from, cutoff_of, observe_new,
  observe, state, in_time, too_late,
}
use seagull_backend_v.DetectionState.Window.Shape.{
  has_event, Sorted, WellFormed, insert_seen-WellFormed, discard-WellFormed, has_event-place,
}

-- The observations that are not before an instant, and the `n` newest ones.
unfoldable pub in_window : ℕ → List Observation → List Observation
in_window cutoff [] = []
in_window cutoff (o ∷ os) =
    if leb cutoff o.time then o ∷ in_window cutoff os else in_window cutoff os

pub newest : ℕ → List Observation → List Observation
newest n [] = []
newest n (o ∷ os) = if ltb n (length (o ∷ os)) then newest n os else o ∷ os

expire_from-WellFormed :
    (cutoff : ℕ) (os : List Observation) (h : Held)
    → h.seen ≡ os
    → WellFormed h
    → WellFormed (expire_from cutoff os h)
unfolding expire_from
expire_from-WellFormed cutoff [] h e w = w
expire_from-WellFormed cutoff (o ∷ os) h e w = elim (Bool-cases (ltb o.time cutoff)) [
  | inl t ↦ rw t (
      expire_from-WellFormed cutoff os (discard h o os) (unfold discard in refl)
        (discard-WellFormed h o os e w))
  | inr t ↦ rw t w
]

trim_from-WellFormed :
    (ceiling : ℕ) (os : List Observation) (h : Held)
    → h.seen ≡ os
    → WellFormed h
    → WellFormed (trim_from ceiling os h)
unfolding trim_from
trim_from-WellFormed ceiling [] h e w = w
trim_from-WellFormed ceiling (o ∷ os) h e w = elim (Bool-cases (ltb ceiling (length (o ∷ os)))) [
  | inl t ↦ rw t (
      trim_from-WellFormed ceiling os (discard h o os) (unfold discard in refl)
        (discard-WellFormed h o os e w))
  | inr t ↦ rw t w
]

pub in_window-later :
    (cutoff : ℕ) (os : List Observation) → All (λ p. cutoff ≤ p.time) os → in_window cutoff os ≡ os
unfolding in_window
in_window-later cutoff [] h = refl
in_window-later cutoff (o ∷ os) h = ground (arith, in_window-later cutoff os h.1)

pub All-mono :
    (m n : ℕ) (os : List Observation) → m ≤ n → All (λ p. n ≤ p.time) os → All (λ p. m ≤ p.time) os
All-mono m n [] l h = tt
All-mono m n (p ∷ os) l h = (omega arith, All-mono m n os l h.1)

expire_from-seen :
    (cutoff : ℕ) (os : List Observation) (h : Held)
    → h.seen ≡ os
    → Sorted os
    → (expire_from cutoff os h).seen ≡ in_window cutoff os
unfolding expire_from in_window
expire_from-seen cutoff [] h e s = e
expire_from-seen cutoff (o ∷ os) h e s = elim (Bool-cases (ltb o.time cutoff)) [
  | inl t ↦ rw t (
      expire_from-seen cutoff os (discard h o os) (unfold discard in refl) s.1 ∙ sym (ground arith))
  | inr t ↦ rw t (
      e
      ∙ sym (
          ground (arith, in_window-later cutoff os (All-mono cutoff o.time os (ground arith) s.0))))
]

trim_from-seen :
    (ceiling : ℕ) (os : List Observation) (h : Held)
    → h.seen ≡ os
    → (trim_from ceiling os h).seen ≡ newest ceiling os
unfolding trim_from newest
trim_from-seen ceiling [] h e = e
trim_from-seen ceiling (o ∷ os) h e = elim (Bool-cases (ltb ceiling (length (o ∷ os)))) [
  | inl t ↦ rw t (trim_from-seen ceiling os (discard h o os) (unfold discard in refl))
  | inr t ↦ rw t e
]

pub has_event-in_window :
    (e : EventName) (cutoff : ℕ) (os : List Observation)
    → has_event e os ≡ false
    → has_event e (in_window cutoff os) ≡ false
unfolding has_event in_window
has_event-in_window e cutoff [] h = refl
has_event-in_window e cutoff (o ∷ os) h = ground (arith, has_event-in_window e cutoff os)

pub expire-seen :
    (h : Held) (cutoff : ℕ) → WellFormed h → (expire h cutoff).seen ≡ in_window cutoff h.seen
unfolding expire
expire-seen h cutoff w = expire_from-seen cutoff h.seen h refl w.sorted

pub expire-WellFormed : (h : Held) (cutoff : ℕ) → WellFormed h → WellFormed (expire h cutoff)
unfolding expire
expire-WellFormed h cutoff w = expire_from-WellFormed cutoff h.seen h refl w

observe_new-WellFormed :
    (h : Held) (o : Observation) (ceiling : ℕ)
    → has_event o.event h.seen ≡ false
    → WellFormed h
    → WellFormed (observe_new h o ceiling).0
unfolding observe_new
observe_new-WellFormed h o ceiling n w = elim (Bool-cases (ltb o.time (cutoff_of h o))) [
  | inl late ↦ rw late (expire-WellFormed h (cutoff_of h o) w)
  | inr timely ↦
      let kept = expire h (cutoff_of h o) in
      rw timely (
        trim_from-WellFormed ceiling _ (insert_seen kept o) refl (
          insert_seen-WellFormed kept o
            (rw (expire-seen h (cutoff_of h o) w)
              (has_event-in_window o.event (cutoff_of h o) h.seen n))
            (expire-WellFormed h (cutoff_of h o) w)))
]

-- A key that holds its observations in event time, each event once, with indices that say
-- exactly what it holds, still does so after any observation.
pub observe-WellFormed :
    (h : Held) (o : Observation) (ceiling : ℕ) → WellFormed h → WellFormed (observe h o ceiling).0
unfolding observe
observe-WellFormed h o ceiling w = elim (Bool-cases (is_some (lookup o.event h.ids))) [
  | inl again ↦ rw again w
  | inr new ↦ rw new (observe_new-WellFormed h o ceiling (sym (w.events o.event) ∙ new) w)
]

-- In a well-formed key, an event that is new and in time leaves the newest `ceiling` of the
-- observations inside the window and itself.
pub observe-seen :
    (h : Held) (o : Observation) (ceiling : ℕ)
    → WellFormed h
    → has_event o.event h.seen ≡ false
    → cutoff_of h o ≤ o.time
    → (observe h o ceiling).0.seen ≡ newest ceiling (place o (in_window (cutoff_of h o) h.seen))
unfolding observe observe_new
observe-seen h o ceiling w n t =
    let timely : ltb o.time (cutoff_of h o) ≡ false = ground arith in
    rw (w.events o.event ∙ n, timely)
      (trim_from-seen ceiling _ (insert_seen (expire h (cutoff_of h o)) o) refl
        ∙ ap (newest ceiling)
            (unfold insert_seen in ap (place o) (expire-seen h (cutoff_of h o) w)))

length-newest : (n : ℕ) (os : List Observation) → length (newest n os) ≤ n
unfolding newest
length-newest n [] = omega arith
length-newest n (o ∷ os) = ground (arith, length-newest n os)

pub length-in_window :
    (cutoff : ℕ) (os : List Observation) → length (in_window cutoff os) ≤ length os
unfolding in_window
length-in_window cutoff [] = omega arith
length-in_window cutoff (o ∷ os) = ground (arith, length-in_window cutoff os)

pub newest-all : (n : ℕ) (os : List Observation) → length os ≤ n → newest n os ≡ os
unfolding newest
newest-all n [] h = refl
newest-all n (o ∷ os) h = ground arith

pub length-place : (o : Observation) (os : List Observation) → length (place o os) ≡ suc (length os)
unfolding place
length-place o [] = refl
length-place o (p ∷ os) = ground (arith, length-place o os)

observe-repeated :
    (h : Held) (o : Observation) (ceiling : ℕ)
    → WellFormed h
    → has_event o.event h.seen ≡ true
    → observe h o ceiling ≡ (h, record (state h ceiling) { repeated = true }, in_time)
unfolding observe
observe-repeated h o ceiling w e = rw (w.events o.event ∙ e)

observe-late :
    (h : Held) (o : Observation) (ceiling : ℕ)
    → WellFormed h
    → has_event o.event h.seen ≡ false
    → o.time < cutoff_of h o
    → ((observe h o ceiling).0.seen ≡ in_window (cutoff_of h o) h.seen)
      × ((observe h o ceiling).2 ≡ too_late)
unfolding observe observe_new
observe-late h o ceiling w n t =
    let late : ltb o.time (cutoff_of h o) ≡ true = ground arith in
    rw (w.events o.event ∙ n, late) (expire-seen h (cutoff_of h o) w, refl)

-- A well-formed key that holds no more than its ceiling holds no more after any observation,
-- repeated, late or in time, and the count it answers is what it holds.
pub observe_bounded :
    (h : Held) (o : Observation) (ceiling : ℕ)
    → WellFormed h
    → length h.seen ≤ ceiling
    → let r = observe h o ceiling in (length r.0.seen ≤ ceiling) × (r.1.count ≡ length r.0.seen)
observe_bounded h o ceiling w b = (bounded, counted)
  where
    counted : (observe h o ceiling).1.count ≡ length (observe h o ceiling).0.seen
    counted = unfold observe state in ground arith

    bounded : length (observe h o ceiling).0.seen ≤ ceiling
    bounded = elim (Bool-cases (has_event o.event h.seen)) [
      | inl e ↦ rw (observe-repeated h o ceiling w e) b
      | inr n ↦ elim (Bool-cases (ltb o.time (cutoff_of h o))) [
        | inl late ↦
            rw (observe-late h o ceiling w n (ground arith)).0
              (omega (arith, length-in_window (cutoff_of h o) h.seen))
        | inr timely ↦
            rw (observe-seen h o ceiling w n (ground arith))
              (length-newest ceiling (place o (in_window (cutoff_of h o) h.seen)))
      ]
    ]

-- In a well-formed key with room for one more, delivering a new event that is in time a second
-- time changes nothing and is answered as repeated.
pub observe-observe :
    (h : Held) (o : Observation) (ceiling : ℕ)
    → WellFormed h
    → has_event o.event h.seen ≡ false
    → cutoff_of h o ≤ o.time
    → length h.seen < ceiling
    → let after = (observe h o ceiling).0 in
      observe after o ceiling ≡ (after, record (state after ceiling) { repeated = true }, in_time)
observe-observe h o ceiling w n t l =
    observe-repeated (observe h o ceiling).0 o ceiling (observe-WellFormed h o ceiling w) (
      rw (observe-seen h o ceiling w n t) (
        rw (newest-all ceiling _ room, has_event-place o.event o (in_window (cutoff_of h o) h.seen))
          (ground (arith, event_eq_iff o.event o.event))))
  where
    room : length (place o (in_window (cutoff_of h o) h.seen)) ≤ ceiling
    room = omega (
      arith,
      length-place o (in_window (cutoff_of h o) h.seen),
      length-in_window (cutoff_of h o) h.seen,
    )
