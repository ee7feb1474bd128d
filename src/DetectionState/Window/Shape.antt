-- ===== src/DetectionState/Window/Shape.antt =====
-- What `held` keeps: its observations in the order of their instants, each event once, and the
-- two indices saying exactly what is held.
use seagull_backend_v.Base.{
  ℕ, zero, suc, pred, ◌+◌, ◌-◌, ◌≤◌, ◌≡◌, ◌≢◌, refl, subst, ap, Bool, false, ◌||◌, Option, none,
  some, List, [], ◌∷◌, Text, text_Eq, text_eq_iff, nat_eq, ◌==◌, if◌then◌else◌, ltb, is_some, All,
  Bool-cases, inl, inr, arith,
}
use seagull_backend_v.Base.Map.{Map, lookup, lookup-insert, lookup-delete}
use seagull_backend_v.DetectionState.Observation.{EventName, event_Eq, event_eq_iff, Observation}
use seagull_backend_v.DetectionState.Window.{
  Held, place, count_held, add_value, drop_value, insert_seen, discard,
}

unfoldable pub has_event : EventName → List Observation → Bool
has_event e [] = false
has_event e (o ∷ os) = o.event == e || has_event e os

unfoldable pub count_value : Text → List Observation → ℕ
count_value v [] = 0
count_value v (o ∷ os) = if o.value == v then suc (count_value v os) else count_value v os

abbrev pub positive : ℕ → Option ℕ
positive zero = none
positive (suc n) = some (suc n)

abbrev pub Sorted : List Observation → Type 0
Sorted [] = Unit {0}
Sorted (o ∷ os) = All (λ p. o.time ≤ p.time) os × Sorted os

abbrev pub Once : List Observation → Type 0
Once [] = Unit {0}
Once (o ∷ os) = (has_event o.event os ≡ false) × Once os

pub record WellFormed (h : Held) : Type 0 where
  pub sorted : Sorted h.seen
  pub once : Once h.seen
  pub events : (e : EventName) → is_some (lookup e h.ids) ≡ has_event e h.seen
  pub counts : (v : Text) → v ≢ [] → lookup v h.values ≡ positive (count_value v h.seen)

All-place :
    (n : ℕ) (o : Observation) (os : List Observation)
    → n ≤ o.time
    → All (λ p. n ≤ p.time) os
    → All (λ p. n ≤ p.time) (place o os)
unfolding place
All-place n o [] l h = (l, tt)
All-place n o (p ∷ os) l h = ground (arith, All-place n o os l h.1)

All-later :
    (m n : ℕ) (os : List Observation) → m ≤ n → All (λ p. n ≤ p.time) os → All (λ p. m ≤ p.time) os
All-later m n [] l h = tt
All-later m n (p ∷ os) l h = (omega arith, All-later m n os l h.1)

place-Sorted : (o : Observation) (os : List Observation) → Sorted os → Sorted (place o os)
unfolding place
place-Sorted o [] h = (tt, tt)
place-Sorted o (p ∷ os) h = elim (Bool-cases (ltb o.time p.time)) [
  | inl e ↦ rw e ((ground arith, All-later o.time p.time os (ground arith) h.0), h)
  | inr e ↦ rw e (All-place p.time o os (ground arith) h.0, place-Sorted o os h.1)
]

pub has_event-place :
    (e : EventName) (o : Observation) (os : List Observation)
    → has_event e (place o os) ≡ (o.event == e || has_event e os)
unfolding has_event place
has_event-place e o [] = refl
has_event-place e o (p ∷ os) = ground (arith, has_event-place e o os)

place-Once :
    (o : Observation) (os : List Observation)
    → has_event o.event os ≡ false
    → Once os
    → Once (place o os)
unfolding place has_event
place-Once o [] n h = (refl, tt)
place-Once o (p ∷ os) n h = elim (Bool-cases (ltb o.time p.time)) [
  | inl e ↦ rw e (n, h)
  | inr e ↦ rw e (
    ground (
      arith,
      has_event-place p.event o os,
      event_eq_iff o.event p.event,
      event_eq_iff p.event o.event,
    ),
    place-Once o os (ground arith) h.1,
  )
]

count_value-place :
    (v : Text) (o : Observation) (os : List Observation)
    → count_value v (place o os) ≡ count_value v (o ∷ os)
unfolding count_value place
count_value-place v o [] = refl
count_value-place v o (p ∷ os) = ground (arith, count_value-place v o os)

lookup-add_value :
    (v w : Text) (values : Map Text ℕ) (n : ℕ)
    → w ≢ []
    → lookup w values ≡ positive n
    → lookup w (add_value v values) ≡ (if v == w then positive (suc n) else positive n)
unfolding add_value
lookup-add_value v w values n x h =
    ground (arith, lookup-insert v w (count_held (lookup v values) + 1) values, text_eq_iff v w)

lookup-drop_value :
    (v w : Text) (values : Map Text ℕ) (n : ℕ)
    → w ≢ []
    → lookup w values ≡ positive n
    → lookup w (drop_value v values) ≡ (if v == w then positive (pred n) else positive n)
unfolding drop_value
lookup-drop_value v w values n x h = ground (
  arith,
  lookup-insert v w (count_held (lookup v values) - 1) values,
  lookup-delete v w values,
  text_eq_iff v w,
)

count_value-cons :
    (v : Text) (o : Observation) (os : List Observation)
    → count_value v (o ∷ os) ≡ (if o.value == v then suc (count_value v os) else count_value v os)
unfolding count_value
count_value-cons v o os = refl

has_event-cons :
    (e : EventName) (o : Observation) (os : List Observation)
    → has_event e (o ∷ os) ≡ (o.event == e || has_event e os)
unfolding has_event
has_event-cons e o os = refl

pub insert_seen-WellFormed :
    (h : Held) (o : Observation)
    → has_event o.event h.seen ≡ false
    → WellFormed h
    → WellFormed (insert_seen h o)
unfolding insert_seen
insert_seen-WellFormed h o n w = record {
  sorted = place-Sorted o h.seen w.sorted;
  once = place-Once o h.seen n w.once;
  events =
      λ e. ground (arith, lookup-insert o.event e tt h.ids, has_event-place e o h.seen, w.events e);
  counts = λ v x. ground (
    arith,
    lookup-add_value o.value v h.values (count_value v h.seen) x (w.counts v x),
    count_value-place v o h.seen,
    count_value-cons v o h.seen,
  );
}

-- The observations from `os` on, after the oldest one is discarded.
pub discard-WellFormed :
    (h : Held) (o : Observation) (os : List Observation)
    → h.seen ≡ o ∷ os
    → WellFormed h
    → WellFormed (discard h o os)
unfolding discard
discard-WellFormed h o os e w =
    let sorted : Sorted (o ∷ os) = subst Sorted e w.sorted in
    let once : Once (o ∷ os) = subst Once e w.once in
    record {
      sorted = sorted.1;
      once = once.1;
      events = λ x. ground (
        arith,
        lookup-delete o.event x h.ids,
        w.events x,
        ap (has_event x) e,
        has_event-cons x o os,
        event_eq_iff o.event x,
        once.0,
      );
      counts = λ v x. ground (
        arith,
        lookup-drop_value o.value v h.values (count_value v h.seen) x (w.counts v x),
        ap (count_value v) e,
        count_value-cons v o os,
      );
    }
