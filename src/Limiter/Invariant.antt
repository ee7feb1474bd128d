-- ===== src/Limiter/Invariant.antt =====
-- What internal/platform/ratelimit/limiter.go keeps true of the callers it tracks.
use seagull_backend_v.Base.{
  ℕ, zero, suc, ◌≤◌, ◌≡◌, inl, inr, refl, sym, ◌∙◌, Bool, true, false, not, ◌&&◌, ◌||◌, List, [],
  ◌∷◌, arith, Text, text_Eq, text_eq_iff, nat_eq, ◌==◌, ltb, length, is_some, Bool-cases,
  Option-cases,
}
use seagull_backend_v.Base.Map.{Map, lookup, insert, delete, lookup-insert, lookup-delete}
use seagull_backend_v.Limiter.{
  Buckets, Entry, Limiter, without, oldest, but_oldest, evict_from, evict, spend, seat, allow,
  bucket_of,
}

module _ (B : Buckets) where
  unfoldable pub has_key : Text → List (Entry B) → Bool
  has_key k [] = false
  has_key k (e ∷ es) = e.key == k || has_key k es

  unfoldable pub Distinct : List (Entry B) → Type 0
  Distinct [] = Unit
  Distinct (e ∷ es) = (has_key e.key es ≡ false) × Distinct es

  -- The callers are tracked once each, the map holds exactly them, and they are no more than the
  -- capacity.
  pub record IsSound (l : Limiter B) : Type 0 where
    pub distinct : Distinct l.order
    pub index : (k : Text) → is_some (lookup k l.buckets) ≡ has_key k l.order
    pub bounded : length l.order ≤ l.capacity

  has_key-without :
      (k j : Text) (es : List (Entry B))
      → Distinct es
      → has_key j (without B k es) ≡ (has_key j es && not (k == j))
  unfolding has_key without Distinct
  has_key-without k j [] d = refl
  has_key-without k j (e ∷ es) d = ground (
    arith,
    has_key-without k j es,
    d.0,
    d.1,
    text_eq_iff e.key k,
    text_eq_iff e.key j,
    text_eq_iff k j,
  )

  Distinct-without : (k : Text) (es : List (Entry B)) → Distinct es → Distinct (without B k es)
  unfolding without Distinct
  Distinct-without k [] d = tt
  Distinct-without k (e ∷ es) d = elim (Bool-cases (e.key == k)) [
    | inl t ↦ rw t d.1
    | inr t ↦ rw t (ground (arith, has_key-without k e.key es d.1, d.0), Distinct-without k es d.1)
  ]

  length-without :
      (k : Text) (es : List (Entry B))
      → has_key k es ≡ true
      → suc (length (without B k es)) ≡ length es
  unfolding has_key without
  length-without k [] h = cc
  length-without k (e ∷ es) h = ground (arith, length-without k es)

  length-but_oldest : (e : Entry B) (es : List (Entry B)) → length (but_oldest B e es) ≡ length es
  unfolding but_oldest
  length-but_oldest e [] = refl
  length-but_oldest e (f ∷ es) = ground (arith, length-but_oldest f es)

  has_key-oldest : (e : Entry B) (es : List (Entry B)) → has_key (oldest B e es).key (e ∷ es) ≡ true
  unfolding has_key oldest
  has_key-oldest e [] = ground (arith, text_eq_iff e.key e.key)
  has_key-oldest e (f ∷ es) = ground (arith, has_key-oldest f es)

  has_key-but_oldest :
      (k : Text) (e : Entry B) (es : List (Entry B))
      → Distinct (e ∷ es)
      → has_key k (but_oldest B e es) ≡ (has_key k (e ∷ es) && not ((oldest B e es).key == k))
  unfolding has_key but_oldest Distinct oldest
  has_key-but_oldest k e [] d = ground arith
  has_key-but_oldest k e (f ∷ es) d = ground (
    arith,
    has_key-but_oldest k f es d.1,
    has_key-oldest f es,
    d.0,
    text_eq_iff (oldest B f es).key k,
    text_eq_iff e.key k,
  )

  Distinct-but_oldest :
      (e : Entry B) (es : List (Entry B)) → Distinct (e ∷ es) → Distinct (but_oldest B e es)
  unfolding but_oldest Distinct
  Distinct-but_oldest e [] d = tt
  Distinct-but_oldest e (f ∷ es) d =
      (ground (arith, has_key-but_oldest e.key f es d.1, d.0), Distinct-but_oldest f es d.1)

  has_key-spend :
      (k j : Text) (b : B.Bucket) (es : List (Entry B)) → has_key j (spend B k b es) ≡ has_key j es
  unfolding has_key spend
  has_key-spend k j b [] = refl
  has_key-spend k j b (e ∷ es) = ground (arith, has_key-spend k j b es, text_eq_iff e.key k)

  Distinct-spend :
      (k : Text) (b : B.Bucket) (es : List (Entry B)) → Distinct es → Distinct (spend B k b es)
  unfolding spend Distinct
  Distinct-spend k b [] d = tt
  Distinct-spend k b (e ∷ es) d = elim (Bool-cases (e.key == k)) [
    | inl t ↦ rw t (ground (arith, text_eq_iff e.key k, d.0), d.1)
    | inr t ↦ rw t (has_key-spend k e.key b es ∙ d.0, Distinct-spend k b es d.1)
  ]

  length-spend :
      (k : Text) (b : B.Bucket) (es : List (Entry B)) → length (spend B k b es) ≡ length es
  unfolding spend
  length-spend k b [] = refl
  length-spend k b (e ∷ es) = ground (arith, length-spend k b es)

  -- As many turns as there are entries bring an order down to the capacity, and the map with it.
  evict_from_sound :
      (capacity n : ℕ) (es : List (Entry B)) (buckets : Map Text (Unit {0}))
      → length es ≤ n
      → Distinct es
      → ((k : Text) → is_some (lookup k buckets) ≡ has_key k es)
      → let r = evict_from B capacity n es buckets in
        Distinct r.0
        × ((k : Text) → is_some (lookup k r.1) ≡ has_key k r.0)
        × (length r.0 ≤ capacity)
  unfolding evict_from
  evict_from_sound capacity n [] buckets l d i = (d, i, omega arith)
  evict_from_sound capacity zero (e ∷ es) buckets l d i = absurd (omega arith)
  evict_from_sound capacity (suc n) (e ∷ es) buckets l d i =
      elim (Bool-cases (ltb capacity (length (e ∷ es)))) [
        | inl t ↦ rw t (
            evict_from_sound capacity n (but_oldest B e es) (delete (oldest B e es).key buckets)
              (omega (arith, length-but_oldest e es)) (Distinct-but_oldest e es d)
              (λ k. ground (
                arith,
                has_key-but_oldest k e es d,
                lookup-delete (oldest B e es).key k buckets,
                i k,
                text_eq_iff (oldest B e es).key k,
              )))
        | inr t ↦ rw t (d, i, ground arith)
      ]

  seat-IsSound : (l : Limiter B) (k : Text) → IsSound l → IsSound (seat B l k)
  unfolding evict seat
  seat-IsSound l k s = elim (Option-cases (lookup k l.buckets)) [
    | inr (known, e) ↦
        let held : has_key k l.order ≡ true = ground (arith, s.index k) in
        rw (seat, e)
          (record {
            distinct =
                unfold Distinct in
                (
                  ground (arith, has_key-without k k l.order s.distinct, text_eq_iff k k),
                  Distinct-without k l.order s.distinct,
                );
            index = λ j.
                unfold has_key in
                ground (arith, s.index j, has_key-without k j l.order s.distinct, text_eq_iff k j);
            bounded = omega (arith, length-without k l.order held, s.bounded);
          })
    | inl e ↦
        let absent : has_key k l.order ≡ false = ground (arith, s.index k) in
        let first : Entry B = record { key = k; limiter = B.new_bucket } in
        let (d, i, b) =
          evict_from_sound l.capacity (suc (length l.order)) (first ∷ l.order)
            (insert k tt l.buckets) (omega arith) (unfold Distinct in (absent, s.distinct))
            (λ j. unfold has_key in ground (arith, s.index j, lookup-insert k j tt l.buckets)) in
        rw (seat, e) (record { distinct = d; index = i; bounded = b })
  ]

  -- A limiter that tracks each caller once, in a map that holds exactly the callers of its
  -- order, and no more of them than its capacity, still does so after any caller's call.
  pub allow-IsSound : (l : Limiter B) (k : Text) (now : ℕ) → IsSound l → IsSound (allow B l k now).0
  unfolding allow
  allow-IsSound l k now s =
      let t = seat-IsSound l k s in
      let spent = (B.allow_bucket (bucket_of B l k) now).0 in
      record {
        distinct = Distinct-spend k spent (seat B l k).order t.distinct;
        index = λ j. t.index j ∙ sym (has_key-spend k j spent (seat B l k).order);
        bounded = omega (arith, length-spend k spent (seat B l k).order, t.bounded);
      }
