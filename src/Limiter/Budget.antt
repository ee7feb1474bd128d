-- ===== src/Limiter/Budget.antt =====
-- Whose budget a call of internal/platform/ratelimit/limiter.go spends.
use seagull_backend_v.Base.{
  ℕ, ◌<◌, ◌≡◌, ◌≢◌, ◌⊎◌, inl, inr, refl, ◌∙◌, true, some, List, [], ◌∷◌, arith, Text, text_Eq,
  text_eq_iff, nat_eq, length, is_some, Option-cases,
}
use seagull_backend_v.Base.Map.{lookup}
use seagull_backend_v.Limiter.{
  Buckets, Entry, Limiter, entry_of, without, evict_from, evict, spend, seat, allow, bucket_of,
}
use seagull_backend_v.Limiter.Invariant.{IsSound, has_key}

module _ (B : Buckets) where
  entry-spend-other :
      (k j : Text) (b : B.Bucket) (es : List (Entry B))
      → j ≢ k
      → entry_of B j (spend B k b es) ≡ entry_of B j es
  unfolding entry_of spend
  entry-spend-other k j b [] n = refl
  entry-spend-other k j b (e ∷ es) n = ground (
    arith,
    entry-spend-other k j b es n,
    text_eq_iff e.key k,
    text_eq_iff e.key j,
    text_eq_iff k j,
  )

  entry-without-other :
      (k j : Text) (es : List (Entry B)) → j ≢ k → entry_of B j (without B k es) ≡ entry_of B j es
  unfolding entry_of without
  entry-without-other k j [] n = refl
  entry-without-other k j (e ∷ es) n =
      ground (arith, entry-without-other k j es n, text_eq_iff e.key k, text_eq_iff e.key j)

  entry-seat-other :
      (l : Limiter B) (k j : Text)
      → IsSound B l
      → j ≢ k
      → (is_some (lookup k l.buckets) ≡ true) ⊎ (length l.order < l.capacity)
      → entry_of B j (seat B l k).order ≡ entry_of B j l.order
  unfolding seat entry_of
  entry-seat-other l k j s n r = elim (Option-cases (lookup k l.buckets)) [
    | inr (known, e) ↦
        rw (seat, e)
          (unfold entry_of in ground (arith, entry-without-other k j l.order n, text_eq_iff k j))
    | inl e ↦ rw (seat, e) (unfold entry_of evict evict_from in ground (arith, text_eq_iff k j))
  ]

  -- A caller of a sound limiter spends nobody else's budget: where the caller is tracked
  -- already, or there is room for one more, the entry of every other caller stays what it was.
  pub allow-other :
      (l : Limiter B) (k j : Text) (now : ℕ)
      → IsSound B l
      → j ≢ k
      → (is_some (lookup k l.buckets) ≡ true) ⊎ (length l.order < l.capacity)
      → entry_of B j (allow B l k now).0.order ≡ entry_of B j l.order
  unfolding allow
  allow-other l k j now s n r =
      entry-spend-other k j _ (seat B l k).order n ∙ entry-seat-other l k j s n r

  entry-spend :
      (k : Text) (b : B.Bucket) (es : List (Entry B))
      → has_key B k es ≡ true
      → entry_of B k (spend B k b es) ≡ some (record { key = k; limiter = b })
  unfolding entry_of spend has_key
  entry-spend k b [] h = cc
  entry-spend k b (e ∷ es) h = ground (arith, entry-spend k b es, text_eq_iff k k)

  -- A caller that a sound limiter tracks is answered by its own bucket, and what the call leaves
  -- of that bucket is what its next call asks.
  pub allow-bucket_of :
      (l : Limiter B) (k : Text) (now : ℕ)
      → IsSound B l
      → is_some (lookup k l.buckets) ≡ true
      → let r = B.allow_bucket (bucket_of B l k) now in
        ((allow B l k now).1 ≡ r.1) × (bucket_of B (allow B l k now).0 k ≡ r.0)
  unfolding bucket_of allow
  allow-bucket_of l k now s h = elim (Option-cases (lookup k l.buckets)) [
    | inl e ↦ absurd (ground arith)
    | inr (known, e) ↦ (
      unfold allow in refl,
      rw (bucket_of, allow, seat, e) (unfold spend entry_of in ground (arith, text_eq_iff k k)),
    )
  ]
