-- ===== src/DetectionState/Keeper/Within.antt =====
-- internal/detectionstate/tenancy.go: what a tenant and a store hold is within their bounds, and
-- reclaiming leaves it there.
use seagull_backend_v.Base.{
  ℕ, suc, ◌≤◌, ◌≡◌, sym, subst, some, List, [], ◌∷◌, Text, text_Eq, nat_eq, Eq, ◌==◌, leb, length,
  arith, All, Bool-cases, Option-cases, inl, inr,
}
use seagull_backend_v.Base.Map.{Map, lookup, insert, delete}
use seagull_backend_v.DetectionState.Bounds.{Bounds}
use seagull_backend_v.DetectionState.Window.{Held}
use seagull_backend_v.DetectionState.Key.{Key}
use seagull_backend_v.DetectionState.Keeper.{
  key_Eq, Expiry, PartitionKeys, TenantKeys, Keeper, counted, closed, clock, is_past, reclaim_from,
  reclaim_each, reclaimed, reclaim,
}

module _ {K : Type 0} {V : Type 0} ⦃e : Eq K⦄ where
  length-delete : (k : K) (m : Map K V) → length (delete k m) ≤ length m
  unfolding delete
  length-delete k [] = omega arith
  length-delete k ((q, v) ∷ m) = ground (arith, length-delete k m)

  pub length-insert : (k : K) (v : V) (m : Map K V) → length (insert k v m) ≤ suc (length m)
  unfolding insert
  length-insert k v [] = omega arith
  length-insert k v ((q, u) ∷ m) = ground (arith, length-insert k v m)

  pub length-insert_held :
      (k : K) (v w : V) (m : Map K V) → lookup k m ≡ some w → length (insert k v m) ≡ length m
  unfolding insert lookup
  length-insert_held k v w [] h = absurd (cc)
  length-insert_held k v w ((q, u) ∷ m) h = ground (arith, length-insert_held k v w m)

  All-delete : (P : K × V → Type 0) (k : K) (m : Map K V) → All P m → All P (delete k m)
  unfolding delete
  All-delete P k [] h = tt
  All-delete P k ((q, u) ∷ m) h = elim (Bool-cases (q == k)) [
    | inl t ↦ rw t (All-delete P k m h.1)
    | inr t ↦ rw t (h.0, All-delete P k m h.1)
  ]

  pub All-insert :
      (P : K × V → Type 0) (k : K) (v : V) (m : Map K V) → P (k, v) → All P m → All P (insert k v m)
  unfolding insert
  All-insert P k v [] p h = (p, tt)
  All-insert P k v ((q, u) ∷ m) p h = elim (Bool-cases (q == k)) [
    | inl t ↦ rw t (p, h.1)
    | inr t ↦ rw t (h.0, All-insert P k v m p h.1)
  ]

  pub All-lookup :
      (P : V → Type 0) (k : K) (v : V) (m : Map K V)
      → All (λ x. P x.1) m
      → lookup k m ≡ some v
      → P v
  unfolding lookup
  All-lookup P k v [] h l = absurd (cc)
  All-lookup P k v ((q, u) ∷ m) h l = elim (Bool-cases (q == k)) [
    | inl t ↦ let same : u ≡ v = ground arith in subst P same h.0
    | inr t ↦ All-lookup P k v m h.1 (ground arith)
  ]

-- What one tenant is charged for is within its quotas.
pub record IsWithin (b : Bounds) (t : TenantKeys) : Type 0 where
  pub tenant_held : t.held ≤ b.keys_per_tenant
  pub rules_held : All (λ x. x.1 ≤ b.keys_per_rule) t.rules

-- What a store of these bounds holds is within them.
pub record IsBelow (b : Bounds) (k : Keeper) : Type 0 where
  pub agreed : k.bounds ≡ b
  pub keys_held : length k.keys ≤ b.keys
  pub tenants_held : All (λ x. IsWithin b x.1) k.tenants

module _ (b : Bounds) where
  rule_within :
      (rule : Text) (t : TenantKeys)
      → IsWithin b t
      → counted (lookup rule t.rules) ≤ b.keys_per_rule
  rule_within rule t w = elim (Option-cases (lookup rule t.rules)) [
    | inl e ↦ subst (λ o. counted o ≤ b.keys_per_rule) (sym e) (omega arith)
    | inr (n, e) ↦
        subst (λ o. counted o ≤ b.keys_per_rule) (sym e)
          (All-lookup (λ m. m ≤ b.keys_per_rule) rule n t.rules w.rules_held e)
  ]

  closed-IsWithin : (t : TenantKeys) (rule : Text) → IsWithin b t → IsWithin b (closed t rule)
  unfolding closed
  closed-IsWithin t rule w = record {
    tenant_held = omega (arith, w.tenant_held);
    rules_held = elim (Bool-cases (leb (counted (lookup rule t.rules)) 1)) [
      | inl e ↦ rw e (All-delete _ rule t.rules w.rules_held)
      | inr e ↦
          rw e (All-insert _ rule _ t.rules (omega (arith, rule_within rule t w)) w.rules_held)
    ];
  }

  -- What the loop over a partition leaves is no more than there was.
  reclaim_from_below :
      (now : ℕ) (xs : List Expiry) (keys : Map Key Held) (t : TenantKeys)
      → IsWithin b t
      → let r = reclaim_from now xs keys t in (length r.1 ≤ length keys) × IsWithin b r.2
  unfolding reclaim_from
  reclaim_from_below now [] keys t w = (omega arith, w)
  reclaim_from_below now (x ∷ xs) keys t w = elim (Bool-cases (is_past now keys x)) [
    | inl e ↦
        let (shorter, within) =
          reclaim_from_below now xs (delete x.filed keys) (closed t x.filed.rule)
            (closed-IsWithin t x.filed.rule w) in
        rw e (omega (arith, shorter, length-delete x.filed keys), within)
    | inr e ↦ rw e (reclaim_from_below now xs keys t w)
  ]

  reclaim_each_below :
      (newest : ℕ) (ps : Map ℕ PartitionKeys) (keys : Map Key Held) (t : TenantKeys)
      → IsWithin b t
      → let r = reclaim_each newest ps keys t in (length r.1 ≤ length keys) × IsWithin b r.2
  unfolding reclaim_each
  reclaim_each_below newest [] keys t w = (omega arith, w)
  reclaim_each_below newest ((n, p) ∷ ps) keys t w =
      let (shorter, within) = reclaim_from_below (clock p newest) p.expiring keys t w in
      let (least, held) = reclaim_each_below newest ps _ _ within in
      (omega (arith, shorter, least), held)

  pub reclaimed_below :
      (k : Keeper) (t : TenantKeys)
      → IsWithin b t
      → (length (reclaimed k t).0 ≤ length k.keys) × IsWithin b (reclaimed k t).1
  unfolding reclaimed
  reclaimed_below k t w =
      let (shorter, within) = reclaim_each_below k.newest t.partitions k.keys t w in
      (shorter, record { tenant_held = within.tenant_held; rules_held = within.rules_held })

  pub reclaim-IsBelow :
      (k : Keeper) (tenant : Text) (t : TenantKeys)
      → IsBelow b k
      → IsWithin b t
      → IsBelow b (reclaim k tenant t)
  unfolding reclaim
  reclaim-IsBelow k tenant t h w =
      let (shorter, within) = reclaimed_below k t w in
      record {
        agreed = h.agreed;
        keys_held = omega (arith, shorter, h.keys_held);
        tenants_held = elim (Bool-cases ((reclaimed k t).1.held == 0)) [
          | inl e ↦ rw e (All-delete _ tenant k.tenants h.tenants_held)
          | inr e ↦ rw e (All-insert _ tenant _ k.tenants within h.tenants_held)
        ];
      }
