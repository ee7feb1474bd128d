-- ===== src/DetectionState/Keeper/Room.antt =====
-- internal/detectionstate/tenancy.go: room for one more key, and that reclaiming leaves it.
use seagull_backend_v.Base.{
  ℕ, ◌-◌, ◌<◌, ◌≡◌, ◌≢◌, none, List, [], ◌∷◌, Text, text_Eq, text_eq_iff, nat_eq, ◌==◌, leb, arith,
  Bool-cases, inl, inr,
}
use seagull_backend_v.Base.Map.{Map, lookup, delete, lookup-insert, lookup-delete}
use seagull_backend_v.DetectionState.Bounds.{Bounds}
use seagull_backend_v.DetectionState.Window.{Held}
use seagull_backend_v.DetectionState.Key.{Key}
use seagull_backend_v.DetectionState.Keeper.{
  key_Eq, Expiry, PartitionKeys, TenantKeys, Keeper, counted, refuses, closed, clock, is_past,
  reclaim_from, reclaim_each, reclaimed, reclaim, new_tenant, or_new,
}

-- Room for one more key of a rule: in a tenant, and in what a store holds of that tenant.
pub record HasRoom (b : Bounds) (rule : Text) (t : TenantKeys) : Type 0 where
  pub tenant_room : t.held < b.keys_per_tenant
  pub rule_room : counted (lookup rule t.rules) < b.keys_per_rule

abbrev pub owner_in : Text → Keeper → TenantKeys
owner_in tenant k = or_new new_tenant (lookup tenant k.tenants)

pub refuses-HasRoom :
    (b : Bounds) (rule : Text) (t : TenantKeys) → refuses t rule b ≡ none → HasRoom b rule t
unfolding refuses
refuses-HasRoom b rule t r = record { tenant_room = ground arith; rule_room = ground arith }

module _ (b : Bounds) (rule : Text) where
  closed-HasRoom :
      (t : TenantKeys) (other : Text) → HasRoom b rule t → HasRoom b rule (closed t other)
  unfolding closed
  closed-HasRoom t other h = record {
    tenant_room = omega (arith, h.tenant_room);
    rule_room = elim (Bool-cases (leb (counted (lookup other t.rules)) 1)) [
      | inl e ↦ rw (e, lookup-delete other rule t.rules) (ground (arith, h.rule_room))
      | inr e ↦
          rw (e, lookup-insert other rule (counted (lookup other t.rules) - 1) t.rules)
            (ground (arith, h.rule_room, text_eq_iff other rule))
    ];
  }

  reclaim_from-HasRoom :
      (now : ℕ) (xs : List Expiry) (keys : Map Key Held) (t : TenantKeys)
      → HasRoom b rule t
      → HasRoom b rule (reclaim_from now xs keys t).2
  unfolding reclaim_from
  reclaim_from-HasRoom now [] keys t h = h
  reclaim_from-HasRoom now (x ∷ xs) keys t h = elim (Bool-cases (is_past now keys x)) [
    | inl e ↦ rw e (
        reclaim_from-HasRoom now xs (delete x.filed keys) (closed t x.filed.rule)
          (closed-HasRoom t x.filed.rule h))
    | inr e ↦ rw e (reclaim_from-HasRoom now xs keys t h)
  ]

  reclaim_each-HasRoom :
      (newest : ℕ) (ps : Map ℕ PartitionKeys) (keys : Map Key Held) (t : TenantKeys)
      → HasRoom b rule t
      → HasRoom b rule (reclaim_each newest ps keys t).2
  unfolding reclaim_each
  reclaim_each-HasRoom newest [] keys t h = h
  reclaim_each-HasRoom newest ((n, p) ∷ ps) keys t h =
      reclaim_each-HasRoom newest ps _ _ (reclaim_from-HasRoom (clock p newest) p.expiring keys t h)

  pub reclaimed-HasRoom :
      (k : Keeper) (t : TenantKeys) → HasRoom b rule t → HasRoom b rule (reclaimed k t).1
  unfolding reclaimed
  reclaimed-HasRoom k t h =
      let held = reclaim_each-HasRoom k.newest t.partitions k.keys t h in
      record { tenant_room = held.tenant_room; rule_room = held.rule_room }

  -- Reclaiming a tenant leaves room where there was room.
  pub reclaim-HasRoom :
      (k : Keeper) (tenant other : Text) (t : TenantKeys)
      → HasRoom b rule new_tenant
      → ((other ≡ tenant) → HasRoom b rule (reclaimed k t).1)
      → ((other ≢ tenant) → HasRoom b rule (owner_in tenant k))
      → HasRoom b rule (owner_in tenant (reclaim k other t))
  unfolding reclaim
  reclaim-HasRoom k tenant other t new own h = elim (Bool-cases ((reclaimed k t).1.held == 0)) [
    | inl e ↦
        rw (e, lookup-delete other tenant k.tenants)
          (elim (Bool-cases (other == tenant)) [
            | inl s ↦ rw s new
            | inr s ↦ rw s (h (λ q. ground (arith, s, text_eq_iff other tenant)))
          ])
    | inr e ↦
        rw (e, lookup-insert other tenant (reclaimed k t).1 k.tenants)
          (elim (Bool-cases (other == tenant)) [
            | inl s ↦ rw s (own ((text_eq_iff other tenant).0 s))
            | inr s ↦ rw s (h (λ q. ground (arith, s, text_eq_iff other tenant)))
          ])
  ]
