-- ===== src/DetectionState/Keeper/Admission.antt =====
-- internal/detectionstate/keeper.go, `admit`, and tenancy.go, `sweep`: a key that is let in has room.
use seagull_backend_v.Base.{
  ◌-◌, ◌<◌, ◌≡◌, refl, sym, ap, ◌∙◌, subst, Bool, true, false, Option, none, some, List, [], ◌∷◌,
  Text, text_Eq, nat_eq, if◌then◌else◌, ltb, length, arith, Bool-cases, Option-cases, inl, inr,
}
use seagull_backend_v.Base.Map.{lookup}
use seagull_backend_v.DetectionState.Bounds.{Bounds}
use seagull_backend_v.DetectionState.Key.{Key}
use seagull_backend_v.DetectionState.Keeper.{
  key_Eq, TenantKeys, Keeper, KeeperError, sweep_every, refuses, reclaim_tenant, names_of,
  reclaimed, reclaim, reclaim_all, sweep, is_full, admit_store, admit_after, is_pressed,
  admit_tenant, admit, new_tenant, or_new, at_capacity,
}
use seagull_backend_v.DetectionState.Keeper.Within.{All-lookup, IsBelow, IsWithin, reclaim-IsBelow}
use seagull_backend_v.DetectionState.Keeper.Room.{
  HasRoom, owner_in, reclaim-HasRoom, reclaimed-HasRoom, refuses-HasRoom,
}

reclaim_tenant_missing :
    (k : Keeper) (other : Text) → lookup other k.tenants ≡ none → reclaim_tenant k other ≡ k
unfolding reclaim_tenant
reclaim_tenant_missing k other e = ground (arith, e)

reclaim_tenant_held :
    (k : Keeper) (other : Text) (t : TenantKeys)
    → lookup other k.tenants ≡ some t
    → reclaim_tenant k other ≡ reclaim k other t
unfolding reclaim_tenant
reclaim_tenant_held k other t e = ground (arith, e)

module _ (b : Bounds) (tenant rule : Text) (new : HasRoom b rule new_tenant) where
  -- A store within its bounds, with room for a key where another had it.
  record Leaves (k next : Keeper) : Type 0 where
    pub below : IsBelow b next
    pub roomy : HasRoom b rule (owner_in tenant k) → HasRoom b rule (owner_in tenant next)

  reclaim_tenant-Leaves :
      (k : Keeper) (other : Text) → IsBelow b k → Leaves k (reclaim_tenant k other)
  reclaim_tenant-Leaves k other h = elim (Option-cases (lookup other k.tenants)) [
    | inl e ↦
        subst (Leaves k) (sym (reclaim_tenant_missing k other e))
          (record { below = h; roomy = λ r. r })
    | inr (t, e) ↦ subst (Leaves k) (sym (reclaim_tenant_held k other t e)) (record {
      below =
          reclaim-IsBelow b k other t h
            (All-lookup (IsWithin b) other t k.tenants h.tenants_held e);
      roomy = λ r.
          reclaim-HasRoom b rule k tenant other t new
            (λ same. reclaimed-HasRoom b rule k t (found same e r)) (λ n. r);
    })
  ]
    where
      found :
          {t : TenantKeys}
          → other ≡ tenant
          → lookup other k.tenants ≡ some t
          → HasRoom b rule (owner_in tenant k)
          → HasRoom b rule t
      found same e r =
          subst (λ o. HasRoom b rule (or_new new_tenant o))
            (sym (ap (λ n. lookup n k.tenants) same) ∙ e) r

  reclaim_all-Leaves : (ts : List Text) (k : Keeper) → IsBelow b k → Leaves k (reclaim_all k ts)
  unfolding reclaim_all
  reclaim_all-Leaves [] k h = record { below = h; roomy = λ r. r }
  reclaim_all-Leaves (other ∷ ts) k h =
      let first = reclaim_tenant-Leaves k other h in
      let rest = reclaim_all-Leaves ts (reclaim_tenant k other) first.below in
      record { below = rest.below; roomy = λ r. rest.roomy (first.roomy r) }

  sweep-Leaves : (k : Keeper) → IsBelow b k → Leaves k (sweep k)
  unfolding sweep
  sweep-Leaves k h = elim (Bool-cases (ltb (k.newest - k.swept) sweep_every)) [
    | inl e ↦ rw e (record { below = h; roomy = λ r. r })
    | inr e ↦
        let begun : IsBelow b (record k { swept = k.newest }) = record {
          agreed = h.agreed;
          keys_held = h.keys_held;
          tenants_held = h.tenants_held;
        } in
        let all = reclaim_all-Leaves (names_of k.tenants) (record k { swept = k.newest }) begun in
        rw e (record { below = all.below; roomy = λ r. all.roomy r })
  ]

  -- What admission answers: a store within its bounds, with room for the key where it is let in.
  pub record Admitted (turn : Keeper × Option KeeperError) : Type 0 where
    pub below : IsBelow b turn.0
    pub room :
        turn.1 ≡ none → (length turn.0.keys < b.keys) × HasRoom b rule (owner_in tenant turn.0)

  settled-Admitted :
      (s : Keeper)
      → IsBelow b s
      → HasRoom b rule (owner_in tenant s)
      → Admitted (s, if is_full s then some at_capacity else none)
  unfolding is_full
  settled-Admitted s h r = record {
    below = h;
    room = λ n.
        let same : s.bounds.keys ≡ b.keys = ap (λ (x : Bounds). x.keys) h.agreed in
        (ground arith, r);
  }

  admit_store-Admitted :
      (k : Keeper) → IsBelow b k → HasRoom b rule (owner_in tenant k) → Admitted (admit_store k)
  unfolding admit_store
  admit_store-Admitted k h r = elim (Bool-cases (is_full k)) [
    | inl e ↦
        let swept = sweep-Leaves k h in
        subst (λ s. Admitted (s, if is_full s then some at_capacity else none))
          (sym (ap (λ f. if f then sweep k else k) e))
          (settled-Admitted (sweep k) swept.below (swept.roomy r))
    | inr e ↦
        subst (λ s. Admitted (s, if is_full s then some at_capacity else none))
          (sym (ap (λ f. if f then sweep k else k) e)) (settled-Admitted k h r)
  ]

  admit_after-Admitted :
      (bounds : Bounds) (next : Keeper) (left : TenantKeys)
      → bounds ≡ b
      → IsBelow b next
      → (HasRoom b rule left → HasRoom b rule (owner_in tenant next))
      → Admitted (admit_after bounds rule next left)
  unfolding admit_after
  admit_after-Admitted bounds next left q h r = elim (Option-cases (refuses left rule bounds)) [
    | inl e ↦ subst Admitted (sym (admit_after_none e)) (
        admit_store-Admitted next h
          (r (refuses-HasRoom b rule left (ap (refuses left rule) (sym q) ∙ e))))
    | inr (x, e) ↦
        subst Admitted (sym (admit_after_some x e)) (record { below = h; room = λ n. absurd (cc) })
  ]
    where
      admit_after_none :
          refuses left rule bounds ≡ none → admit_after bounds rule next left ≡ admit_store next
      admit_after_none e = ground (arith, e)

      admit_after_some :
          (x : KeeperError)
          → refuses left rule bounds ≡ some x
          → admit_after bounds rule next left ≡ (next, some x)
      admit_after_some x e = ground (arith, e)

pub admit_tenant_pressed :
    (k : Keeper) (key : Key) (t : TenantKeys) (pressed : Bool)
    → is_pressed k key.rule t ≡ pressed
    → admit_tenant k key t ≡ (
        if pressed
        then admit_after k.bounds key.rule (reclaim k key.tenant t) (reclaimed k t).1
        else admit_after k.bounds key.rule k t)
unfolding admit_tenant
admit_tenant_pressed k key t pressed p =
    ap
      (λ f.
        if f
        then admit_after k.bounds key.rule (reclaim k key.tenant t) (reclaimed k t).1
        else admit_after k.bounds key.rule k t)
      p

-- Admission of a key, by a store within its bounds.
module _ (b : Bounds) (key : Key) (new : HasRoom b key.rule new_tenant) where
  admit_tenant-Admitted :
      (k : Keeper) (t : TenantKeys)
      → IsBelow b k
      → lookup key.tenant k.tenants ≡ some t
      → Admitted b key.tenant key.rule new (admit_tenant k key t)
  admit_tenant-Admitted k t h e = elim (Bool-cases (is_pressed k key.rule t)) [
    | inl p ↦
        subst (Admitted b key.tenant key.rule new) (sym (admit_tenant_pressed k key t true p)) (
          admit_after-Admitted b key.tenant key.rule new k.bounds (reclaim k key.tenant t)
            (reclaimed k t).1 h.agreed
            (reclaim-IsBelow b k key.tenant t h
              (All-lookup (IsWithin b) key.tenant t k.tenants h.tenants_held e))
            (λ r.
              reclaim-HasRoom b key.rule k key.tenant key.tenant t new (λ same. r)
                (λ n. absurd (n refl))))
    | inr p ↦
        subst (Admitted b key.tenant key.rule new) (sym (admit_tenant_pressed k key t false p)) (
          admit_after-Admitted b key.tenant key.rule new k.bounds k t h.agreed h
            (λ r. subst (λ o. HasRoom b key.rule (or_new new_tenant o)) (sym e) r))
  ]

  pub admit-Admitted : (k : Keeper) → IsBelow b k → Admitted b key.tenant key.rule new (admit k key)
  admit-Admitted k h = elim (Option-cases (lookup key.tenant k.tenants)) [
    | inl e ↦ subst (Admitted b key.tenant key.rule new) (sym (admit_new k key e)) (
        admit_store-Admitted b key.tenant key.rule new k h
          (subst (λ o. HasRoom b key.rule (or_new new_tenant o)) (sym e) new))
    | inr (t, e) ↦
        subst (Admitted b key.tenant key.rule new) (sym (admit_known k key t e))
          (admit_tenant-Admitted k t h e)
  ]
    where
      admit_new :
          (k : Keeper) (key : Key)
          → lookup key.tenant k.tenants ≡ none
          → admit k key ≡ admit_store k
      admit_new k key e = unfold admit in ground (arith, e)

      admit_known :
          (k : Keeper) (key : Key) (t : TenantKeys)
          → lookup key.tenant k.tenants ≡ some t
          → admit k key ≡ admit_tenant k key t
      admit_known k key t e = unfold admit in ground (arith, e)
