-- ===== src/DetectionState/Keeper/Isolation.antt =====
-- internal/detectionstate/keeper.go and tenancy.go: what one tenant sends moves nothing of
-- another's while the store has room.
use seagull_backend_v.Base.{
  ℕ, max, ◌<◌, ◌≡◌, ◌≢◌, refl, ap, ◌∙◌, true, false, Option, none, some, Text, text_Eq, text_eq_iff,
  nat_eq, ◌==◌, ltb, length, arith, Bool-cases, Option-cases, inl, inr,
}
use seagull_backend_v.Base.Map.{Map, lookup, insert, delete, lookup-insert, lookup-delete}
use seagull_backend_v.DetectionState.Bounds.{Bounds}
use seagull_backend_v.DetectionState.Observation
use seagull_backend_v.DetectionState.Observation.{Observation, State}
use seagull_backend_v.DetectionState.Window.{Held}
use seagull_backend_v.DetectionState.Key.{Key}
use seagull_backend_v.DetectionState.Keeper.{
  key_Eq, PartitionKeys, TenantKeys, Keeper, KeeperError, reclaimed, reclaim, deliver_in, deliver,
  advance, is_full, admit_store, admit_after, is_pressed, admit_tenant, admit, open_key, fold_held,
  fold_new, fold_at, fold_locked, fold_checked, fold,
}
use seagull_backend_v.DetectionState.Keeper.Within.{IsWithin, IsBelow, All-lookup, reclaimed_below}
use seagull_backend_v.DetectionState.Keeper.Admission.{admit_tenant_pressed}
use seagull_backend_v.DetectionState.Keeper.Ceilings.{advance-IsBelow}

module _ (q : Text) where
  -- The account of a tenant is what it was.
  abbrev Untouched : Keeper → Keeper → Type 0
  Untouched k next = lookup q next.tenants ≡ lookup q k.tenants

  other_insert :
      (tenant : Text) (t : TenantKeys) (ts : Map Text TenantKeys)
      → q ≢ tenant
      → lookup q (insert tenant t ts) ≡ lookup q ts
  other_insert tenant t ts n = lookup-insert tenant q t ts ∙ ground (arith, text_eq_iff tenant q)

  other_delete :
      (tenant : Text) (ts : Map Text TenantKeys)
      → q ≢ tenant
      → lookup q (delete tenant ts) ≡ lookup q ts
  other_delete tenant ts n = lookup-delete tenant q ts ∙ ground (arith, text_eq_iff tenant q)

  reclaim-Untouched :
      (k : Keeper) (tenant : Text) (t : TenantKeys) → q ≢ tenant → Untouched k (reclaim k tenant t)
  unfolding reclaim
  reclaim-Untouched k tenant t n = elim (Bool-cases ((reclaimed k t).1.held == 0)) [
    | inl e ↦ rw e (other_delete tenant k.tenants n)
    | inr e ↦ rw e (other_insert tenant (reclaimed k t).1 k.tenants n)
  ]

  advance-Untouched :
      (k : Keeper) (tenant : Text) (seen : Observation)
      → q ≢ tenant
      → Untouched k (advance k tenant seen)
  unfolding advance
  advance-Untouched k tenant seen n = at_tenant (lookup tenant k.tenants)
    where
      newest : ℕ
      newest = max k.newest seen.time

      in_partition :
          (t : TenantKeys) (o : Option PartitionKeys)
          → lookup q (deliver_in k.tenants tenant t seen newest o) ≡ lookup q k.tenants
      in_partition t none = unfold deliver_in in refl
      in_partition t (some p) = unfold deliver_in in other_insert tenant _ k.tenants n

      at_tenant :
          (o : Option TenantKeys)
          → lookup q (deliver k.tenants tenant seen newest o) ≡ lookup q k.tenants
      at_tenant none = unfold deliver in refl
      at_tenant (some t) = unfold deliver in in_partition t _

  admit_store_room : (k : Keeper) → is_full k ≡ false → (admit_store k).0 ≡ k
  unfolding admit_store
  admit_store_room k f = ground (arith, f)

  admit_after_room :
      (b : Bounds) (rule : Text) (k : Keeper) (t : TenantKeys)
      → is_full k ≡ false
      → (admit_after b rule k t).0 ≡ k
  unfolding admit_after
  admit_after_room b rule k t f = ground (arith, admit_store_room k f)

  reclaim_room :
      (b : Bounds) (k : Keeper) (tenant : Text) (t : TenantKeys)
      → IsWithin b t
      → is_full k ≡ false
      → is_full (reclaim k tenant t) ≡ false
  unfolding is_full reclaim
  reclaim_room b k tenant t w f = let shorter = (reclaimed_below b k t w).0 in ground arith

  admit_tenant-Untouched :
      (b : Bounds) (k : Keeper) (key : Key) (t : TenantKeys)
      → q ≢ key.tenant
      → is_full k ≡ false
      → IsWithin b t
      → Untouched k (admit_tenant k key t).0
  admit_tenant-Untouched b k key t n f w = elim (Bool-cases (is_pressed k key.rule t)) [
    | inl p ↦
        ap (λ x. lookup q x.0.tenants) (admit_tenant_pressed k key t true p)
        ∙ ap (λ (x : Keeper). lookup q x.tenants)
            (admit_after_room k.bounds key.rule (reclaim k key.tenant t) (reclaimed k t).1
              (reclaim_room b k key.tenant t w f))
        ∙ reclaim-Untouched k key.tenant t n
    | inr p ↦
        ap (λ x. lookup q x.0.tenants) (admit_tenant_pressed k key t false p)
        ∙ ap (λ (x : Keeper). lookup q x.tenants) (admit_after_room k.bounds key.rule k t f)
  ]

  admit-Untouched :
      (b : Bounds) (k : Keeper) (key : Key)
      → q ≢ key.tenant
      → is_full k ≡ false
      → IsBelow b k
      → Untouched k (admit k key).0
  admit-Untouched b k key n f h = elim (Option-cases (lookup key.tenant k.tenants)) [
    | inl e ↦
        let turn : (admit k key).0 ≡ k = unfold admit in ground (arith, e, admit_store_room k f) in
        ap (λ (x : Keeper). lookup q x.tenants) turn
    | inr (t, e) ↦
        let turn : admit k key ≡ admit_tenant k key t = unfold admit in ground (arith, e) in
        ap (λ x. lookup q x.0.tenants) turn
        ∙ admit_tenant-Untouched b k key t n f
            (All-lookup (IsWithin b) key.tenant t k.tenants h.tenants_held e)
  ]

  fold_new-Untouched :
      (key : Key) (seen : Observation) (window : ℕ) (turn : Keeper × Option KeeperError)
      → q ≢ key.tenant
      → Untouched turn.0 (fold_new key seen window turn).0
  unfolding fold_new open_key
  fold_new-Untouched key seen window (k, some e) n = refl
  fold_new-Untouched key seen window (k, none) n = other_insert key.tenant _ k.tenants n

  fold_at-Untouched :
      (b : Bounds) (k : Keeper) (key : Key) (seen : Observation) (window : ℕ) (o : Option Held)
      → q ≢ key.tenant
      → is_full k ≡ false
      → IsBelow b k
      → Untouched k (fold_at k key seen window o).0
  unfolding fold_at fold_held
  fold_at-Untouched b k key seen window none n f h =
      fold_new-Untouched key seen window (admit k key) n ∙ admit-Untouched b k key n f h
  fold_at-Untouched b k key seen window (some held) n f h = refl

fold_checked-Untouched :
    (q : Text) (b : Bounds) (k : Keeper) (key : Key) (seen : Observation) (window : ℕ)
    (wrong : Option Observation.ObservationError)
    → q ≢ key.tenant
    → is_full k ≡ false
    → IsBelow b k
    → lookup q (fold_checked k key seen window wrong).0.tenants ≡ lookup q k.tenants
unfolding fold_checked fold_locked
fold_checked-Untouched q b k key seen window (some e) n f h = refl
fold_checked-Untouched q b k key seen window none n f h = elim (Bool-cases (window == 0)) [
  | inl z ↦ rw z refl
  | inr z ↦ elim (Bool-cases (ltb k.bounds.window window)) [
    | inl l ↦ rw (z, l) refl
    | inr l ↦
        let begun = advance k key.tenant seen in
        rw (z, l)
          (fold_at-Untouched q b begun key seen window (lookup key begun.keys) n
              (unfold is_full advance in f) (advance-IsBelow b k key.tenant seen h)
            ∙ advance-Untouched q k key.tenant seen n)
  ]
]

-- In a store that is within its bounds and holds fewer keys than it may, an event of one tenant,
-- whatever comes of it, leaves the account of every other tenant as it was: its counts, its
-- watermarks and what is filed for it.
pub fold_isolated :
    (q : Text) (b : Bounds) (k : Keeper) (key : Key) (seen : Observation) (window : ℕ)
    → q ≢ key.tenant
    → length k.keys < b.keys
    → IsBelow b k
    → lookup q (fold k key seen window).0.tenants ≡ lookup q k.tenants
unfolding fold
fold_isolated q b k key seen window n l h =
    let same : k.bounds.keys ≡ b.keys = ap (λ (x : Bounds). x.keys) h.agreed in
    fold_checked-Untouched q b k key seen window (Observation.validate seen) n
      (unfold is_full in ground arith) h
