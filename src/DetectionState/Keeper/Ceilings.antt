-- ===== src/DetectionState/Keeper/Ceilings.antt =====
-- internal/detectionstate/keeper.go: no stream of events takes a store past its ceiling, a tenant
-- past its quota or a rule past its own.
use seagull_backend_v.Base.{
  ℕ, ◌<◌, ◌≡◌, refl, sym, subst, Option, none, some, List, [], ◌∷◌, Text, text_Eq, nat_eq, ◌==◌,
  ltb, length, arith, All, Bool-cases, Option-cases, inl, inr,
}
use seagull_backend_v.Base.Map.{Map, lookup}
use seagull_backend_v.DetectionState.Bounds
use seagull_backend_v.DetectionState.Bounds.{Bounds, IsBounded}
use seagull_backend_v.DetectionState.Observation
use seagull_backend_v.DetectionState.Observation.{Observation, State}
use seagull_backend_v.DetectionState.Window.{Held}
use seagull_backend_v.DetectionState.Key.{Key}
use seagull_backend_v.DetectionState.Keeper.{
  key_Eq, PartitionKeys, TenantKeys, Keeper, KeeperError, opened, deliver_in, deliver, advance,
  admit, new_tenant, or_new, charge, open_key, fold_held, fold_new, fold_at, fold_locked,
  fold_checked, fold, new_keeper, fold_all,
}
use seagull_backend_v.DetectionState.Keeper.Within.{
  All-insert, All-lookup, IsBelow, IsWithin, length-insert, length-insert_held,
}
use seagull_backend_v.DetectionState.Keeper.Room.{HasRoom, owner_in}
use seagull_backend_v.DetectionState.Keeper.Admission.{Admitted, admit-Admitted}

opened-IsWithin :
    (b : Bounds) (t : TenantKeys) (rule : Text)
    → HasRoom b rule t
    → IsWithin b t
    → IsWithin b (opened t rule)
unfolding opened
opened-IsWithin b t rule r w = record {
  tenant_held = omega (arith, r.tenant_room);
  rules_held = All-insert _ rule _ t.rules (omega (arith, r.rule_room)) w.rules_held;
}

owner_in-IsWithin :
    (b : Bounds) (tenant : Text) (k : Keeper) → IsBelow b k → IsWithin b (owner_in tenant k)
owner_in-IsWithin b tenant k h = elim (Option-cases (lookup tenant k.tenants)) [
  | inl e ↦
      subst (λ o. IsWithin b (or_new new_tenant o)) (sym e)
        (record { tenant_held = omega arith; rules_held = tt })
  | inr (t, e) ↦
      subst (λ o. IsWithin b (or_new new_tenant o)) (sym e)
        (All-lookup (IsWithin b) tenant t k.tenants h.tenants_held e)
]

open_key-IsBelow :
    (b : Bounds) (k : Keeper) (key : Key) (h : Held) (seen : Observation)
    → IsBelow b k
    → length k.keys < b.keys
    → HasRoom b key.rule (owner_in key.tenant k)
    → IsBelow b (open_key k key h seen)
unfolding open_key
open_key-IsBelow b k key h seen w l r = record {
  agreed = w.agreed;
  keys_held = omega (arith, length-insert key h k.keys);
  tenants_held =
      All-insert _ key.tenant _ k.tenants
        (charged (opened-IsWithin b _ key.rule r (owner_in-IsWithin b key.tenant k w)))
        w.tenants_held;
}
  where
    charged :
        IsWithin b (opened (owner_in key.tenant k) key.rule) → IsWithin b (charge k key h seen)
    charged i = unfold charge in record { tenant_held = i.tenant_held; rules_held = i.rules_held }

deliver-IsWithin :
    (b : Bounds) (ts : Map Text TenantKeys) (tenant : Text) (seen : Observation) (newest : ℕ)
    → All (λ x. IsWithin b x.1) ts
    → All (λ x. IsWithin b x.1) (deliver ts tenant seen newest (lookup tenant ts))
deliver-IsWithin b ts tenant seen newest h =
    at_tenant (lookup tenant ts) (λ t e. All-lookup (IsWithin b) tenant t ts h e)
  where
    in_partition :
        (t : TenantKeys) (o : Option PartitionKeys)
        → IsWithin b t
        → All (λ x. IsWithin b x.1) (deliver_in ts tenant t seen newest o)
    in_partition t none w = unfold deliver_in in h
    in_partition t (some p) w =
        unfold deliver_in in
        All-insert _ tenant _ ts (record { tenant_held = w.tenant_held; rules_held = w.rules_held })
          h

    at_tenant :
        (o : Option TenantKeys)
        → ((t : TenantKeys) → o ≡ some t → IsWithin b t)
        → All (λ x. IsWithin b x.1) (deliver ts tenant seen newest o)
    at_tenant none w = unfold deliver in h
    at_tenant (some t) w = unfold deliver in in_partition t _ (w t refl)

pub advance-IsBelow :
    (b : Bounds) (k : Keeper) (tenant : Text) (seen : Observation)
    → IsBelow b k
    → IsBelow b (advance k tenant seen)
unfolding advance
advance-IsBelow b k tenant seen h = record {
  agreed = h.agreed;
  keys_held = h.keys_held;
  tenants_held = deliver-IsWithin b k.tenants tenant seen _ h.tenants_held;
}

fold_new-IsBelow :
    (b : Bounds) (key : Key) (seen : Observation) (window : ℕ) (new : HasRoom b key.rule new_tenant)
    (turn : Keeper × Option KeeperError)
    → Admitted b key.tenant key.rule new turn
    → IsBelow b (fold_new key seen window turn).0
unfolding fold_new
fold_new-IsBelow b key seen window new (k, some e) a = a.below
fold_new-IsBelow b key seen window new (k, none) a =
    let (room, roomy) = a.room refl in open_key-IsBelow b k key _ seen a.below room roomy

fold_at-IsBelow :
    (b : Bounds) (k : Keeper) (key : Key) (seen : Observation) (window : ℕ) (o : Option Held)
    → lookup key k.keys ≡ o
    → HasRoom b key.rule new_tenant
    → IsBelow b k
    → IsBelow b (fold_at k key seen window o).0
unfolding fold_at fold_held
fold_at-IsBelow b k key seen window none e new h =
    fold_new-IsBelow b key seen window new (admit k key) (admit-Admitted b key new k h)
fold_at-IsBelow b k key seen window (some held) e new h = record {
  agreed = h.agreed;
  keys_held = omega (arith, h.keys_held, length-insert_held key _ held k.keys e);
  tenants_held = h.tenants_held;
}

fold_checked-IsBelow :
    (b : Bounds) (k : Keeper) (key : Key) (seen : Observation) (window : ℕ)
    (wrong : Option Observation.ObservationError)
    → HasRoom b key.rule new_tenant
    → IsBelow b k
    → IsBelow b (fold_checked k key seen window wrong).0
unfolding fold_checked fold_locked
fold_checked-IsBelow b k key seen window (some x) new h = h
fold_checked-IsBelow b k key seen window none new h = elim (Bool-cases (window == 0)) [
  | inl z ↦ rw z h
  | inr z ↦ elim (Bool-cases (ltb k.bounds.window window)) [
    | inl l ↦ rw (z, l) h
    | inr l ↦
        let begun = advance k key.tenant seen in
        rw (z, l)
          (fold_at-IsBelow b begun key seen window (lookup key begun.keys) refl new
            (advance-IsBelow b k key.tenant seen h))
  ]
]

fold-IsBelow :
    (b : Bounds) (k : Keeper) (key : Key) (seen : Observation) (window : ℕ)
    → HasRoom b key.rule new_tenant
    → IsBelow b k
    → IsBelow b (fold k key seen window).0
unfolding fold
fold-IsBelow b k key seen window new h =
    fold_checked-IsBelow b k key seen window (Observation.validate seen) new h

new_tenant-HasRoom : (b : Bounds) (rule : Text) → IsBounded b → HasRoom b rule new_tenant
unfolding lookup
new_tenant-HasRoom b rule s = record { tenant_room = s.tenant_set.0; rule_room = s.rule_set.0 }

fold_all-IsBelow_kept :
    (b : Bounds) (calls : List (Key × Observation × ℕ)) (k : Keeper)
    → IsBounded b
    → IsBelow b k
    → IsBelow b (fold_all k calls)
unfolding fold_all
fold_all-IsBelow_kept b [] k s h = h
fold_all-IsBelow_kept b ((key, seen, window) ∷ calls) k s h =
    fold_all-IsBelow_kept b calls (fold k key seen window).0 s
      (fold-IsBelow b k key seen window (new_tenant-HasRoom b key.rule s) h)

-- Whatever is folded into a new store whose bounds are valid, it never holds more keys than its
-- bounds let it, charges no tenant for more keys than one may hold, and no rule of a tenant for
-- more than one may.
pub fold_all-IsBelow :
    (b : Bounds) (calls : List (Key × Observation × ℕ))
    → Bounds.validate b ≡ none
    → IsBelow b (fold_all (new_keeper b) calls)
fold_all-IsBelow b calls v =
    fold_all-IsBelow_kept b calls (new_keeper b) ((Bounds.validate_iff b).0 v)
      (unfold new_keeper in record { agreed = refl; keys_held = omega arith; tenants_held = tt })
