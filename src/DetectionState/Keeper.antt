-- ===== src/DetectionState/Keeper.antt =====
-- internal/detectionstate/keeper.go (`fold`, `advance`, `admit`, `open`) and tenancy.go: the keys a
-- process holds, what each tenant is charged for, and what pressure reclaims. The lock makes each
-- fold one step. An instant is a number of nanoseconds since the zero time; the heap of a
-- partition is the list of what is filed in it, since `reclaim` takes out of it or files again
-- exactly what was filed before its clock, whichever is soonest.
pub mod Within
pub mod Room
pub mod Admission
pub mod Ceilings
pub mod Isolation
use seagull_backend_v.Base.{
  ℕ, max, ◌+◌, ◌-◌, ◌≡◌, ◌↔◌, Bool, true, false, not, ◌&&◌, ◌||◌, Option, none, some, List, [], ◌∷◌,
  ◌++◌, Text, text_Eq, text_eq, text_eq_iff, nat_eq, Eq, ◌==◌, if◌then◌else◌, ltb, leb, length,
  arith, is_some,
}
use seagull_backend_v.Base.Map.{Map, lookup, insert, delete}
use seagull_backend_v.DetectionState.Bounds.{Bounds}
use seagull_backend_v.DetectionState.Observation.{Observation, State, ObservationError}
use seagull_backend_v.DetectionState.Observation
use seagull_backend_v.DetectionState.Window.{Held, Fold, expires, observe}
use seagull_backend_v.DetectionState.Key.{Key}

unfoldable pub key_eq : Key → Key → Bool
unfolding text_eq
key_eq a b = a.tenant == b.tenant && a.rule == b.rule && a.group == b.group

pub key_eq_iff : (a b : Key) → (key_eq a b ≡ true) ↔ (a ≡ b)
unfolding key_eq
key_eq_iff a b =
    ground
      (arith, text_eq_iff a.tenant b.tenant, text_eq_iff a.rule b.rule, text_eq_iff a.group b.group)

instance abbrev pub key_Eq : Eq Key
key_Eq = record { beq = key_eq; beq_iff = key_eq_iff }

-- A key filed in a partition, at the first moment it could be past its window.
pub record Expiry : Type 0 where
  pub moment : ℕ
  pub filed : Key

pub record PartitionKeys : Type 0 where
  pub watermark : ℕ
  pub heard : ℕ
  pub expiring : List Expiry

pub record TenantKeys : Type 0 where
  pub held : ℕ
  pub rules : Map Text ℕ
  pub partitions : Map ℕ PartitionKeys

pub record Keeper : Type 0 where
  pub bounds : Bounds
  pub keys : Map Key Held
  pub tenants : Map Text TenantKeys
  pub newest : ℕ
  pub swept : ℕ

pub data KeeperError : Type 0 where
  invalid : ObservationError → KeeperError
  no_window window_too_long too_late : KeeperError
  at_capacity tenant_at_capacity rule_at_capacity : KeeperError

abbrev pub sweep_every : ℕ
sweep_every = 1_000_000_000

-- A missing counter reads 0.
abbrev pub counted : Option ℕ → ℕ
counted none = 0
counted (some n) = n

unfoldable pub refuses : TenantKeys → Text → Bounds → Option KeeperError
unfolding lookup
refuses t rule bounds =
    if leb bounds.keys_per_tenant t.held
    then some tenant_at_capacity
    else if leb bounds.keys_per_rule (counted (lookup rule t.rules))
    then some rule_at_capacity
    else none

unfoldable pub opened : TenantKeys → Text → TenantKeys
unfolding lookup insert
opened t rule = record t {
  held = t.held + 1;
  rules = insert rule (counted (lookup rule t.rules) + 1) t.rules;
}

-- A counter that is not positive stays: a key that is closed was opened.
unfoldable pub closed : TenantKeys → Text → TenantKeys
unfolding lookup insert delete
closed t rule = record t {
  held = t.held - 1;
  rules =
      if leb (counted (lookup rule t.rules)) 1
      then delete rule t.rules
      else insert rule (counted (lookup rule t.rules) - 1) t.rules;
}

unfoldable pub delivered : PartitionKeys → ℕ → ℕ → PartitionKeys
delivered p moment newest = record p { watermark = max p.watermark moment; heard = newest }

unfoldable pub clock : PartitionKeys → ℕ → ℕ
clock p newest = p.watermark + (newest - p.heard)

-- When a key that is filed could next be past its window.
unfoldable pub next_moment : Map Key Held → Expiry → ℕ
unfolding lookup expires key_eq
next_moment keys x = elim (lookup x.filed keys) [ none ↦ 0 | some h ↦ expires h ]

unfoldable pub is_past : ℕ → Map Key Held → Expiry → Bool
unfolding next_moment
is_past now keys x = ltb x.moment now && ltb (next_moment keys x) now

unfoldable pub filed_again : ℕ → Map Key Held → Expiry → Expiry
unfolding next_moment
filed_again now keys x = if ltb x.moment now then record x { moment = next_moment keys x } else x

-- The loop of `reclaim` over one partition: what stays filed, the keys, and the tenant's counts.
unfoldable pub reclaim_from :
    ℕ → List Expiry → Map Key Held → TenantKeys → List Expiry × Map Key Held × TenantKeys
unfolding is_past filed_again delete key_eq closed
reclaim_from now [] keys owner = ([], keys, owner)
reclaim_from now (x ∷ xs) keys owner =
    let gone = is_past now keys x in
    let (left, kept, held) =
      reclaim_from now xs (if gone then delete x.filed keys else keys)
        (if gone then closed owner x.filed.rule else owner) in
    (if gone then left else filed_again now keys x ∷ left, kept, held)

-- A partition with nothing filed is dropped.
unfoldable pub reclaim_each :
    ℕ
    → Map ℕ PartitionKeys
    → Map Key Held
    → TenantKeys
    → Map ℕ PartitionKeys × Map Key Held × TenantKeys
unfolding reclaim_from clock
reclaim_each newest [] keys owner = ([], keys, owner)
reclaim_each newest ((n, p) ∷ ps) keys owner =
    let (left, next, charged) = reclaim_from (clock p newest) p.expiring keys owner in
    let (others, kept, held) = reclaim_each newest ps next charged in
    (if length left == 0 then others else (n, record p { expiring = left }) ∷ others, kept, held)

-- `reclaim`: the keys and the tenant it leaves; a tenant that holds nothing is forgotten.
unfoldable pub reclaimed : Keeper → TenantKeys → Map Key Held × TenantKeys
unfolding reclaim_each
reclaimed k owner =
    let (partitions, keys, charged) = reclaim_each k.newest owner.partitions k.keys owner in
    (keys, record charged { partitions = partitions })

unfoldable pub reclaim : Keeper → Text → TenantKeys → Keeper
unfolding reclaimed insert delete
reclaim k tenant owner =
    let (keys, left) = reclaimed k owner in
    record k {
      keys = keys;
      tenants = if left.held == 0 then delete tenant k.tenants else insert tenant left k.tenants;
    }

unfoldable pub reclaim_tenant : Keeper → Text → Keeper
unfolding lookup reclaim
reclaim_tenant k tenant = elim (lookup tenant k.tenants) [
  | none ↦ k
  | some owner ↦ reclaim k tenant owner
]

unfoldable pub reclaim_all : Keeper → List Text → Keeper
unfolding reclaim_tenant
reclaim_all k [] = k
reclaim_all k (tenant ∷ ts) = reclaim_all (reclaim_tenant k tenant) ts

abbrev pub names_of : Map Text TenantKeys → List Text
names_of [] = []
names_of ((tenant, owner) ∷ ts) = tenant ∷ names_of ts

unfoldable pub sweep : Keeper → Keeper
unfolding reclaim_all
sweep k =
    if ltb (k.newest - k.swept) sweep_every
    then k
    else reclaim_all (record k { swept = k.newest }) (names_of k.tenants)

-- What `advance` makes of the tenants, of the event's partition and of its tenant.
unfoldable pub deliver_in :
    Map Text TenantKeys
    → Text
    → TenantKeys
    → Observation
    → ℕ
    → Option PartitionKeys
    → Map Text TenantKeys
unfolding insert delivered
deliver_in tenants tenant owner seen newest none = tenants
deliver_in tenants tenant owner seen newest (some p) =
    let partitions = insert seen.partition (delivered p seen.time newest) owner.partitions in
    insert tenant (record owner { partitions = partitions }) tenants

unfoldable pub deliver :
    Map Text TenantKeys → Text → Observation → ℕ → Option TenantKeys → Map Text TenantKeys
unfolding lookup deliver_in
deliver tenants tenant seen newest none = tenants
deliver tenants tenant seen newest (some owner) =
    deliver_in tenants tenant owner seen newest (lookup seen.partition owner.partitions)

unfoldable pub advance : Keeper → Text → Observation → Keeper
unfolding lookup deliver
advance k tenant seen =
    let newest = max k.newest seen.time in
    record k {
      newest = newest;
      tenants = deliver k.tenants tenant seen newest (lookup tenant k.tenants);
    }

unfoldable pub is_full : Keeper → Bool
is_full k = leb k.bounds.keys (length k.keys)

-- The part of `admit` that asks the store's own ceiling.
unfoldable pub admit_store : Keeper → Keeper × Option KeeperError
unfolding is_full sweep
admit_store k =
    let swept = if is_full k then sweep k else k in
    (swept, if is_full swept then some at_capacity else none)

-- The end of `admit`, once its tenant was reclaimed or had room.
unfoldable pub admit_after : Bounds → Text → Keeper → TenantKeys → Keeper × Option KeeperError
unfolding refuses admit_store
admit_after bounds rule k owner = elim (refuses owner rule bounds) [
  | some e ↦ (k, some e)
  | none ↦ admit_store k
]

unfoldable pub is_pressed : Keeper → Text → TenantKeys → Bool
unfolding refuses is_full
is_pressed k rule owner = is_some (refuses owner rule k.bounds) || is_full k

unfoldable pub admit_tenant : Keeper → Key → TenantKeys → Keeper × Option KeeperError
unfolding is_pressed admit_after reclaimed reclaim
admit_tenant k key owner =
    if is_pressed k key.rule owner
    then admit_after k.bounds key.rule (reclaim k key.tenant owner) (reclaimed k owner).1
    else admit_after k.bounds key.rule k owner

unfoldable pub admit : Keeper → Key → Keeper × Option KeeperError
unfolding lookup admit_store admit_tenant
admit k key = elim (lookup key.tenant k.tenants) [
  | none ↦ admit_store k
  | some owner ↦ admit_tenant k key owner
]

abbrev pub new_tenant : TenantKeys
new_tenant = record { held = 0; rules = []; partitions = [] }

abbrev pub or_new {ℓ} : {A : Type ℓ} → A → Option A → A
or_new a none = a
or_new a (some b) = b

-- `open`: the key is charged to its tenant and filed in its partition.
unfoldable pub charge : Keeper → Key → Held → Observation → TenantKeys
unfolding lookup insert opened expires
charge k key h seen =
    let owner = or_new new_tenant (lookup key.tenant k.tenants) in
    let fresh : PartitionKeys = record { watermark = seen.time; heard = k.newest; expiring = [] } in
    let p : PartitionKeys = or_new fresh (lookup seen.partition owner.partitions) in
    let filed = record p { expiring = record { moment = expires h; filed = key } ∷ p.expiring } in
    record (opened owner key.rule) { partitions = insert seen.partition filed owner.partitions }

unfoldable pub open_key : Keeper → Key → Held → Observation → Keeper
unfolding insert charge key_eq
open_key k key h seen = record k {
  keys = insert key h k.keys;
  tenants = insert key.tenant (charge k key h seen) k.tenants;
}

abbrev pub Reply : Type 0
Reply = (Option KeeperError) × Option (State × List Observation)

abbrev pub reply : Held × State × Fold → Reply
reply (h, state, Fold.in_time) = (none, some (state, h.seen))
reply (h, state, Fold.too_late) = (some too_late, none)

-- The end of `fold` for a key that is held, and for one that admission answered.
unfoldable pub fold_held : Keeper → Key → Observation → ℕ → Held → Keeper × Reply
unfolding observe insert key_eq
fold_held k key seen window h =
    let turn = observe (record h { window = window }) seen k.bounds.observations_per_key in
    (record k { keys = insert key turn.0 k.keys }, reply turn)

unfoldable pub fold_new : Key → Observation → ℕ → Keeper × Option KeeperError → Keeper × Reply
unfolding observe open_key
fold_new key seen window (k, some e) = (k, (some e, none))
fold_new key seen window (k, none) =
    let new : Held = record { window = window; seen = []; ids = []; values = [] } in
    let turn = observe new seen k.bounds.observations_per_key in
    (open_key k key turn.0 seen, reply turn)

unfoldable pub fold_at : Keeper → Key → Observation → ℕ → Option Held → Keeper × Reply
unfolding fold_held fold_new admit
fold_at k key seen window none = fold_new key seen window (admit k key)
fold_at k key seen window (some h) = fold_held k key seen window h

-- The part of `fold` under the lock.
unfoldable pub fold_locked : Keeper → Key → Observation → ℕ → Keeper × Reply
unfolding advance lookup fold_at key_eq
fold_locked k key seen window =
    let k = advance k key.tenant seen in fold_at k key seen window (lookup key k.keys)

unfoldable pub fold_checked :
    Keeper → Key → Observation → ℕ → Option ObservationError → Keeper × Reply
unfolding fold_locked
fold_checked k key seen window (some e) = (k, (some (invalid e), none))
fold_checked k key seen window none =
    if window == 0
    then (k, (some no_window, none))
    else if ltb k.bounds.window window
    then (k, (some window_too_long, none))
    else fold_locked k key seen window

unfoldable pub fold : Keeper → Key → Observation → ℕ → Keeper × Reply
unfolding fold_checked
fold k key seen window = fold_checked k key seen window (Observation.validate seen)

-- `NewKeeper`, of bounds that `Validate` lets through.
unfoldable pub new_keeper : Bounds → Keeper
new_keeper b = record { bounds = b; keys = []; tenants = []; newest = 0; swept = 0 }

-- One call of `Observe` or `Ordered` after another.
unfoldable pub fold_all : Keeper → List (Key × Observation × ℕ) → Keeper
unfolding fold
fold_all k [] = k
fold_all k ((key, seen, window) ∷ calls) = fold_all (fold k key seen window).0 calls
