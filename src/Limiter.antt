-- ===== src/Limiter.antt =====
-- internal/platform/ratelimit/limiter.go: a budget for each caller, for a bounded number of them.
-- The token bucket of golang.org/x/time/rate is a parameter: its state, a new one, and what one
-- `Allow` at an instant makes of it. The map from a key to its place in the order is kept as the
-- keys it holds. A nil limiter, which allows every call and tracks nobody, is left out.
pub mod Invariant
pub mod Budget
use seagull_backend_v.Base.{
  ℕ, zero, suc, ◌≡◌, Bool, true, false, Option, none, some, List, [], ◌∷◌, Text, text_Eq, ◌==◌,
  if◌then◌else◌, ltb, length,
}
use seagull_backend_v.Base.Map.{Map, lookup, insert, delete}

pub record Buckets : Type 1 where
  pub Bucket : Type 0
  pub new_bucket : Bucket
  pub allow_bucket : Bucket → ℕ → Bucket × Bool

module _ (B : Buckets) where
  pub record Entry : Type 0 where
    pub key : Text
    pub limiter : B.Bucket

  pub record Limiter : Type 0 where
    pub capacity : ℕ
    pub order : List Entry
    pub buckets : Map Text (Unit {0})

  abbrev pub new_limiter : ℕ → Limiter
  new_limiter capacity = record { capacity = capacity; order = []; buckets = [] }

  -- The entry of a key in the order, and the order without it.
  unfoldable pub entry_of : Text → List Entry → Option Entry
  entry_of k [] = none
  entry_of k (e ∷ es) = if e.key == k then some e else entry_of k es

  unfoldable pub without : Text → List Entry → List Entry
  without k [] = []
  without k (e ∷ es) = let rest = without k es in if e.key == k then es else e ∷ rest

  -- `order.Back()` of an order with an entry, and what is left without it.
  unfoldable pub oldest : Entry → List Entry → Entry
  oldest e [] = e
  oldest e (f ∷ es) = oldest f es

  unfoldable pub but_oldest : Entry → List Entry → List Entry
  but_oldest e [] = []
  but_oldest e (f ∷ es) = e ∷ but_oldest f es

  -- The loop of `evictLocked`, which removes one entry a turn: as many turns as there are entries
  -- are enough.
  unfoldable pub evict_from :
      ℕ → ℕ → List Entry → Map Text (Unit {0}) → List Entry × Map Text (Unit {0})
  unfolding oldest but_oldest
  evict_from capacity n [] buckets = ([], buckets)
  evict_from capacity zero (e ∷ es) buckets = (e ∷ es, buckets)
  evict_from capacity (suc n) (e ∷ es) buckets =
      let rest = evict_from capacity n (but_oldest e es) (delete (oldest e es).key buckets) in
      if ltb capacity (length (e ∷ es)) then rest else (e ∷ es, buckets)

  unfoldable pub evict : Limiter → Limiter
  unfolding evict_from
  evict l =
      let (order, buckets) = evict_from l.capacity (length l.order) l.order l.buckets in
      record l { order = order; buckets = buckets }

  -- The entry that `limiter.Allow` spends from, written back where the order still holds it.
  unfoldable pub spend : Text → B.Bucket → List Entry → List Entry
  spend k b [] = []
  spend k b (e ∷ es) =
      let rest = spend k b es in
      if e.key == k then record { key = k; limiter = b } ∷ es else e ∷ rest

  abbrev held_bucket : Option Entry → B.Bucket
  held_bucket none = B.new_bucket
  held_bucket (some e) = e.limiter

  -- What stands in the order once a key is at its front: as it was where it is known, and else
  -- new, with whoever came least recently evicted.
  unfoldable pub seat : Limiter → Text → Limiter
  unfolding entry_of without evict
  seat l k = elim (lookup k l.buckets) [
    | some known ↦ record l {
      order = record { key = k; limiter = held_bucket (entry_of k l.order) } ∷ without k l.order;
    }
    | none ↦ evict (record l {
      order = record { key = k; limiter = B.new_bucket } ∷ l.order;
      buckets = insert k tt l.buckets;
    })
  ]

  -- The bucket that a key's `Allow` asks: its own, or a new one.
  unfoldable pub bucket_of : Limiter → Text → B.Bucket
  unfolding entry_of
  bucket_of l k = elim (lookup k l.buckets) [
    | some known ↦ held_bucket (entry_of k l.order)
    | none ↦ B.new_bucket
  ]

  unfoldable pub allow : Limiter → Text → ℕ → Limiter × Bool
  unfolding seat bucket_of spend
  allow l k now =
      let (spent, answer) = B.allow_bucket (bucket_of l k) now in
      let seated = seat l k in (record seated { order = spend k spent seated.order }, answer)

  abbrev pub tracked : Limiter → ℕ
  tracked l = length l.buckets
