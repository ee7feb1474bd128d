-- ===== src/Base/Map.antt =====
-- A Go map as an association list: a key is written where it stands, or at the end.
use mathlib.Core.Path.{◌≡◌, refl}
use mathlib.Core.Option.{Option, none, some}
use mathlib.Core.List.{List, [], ◌∷◌}
use native.Mathlib.Omega.{arith}
use seagull_backend_v.Base.Tests.{Eq, ◌==◌, if◌then◌else◌}

abbrev pub Map {ℓ κ} : Type ℓ → Type κ → Type (ℓ ⊔ κ)
Map K V = List (K × V)

module _ {ℓ κ} {K : Type ℓ} {V : Type κ} ⦃e : Eq K⦄ where
  unfoldable pub lookup : K → Map K V → Option V
  lookup k [] = none
  lookup k ((q, v) ∷ m) = if q == k then some v else lookup k m

  unfoldable pub insert : K → V → Map K V → Map K V
  insert k v [] = (k, v) ∷ []
  insert k v ((q, u) ∷ m) = if q == k then (k, v) ∷ m else (q, u) ∷ insert k v m

  unfoldable pub delete : K → Map K V → Map K V
  delete k [] = []
  delete k ((q, u) ∷ m) = if q == k then delete k m else (q, u) ∷ delete k m

  pub lookup-insert :
      (k q : K) (v : V) (m : Map K V)
      → lookup q (insert k v m) ≡ (if k == q then some v else lookup q m)
  unfolding lookup insert
  lookup-insert k q v [] = refl
  lookup-insert k q v ((p, u) ∷ m) =
      ground (arith, e.beq_iff k q, e.beq_iff p k, e.beq_iff p q, lookup-insert k q v m)

  pub lookup-delete :
      (k q : K) (m : Map K V) → lookup q (delete k m) ≡ (if k == q then none else lookup q m)
  unfolding lookup delete
  lookup-delete k q [] = ground arith
  lookup-delete k q ((p, u) ∷ m) =
      ground (arith, e.beq_iff k q, e.beq_iff p k, e.beq_iff p q, lookup-delete k q m)

  pub lookup-insert_self : (k : K) (v : V) (m : Map K V) → lookup k (insert k v m) ≡ some v
  lookup-insert_self k v m = ground (arith, lookup-insert k k v m, e.beq_iff k k)
