-- ===== src/Base/Sort.antt =====
-- `slices.Sort` and `slices.SortFunc`, as an insertion sort: on what the program sorts, whose
-- equal elements are the same, every sort gives the same list.
use mathlib.Core.Path.{◌≡◌}
use mathlib.Core.Logic.{◌⊎◌, ◌↔◌, inl, inr}
use mathlib.Core.Bool.{Bool, true, false}
use mathlib.Core.List.{List, [], ◌∷◌}
use native.Mathlib.Omega.{arith}
use seagull_backend_v.Base.Tests.{Eq, ◌==◌, if◌then◌else◌, Bool-cases, ltb, nat_beq}
use seagull_backend_v.Base.Lists.{In}
use seagull_backend_v.Base.Bytes.{Text}

-- `strings.Compare(a, b) < 0`.
unfoldable pub text_before : Text → Text → Bool
text_before a [] = false
text_before [] (y ∷ ys) = true
text_before (x ∷ xs) (y ∷ ys) =
    let rest = text_before xs ys in if ltb x y then true else if nat_beq x y then rest else false

module _ {A : Type 0} (before : A → A → Bool) where
  unfoldable pub insert_sorted : A → List A → List A
  insert_sorted a [] = a ∷ []
  insert_sorted a (x ∷ xs) = if before x a then x ∷ insert_sorted a xs else a ∷ x ∷ xs

  unfoldable pub sort : List A → List A
  unfolding insert_sorted
  sort [] = []
  sort (x ∷ xs) = insert_sorted x (sort xs)

  In-insert_sorted : (a b : A) (xs : List A) → In b (insert_sorted a xs) ↔ ((b ≡ a) ⊎ In b xs)
  unfolding insert_sorted
  In-insert_sorted a b [] = (λ m. m, λ m. m)
  In-insert_sorted a b (x ∷ xs) = elim (Bool-cases (before x a)) [
    | inl e ↦ rw e (
      λ m. ground (arith, (In-insert_sorted a b xs).0),
      λ m. ground (arith, (In-insert_sorted a b xs).1),
    )
    | inr e ↦ rw e (λ m. m, λ m. m)
  ]

  -- Sorting loses nothing and makes nothing up.
  pub In-sort : (b : A) (xs : List A) → In b (sort xs) ↔ In b xs
  unfolding sort
  In-sort b [] = (λ m. m, λ m. m)
  In-sort b (x ∷ xs) = (
    λ m. ground (arith, (In-insert_sorted x b (sort xs)).0 m, (In-sort b xs).0),
    λ m. (In-insert_sorted x b (sort xs)).1 (ground (arith, (In-sort b xs).1)),
  )

-- `slices.Compact`: of a run of equal elements, the first.
module _ {A : Type 0} ⦃e : Eq A⦄ where
  unfoldable pub compact : List A → List A
  compact [] = []
  compact (x ∷ []) = x ∷ []
  compact (x ∷ y ∷ ys) = let rest = compact (y ∷ ys) in if x == y then rest else x ∷ rest

  pub In-compact : (b : A) (xs : List A) → In b (compact xs) ↔ In b xs
  unfolding compact
  In-compact b [] = (λ m. m, λ m. m)
  In-compact b (x ∷ []) = (λ m. m, λ m. m)
  In-compact b (x ∷ y ∷ ys) = (
    λ m. ground (arith, e.beq_iff x y, (In-compact b (y ∷ ys)).0),
    λ m. ground (arith, e.beq_iff x y, (In-compact b (y ∷ ys)).1),
  )
