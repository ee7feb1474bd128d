-- ===== src/Analysis/Stages.antt =====
-- internal/detection/sequence.go, `Stages`: the stages that an event satisfies, as the bits of one
-- byte; a rule has at most eight.
use seagull_backend_v.Base.{
  ℕ, zero, suc, sym, ap, ap₂, ◌∙◌, Bool-cases, ◌||◌, ◌+◌, ◌*◌, ◌/◌, ◌%◌, ◌^◌, ◌<◌, ◌≡◌, refl, Bool,
  true, false, [], ◌∷◌, Text, nat_eq, ◌==◌, if◌then◌else◌, ltb, not, arith, inl, inr,
}
use native.Mathlib.Nat.{div-div-eq-div-mul}
use native.Mathlib.Numerals.{unary_clauses}

abbrev pub max_stages : ℕ
max_stages = 8

unfoldable pub has : ℕ → ℕ → Bool
has stages stage = (stages / 2 ^ stage) % 2 == 1

-- `s | 1 << stage`, where a shift past the byte is 0.
unfoldable pub add : ℕ → ℕ → ℕ
unfolding has
add stages stage =
    if has stages stage then stages else if ltb stage max_stages then stages + 2 ^ stage else stages

unfoldable pub any : ℕ → Bool
any stages = not (stages == 0)

-- `String` and `StagesOf`: the byte as a text, and back.
unfoldable pub stages_text : ℕ → Text
stages_text stages = stages ∷ []

unfoldable pub stages_of : Text → ℕ
stages_of (stages ∷ []) = stages
stages_of _ = 0

pub stages_of-stages_text : (stages : ℕ) → stages_of (stages_text stages) ≡ stages
unfolding stages_of stages_text
stages_of-stages_text stages = refl

pow_two_suc : (i : ℕ) → 2 ^ suc i ≡ 2 * 2 ^ i
pow_two_suc i = simp unary_clauses (omega arith)

half : (stages i : ℕ) → stages / 2 ^ suc i ≡ stages / 2 / 2 ^ i
half stages i = ap (λ d. stages / d) (pow_two_suc i) ∙ sym (div-div-eq-div-mul stages 2 (2 ^ i))

has-suc : (stages i : ℕ) → has stages (suc i) ≡ has (stages / 2) i
unfolding has
has-suc stages i = ap (λ d. d % 2 == 1) (half stages i)

pub has_zero : (stage : ℕ) → has 0 stage ≡ false
has_zero zero = unfold has in refl
has_zero (suc i) = has-suc 0 i ∙ has_zero i

same_bit : (i j stages : ℕ) → has stages i ≡ true → has stages j ≡ (i == j || has stages j)
same_bit i j stages h = elim (Bool-cases (i == j)) [
  | inl e ↦ let same : i ≡ j = ground arith in rw e (sym (ap (has stages) same) ∙ h)
  | inr e ↦ rw e refl
]

-- A bit that is not set, set.
has_plus :
    (i j stages : ℕ) → has stages i ≡ false → has (stages + 2 ^ i) j ≡ (i == j || has stages j)
unfolding has
has_plus zero zero stages h = ground arith
has_plus zero (suc j) stages h =
    has-suc (stages + 1) j
    ∙ ap (λ n. has n j) (ground arith)
    ∙ sym (has-suc stages j)
    ∙ ground arith
has_plus (suc i) zero stages h = let twice = pow_two_suc i in ground arith
has_plus (suc i) (suc j) stages h =
    let twice = pow_two_suc i in
    let rest = has_plus i j (stages / 2) (sym (has-suc stages i) ∙ h) in
    has-suc (stages + 2 ^ suc i) j
    ∙ ap (λ n. has n j) (omega arith)
    ∙ rest
    ∙ ap₂ (λ a b. a || b) (ground arith) (sym (has-suc stages j))

-- Adding a stage of the eight leaves every other as it was.
pub has-add : (i j stages : ℕ) → i < max_stages → has (add stages i) j ≡ (i == j || has stages j)
unfolding add
has-add i j stages l = elim (Bool-cases (has stages i)) [
  | inl h ↦ rw h (same_bit i j stages h)
  | inr h ↦ rw h (ground (arith, has_plus i j stages h))
]
