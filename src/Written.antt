-- ===== src/Written.antt =====
-- The text that the platform's names are digests of: each part is written with its length in
-- front, `fmt.Fprintf(digest, "%d:%s", len(value), value)`, in internal/detectionstate/key.go,
-- internal/alert/key.go, internal/alert/tuning.go and internal/detection/detected.go.
use seagull_backend_v.Base.{
  ℕ, zero, suc, ◌+◌, ◌-◌, ◌*◌, ◌/◌, ◌%◌, ◌≤◌, ◌<◌, ◌≡◌, refl, sym, ap, ap₂, ◌∙◌, Bool, true, false,
  ◌&&◌, Option, some, List, [], ◌∷◌, ◌++◌, arith, Text, nat_eq, ltb, length, length-append,
  Bool-cases, inl, inr,
}
use seagull_backend_v.Identifier.{is_digit, every}
use seagull_backend_v.Release.Version.{decimal, cut_at}

-- `%d` of a length, and `strconv.Itoa` of a number that is not negative. A number has no more
-- digits than the fuel, which is one more than the number.
unfoldable pub digits_from : ℕ → ℕ → Text
digits_from zero n = []
digits_from (suc f) n = elim (ltb n 10) [
  | true ↦ (b'0' + n) ∷ []
  | false ↦ digits_from f (n / 10) ++ (b'0' + n % 10) ∷ []
]

unfoldable pub digits : ℕ → Text
unfolding digits_from
digits n = digits_from (suc n) n

-- One `write`.
unfoldable pub write : Text → Text
unfolding digits
write value = digits (length value) ++ b':' ∷ value

unfoldable pub write_all : List Text → Text
unfolding write
write_all [] = []
write_all (value ∷ values) = write value ++ write_all values

decimal-append : (n : ℕ) (s t : Text) → decimal n (s ++ t) ≡ decimal (decimal n s) t
unfolding decimal
decimal-append n [] t = refl
decimal-append n (c ∷ s) t = decimal-append (n * 10 + (c - b'0')) s t

every-append : (p : ℕ → Bool) (s t : Text) → every p (s ++ t) ≡ (every p s && every p t)
unfolding every
every-append p [] t = refl
every-append p (c ∷ s) t = ground (arith, every-append p s t)

small-digits_from : (f n : ℕ) → n < 10 → digits_from (suc f) n ≡ (b'0' + n) ∷ []
unfolding digits_from
small-digits_from f n l = ground arith

large-digits_from :
    (f n : ℕ) → 10 ≤ n → digits_from (suc f) n ≡ digits_from f (n / 10) ++ (b'0' + n % 10) ∷ []
unfolding digits_from
large-digits_from f n l = ground arith

last_digit : (m d : ℕ) → decimal m ((b'0' + d) ∷ []) ≡ m * 10 + d
unfolding decimal
last_digit m d = omega arith

is_digit_below : (d : ℕ) → d < 10 → every is_digit ((b'0' + d) ∷ []) ≡ true
unfolding every
is_digit_below d l = ground arith

decimal-digits_from : (f n : ℕ) → n < f → decimal 0 (digits_from f n) ≡ n
decimal-digits_from zero n l = absurd (omega arith)
decimal-digits_from (suc f) n l = elim (Bool-cases (ltb n 10)) [
  | inl t ↦
      let small : n < 10 = ground arith in
      ap (decimal 0) (small-digits_from f n small) ∙ last_digit 0 n ∙ omega arith
  | inr t ↦
      let large : 10 ≤ n = ground arith in
      let held = decimal-digits_from f (n / 10) (omega arith) in
      ap (decimal 0) (large-digits_from f n large)
      ∙ decimal-append 0 (digits_from f (n / 10)) ((b'0' + n % 10) ∷ [])
      ∙ ap (λ m. decimal m ((b'0' + n % 10) ∷ [])) held
      ∙ last_digit (n / 10) (n % 10)
      ∙ omega arith
]

digits_from-are_digits : (f n : ℕ) → every is_digit (digits_from f n) ≡ true
digits_from-are_digits zero n = unfold digits_from every in refl
digits_from-are_digits (suc f) n = elim (Bool-cases (ltb n 10)) [
  | inl t ↦
      let small : n < 10 = ground arith in
      ap (every is_digit) (small-digits_from f n small) ∙ is_digit_below n small
  | inr t ↦
      let large : 10 ≤ n = ground arith in
      let held = digits_from-are_digits f (n / 10) in
      let last = is_digit_below (n % 10) (omega arith) in
      ap (every is_digit) (large-digits_from f n large)
      ∙ every-append is_digit (digits_from f (n / 10)) ((b'0' + n % 10) ∷ [])
      ∙ ap₂ (λ a b. a && b) held last
]

cut_at-digits : (s t : Text) → every is_digit s ≡ true → cut_at b':' (s ++ b':' ∷ t) ≡ (s, some t)
unfolding cut_at every
cut_at-digits [] t h = refl
cut_at-digits (c ∷ s) t h = ground (arith, cut_at-digits s t)

pub append-split :
    {A : Type 0} (a b s t : List A) → length a ≡ length b → a ++ s ≡ b ++ t → (a ≡ b) × (s ≡ t)
append-split [] [] s t l h = (refl, h)
append-split [] (y ∷ b) s t l h = absurd (omega arith)
append-split (x ∷ a) [] s t l h = absurd (omega arith)
append-split (x ∷ a) (y ∷ b) s t l h = ground (arith, append-split a b s t)

append_assoc : (a b c : Text) → (a ++ b) ++ c ≡ a ++ (b ++ c)
append_assoc [] b c = refl
append_assoc (x ∷ a) b c = ap (λ xs. x ∷ xs) (append_assoc a b c)

pub digits_injective : (m n : ℕ) → digits m ≡ digits n → m ≡ n
unfolding digits
digits_injective m n h =
    sym (decimal-digits_from (suc m) m (omega arith))
    ∙ ap (decimal 0) h
    ∙ decimal-digits_from (suc n) n (omega arith)

-- One part that was written is read back, with what follows it.
write-split : (v w s t : Text) → (write v ++ s ≡ write w ++ t) → (v ≡ w) × (s ≡ t)
unfolding write
write-split v w s t h = append-split v w s t sized rest
  where
    shown :
        (x r : Text)
        → cut_at b':' ((digits (length x) ++ b':' ∷ x) ++ r) ≡ (digits (length x), some (x ++ r))
    shown x r =
        ap (cut_at b':') (append_assoc (digits (length x)) (b':' ∷ x) r)
        ∙ cut_at-digits (digits (length x)) (x ++ r)
            (unfold digits in digits_from-are_digits (suc (length x)) (length x))

    both :
        ◌≡◌ {A = Text × Option Text}
          (digits (length v), some (v ++ s))
          (digits (length w), some (w ++ t))
    both = sym (shown v s) ∙ ap (cut_at b':') h ∙ shown w t

    sized : length v ≡ length w
    sized = digits_injective (length v) (length w) (ap (λ p. p.0) both)

    rest : v ++ s ≡ w ++ t
    rest = ground (arith, both)

write_positive : (v s : Text) → 0 < length (write v ++ s)
unfolding write
write_positive v s =
    omega (arith, length-append (write v) s, length-append (digits (length v)) (b':' ∷ v))

-- Two sequences of parts that write the same text are the same.
pub write_all_injective : (xs ys : List Text) → write_all xs ≡ write_all ys → xs ≡ ys
unfolding write_all
write_all_injective [] [] h = refl
write_all_injective [] (y ∷ ys) h =
    absurd (omega (arith, ap length h, write_positive y (write_all ys)))
write_all_injective (x ∷ xs) [] h =
    absurd (omega (arith, ap length h, write_positive x (write_all xs)))
write_all_injective (x ∷ xs) (y ∷ ys) h =
    let (e, r) = write-split x y (write_all xs) (write_all ys) h in
    ap₂ (λ a b. a ∷ b) e (write_all_injective xs ys r)
