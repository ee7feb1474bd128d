-- ===== src/Detection/Alike.antt =====
-- internal/detection/contradiction.go: values that Go's `==` does not tell apart answer alike.
use seagull_backend_v.Base.{
  ◌≡◌, ◌⊎◌, refl, sym, ap, ap₂, ◌∙◌, subst, true, ◌||◌, some, List, [], ◌∷◌, Text, text_Eq, text_eq,
  text_eq_iff, nat_eq, Bool-cases, inl, inr, arith,
}
use seagull_backend_v.Detection.Value.{
  Numbers, Value, text, truth, choice, number, Operator, equals, one_of, contains, starts_with,
  ends_with, above, at_least, below, at_most, present, Comparison, has_prefix, has_suffix, has_part,
  text_in, same_value, number_in, is_member, answers_number, answers_first, answers_with, answers,
}
use seagull_backend_v.Detection.Node.{operator_Eq}
use seagull_backend_v.Detection.Contradiction.{kept}

pub prefixes_together :
    (p q t : Text)
    → has_prefix p t ≡ true
    → has_prefix q t ≡ true
    → (has_prefix p q ≡ true) ⊎ (has_prefix q p ≡ true)
unfolding has_prefix
prefixes_together [] q t h k = inl refl
prefixes_together (c ∷ p) [] t h k = inr refl
prefixes_together (c ∷ p) (d ∷ q) [] h k = absurd (cc)
prefixes_together (c ∷ p) (d ∷ q) (e ∷ t) h k = ground (arith, prefixes_together p q t)

has_suffix_refl : (p : Text) → has_suffix p p ≡ true
unfolding has_suffix
has_suffix_refl [] = (text_eq_iff [] []).1 refl
has_suffix_refl (c ∷ p) =
    let same : text_eq (c ∷ p) (c ∷ p) ≡ true = (text_eq_iff (c ∷ p) (c ∷ p)).1 refl in rw same refl

pub has_suffix_nil : (t : Text) → has_suffix [] t ≡ true
unfolding has_suffix
has_suffix_nil [] = (text_eq_iff [] []).1 refl
has_suffix_nil (c ∷ t) = ground (arith, has_suffix_nil t)

pub suffixes_together :
    (p q t : Text)
    → has_suffix p t ≡ true
    → has_suffix q t ≡ true
    → (has_suffix p q ≡ true) ⊎ (has_suffix q p ≡ true)
unfolding has_suffix
suffixes_together p q [] h k =
    inl (subst (λ x. has_suffix p x ≡ true) (sym ((text_eq_iff q []).0 k)) h)
suffixes_together p q (c ∷ t) h k = elim (Bool-cases (text_eq p (c ∷ t))) [
  | inl e ↦ inr (subst (λ x. has_suffix q x ≡ true) (sym ((text_eq_iff p (c ∷ t)).0 e)) k)
  | inr e ↦ elim (Bool-cases (text_eq q (c ∷ t))) [
    | inl f ↦ inl (subst (λ x. has_suffix p x ≡ true) (sym ((text_eq_iff q (c ∷ t)).0 f)) h)
    | inr f ↦ suffixes_together p q t (ground arith) (ground arith)
  ]
]

module _ {N : Type 0} ⦃numbers : Numbers N⦄ where
  same_value_comm : (a b : Value N) → same_value a b ≡ true → same_value b a ≡ true
  unfolding same_value
  same_value_comm (text a) (text b) h = ground (arith, text_eq_iff a b, text_eq_iff b a)
  same_value_comm (truth a) (truth b) h = ground arith
  same_value_comm (choice a) (choice b) h = ground arith
  same_value_comm (number a) (number b) h = numbers.same_comm a b h
  same_value_comm a b h = ground arith

  same_value_trans :
      (a b c : Value N) → same_value a b ≡ true → same_value b c ≡ true → same_value a c ≡ true
  unfolding same_value
  same_value_trans (text a) (text b) (text c) h k =
      ground (arith, text_eq_iff a b, text_eq_iff b c, text_eq_iff a c)
  same_value_trans (truth a) (truth b) (truth c) h k = ground arith
  same_value_trans (choice a) (choice b) (choice c) h k = ground arith
  same_value_trans (number a) (number b) (number c) h k = numbers.same_trans a b c h k
  same_value_trans a b c h k = ground arith

module _ {N : Type 0} ⦃numbers : Numbers N⦄ (v l : Value N) (s : same_value v l ≡ true) where
  same_value_cong : (x : Value N) → same_value v x ≡ same_value l x
  same_value_cong x = elim (Bool-cases (same_value l x)) [
    | inl e ↦ same_value_trans v l x s e ∙ sym e
    | inr e ↦ elim (Bool-cases (same_value v x)) [
      | inl f ↦ absurd (ground (arith, same_value_trans l v x (same_value_comm v l s) f))
      | inr f ↦ f ∙ sym e
    ]
  ]

  is_member_cong : (ls : List (Value N)) → is_member ls v ≡ is_member ls l
  unfolding is_member
  is_member_cong [] = refl
  is_member_cong (x ∷ ls) = ap₂ (λ a b. a || b) (same_value_cong x) (is_member_cong ls)

module _ {N : Type 0} ⦃numbers : Numbers N⦄ where
  pub number_in_cong : (v l : Value N) → same_value v l ≡ true → number_in v ≡ number_in l
  unfolding same_value number_in
  number_in_cong (number a) (number b) s = numbers.same_float a b s
  number_in_cong (number a) (text b) s = absurd (cc)
  number_in_cong (number a) (truth b) s = absurd (cc)
  number_in_cong (number a) (choice b) s = absurd (cc)
  number_in_cong (text a) (number b) s = absurd (cc)
  number_in_cong (truth a) (number b) s = absurd (cc)
  number_in_cong (choice a) (number b) s = absurd (cc)
  number_in_cong (text a) b s = ground arith
  number_in_cong (truth a) b s = ground arith
  number_in_cong (choice a) b s = ground arith

  text_in_cong : (v l : Value N) → same_value v l ≡ true → text_in v ≡ text_in l
  unfolding same_value
  text_in_cong (text a) (text b) s = ground (arith, text_eq_iff a b)
  text_in_cong v l s = ground arith

  answers_first_cong :
      (o : Operator) (v l x : Value N) (ls : List (Value N))
      → same_value v l ≡ true
      → answers_first o v x ls ≡ answers_first o l x ls
  unfolding answers_first
  answers_first_cong equals v l x ls s = ap some (same_value_cong v l s x)
  answers_first_cong one_of v l x ls s = ap some (is_member_cong v l s (x ∷ ls))
  answers_first_cong contains v l x ls s =
      ap (λ t. some (has_part (text_in x) t)) (text_in_cong v l s)
  answers_first_cong starts_with v l x ls s =
      ap (λ t. some (has_prefix (text_in x) t)) (text_in_cong v l s)
  answers_first_cong ends_with v l x ls s =
      ap (λ t. some (has_suffix (text_in x) t)) (text_in_cong v l s)
  answers_first_cong above v l x ls s =
      ap (λ n. answers_number above n (number_in x)) (number_in_cong v l s)
  answers_first_cong at_least v l x ls s =
      ap (λ n. answers_number at_least n (number_in x)) (number_in_cong v l s)
  answers_first_cong below v l x ls s =
      ap (λ n. answers_number below n (number_in x)) (number_in_cong v l s)
  answers_first_cong at_most v l x ls s =
      ap (λ n. answers_number at_most n (number_in x)) (number_in_cong v l s)
  answers_first_cong present v l x ls s =
      ap (λ n. answers_number present n (number_in x)) (number_in_cong v l s)

  answers_with_cong :
      (o : Operator) (v l : Value N) (ls : List (Value N))
      → same_value v l ≡ true
      → answers_with o v ls ≡ answers_with o l ls
  unfolding answers_with
  answers_with_cong o v l [] s = refl
  answers_with_cong o v l (x ∷ ls) s = answers_first_cong o v l x ls s

  -- Values that are the same answer every question alike.
  pub answers_cong :
      (v l : Value N) (c : Comparison N) → same_value v l ≡ true → answers v c ≡ answers l c
  unfolding answers
  answers_cong v l c s = answers_with_cong c.operator v l c.literals s

  pub is_member-kept :
      (v : Value N) (allowed narrowed : List (Value N))
      → is_member narrowed v ≡ true
      → is_member allowed v ≡ true
      → is_member (kept allowed narrowed) v ≡ true
  unfolding is_member kept
  is_member-kept v allowed [] m k = m
  is_member-kept v allowed (l ∷ narrowed) m k = elim (Bool-cases (same_value v l)) [
    | inl s ↦
        let here : is_member allowed l ≡ true = sym (is_member_cong v l s allowed) ∙ k in
        ground (arith, s, here)
    | inr s ↦ ground (arith, s, is_member-kept v allowed narrowed)
  ]
