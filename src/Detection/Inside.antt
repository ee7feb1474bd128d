-- ===== src/Detection/Inside.antt =====
-- internal/detection/contradiction.go: a value inside what a conjunction has narrowed a field to.
use seagull_backend_v.Base.{
  ℕ, ◌≡◌, refl, sym, ap, ap₂, ◌∙◌, Bool, true, false, not, ◌&&◌, Option, none, some, List, [], ◌∷◌,
  Text, text_Eq, nat_eq, All, ◌==◌, Bool-cases, Option-cases, inl, inr, arith,
}
use seagull_backend_v.Detection.Value.{
  Numbers, Value, Operator, starts_with, ends_with, above, at_least, below, at_most, has_prefix,
  has_suffix, text_in, compares, same_value, is_member, answers_first, answers_with, answers,
}
use seagull_backend_v.Detection.Node.{operator_Eq}
use seagull_backend_v.Detection.Contradiction.{
  Asked, Window, apart, limited, closed, within_number, within, fits_answer, satisfies, any_within,
  any_satisfies, first_text, against_each, conflicting, ruled_out, leaves,
}
use seagull_backend_v.Detection.Alike.{
  prefixes_together, suffixes_together, has_suffix_nil, number_in_cong, answers_cong,
}

-- Whether a text begins with a part, or ends with it, as an operator asks.
unfoldable has_at : Operator → Text → Text → Bool
has_at starts_with p t = has_prefix p t
has_at ends_with p t = has_suffix p t
has_at _ p t = true

apart_lem :
    (o : Operator) (p q t : Text) → has_at o p t ≡ true → has_at o q t ≡ true → apart o p q ≡ false
unfolding has_at apart
apart_lem starts_with p q t h k = ground (arith, prefixes_together p q t)
apart_lem ends_with p q t h k = ground (arith, suffixes_together p q t)
apart_lem o p q t h k = ground arith

module _ {N : Type 0} ⦃numbers : Numbers N⦄ where
  unfoldable pub allows : Option (List (Value N)) → Value N → Bool
  unfolding is_member
  allows none v = true
  allows (some allowed) v = is_member allowed v

  -- A value that is still inside what the loop has narrowed to.
  pub record Inside (v : Value N) (w : Window N) (rest : List (Asked N)) : Type 0 where
    pub allowing : allows w.allowed v ≡ true
    pub ranging : within w v ≡ true
    pub resting : All (λ q. satisfies v q ≡ true) rest

  any_within_lem :
      (w : Window N) (v : Value N) (ls : List (Value N))
      → is_member ls v ≡ true
      → within w v ≡ true
      → any_within w ls ≡ true
  unfolding is_member any_within
  any_within_lem w v [] m i = m
  any_within_lem w v (l ∷ ls) m i = elim (Bool-cases (same_value v l)) [
    | inl s ↦
        let here : within w l ≡ true =
          unfold within in ap (within_number w) (sym (number_in_cong v l s)) ∙ i in
        ground (arith, here)
    | inr s ↦ ground (arith, any_within_lem w v ls)
  ]

  any_satisfies_lem :
      (q : Asked N) (v : Value N) (ls : List (Value N))
      → is_member ls v ≡ true
      → satisfies v q ≡ true
      → any_satisfies q ls ≡ true
  unfolding is_member any_satisfies
  any_satisfies_lem q v [] m i = m
  any_satisfies_lem q v (l ∷ ls) m i = elim (Bool-cases (same_value v l)) [
    | inl s ↦
        let here : satisfies l q ≡ true =
          unfold satisfies in ap (fits_answer q.negated) (sym (answers_cong v l q.compare s)) ∙ i in
        ground (arith, here)
    | inr s ↦ ground (arith, any_satisfies_lem q v ls)
  ]

  ruled_out_lem :
      (rest : List (Asked N)) (v : Value N) (ls : List (Value N))
      → is_member ls v ≡ true
      → All (λ q. satisfies v q ≡ true) rest
      → ruled_out rest ls ≡ false
  unfolding ruled_out
  ruled_out_lem [] v ls m r = refl
  ruled_out_lem (q ∷ rest) v ls m r =
      ground (arith, any_satisfies_lem q v ls m r.0, ruled_out_lem rest v ls m r.1)

  pub limited_lem :
      (w : Window N) (o : Operator) (value against : ℕ)
      → compares o value against ≡ true
      → within_number w (some value) ≡ true
      → (within_number (limited w o against) (some value) ≡ true)
        × (closed (limited w o against) ≡ false)
  unfolding within_number compares limited closed
  limited_lem w above value against c i = ground arith
  limited_lem w at_least value against c i = ground arith
  limited_lem w below value against c i = ground arith
  limited_lem w at_most value against c i = ground arith
  limited_lem w o value against c i = ground arith

  has_at_first :
      (o : Operator) (v : Value N) (ls : List (Value N))
      → fits_answer false (answers_with o v ls) ≡ true
      → has_at o (first_text ls) (text_in v) ≡ true
  unfolding has_at first_text answers_with answers_first
  has_at_first starts_with v [] h = unfold has_prefix in refl
  has_at_first starts_with v (l ∷ ls) h = ground arith
  has_at_first ends_with v [] h = has_suffix_nil (text_in v)
  has_at_first ends_with v (l ∷ ls) h = ground arith
  has_at_first o v ls h = ground arith

  against_each_lem :
      (o : Operator) (p : Text) (v : Value N) (rest : List (Asked N))
      → has_at o p (text_in v) ≡ true
      → All (λ q. satisfies v q ≡ true) rest
      → against_each o p rest ≡ false
  unfolding against_each satisfies answers
  against_each_lem o p v [] h r = refl
  against_each_lem o p v (q ∷ rest) h r =
      let past = against_each_lem o p v rest h r.1 in
      elim (Bool-cases (not q.negated && q.compare.operator == o)) [
        | inl e ↦
            let same : q.compare.operator ≡ o =
              (operator_Eq.beq_iff q.compare.operator o).0 (ground arith) in
            let plain : q.negated ≡ false = ground arith in
            let fits : fits_answer false (answers_with o v q.compare.literals) ≡ true =
              ap₂ (λ b x. fits_answer b (answers_with x v q.compare.literals)) (sym plain)
                (sym same)
              ∙ r.0 in
            let apart_not =
              apart_lem o p (first_text q.compare.literals) (text_in v) h
                (has_at_first o v q.compare.literals fits) in
            ground (arith, past, apart_not)
        | inr e ↦ ground (arith, past, e)
      ]

  conflicting_lem :
      (v : Value N) (rest : List (Asked N))
      → All (λ q. satisfies v q ≡ true) rest
      → conflicting rest ≡ false
  unfolding conflicting satisfies answers
  conflicting_lem v [] r = refl
  conflicting_lem v (q ∷ rest) r = elim (Bool-cases q.negated) [
    | inl e ↦ ground (arith, e, conflicting_lem v rest r.1)
    | inr e ↦
        let fits : fits_answer false (answers_with q.compare.operator v q.compare.literals) ≡ true =
          ap (λ b. fits_answer b (answers_with q.compare.operator v q.compare.literals)) (sym e)
          ∙ r.0 in
        let here =
          against_each_lem q.compare.operator (first_text q.compare.literals) v rest
            (has_at_first q.compare.operator v q.compare.literals fits) r.1 in
        ground (arith, here, conflicting_lem v rest r.1)
  ]

  pub leaves_lem :
      (v : Value N) (w : Window N) (rest : List (Asked N)) → Inside v w rest → leaves w rest ≡ false
  unfolding leaves
  leaves_lem v w rest i = elim (Option-cases w.allowed) [
    | inl e ↦ ground (arith, e, conflicting_lem v rest i.resting)
    | inr (ls, e) ↦
        let member : is_member ls v ≡ true =
          unfold allows in sym (ap (λ a. allows a v) e) ∙ i.allowing in
        ground (
          arith,
          e,
          any_within_lem w v ls member i.ranging,
          ruled_out_lem rest v ls member i.resting,
        )
  ]
