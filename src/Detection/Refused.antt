-- ===== src/Detection/Refused.antt =====
-- internal/detection/contradiction.go: a conjunction that the compiler refuses for what it asks of
-- some field matches no event.
use seagull_backend_v.Base.{
  ℕ, ◌≤◌, ◌≡◌, refl, ap, ◌∙◌, subst, true, false, Option, none, some, List, [], ◌∷◌, ◌++◌, Text,
  text_Eq, text_eq_iff, nat_eq, All, ◌==◌, Bool-cases, Option-cases, inl, inr, arith,
}
use seagull_backend_v.Detection.Value.{
  Numbers, Value, text, truth, choice, number, is_present, number_in, answered,
}
use seagull_backend_v.Detection.Node.{
  Node, conjunction, disjunction, negation, comparison, Nodes, done, term, Event,
}
use seagull_backend_v.Detection.Meaning.{means, all_mean}
use seagull_backend_v.Detection.Contradiction.{
  Asked, Window, directly, asked_by, within_number, within, conflicting, leaves, empty_from, wide,
  empty, of_field, fields_from, refused_in, narrowed,
}
use seagull_backend_v.Detection.Inside.{allows, Inside}
use seagull_backend_v.Detection.Unmet.{
  meets, All-append, ask_present, ask_negated, empty_from_next, empty_from-Inside,
}

module _ {N : Type 0} ⦃numbers : Numbers N⦄ where
  number_finite : (v : Value N) (f : ℕ) → number_in v ≡ some f → f ≤ numbers.infinity
  unfolding number_in
  number_finite (number a) f e = numbers.finite a f e
  number_finite (text a) f e = absurd (cc)
  number_finite (truth a) f e = absurd (cc)
  number_finite (choice a) f e = absurd (cc)

  wide-Inside : (v : Value N) → Inside v wide []
  wide-Inside v = record {
    allowing = unfold allows in refl;
    ranging =
        unfold within in
        elim (Option-cases (number_in v)) [
          | inl e ↦ ap (within_number {N = N} wide) e ∙ unfold within_number in refl
          | inr (f, e) ↦ ap (within_number {N = N} wide) e ∙ inside f (number_finite v f e)
        ];
    resting = tt;
  }
    where
      inside : (f : ℕ) → f ≤ numbers.infinity → within_number {N = N} wide (some f) ≡ true
      inside f l = unfold within_number in ground arith

  -- An event that does not carry the field meets negated questions alone.
  meets_absent : (q : Asked N) → meets none q ≡ true → q.negated ≡ true
  unfolding meets answered
  meets_absent q m = ground arith

  conflicting_negated :
      (rest : List (Asked N)) → All (λ q. q.negated ≡ true) rest → conflicting rest ≡ false
  unfolding conflicting
  conflicting_negated [] a = refl
  conflicting_negated (q ∷ rest) a = ground (arith, a.0, conflicting_negated rest a.1)

  empty_from_absent :
      (qs : List (Asked N)) (w : Window N) (rest : List (Asked N))
      → w.allowed ≡ none
      → All (λ q. q.negated ≡ true) rest
      → All (λ q. meets none q ≡ true) qs
      → empty_from qs w rest ≡ false
  empty_from_absent [] w rest e a m =
      unfold empty_from leaves in ground (arith, e, conflicting_negated rest a)
  empty_from_absent (q ∷ qs) w rest e a m = elim (Bool-cases (is_present q.compare.operator)) [
    | inl p ↦
        empty_from_next q qs w w rest rest (ask_present w rest q p)
        ∙ empty_from_absent qs w rest e a m.1
    | inr p ↦
        let n = meets_absent q m.0 in
        empty_from_next q qs w w rest (rest ++ q ∷ []) (ask_negated w rest q p n)
        ∙ empty_from_absent qs w (rest ++ q ∷ []) e (All-append (λ x. x.negated ≡ true) rest q a n)
            m.1
  ]

  -- What one field is refused for, nothing that an event may hold in the field meets.
  empty_unmet :
      (carried : Option (Value N)) (qs : List (Asked N))
      → All (λ q. meets carried q ≡ true) qs
      → empty qs ≡ false
  unfolding empty
  empty_unmet none qs m = empty_from_absent qs wide [] refl tt m
  empty_unmet (some v) qs m = empty_from-Inside v qs wide [] (wide-Inside v) m

  -- The questions of a conjunction that holds are all met.
  abbrev IsMet : Event N → Asked N → Type 0
  IsMet event q = meets (event q.compare.field) q ≡ true

  IsMet-append :
      (event : Event N) (xs ys : List (Asked N))
      → All (IsMet event) xs
      → All (IsMet event) ys
      → All (IsMet event) (xs ++ ys)
  IsMet-append event [] ys h k = k
  IsMet-append event (x ∷ xs) ys h k = (h.0, IsMet-append event xs ys h.1 k)

  mutual
    unfolding directly means meets

    directly-IsMet :
        (ns : Nodes N) (event : Event N)
        → all_mean ns event ≡ true
        → All (IsMet event) (directly ns)
    directly-IsMet done event h = tt
    directly-IsMet (term n ns) event h =
        IsMet-append event (asked_by n) (directly ns) (asked_by-IsMet n event (ground arith))
          (directly-IsMet ns event (ground arith))

    asked_by-IsMet :
        (n : Node N) (event : Event N) → means n event ≡ true → All (IsMet event) (asked_by n)
    asked_by-IsMet (comparison c) event h = (h, tt)
    asked_by-IsMet (negation (comparison c)) event h = (h, tt)
    asked_by-IsMet (negation (negation n)) event h = tt
    asked_by-IsMet (negation (conjunction ns)) event h = tt
    asked_by-IsMet (negation (disjunction ns)) event h = tt
    asked_by-IsMet (conjunction ns) event h = directly-IsMet ns event h
    asked_by-IsMet (disjunction ns) event h = tt

  of_field-IsMet :
      (event : Event N) (field : Text) (qs : List (Asked N))
      → All (IsMet event) qs
      → All (λ q. meets (event field) q ≡ true) (of_field field qs)
  unfolding of_field
  of_field-IsMet event field [] h = tt
  of_field-IsMet event field (q ∷ qs) h = elim (Bool-cases (q.compare.field == field)) [
    | inl e ↦
        let same = (text_eq_iff q.compare.field field).0 e in
        rw e (subst (λ f. meets (event f) q ≡ true) same h.0, of_field-IsMet event field qs h.1)
    | inr e ↦ rw e (of_field-IsMet event field qs h.1)
  ]

  refused_in-IsMet :
      (event : Event N) (fields : List Text) (qs : List (Asked N))
      → All (IsMet event) qs
      → refused_in fields qs ≡ false
  unfolding refused_in
  refused_in-IsMet event [] qs h = refl
  refused_in-IsMet event (f ∷ fs) qs h = ground (
    arith,
    empty_unmet (event f) (of_field f qs) (of_field-IsMet event f qs h),
    refused_in-IsMet event fs qs h,
  )

-- A conjunction of which the compiler refuses what it asks of some field holds of no event.
pub narrowed-means :
    {N : Type 0} ⦃numbers : Numbers N⦄ (terms : Nodes N) (event : Event N)
    → narrowed (directly terms) ≡ true
    → means (conjunction terms) event ≡ false
unfolding narrowed means
narrowed-means terms event n = elim (Bool-cases (all_mean terms event)) [
  | inl h ↦
      let fine =
        refused_in-IsMet event (fields_from (directly terms) []) (directly terms)
          (directly-IsMet terms event h) in
      absurd (ground (arith, fine, n))
  | inr h ↦ h
]
