-- ===== src/Detection/Unmet.antt =====
-- internal/detection/contradiction.go: what the compiler refuses of one field, no event meets.
use seagull_backend_v.Base.{
  ℕ, ◌≡◌, refl, sym, ap, ◌∙◌, subst, Bool, true, false, not, Option, none, some, List, [], ◌∷◌,
  ◌++◌, text_Eq, nat_eq, All, if◌then◌else◌, is_nil, Bool-cases, Option-cases, inl, inr, arith,
}
use seagull_backend_v.Detection.Value.{
  Numbers, Value, Operator, equals, one_of, above, at_least, below, at_most, Comparison, ranged,
  compares, decided, is_present, number_in, is_member, answers_number, answers_first, answers_with,
  answers, answered,
}
use seagull_backend_v.Detection.Contradiction.{
  Asked, Window, affirmative, kept, allow, limited, moved, first_number, limit, within_number,
  within, satisfies, with_rest, ask, empty_from,
}
use seagull_backend_v.Detection.Alike.{is_member-kept}
use seagull_backend_v.Detection.Inside.{allows, Inside, limited_lem, leaves_lem}

answered_numbers :
    (o : Operator) (m n : Option ℕ)
    → decided (answers_number o m n) ≡ true
    → (value : ℕ) × (against : ℕ) × (m ≡ some value)
      × (n ≡ some against)
      × (compares o value against ≡ true)
unfolding answers_number
answered_numbers o (some value) (some against) d = (value, against, refl, refl, ground arith)
answered_numbers o (some value) none d = absurd (cc)
answered_numbers o none n d = absurd (cc)

module _ {N : Type 0} ⦃numbers : Numbers N⦄ where
  -- Whether an event that holds this in the field gives the answer that is asked for.
  unfoldable pub meets : Option (Value N) → Asked N → Bool
  unfolding answered
  meets carried q =
      if q.negated then not (answered carried q.compare) else answered carried q.compare

  pub All-append :
      (P : Asked N → Type 0) (rest : List (Asked N)) (q : Asked N)
      → All P rest
      → P q
      → All P (rest ++ q ∷ [])
  All-append P [] q h k = (k, tt)
  All-append P (x ∷ rest) q h k = (h.0, All-append P rest q h.1 k)

  -- An affirmative question that is met, of an operator that reads a literal, is decided.
  meets_affirmative :
      (v : Value N) (q : Asked N)
      → meets (some v) q ≡ true
      → q.negated ≡ false
      → is_present q.compare.operator ≡ false
      → decided (answers v q.compare) ≡ true
  unfolding meets answered
  meets_affirmative v q m n p = ground (arith, m, n, p)

  meets-satisfies :
      (v : Value N) (q : Asked N)
      → meets (some v) q ≡ true
      → is_present q.compare.operator ≡ false
      → satisfies v q ≡ true
  unfolding meets answered satisfies
  meets-satisfies v q m p = ground (arith, m, p)

  first_literal :
      (v : Value N) (o : Operator) (ls : List (Value N))
      → affirmative false o ≡ true
      → decided (answers_with o v ls) ≡ true
      → is_member ls v ≡ true
  unfolding answers_with answers_first is_member
  first_literal v equals (l ∷ ls) a d = ground arith
  first_literal v one_of (l ∷ ls) a d = d
  first_literal v o ls a d = ground arith

  ranged_first :
      (o : Operator) (v l : Value N) (ls : List (Value N))
      → ranged o ≡ true
      → answers_first o v l ls ≡ answers_number o (number_in v) (number_in l)
  unfolding ranged answers_first
  ranged_first above v l ls r = refl
  ranged_first at_least v l ls r = refl
  ranged_first below v l ls r = refl
  ranged_first at_most v l ls r = refl
  ranged_first o v l ls r = ground arith

  numbers_compared :
      (v : Value N) (o : Operator) (ls : List (Value N))
      → ranged o ≡ true
      → decided (answers_with o v ls) ≡ true
      → (value : ℕ) × (against : ℕ) × (number_in v ≡ some value)
        × (first_number ls ≡ some against)
        × (compares o value against ≡ true)
  unfolding answers_with first_number
  numbers_compared v o [] r d = absurd (cc)
  numbers_compared v o (l ∷ ls) r d =
      answered_numbers o (number_in v) (number_in l)
        (sym (ap decided (ranged_first o v l ls r)) ∙ d)

  allow-Inside :
      (v : Value N) (w : Window N) (rest : List (Asked N)) (c : Comparison N)
      → Inside v w rest
      → is_member c.literals v ≡ true
      → (next : Window N) × (allow w c ≡ some next) × Inside v next rest
  unfolding allow within
  allow-Inside v w rest c i m = elim (Option-cases w.allowed) [
    | inl e ↦ (
      record w { allowed = some c.literals },
      rw e refl,
      record { allowing = unfold allows in m; ranging = i.ranging; resting = i.resting },
    )
    | inr (ls, e) ↦
        let member : is_member ls v ≡ true =
          unfold allows in sym (ap (λ a. allows a v) e) ∙ i.allowing in
        let left = is_member-kept v ls c.literals m member in
        (
          record w { allowed = some (kept ls c.literals) },
          rw (e, some_kept v (kept ls c.literals) left) refl,
          record { allowing = unfold allows in left; ranging = i.ranging; resting = i.resting },
        )
  ]
    where
      some_kept : (v : Value N) (ls : List (Value N)) → is_member ls v ≡ true → is_nil ls ≡ false
      some_kept v [] m = absurd (unfold is_member in cc)
      some_kept v (l ∷ ls) m = refl

  limited_allowed :
      (w : Window N) (o : Operator) (against : ℕ) → (limited w o against).allowed ≡ w.allowed
  unfolding limited
  limited_allowed w above against = ground arith
  limited_allowed w at_least against = ground arith
  limited_allowed w below against = ground arith
  limited_allowed w at_most against = ground arith
  limited_allowed w o against = ground arith

  limit-Inside :
      (v : Value N) (w : Window N) (rest : List (Asked N)) (c : Comparison N)
      → Inside v w rest
      → ranged c.operator ≡ true
      → decided (answers v c) ≡ true
      → (next : Window N) × (limit w c ≡ some next) × Inside v next rest
  unfolding limit answers moved
  limit-Inside v w rest c i r d =
      let (value, against, e, f, k) = numbers_compared v c.operator c.literals r d in
      let next = limited w c.operator against in
      let inside : within_number w (some value) ≡ true =
        ap (within_number w) (sym e) ∙ unfold within in i.ranging in
      let (still, ajar) = limited_lem w c.operator value against k inside in
      (
        record next { bounded = true },
        rw (f, ajar) refl,
        record {
          allowing = ap (λ a. allows a v) (limited_allowed w c.operator against) ∙ i.allowing;
          ranging =
              unfold within in
              ap (within_number (record next { bounded = true })) e ∙ unfold within_number in still;
          resting = i.resting;
        },
      )

  -- What one turn of the loop leaves a value inside of.
  abbrev StaysInside : Value N → Option (Window N × List (Asked N)) → Type 0
  StaysInside v turn =
      (w : Window N) × (rest : List (Asked N)) × (turn ≡ some (w, rest)) × Inside v w rest

  ask_resting :
      (v : Value N) (w : Window N) (rest : List (Asked N)) (q : Asked N)
      → Inside v w rest
      → satisfies v q ≡ true
      → StaysInside v (some (w, rest ++ q ∷ []))
  ask_resting v w rest q i k = (
    w,
    rest ++ q ∷ [],
    refl,
    record {
      allowing = i.allowing;
      ranging = i.ranging;
      resting = All-append (λ a. satisfies v a ≡ true) rest q i.resting k;
    },
  )

  with_rest-Inside :
      (v : Value N) (rest : List (Asked N)) (turn : Option (Window N)) (next : Window N)
      → turn ≡ some next
      → Inside v next rest
      → StaysInside v (with_rest rest turn)
  with_rest-Inside v rest turn next e i = (next, rest, ap (with_rest rest) e, i)

  module _ (w : Window N) (rest : List (Asked N)) (q : Asked N) where
    pub ask_present : is_present q.compare.operator ≡ true → ask q w rest ≡ some (w, rest)
    unfolding ask
    ask_present p = ground arith

    module _ (p : is_present q.compare.operator ≡ false) where
      pub ask_negated : q.negated ≡ true → ask q w rest ≡ some (w, rest ++ q ∷ [])
      unfolding ask
      ask_negated n = ground arith

      module _ (n : q.negated ≡ false) where
        ask-affirmative :
            affirmative false q.compare.operator ≡ true
            → ask q w rest ≡ with_rest rest (allow w q.compare)
        unfolding ask
        ask-affirmative a = ground arith

        ask-ranged :
            affirmative false q.compare.operator ≡ false
            → ranged q.compare.operator ≡ true
            → ask q w rest ≡ with_rest rest (limit w q.compare)
        unfolding ask
        ask-ranged a r = ground arith

        ask_other :
            affirmative false q.compare.operator ≡ false
            → ranged q.compare.operator ≡ false
            → ask q w rest ≡ some (w, rest ++ q ∷ [])
        unfolding ask
        ask_other a r = ground arith

  ask-Inside :
      (v : Value N) (w : Window N) (rest : List (Asked N)) (q : Asked N)
      → Inside v w rest
      → meets (some v) q ≡ true
      → StaysInside v (ask q w rest)
  ask-Inside v w rest q i m = elim (Bool-cases (is_present q.compare.operator)) [
    | inl p ↦ turn (ask_present w rest q p) (w, rest, refl, i)
    | inr p ↦ elim (Bool-cases q.negated) [
      | inl n ↦ turn (ask_negated w rest q p n) (kept p)
      | inr n ↦ elim (Bool-cases (affirmative false q.compare.operator)) [
        | inl a ↦
            let member =
              first_literal v q.compare.operator q.compare.literals a
                (unfold answers in held n p) in
            let (next, e, inside) = allow-Inside v w rest q.compare i member in
            turn (ask-affirmative w rest q p n a)
              (with_rest-Inside v rest (allow w q.compare) next e inside)
        | inr a ↦ elim (Bool-cases (ranged q.compare.operator)) [
          | inl r ↦
              let (next, e, inside) = limit-Inside v w rest q.compare i r (held n p) in
              turn (ask-ranged w rest q p n a r)
                (with_rest-Inside v rest (limit w q.compare) next e inside)
          | inr r ↦ turn (ask_other w rest q p n a r) (kept p)
        ]
      ]
    ]
  ]
    where
      turn :
          {t : Option (Window N × List (Asked N))}
          → ask q w rest ≡ t
          → StaysInside v t
          → StaysInside v (ask q w rest)
      turn e s = subst (StaysInside v) (sym e) s

      kept : is_present q.compare.operator ≡ false → StaysInside v (some (w, rest ++ q ∷ []))
      kept p = ask_resting v w rest q i (meets-satisfies v q m p)

      held :
          q.negated ≡ false
          → is_present q.compare.operator ≡ false
          → decided (answers v q.compare) ≡ true
      held n p = meets_affirmative v q m n p

  pub empty_from_next :
      (q : Asked N) (qs : List (Asked N)) (w next : Window N) (rest rest' : List (Asked N))
      → ask q w rest ≡ some (next, rest')
      → empty_from (q ∷ qs) w rest ≡ empty_from qs next rest'
  unfolding empty_from
  empty_from_next q qs w next rest rest' e = ground (arith, e)

  pub empty_from-Inside :
      (v : Value N) (qs : List (Asked N)) (w : Window N) (rest : List (Asked N))
      → Inside v w rest
      → All (λ q. meets (some v) q ≡ true) qs
      → empty_from qs w rest ≡ false
  empty_from-Inside v [] w rest i m = unfold empty_from in leaves_lem v w rest i
  empty_from-Inside v (q ∷ qs) w rest i m =
      let (next, rest', e, inside) = ask-Inside v w rest q i m.0 in
      empty_from_next q qs w next rest rest' e ∙ empty_from-Inside v qs next rest' inside m.1
