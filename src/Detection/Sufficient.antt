-- ===== src/Detection/Sufficient.antt =====
-- internal/detection/decide.go: the evidence of a decision is enough to decide again.
use seagull_backend_v.Base.{
  ℕ, ◌≡◌, refl, sym, ap, ap₂, ◌∙◌, subst, Bool, true, false, not, ◌&&◌, ◌||◌, Option, none, some,
  List, [], ◌++◌, Text, contains, contains_iff, In, Bool-cases, inl, inr, arith,
}
use seagull_backend_v.Detection.Value.{Numbers, Value, Comparison, answered}
use seagull_backend_v.Detection.Node.{
  Evidence, evidence_Eq, Node, conjunction, disjunction, negation, comparison, Nodes, done, term,
  up_to, Event, saw, gathered, mark_of, cut_back, holds, all_hold, any_holds,
}
use seagull_backend_v.Detection.Meaning.{means, all_mean, any_means, holds_lem}
use seagull_backend_v.Detection.Gathered.{
  In-append_left, In-append_last, Grows, Grows-refl, Grows-trans, holds-Grows, all_hold-Grows,
}

abbrev pub all_of : Option (List Evidence) → List Evidence
all_of none = []
all_of (some into) = into

module _ {N : Type 0} ⦃numbers : Numbers N⦄ where
  -- Two events hold the same in every field that the evidence names.
  abbrev pub Agrees : Event N → Event N → List Evidence → Type 0
  Agrees r s into = (e : Evidence) → In e into → r e.field ≡ s e.field

  fewer : (r s : Event N) (into more : List Evidence) → Agrees r s (into ++ more) → Agrees r s into
  fewer r s into more a e m = a e (In-append_left e into more m)

  grown :
      (r s : Event N) (into : List Evidence) (out : Option (List Evidence))
      → Grows into out
      → Agrees r s (all_of out)
      → Agrees r s into
  grown r s into out (more, e) a = fewer r s into more (subst (λ o. Agrees r s (all_of o)) e a)

module _ {N : Type 0} ⦃numbers : Numbers N⦄ (wrote : Text → Value N → Text) (r s : Event N) where
  In-gathered :
      (c : Comparison N) (carried : Option (Value N)) (negated : Bool) (into : List Evidence)
      → In (saw wrote c carried negated) (all_of (gathered wrote c carried negated (some into)))
  unfolding gathered
  In-gathered c carried negated into =
      elim (Bool-cases (contains into (saw wrote c carried negated))) [
        | inl e ↦ rw e ((contains_iff into (saw wrote c carried negated)).0 e)
        | inr e ↦ rw e (In-append_last (saw wrote c carried negated) into)
      ]

  -- Where no term holds, every term's evidence is kept.
  any_holds-Grows_unheld :
      (mark : ℕ) (ns : Nodes N) (into : List Evidence) (negated : Bool)
      → any_means ns r ≡ false
      → Grows into (any_holds wrote mark ns r (some into) negated).1
  unfolding any_means any_holds
  any_holds-Grows_unheld mark done into negated f = Grows-refl into
  any_holds-Grows_unheld mark (term n ns) into negated f =
      let (more, e) = holds-Grows wrote n r into negated in
      let first : (holds wrote n r (some into) negated).0 ≡ false =
        holds_lem wrote n r (some into) negated ∙ ground arith in
      rw (first, e)
        (Grows-trans into more _
          (any_holds-Grows_unheld mark ns (into ++ more) negated (ground arith)))

  module _ (n : Node N) (ns : Nodes N) (into : List Evidence) (negated : Bool) where
    all_hold_past :
        (first : List Evidence)
        → (holds wrote n r (some into) negated).0 ≡ true
        → (holds wrote n r (some into) negated).1 ≡ some first
        → (all_hold wrote (term n ns) r (some into) negated).1
          ≡ (all_hold wrote ns r (some first) negated).1
    unfolding all_hold
    all_hold_past first t e = rw (t, e) refl

    all_hold_stops :
        (holds wrote n r (some into) negated).0 ≡ false
        → (all_hold wrote (term n ns) r (some into) negated).1
          ≡ (holds wrote n r (some into) negated).1
    unfolding all_hold
    all_hold_stops t = rw t refl

    any_holds_past :
        (mark : ℕ) (first : List Evidence)
        → (holds wrote n r (some into) negated).0 ≡ false
        → (holds wrote n r (some into) negated).1 ≡ some first
        → (any_holds wrote mark (term n ns) r (some into) negated).1
          ≡ (any_holds wrote mark ns r (some first) negated).1
    unfolding any_holds
    any_holds_past mark first t e = rw (t, e) refl

    any_holds_stops :
        (mark : ℕ) (first : List Evidence)
        → (holds wrote n r (some into) negated).0 ≡ true
        → (holds wrote n r (some into) negated).1 ≡ some first
        → (any_holds wrote mark (term n ns) r (some into) negated).1
          ≡ (holds wrote n r (some (up_to mark first)) negated).1
    unfolding any_holds cut_back
    any_holds_stops mark first t e = rw (t, e) refl

  mutual
    unfolding holds means cut_back mark_of saw

    enough_lem :
        (n : Node N) (into : List Evidence) (negated : Bool)
        → Agrees r s (all_of (holds wrote n r (some into) negated).1)
        → means n r ≡ means n s
    enough_lem (comparison c) into negated a =
        ap (λ carried. answered carried c)
          (a (saw wrote c (r c.field) negated) (In-gathered c (r c.field) negated into))
    enough_lem (negation n) into negated a = ap not (enough_lem n into (not negated) a)
    enough_lem (conjunction ns) into negated a = all_enough ns into negated a
    enough_lem (disjunction ns) into negated a = any_enough (mark_of (some into)) ns into negated a

    all_enough :
        (ns : Nodes N) (into : List Evidence) (negated : Bool)
        → Agrees r s (all_of (all_hold wrote ns r (some into) negated).1)
        → all_mean ns r ≡ all_mean ns s
    all_enough done into negated a = refl
    all_enough (term n ns) into negated a =
        let (more, e) = holds-Grows wrote n r into negated in
        let decided = holds_lem wrote n r (some into) negated in
        elim (Bool-cases (holds wrote n r (some into) negated).0) [
          | inl t ↦
              let past =
                subst (λ o. Agrees r s (all_of o))
                  (all_hold_past n ns into negated (into ++ more) t e) a in
              let kept =
                grown r s (into ++ more) _ (all_hold-Grows wrote ns r (into ++ more) negated)
                  past in
              let here =
                enough_lem n into negated (subst (λ o. Agrees r s (all_of o)) (sym e) kept) in
              let later = all_enough ns (into ++ more) negated past in
              ap₂ (λ x y. x && y) here later
          | inr t ↦
              let here =
                enough_lem n into negated
                  (subst (λ o. Agrees r s (all_of o)) (all_hold_stops n ns into negated t) a) in
              ground (arith, here, decided)
        ]

    any_enough :
        (mark : ℕ) (ns : Nodes N) (into : List Evidence) (negated : Bool)
        → Agrees r s (all_of (any_holds wrote mark ns r (some into) negated).1)
        → any_means ns r ≡ any_means ns s
    any_enough mark done into negated a = refl
    any_enough mark (term n ns) into negated a =
        let (more, e) = holds-Grows wrote n r into negated in
        let decided = holds_lem wrote n r (some into) negated in
        elim (Bool-cases (holds wrote n r (some into) negated).0) [
          | inl t ↦
              let again =
                subst (λ o. Agrees r s (all_of o))
                  (any_holds_stops n ns into negated mark (into ++ more) t e) a in
              let here = enough_lem n (up_to mark (into ++ more)) negated again in
              ground (arith, here, decided)
          | inr t ↦
              let past =
                subst (λ o. Agrees r s (all_of o))
                  (any_holds_past n ns into negated mark (into ++ more) t e) a in
              let later = any_enough mark ns (into ++ more) negated past in
              elim (Bool-cases (any_means ns r)) [
                | inl some_term ↦ ground (arith, decided, later)
                | inr no_term ↦
                    let kept =
                      grown r s (into ++ more) _
                        (any_holds-Grows_unheld mark ns (into ++ more) negated no_term) past in
                    let here =
                      enough_lem n into negated (subst (λ o. Agrees r s (all_of o)) (sym e) kept) in
                    ap₂ (λ x y. x || y) here later
              ]
        ]

-- An event that holds the same in every field that the evidence of a decision names is decided
-- alike.
pub evidence_enough :
    {N : Type 0} ⦃numbers : Numbers N⦄ (wrote : Text → Value N → Text) (r s : Event N) (n : Node N)
    → Agrees r s (all_of (holds wrote n r (some []) false).1)
    → (holds wrote n s none false).0 ≡ (holds wrote n r none false).0
evidence_enough wrote r s n a =
    holds_lem wrote n s none false
    ∙ sym (enough_lem wrote r s n [] false a)
    ∙ sym (holds_lem wrote n r none false)
