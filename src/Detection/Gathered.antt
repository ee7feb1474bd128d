-- ===== src/Detection/Gathered.antt =====
-- internal/detection/decide.go: what is gathered of an event while a rule is decided.
use seagull_backend_v.Base.{
  ◌≡◌, refl, sym, ap, ◌∙◌, subst, Bool, not, Option, some, List, [], ◌∷◌, ◌++◌, Text, length,
  contains, In, Bool-cases, inl, inr,
}
use seagull_backend_v.Detection.Value.{Numbers, Value, Comparison}
use seagull_backend_v.Detection.Node.{
  Evidence, evidence_Eq, Node, conjunction, disjunction, negation, comparison, Nodes, done, term,
  up_to, Event, saw, gathered, mark_of, cut_back, holds, all_hold, any_holds,
}

append_nil : {A : Type 0} (xs : List A) → xs ++ [] ≡ xs
append_nil [] = refl
append_nil (x ∷ xs) = ap (λ ys. x ∷ ys) (append_nil xs)

pub append_assoc : {A : Type 0} (xs ys zs : List A) → (xs ++ ys) ++ zs ≡ xs ++ (ys ++ zs)
append_assoc [] ys zs = refl
append_assoc (x ∷ xs) ys zs = ap (λ ws. x ∷ ws) (append_assoc xs ys zs)

pub In-append_left : {A : Type 0} (a : A) (xs ys : List A) → In a xs → In a (xs ++ ys)
In-append_left a [] ys m = absurd m
In-append_left a (x ∷ xs) ys (inl e) = inl e
In-append_left a (x ∷ xs) ys (inr m) = inr (In-append_left a xs ys m)

pub In-append_last : {A : Type 0} (a : A) (xs : List A) → In a (xs ++ a ∷ [])
In-append_last a [] = inl refl
In-append_last a (x ∷ xs) = inr (In-append_last a xs)

up_to-append : (xs ys : List Evidence) → up_to (length xs) (xs ++ ys) ≡ xs
unfolding up_to
up_to-append [] ys = refl
up_to-append (x ∷ xs) ys = ap (λ ws. x ∷ ws) (up_to-append xs ys)

-- What is gathered begins with what was.
abbrev pub Grows : List Evidence → Option (List Evidence) → Type 0
Grows into out = (more : List Evidence) × (out ≡ some (into ++ more))

pub Grows-refl : (into : List Evidence) → Grows into (some into)
Grows-refl into = ([], ap some (sym (append_nil into)))

pub Grows-trans :
    (into more : List Evidence) (out : Option (List Evidence))
    → Grows (into ++ more) out
    → Grows into out
Grows-trans into more out (rest, e) = (more ++ rest, e ∙ ap some (append_assoc into more rest))

module _ {N : Type 0} ⦃numbers : Numbers N⦄ (wrote : Text → Value N → Text) where
  gathered-Grows :
      (c : Comparison N) (carried : Option (Value N)) (negated : Bool) (into : List Evidence)
      → Grows into (gathered wrote c carried negated (some into))
  unfolding gathered
  gathered-Grows c carried negated into =
      elim (Bool-cases (contains into (saw wrote c carried negated))) [
        | inl e ↦ rw e (Grows-refl into)
        | inr e ↦ rw e (saw wrote c carried negated ∷ [], refl)
      ]

  mutual
    unfolding holds cut_back mark_of

    pub holds-Grows :
        (n : Node N) (event : Event N) (into : List Evidence) (negated : Bool)
        → Grows into (holds wrote n event (some into) negated).1
    holds-Grows (comparison c) event into negated = gathered-Grows c (event c.field) negated into
    holds-Grows (negation n) event into negated = holds-Grows n event into (not negated)
    holds-Grows (conjunction ns) event into negated = all_hold-Grows ns event into negated
    holds-Grows (disjunction ns) event into negated =
        subst (λ w. Grows into (any_holds wrote (length into) ns event (some w) negated).1)
          (append_nil into) (any_holds-Grows ns event into [] negated)

    pub all_hold-Grows :
        (ns : Nodes N) (event : Event N) (into : List Evidence) (negated : Bool)
        → Grows into (all_hold wrote ns event (some into) negated).1
    all_hold-Grows done event into negated = Grows-refl into
    all_hold-Grows (term n ns) event into negated =
        let (more, e) = holds-Grows n event into negated in
        elim (Bool-cases (holds wrote n event (some into) negated).0) [
          | inl t ↦
              rw (t, e) (Grows-trans into more _ (all_hold-Grows ns event (into ++ more) negated))
          | inr t ↦ rw t (more, e)
        ]

    any_holds-Grows :
        (ns : Nodes N) (event : Event N) (into prior : List Evidence) (negated : Bool)
        → Grows into (any_holds wrote (length into) ns event (some (into ++ prior)) negated).1
    any_holds-Grows done event into prior negated = (prior, refl)
    any_holds-Grows (term n ns) event into prior negated =
        let (more, e) = holds-Grows n event (into ++ prior) negated in
        let whole = e ∙ ap some (append_assoc into prior more) in
        elim (Bool-cases (holds wrote n event (some (into ++ prior)) negated).0) [
          | inl t ↦
              rw (t, whole, up_to-append into (prior ++ more)) (holds-Grows n event into negated)
          | inr t ↦ rw (t, whole) (any_holds-Grows ns event into (prior ++ more) negated)
        ]
