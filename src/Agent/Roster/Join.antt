-- ===== src/Agent/Roster/Join.antt =====
-- What internal/agent/roster.go makes of two decisions about one agent, whichever comes first.
use seagull_backend_v.Base.{
  ℕ, max, ◌<◌, ◌≡◌, ◌≢◌, refl, sym, ◌∙◌, ap, Option, none, some, arith, text_eq_iff, ℕ_discrete,
  dec_lt,
}
use seagull_backend_v.Agent.Roster.{Decided, settle, undecided}

-- Where one revision stands against another.
data Stands (m n : ℕ) : Type 0 where
  below : m < n → Stands m n
  level : m ≡ n → Stands m n
  above : n < m → Stands m n

trichotomy : (m n : ℕ) → Stands m n
trichotomy m n = elim (dec_lt m n) [
  | yes l ↦ below l
  | no g ↦ elim (dec_lt n m) [ yes l ↦ above l | no h ↦ level (omega arith) ]
]

abbrev join : Decided → Decided → Decided
join held next = (settle (some held) next).0

Decided-discrete : Discrete Decided
Decided-discrete = hlevel ℕ_discrete

join-older : (h a : Decided) → a.revision < h.revision → join h a ≡ h
unfolding settle
join-older h a l = ground arith

join-newer : (h a : Decided) → h.revision < a.revision → join h a ≡ a
unfolding settle
join-newer h a l = ground arith

join_self : (h : Decided) → join h h ≡ h
unfolding settle
join_self h = ground (arith, text_eq_iff h.tenant h.tenant)

join-level : (h a : Decided) → h.revision ≡ a.revision → h ≢ a → join h a ≡ undecided h.revision
unfolding settle
join-level h a l d = ground (arith, text_eq_iff h.tenant a.tenant)

undecided_revision : (r : ℕ) → (undecided r).revision ≡ r
undecided_revision r = unfold undecided in refl

join-revision : (h a : Decided) → (join h a).revision ≡ max h.revision a.revision
unfolding settle undecided
join-revision h a = ground arith

-- Decisions of one revision that differ settle to neither, from then on.
join-undecided : (h : Decided) (r : ℕ) → h.revision ≡ r → join h (undecided r) ≡ undecided r
join-undecided h r e = elim (Decided-discrete h (undecided r)) [
  | yes p ↦ rw p (join_self (undecided r))
  | no d ↦ join-level h (undecided r) (e ∙ sym (undecided_revision r)) d ∙ ap undecided e
]

undecided-join : (h : Decided) (r : ℕ) → h.revision ≡ r → join (undecided r) h ≡ undecided r
undecided-join h r e = elim (Decided-discrete (undecided r) h) [
  | yes p ↦ rw (← p) (join_self (undecided r))
  | no d ↦
      join-level (undecided r) h (undecided_revision r ∙ sym e) d
      ∙ ap undecided (undecided_revision r)
]

join-assoc_level :
    (h a b : Decided)
    → h.revision ≡ a.revision
    → a.revision ≡ b.revision
    → join (join h a) b ≡ join h (join a b)
join-assoc_level h a b p q = elim (Decided-discrete h a) [
  | yes e ↦ elim (Decided-discrete a b) [
    | yes f ↦ rw (e, f, join_self b) refl
    | no d ↦ rw (e, join_self a, join-level a b q d) (sym (join-undecided a a.revision refl))
  ]
  | no d ↦ elim (Decided-discrete a b) [
    | yes f ↦ rw (← f, join_self a, join-level h a p d) (undecided-join a h.revision (sym p))
    | no g ↦
        rw (join-level h a p d, join-level a b q g)
          (undecided-join b h.revision (sym (p ∙ q))
            ∙ ap undecided p
            ∙ sym (join-undecided h a.revision p))
  ]
]

join_assoc : (h a b : Decided) → join (join h a) b ≡ join h (join a b)
join_assoc h a b = elim (trichotomy h.revision a.revision) [
  | below l ↦
      rw (join-newer h a l) (sym (join-newer h (join a b) (omega (arith, join-revision a b))))
  | level p ↦ elim (trichotomy a.revision b.revision) [
    | below l ↦
        rw (join-newer a b l, join-newer h b (omega arith))
          (join-newer (join h a) b (omega (arith, join-revision h a)))
    | level q ↦ join-assoc_level h a b p q
    | above l ↦ rw (join-older a b l) (join-older (join h a) b (omega (arith, join-revision h a)))
  ]
  | above l ↦ rw (join-older h a l) (elim (trichotomy b.revision h.revision) [
    | below m ↦ join-older h b m ∙ sym (join-older h (join a b) (omega (arith, join-revision a b)))
    | level q ↦ rw (join-newer a b (omega arith))
    | above m ↦ rw (join-newer a b (omega arith))
  ])
]

join_comm : (a b : Decided) → join a b ≡ join b a
join_comm a b = elim (trichotomy a.revision b.revision) [
  | below l ↦ join-newer a b l ∙ sym (join-older b a l)
  | above l ↦ join-older a b l ∙ sym (join-newer b a l)
  | level p ↦ elim (Decided-discrete a b) [
    | yes e ↦ rw e
    | no d ↦ join-level a b p d ∙ ap undecided p ∙ sym (join-level b a (sym p) (λ e. d (sym e)))
  ]
]

-- Two decisions leave one entry, whichever of them is read first.
pub settle_either_order :
    (held : Option Decided) (a b : Decided)
    → (settle (some (settle held a).0) b).0 ≡ (settle (some (settle held b).0) a).0
settle_either_order none a b = unfold settle in join_comm a b
settle_either_order (some h) a b =
    join_assoc h a b ∙ ap (join h) (join_comm a b) ∙ sym (join_assoc h b a)
