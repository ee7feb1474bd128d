-- ===== src/DetectionState/Key.antt =====
-- internal/detectionstate/key.go: the key that an event of a rule is counted under. The digest,
-- 16 bytes of SHA-256 in hexadecimal, is a parameter; what is stated is about the text under it.
use seagull_backend_v.Base.{
  ℕ, ◌≡◌, ◌≢◌, ◌↔◌, refl, sym, ap, ap₂, length, cons_injective, subst, Bool, true, false, ◌&&◌,
  List, [], ◌∷◌, ◌++◌, Text, text_Eq, text_eq, text_eq_iff, bytes, Eq, ◌==◌, not, ◌⊎◌,
  if◌then◌else◌, In, arith, inl, inr,
}
use seagull_backend_v.Base.Sort.{text_before, sort, In-sort, compact, In-compact}
use seagull_backend_v.Written.{digits, digits_injective, write_all, write_all_injective}

-- One field a rule groups by, and what an event held in it.
pub record Binding : Type 0 where
  pub field : Text
  pub value : Text
  pub absent : Bool

unfoldable pub binding_eq : Binding → Binding → Bool
unfolding text_eq
binding_eq a b =
    a.field == b.field && a.value == b.value && (if a.absent then b.absent else not b.absent)

pub binding_eq_iff : (a b : Binding) → (binding_eq a b ≡ true) ↔ (a ≡ b)
unfolding binding_eq
binding_eq_iff a b = ground (arith, text_eq_iff a.field b.field, text_eq_iff a.value b.value)

instance abbrev pub binding_Eq : Eq Binding
binding_Eq = record { beq = binding_eq; beq_iff = binding_eq_iff }

-- `Binding.String`.
unfoldable pub string_of : Binding → Text
string_of b = if b.absent then b.field ++ bytes " absent" else b.field ++ (32 ∷ b.value)

unfoldable pub binding_before : Binding → Binding → Bool
unfolding string_of text_before
binding_before a b = text_before (string_of a) (string_of b)

-- What is written for a field that the event does not carry: a NUL byte, then `absent`.
abbrev pub absent_marker : Text
absent_marker = 0 ∷ bytes "absent"

-- What is written of a binding after its field.
unfoldable pub shown : Binding → Text
shown b = if b.absent then absent_marker else b.value

unfoldable pub binding_parts : List Binding → List Text
unfolding shown
binding_parts [] = []
binding_parts (b ∷ bs) = b.field ∷ shown b ∷ binding_parts bs

unfoldable pub key_parts : Text → Text → ℕ → List Binding → List Text
unfolding binding_parts sort binding_before compact binding_eq digits
key_parts tenant rule revision group =
    tenant ∷ rule ∷ digits revision ∷ binding_parts (compact (sort binding_before group))

-- What `KeyFor` hands to the digest.
unfoldable pub key_text : Text → Text → ℕ → List Binding → Text
unfolding key_parts write_all
key_text tenant rule revision group = write_all (key_parts tenant rule revision group)

pub record Key : Type 0 where
  pub tenant : Text
  pub rule : Text
  pub group : Text

unfoldable pub key_for : (Text → Text) → Text → Text → ℕ → List Binding → Key
unfolding key_text
key_for digest tenant rule revision group = record {
  tenant = tenant;
  rule = rule;
  group = digest (key_text tenant rule revision group);
}

-- A binding that is written without the marker standing for a value, and as Go leaves it: an
-- absent one holds no value.
pub record IsPlain (b : Binding) : Type 0 where
  pub unmarked : b.value ≢ absent_marker
  pub empty : (b.absent ≡ false) ⊎ (b.value ≡ [])

abbrev pub ArePlain : List Binding → Type 0
ArePlain g = (b : Binding) → In b g → IsPlain b

binding_shown :
    (a b : Binding) → IsPlain a → IsPlain b → a.field ≡ b.field → shown a ≡ shown b → a ≡ b
unfolding shown
binding_shown a b p q e s =
    ground (arith, p.unmarked, q.unmarked, p.empty, q.empty, binding_eq_iff a b)

binding_parts_injective :
    (xs ys : List Binding)
    → ((b : Binding) → In b xs → IsPlain b)
    → ((b : Binding) → In b ys → IsPlain b)
    → binding_parts xs ≡ binding_parts ys
    → xs ≡ ys
unfolding binding_parts
binding_parts_injective [] [] p q h = refl
binding_parts_injective [] (y ∷ ys) p q h = absurd (omega (arith, ap length h))
binding_parts_injective (x ∷ xs) [] p q h = absurd (omega (arith, ap length h))
binding_parts_injective (x ∷ xs) (y ∷ ys) p q h =
    let (field, h) = cons_injective x.field y.field _ _ h in
    let (value, h) = cons_injective (shown x) (shown y) _ _ h in
    let rest = binding_parts_injective xs ys (λ b m. p b (inr m)) (λ b m. q b (inr m)) h in
    let first = binding_shown x y (p x (inl refl)) (q y (inl refl)) field value in
    ap₂ (λ a b. a ∷ b) first rest

same_bindings :
    (xs ys : List Binding)
    → ArePlain xs
    → ArePlain ys
    → binding_parts (compact (sort binding_before xs))
      ≡ binding_parts (compact (sort binding_before ys))
    → compact (sort binding_before xs) ≡ compact (sort binding_before ys)
same_bindings xs ys p q h =
    binding_parts_injective (compact (sort binding_before xs)) (compact (sort binding_before ys))
      (λ b m. p b (kept xs b m)) (λ b m. q b (kept ys b m)) h
  where
    kept : (g : List Binding) (b : Binding) → In b (compact (sort binding_before g)) → In b g
    kept g b m = (In-sort binding_before b g).0 ((In-compact b (sort binding_before g)).0 m)

-- Two keys whose digests are of the same text have the same tenant, rule and revision, and
-- groups that hold the same bindings, where no value of either group is the marker that stands
-- for an absent field and an absent binding holds no value.
pub key_text_injective :
    (s t : Text) (q r : Text) (m n : ℕ) (g h : List Binding)
    → ArePlain g
    → ArePlain h
    → key_text s q m g ≡ key_text t r n h
    → (s ≡ t) × (q ≡ r) × (m ≡ n) × ((b : Binding) → In b g ↔ In b h)
unfolding key_text key_parts
key_text_injective s t q r m n g h p o e =
    let (tenant, e) = cons_injective s t _ _ (write_all_injective _ _ e) in
    let (rule, e) = cons_injective q r _ _ e in
    let (revision, e) = cons_injective (digits m) (digits n) _ _ e in
    let bound = same_bindings g h p o e in
    (
      tenant,
      rule,
      digits_injective m n revision,
      λ b. (λ k. across b g h bound k, λ k. across b h g (sym bound) k),
    )
  where
    across :
        (b : Binding) (v w : List Binding)
        → compact (sort binding_before v) ≡ compact (sort binding_before w)
        → In b v
        → In b w
    across b v w l k = (In-sort binding_before b w).0 (
        (In-compact b (sort binding_before w)).0 (
          subst (In b) l
            ((In-compact b (sort binding_before v)).1 ((In-sort binding_before b v).1 k))))
