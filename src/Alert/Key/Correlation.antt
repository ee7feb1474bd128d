-- ===== src/Alert/Key/Correlation.antt =====
-- internal/alert/key.go: which detections fold into one alert.
use seagull_backend_v.Base.{
  ℕ, ◌≡◌, ◌↔◌, refl, sym, ap, ap₂, ◌∙◌, subst, Bool, Option, List, [], ◌∷◌, Text, text_Eq, In,
  length, arith, inl, inr, cons_injective,
}
use seagull_backend_v.Base.Sort.{text_before, sort, In-sort, In-compact}
use seagull_backend_v.Written.{write_all, write_all_injective}
use seagull_backend_v.Alert.Key.{Detection, shown, shown_parts, distinct, correlation_text}

In-distinct : (p : Text) (keyed : List Text) → In p (distinct keyed) ↔ In p keyed
unfolding distinct
In-distinct p keyed = (
  λ m. (In-sort text_before p keyed).0 ((In-compact p (sort text_before keyed)).0 m),
  λ m. (In-compact p (sort text_before keyed)).1 ((In-sort text_before p keyed).1 m),
)

module _ (is_text : Text → Bool) (unquote : Text → Option Text) (class severity : ℕ → Text) where
  -- What two detections hold in every part of a list.
  abbrev pub HoldAlike : Detection → Detection → List Text → Type 0
  HoldAlike a b keyed =
      (p : Text)
      → In p keyed
      → shown is_text unquote class severity a p ≡ shown is_text unquote class severity b p

  shown_parts_injective :
      (a b : Detection) (ps qs : List Text)
      → shown_parts is_text unquote class severity a ps
        ≡ shown_parts is_text unquote class severity b qs
      → (ps ≡ qs) × HoldAlike a b ps
  unfolding shown_parts
  shown_parts_injective a b [] [] h = (refl, λ p m. absurd m)
  shown_parts_injective a b [] (q ∷ qs) h = absurd (omega (arith, ap length h))
  shown_parts_injective a b (p ∷ ps) [] h = absurd (omega (arith, ap length h))
  shown_parts_injective a b (p ∷ ps) (q ∷ qs) h =
      let (part, h) = cons_injective p q _ _ h in
      let (value, h) = cons_injective _ _ _ _ h in
      let (parts, values) = shown_parts_injective a b ps qs h in
      (ap₂ (λ x xs. x ∷ xs) part parts, each part value values)
    where
      each :
          p ≡ q
          → shown is_text unquote class severity a p ≡ shown is_text unquote class severity b q
          → HoldAlike a b ps
          → HoldAlike a b (p ∷ ps)
      each e v rest r (inl m) =
          ap (shown is_text unquote class severity a) m
          ∙ v
          ∙ ap (shown is_text unquote class severity b) (sym e ∙ sym m)
      each e v rest r (inr m) = rest r m

  shown_parts-alike :
      (a b : Detection) (ps : List Text)
      → HoldAlike a b ps
      → shown_parts is_text unquote class severity a ps
        ≡ shown_parts is_text unquote class severity b ps
  unfolding shown_parts
  shown_parts-alike a b [] h = refl
  shown_parts-alike a b (p ∷ ps) h =
      ap₂ (λ v vs. p ∷ v ∷ vs) (h p (inl refl)) (shown_parts-alike a b ps (λ r m. h r (inr m)))

  -- Two detections have the same text under the digest of their correlation keys, where both are
  -- keyed by the same parts, exactly when they are of one tenant and what is written of each of
  -- those parts is the same.
  pub correlation_text_iff :
      (a b : Detection) (keyed : List Text)
      → (correlation_text is_text unquote class severity a keyed
          ≡ correlation_text is_text unquote class severity b keyed)
        ↔ ((a.tenant ≡ b.tenant) × HoldAlike a b keyed)
  unfolding correlation_text
  correlation_text_iff a b keyed = (
    λ h.
        let (tenant, parts) = cons_injective a.tenant b.tenant _ _ (write_all_injective _ _ h) in
        let (same, alike) = shown_parts_injective a b (distinct keyed) (distinct keyed) parts in
        (tenant, λ p m. alike p ((In-distinct p keyed).1 m)),
    λ h.
        let parts =
          shown_parts-alike a b (distinct keyed) (λ p m. h.1 p ((In-distinct p keyed).0 m)) in
        ap write_all (ap₂ (λ t ps. t ∷ ps) h.0 parts),
  )

  pub correlation_text_apart :
      (a b : Detection) (ks js : List Text)
      → correlation_text is_text unquote class severity a ks
        ≡ correlation_text is_text unquote class severity b js
      → (a.tenant ≡ b.tenant) × ((p : Text) → In p ks ↔ In p js)
  unfolding correlation_text
  correlation_text_apart a b ks js h =
      let (tenant, parts) = cons_injective a.tenant b.tenant _ _ (write_all_injective _ _ h) in
      let (same, alike) = shown_parts_injective a b (distinct ks) (distinct js) parts in
      (
        tenant,
        λ p. (
          λ m. (In-distinct p js).0 (subst (In p) same ((In-distinct p ks).1 m)),
          λ m. (In-distinct p ks).0 (subst (In p) (sym same) ((In-distinct p js).1 m)),
        ),
      )
