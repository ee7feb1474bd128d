-- ===== src/DetectionState/Partitioning.antt =====
-- internal/detectionstate/partitioning.go: which rules a store that reads a share of the stream
-- can hold the whole of. What the contract declares and where the backbone puts a record are
-- parameters.
use seagull_backend_v.Base.{
  ℕ, ◌≡◌, refl, sym, subst, Bool-cases, ap, ap₂, ◌∙◌, Bool, true, false, ◌&&◌, ◌||◌, not, Option,
  none, some, List, [], ◌∷◌, Text, text_Eq, text_eq_iff, bytes, ◌==◌, if◌then◌else◌, is_nil,
  contains, contains_iff, In, arith, inl, inr,
}
use seagull_backend_v.DetectionState.Bounds.{Count, counts, Sequence, correlates}
use seagull_backend_v.DetectionState.Key.{Binding, ArePlain, key_text, key_text_injective}

abbrev pub tenant_field : Text
tenant_field = bytes "origin.tenant_id"

pub data PartitioningError : Type 0 where
  no_partitioning split_state : PartitioningError

pub record Partitioning : Type 0 where
  pub by : List Text
  pub sole : Bool

unfoldable pub undeclared : (Text → Bool) → List Text → Bool
undeclared declared [] = false
undeclared declared (f ∷ fs) = not (declared f) || undeclared declared fs

unfoldable pub validate : (Text → Bool) → Partitioning → Option PartitioningError
unfolding undeclared
validate declared p = if is_nil p.by || undeclared declared p.by then some no_partitioning else none

unfoldable pub keyed_within : List Text → List Text → Bool
unfolding contains
keyed_within group [] = true
keyed_within group (f ∷ fs) = (f == tenant_field || contains group f) && keyed_within group fs

unfoldable pub colocates : Partitioning → List Text → Bool
unfolding keyed_within
colocates p group = not (is_nil p.by) && keyed_within group p.by

unfoldable pub holds : Partitioning → List Text → Bool
unfolding colocates
holds p group = p.sole || colocates p group

unfoldable pub admits : Partitioning → Count → Option PartitioningError
unfolding holds counts
admits p c = if not (counts c) || holds p c.group_by then none else some split_state

unfoldable pub orders : Partitioning → Sequence → Option PartitioningError
unfolding holds correlates
orders p s = if not (correlates s) || holds p s.group_by then none else some split_state

-- An event, as what it holds in each field; `Program.Group` of it (internal/detection/decide.go).
unfoldable pub bind : (Text → Option Text) → Text → Binding
bind read field = elim (read field) [
  | none ↦ record { field = field; value = []; absent = true }
  | some value ↦ record { field = field; value = value; absent = false }
]

unfoldable pub group_of : (Text → Option Text) → List Text → List Binding
unfolding bind
group_of read [] = []
group_of read (f ∷ fs) = bind read f ∷ group_of read fs

-- A getter of the contract: the empty string where the field is not set.
unfoldable pub text_in : (Text → Option Text) → Text → Text
text_in read field = elim (read field) [ none ↦ [] | some value ↦ value ]

-- The text an event is counted under, by a rule of these group fields.
unfoldable pub counted_under : (Text → Option Text) → Text → ℕ → List Text → Text
unfolding key_text group_of text_in
counted_under read rule revision fields =
    key_text (text_in read tenant_field) rule revision (group_of read fields)

-- What the backbone keys the event by.
unfoldable pub keyed_by : (Text → Option Text) → List Text → List Text
unfolding text_in
keyed_by read [] = []
keyed_by read (f ∷ fs) = text_in read f ∷ keyed_by read fs

bind_field : (read : Text → Option Text) (f : Text) → (bind read f).field ≡ f
unfolding bind
bind_field read f = ground arith

bind_text : (r s : Text → Option Text) (f : Text) → bind r f ≡ bind s f → text_in r f ≡ text_in s f
unfolding bind text_in
bind_text r s f e = ground arith

bound-In :
    (r s : Text → Option Text) (f : Text) (fs : List Text)
    → In (bind r f) (group_of s fs)
    → text_in r f ≡ text_in s f
unfolding group_of
bound-In r s f [] m = absurd m
bound-In r s f (g ∷ fs) (inl e) =
    bind_text r s f
      (e ∙ ap (bind s) (sym (sym (bind_field r f) ∙ ap (λ b. b.field) e ∙ bind_field s g)))
bound-In r s f (g ∷ fs) (inr m) = bound-In r s f fs m

In-group_of :
    (r : Text → Option Text) (f : Text) (fs : List Text) → In f fs → In (bind r f) (group_of r fs)
unfolding group_of
In-group_of r f [] m = absurd m
In-group_of r f (g ∷ fs) (inl e) = inl (ap (bind r) e)
In-group_of r f (g ∷ fs) (inr m) = inr (In-group_of r f fs m)

keyed_within-keyed_by :
    (r s : Text → Option Text) (group fs : List Text)
    → text_in r tenant_field ≡ text_in s tenant_field
    → ((f : Text) → In f group → text_in r f ≡ text_in s f)
    → keyed_within group fs ≡ true
    → keyed_by r fs ≡ keyed_by s fs
unfolding keyed_within keyed_by
keyed_within-keyed_by r s group [] t h k = refl
keyed_within-keyed_by r s group (f ∷ fs) t h k =
    ap₂ (λ a b. a ∷ b) here (keyed_within-keyed_by r s group fs t h (ground arith))
  where
    here : text_in r f ≡ text_in s f
    here = elim (Bool-cases (f == tenant_field)) [
      | inl e ↦
          let same = (text_eq_iff f tenant_field).0 e in
          subst (λ x. text_in r x ≡ text_in s x) (sym same) t
      | inr e ↦ h f ((contains_iff group f).0 (ground arith))
    ]

-- Two events that are counted under one text, of a rule whose group fields colocate, hold the
-- same texts in every field that the stream is keyed by, where no value of a group field is the
-- marker that stands for an absent one.
pub colocates-counted_under :
    (p : Partitioning) (group : List Text) (r s : Text → Option Text) (rule : Text) (revision : ℕ)
    → colocates p group ≡ true
    → ArePlain (group_of r group)
    → ArePlain (group_of s group)
    → counted_under r rule revision group ≡ counted_under s rule revision group
    → keyed_by r p.by ≡ keyed_by s p.by
unfolding colocates counted_under
colocates-counted_under p group r s rule revision c u v e =
    let (tenant, _, _, same) =
      key_text_injective _ _ rule rule revision revision (group_of r group) (group_of s group) u v
        e in
    keyed_within-keyed_by r s group p.by tenant
      (λ f m. bound-In r s f group ((same (bind r f)).0 (In-group_of r f group m))) (ground arith)
