-- ===== src/Examples/Key.antt =====
-- The keys of a rule that groups by a user and a source.
use seagull_backend_v.Base.{
  ◌≡◌, ◌↔◌, refl, ap, true, false, Option, none, some, [], ◌∷◌, Text, text_Eq, text_eq, bytes,
  if◌then◌else◌, ℕ, subst, sym, In, length, inl, inr, contains, arith,
}
use seagull_backend_v.DetectionState.Key.{
  absent_marker, Binding, IsPlain, ArePlain, key_text, key_text_injective,
}
use seagull_backend_v.DetectionState.Partitioning.{
  Partitioning, tenant_field, keyed_within, colocates, bind, group_of, counted_under, keyed_by,
  colocates-counted_under,
}

abbrev user : Binding
user = record { field = bytes "user"; value = bytes "bo"; absent = false }

abbrev source : Binding
source = record { field = bytes "source"; value = []; absent = true }

user-IsPlain : IsPlain user
user-IsPlain = record { unmarked = λ h. omega (arith, ap length h); empty = inl refl }

source-IsPlain : IsPlain source
source-IsPlain = record { unmarked = λ h. omega (arith, ap length h); empty = inr refl }

plain : ArePlain (user ∷ source ∷ [])
plain b (inl e) = subst IsPlain (sym e) user-IsPlain
plain b (inr (inl e)) = subst IsPlain (sym e) source-IsPlain
plain b (inr (inr m)) = absurd m

plain_swapped : ArePlain (source ∷ user ∷ source ∷ [])
plain_swapped b (inl e) = subst IsPlain (sym e) source-IsPlain
plain_swapped b (inr m) = plain b m

same_text :
    key_text (bytes "t") (bytes "r") 1 (user ∷ source ∷ [])
    ≡ key_text (bytes "t") (bytes "r") 1 (source ∷ user ∷ source ∷ [])
unfolding key_text
same_text = refl

key_text_injective_example :
    (bytes "t" ≡ bytes "t")
    × (bytes "r" ≡ bytes "r")
    × (◌≡◌ {A = ℕ} 1 1)
    × ((b : Binding) → In b (user ∷ source ∷ []) ↔ In b (source ∷ user ∷ source ∷ []))
key_text_injective_example =
    key_text_injective (bytes "t") (bytes "t") (bytes "r") (bytes "r") 1 1 (user ∷ source ∷ [])
      (source ∷ user ∷ source ∷ []) plain plain_swapped same_text

abbrev by_user : Partitioning
by_user = record { by = tenant_field ∷ bytes "user" ∷ []; sole = false }

-- Two events of one tenant and one user, of different hosts.
unfoldable event_of : Text → Text → Option Text
event_of host field =
    if text_eq field (bytes "user")
    then some (bytes "bo")
    else if text_eq field (bytes "host")
    then some host
    else none

grouped_plain : (host : Text) → ArePlain (group_of (event_of host) (bytes "user" ∷ []))
unfolding event_of group_of bind text_eq
grouped_plain host b (inl e) = subst IsPlain (sym e) user-IsPlain
grouped_plain host b (inr m) = absurd m

counted_together :
    counted_under (event_of (bytes "h1")) (bytes "r") 1 (bytes "user" ∷ [])
    ≡ counted_under (event_of (bytes "h2")) (bytes "r") 1 (bytes "user" ∷ [])
unfolding counted_under event_of text_eq
counted_together = refl

colocated : colocates by_user (bytes "user" ∷ []) ≡ true
unfolding colocates keyed_within contains text_eq
colocated = refl

colocates-counted_under_example :
    keyed_by (event_of (bytes "h1")) (tenant_field ∷ bytes "user" ∷ [])
    ≡ keyed_by (event_of (bytes "h2")) (tenant_field ∷ bytes "user" ∷ [])
colocates-counted_under_example =
    colocates-counted_under by_user (bytes "user" ∷ []) (event_of (bytes "h1"))
      (event_of (bytes "h2")) (bytes "r") 1 colocated (grouped_plain (bytes "h1"))
      (grouped_plain (bytes "h2")) counted_together

-- A field that holds the marker's own bytes is written as one that is absent: the two are counted
-- together.
abbrev marked : Binding
marked = record { field = bytes "source"; value = absent_marker; absent = false }

marked_as_absent :
    key_text (bytes "t") (bytes "r") 1 (source ∷ [])
    ≡ key_text (bytes "t") (bytes "r") 1 (marked ∷ [])
unfolding key_text
marked_as_absent = refl
