-- ===== src/Release/Version.antt =====
-- internal/agentupdate/version.go: a release's version, read and compared.
use seagull_backend_v.Base.{
  ℕ, ◌+◌, ◌-◌, ◌*◌, ◌^◌, ◌≡◌, refl, Bool, true, false, not, ◌&&◌, ◌||◌, Option, none, some, List,
  [], ◌∷◌, arith, Text, text_Eq, nat_eq, ◌==◌, ◌!=◌, if◌then◌else◌, ltb, length, is_nil,
}
use seagull_backend_v.Base.Sort.{text_before}
use seagull_backend_v.Identifier.{is_digit, is_alphanumeric, every}

abbrev pub max_version_length : ℕ
max_version_length = 128

-- `strings.Split` at one byte.
unfoldable pub split : ℕ → Text → List Text
split sep [] = [] ∷ []
split sep (c ∷ s) =
    let rest = split sep s in
    if c == sep
    then [] ∷ rest
    else elim rest [ [] ↦ (c ∷ []) ∷ [] | part ∷ parts ↦ (c ∷ part) ∷ parts ]

-- `strings.Cut`: what stands before the separator, and what stands after it where it is there.
unfoldable pub cut_at : ℕ → Text → Text × Option Text
cut_at sep [] = ([], none)
cut_at sep (c ∷ s) =
    let (before, after) = cut_at sep s in if c == sep then ([], some s) else (c ∷ before, after)

unfoldable pub decimal : ℕ → Text → ℕ
decimal n [] = n
decimal n (c ∷ s) = decimal (n * 10 + (c - b'0')) s

abbrev leads_with : ℕ → Text → Bool
leads_with c [] = false
leads_with c (d ∷ s) = c == d

-- `numeric`, where `ParseUint` refuses what 64 bits do not hold.
unfoldable pub numeric : Text → Option ℕ
unfolding every decimal
numeric part =
    if is_nil part || (ltb 1 (length part) && leads_with b'0' part) || not (every is_digit part)
    then none
    else if ltb (decimal 0 part) (2 ^ 64)
    then some (decimal 0 part)
    else none

pub is_identifier_byte : ℕ → Bool
unfolding is_alphanumeric
is_identifier_byte c = is_alphanumeric c || c == b'-'

unfoldable pub identifiers_all : List Text → Bool → Bool
unfolding every
identifiers_all [] ordered = true
identifiers_all (part ∷ parts) ordered =
    let rest = identifiers_all parts ordered in
    if is_nil part || not (every is_identifier_byte part)
    then false
    else if ordered && ltb 1 (length part) && leads_with b'0' part && every is_digit part
    then false
    else rest

unfoldable pub identifiers : Text → Bool → Bool
unfolding identifiers_all split
identifiers dotted ordered = identifiers_all (split b'.' dotted) ordered

pub record Version : Type 0 where
  pub major : ℕ
  pub minor : ℕ
  pub patch : ℕ
  pub prerelease : List Text
  pub text : Text

abbrev absent_or : Option Text → Bool → Bool
absent_or none ordered = true
absent_or (some part) ordered = identifiers part ordered

abbrev prerelease_of : Option Text → List Text
prerelease_of none = []
prerelease_of (some part) = split b'.' part

abbrev all_three : Option ℕ → Option ℕ → Option ℕ → Option (ℕ × ℕ × ℕ)
all_three (some x) (some y) (some z) = some (x, y, z)
all_three _ _ _ = none

unfoldable pub core_of : List Text → Option (ℕ × ℕ × ℕ)
unfolding numeric
core_of (a ∷ b ∷ c ∷ []) = all_three (numeric a) (numeric b) (numeric c)
core_of _ = none

unfoldable pub parse_version_after : Text → Text → Option Version
unfolding cut_at core_of
parse_version_after text rest =
    let (named, build) = cut_at b'+' rest in
    if not (absent_or build false)
    then none
    else let (core, released) = cut_at b'-' named in
      if not (absent_or released true) then none else elim (core_of (split b'.' core)) [
        | none ↦ none
        | some (x, y, z) ↦ some (record {
          major = x;
          minor = y;
          patch = z;
          prerelease = prerelease_of released;
          text = text;
        })
      ]

unfoldable pub parse_version : Text → Option Version
unfolding parse_version_after
parse_version [] = none
parse_version (c ∷ rest) =
    if ltb max_version_length (length (c ∷ rest)) || c != b'v'
    then none
    else parse_version_after (c ∷ rest) rest

-- The answers -1, 0 and 1 of a comparison.
pub data Sign : Type 0 where
  below same above : Sign

unfoldable pub compare_numbers : ℕ → ℕ → Sign
compare_numbers a b = if ltb a b then below else if ltb b a then above else same

-- `strings.Compare`.
unfoldable pub compare_texts : Text → Text → Sign
compare_texts a b = if text_before a b then below else if text_before b a then above else same

-- The cases of `compareIdentifiers`, on what `numeric` answers.
unfoldable pub compare_read : Option ℕ → Option ℕ → Text → Text → Sign
unfolding compare_numbers compare_texts
compare_read (some m) (some n) a b = compare_numbers m n
compare_read (some m) none a b = below
compare_read none (some n) a b = above
compare_read none none a b = compare_texts a b

unfoldable pub compare_identifiers : Text → Text → Sign
unfolding compare_read numeric
compare_identifiers a b = compare_read (numeric a) (numeric b) a b

abbrev pub or_else : Sign → Sign → Sign
or_else same s = s
or_else below s = below
or_else above s = above

-- The loop over the identifiers that both have.
unfoldable pub first_difference : List Text → List Text → Sign
unfolding compare_identifiers
first_difference [] bs = same
first_difference (a ∷ as_) [] = same
first_difference (a ∷ as_) (b ∷ bs) = or_else (compare_identifiers a b) (first_difference as_ bs)

unfoldable pub compare_prereleases : List Text → List Text → Sign
unfolding first_difference compare_numbers
compare_prereleases [] [] = same
compare_prereleases [] (b ∷ bs) = above
compare_prereleases (a ∷ as_) [] = below
compare_prereleases (a ∷ as_) (b ∷ bs) =
    or_else (first_difference (a ∷ as_) (b ∷ bs))
      (compare_numbers (length (a ∷ as_)) (length (b ∷ bs)))

-- `Version.Compare`.
unfoldable pub compare_versions : Version → Version → Sign
unfolding compare_prereleases compare_numbers
compare_versions v w = or_else (compare_numbers v.major w.major) (
    or_else (compare_numbers v.minor w.minor)
      (or_else (compare_numbers v.patch w.patch) (compare_prereleases v.prerelease w.prerelease)))

unfoldable pub flip : Sign → Sign
flip below = above
flip same = same
flip above = below

text_before-asym : (a b : Text) → text_before a b ≡ true → text_before b a ≡ false
unfolding text_before
text_before-asym [] [] h = cc
text_before-asym [] (y ∷ ys) h = refl
text_before-asym (x ∷ xs) [] h = cc
text_before-asym (x ∷ xs) (y ∷ ys) h = ground (arith, text_before-asym xs ys)

flip-or_else : (a b c d : Sign) → a ≡ flip b → c ≡ flip d → or_else a c ≡ flip (or_else b d)
unfolding flip
flip-or_else a b c d e f = ground arith

numbers-flip : (a b : ℕ) → compare_numbers b a ≡ flip (compare_numbers a b)
unfolding compare_numbers flip
numbers-flip a b = ground arith

texts-flip : (a b : Text) → compare_texts b a ≡ flip (compare_texts a b)
unfolding compare_texts flip
texts-flip a b = ground (arith, text_before-asym a b, text_before-asym b a)

read-flip : (m n : Option ℕ) (a b : Text) → compare_read n m b a ≡ flip (compare_read m n a b)
unfolding compare_read flip
read-flip (some m) (some n) a b = numbers-flip m n
read-flip (some m) none a b = refl
read-flip none (some n) a b = refl
read-flip none none a b = texts-flip a b

identifiers-flip : (a b : Text) → compare_identifiers b a ≡ flip (compare_identifiers a b)
unfolding compare_identifiers
identifiers-flip a b = read-flip (numeric a) (numeric b) a b

difference-flip : (a b : List Text) → first_difference b a ≡ flip (first_difference a b)
unfolding first_difference
difference-flip [] [] = unfold flip in refl
difference-flip [] (y ∷ ys) = unfold flip in refl
difference-flip (x ∷ xs) [] = unfold flip in refl
difference-flip (x ∷ xs) (y ∷ ys) =
    flip-or_else _ _ _ _ (identifiers-flip x y) (difference-flip xs ys)

prereleases-flip : (a b : List Text) → compare_prereleases b a ≡ flip (compare_prereleases a b)
unfolding compare_prereleases
prereleases-flip [] [] = unfold flip in refl
prereleases-flip [] (y ∷ ys) = unfold flip in refl
prereleases-flip (x ∷ xs) [] = unfold flip in refl
prereleases-flip (x ∷ xs) (y ∷ ys) =
    flip-or_else _ _ _ _ (difference-flip (x ∷ xs) (y ∷ ys))
      (numbers-flip (length (x ∷ xs)) (length (y ∷ ys)))

-- Two releases are ordered alike whichever of them is asked: one is below the other exactly when
-- the other is above it, and they are the same exactly when they are the same the other way
-- round.
pub compare_versions-flip : (v w : Version) → compare_versions w v ≡ flip (compare_versions v w)
unfolding compare_versions
compare_versions-flip v w = flip-or_else _ _ _ _ (numbers-flip v.major w.major) (
    flip-or_else _ _ _ _ (numbers-flip v.minor w.minor) (
      flip-or_else _ _ _ _ (numbers-flip v.patch w.patch)
        (prereleases-flip v.prerelease w.prerelease)))
