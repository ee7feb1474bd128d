-- ===== src/Authz/Permission.antt =====
-- internal/authz/permission.go and role.go: permissions, how they are written, and roles.
use seagull_backend_v.Base.{
  ℕ, ◌≡◌, ◌↔◌, refl, Bool, true, not, ◌&&◌, Option, none, some, List, [], ◌∷◌, ◌++◌, arith, Text,
  text_Eq, text_eq, text_eq_iff, nat_eq, Eq, ◌==◌, if◌then◌else◌, bytes, contains, contains_iff,
  All, In, All-In, ◌⊎◌, Option-cases, Bool-cases, inl, inr, is_nil, Result, ok, err, ◌>>=◌, ◌>>◌,
  refuse_if,
}
use seagull_backend_v.Base.Sort.{sort, text_before}
use seagull_backend_v.Identifier.{valid_role}

pub record Permission : Type 0 where
  pub resource : Text
  pub action : Text

abbrev pub resources : List Text
resources =
    bytes "events"
    ∷ bytes "detections"
    ∷ bytes "rulesets"
    ∷ bytes "alerts"
    ∷ bytes "incidents"
    ∷ bytes "agents"
    ∷ bytes "policies"
    ∷ bytes "sessions"
    ∷ []

abbrev pub actions : List Text
actions = bytes "read" ∷ bytes "write" ∷ bytes "delete" ∷ []

unfoldable pub permission_eq : Permission → Permission → Bool
unfolding text_eq
permission_eq a b = a.resource == b.resource && a.action == b.action

pub permission_eq_iff : (a b : Permission) → (permission_eq a b ≡ true) ↔ (a ≡ b)
unfolding permission_eq
permission_eq_iff a b =
    ground (arith, text_eq_iff a.resource b.resource, text_eq_iff a.action b.action)

instance abbrev pub permission_Eq : Eq Permission
permission_Eq = record { beq = permission_eq; beq_iff = permission_eq_iff }

unfoldable pub is_valid : Permission → Bool
unfolding contains
is_valid p = contains resources p.resource && contains actions p.action

-- `Permission.String`.
unfoldable pub written : Permission → Text
written p = p.resource ++ b':' ∷ p.action

-- `strings.Cut` at the first `:`.
unfoldable pub cut : ℕ → Text → Option (Text × Text)
cut sep [] = none
cut sep (c ∷ s) =
    if c == sep
    then some ([], s)
    else elim (cut sep s) [ none ↦ none | some (before, after) ↦ some (c ∷ before, after) ]

pub data ParseError : Type 0 where
  not_a_pair no_resource no_action : ParseError

unfoldable pub parse_permission : Text → Result ParseError Permission
unfolding cut contains
parse_permission text = elim (cut b':' text) [
  | none ↦ err not_a_pair
  | some (resource, action) ↦ do
    refuse_if (not (contains resources resource)) no_resource
    refuse_if (not (contains actions action)) no_action
    ok (record { resource = resource; action = action })
]

-- Whether a separator is free of a text.
free_of : ℕ → Text → Bool
free_of sep [] = true
free_of sep (c ∷ s) = not (c == sep) && free_of sep s

cut-append : (sep : ℕ) (a b : Text) → free_of sep a ≡ true → cut sep (a ++ sep ∷ b) ≡ some (a, b)
unfolding cut free_of
cut-append sep [] b h = ground arith
cut-append sep (c ∷ a) b h = ground (arith, cut-append sep a b)

cut-eq-some : (sep : ℕ) (s a b : Text) → cut sep s ≡ some (a, b) → a ++ sep ∷ b ≡ s
unfolding cut
cut-eq-some sep [] a b h = cc
cut-eq-some sep (c ∷ s) a b h = elim (Bool-cases (c == sep)) [
  | inl e ↦ ground arith
  | inr n ↦ elim (Option-cases (cut sep s)) [
    | inl e ↦ ground arith
    | inr ((before, after), e) ↦ ground (arith, cut-eq-some sep s before after e)
  ]
]

resources_free : (r : Text) → contains resources r ≡ true → free_of b':' r ≡ true
resources_free r h =
    All-In (λ r. free_of b':' r ≡ true) resources r free ((contains_iff resources r).0 h)
  where
    free : All (λ r. free_of b':' r ≡ true) resources
    free = unfold free_of in (refl, (refl, (refl, (refl, (refl, (refl, (refl, (refl, tt))))))))

-- A declared permission, written and read back, is the same permission.
pub parse_permission-written :
    (p : Permission) → is_valid p ≡ true → parse_permission (written p) ≡ ok p
unfolding parse_permission written is_valid
parse_permission-written p h =
    ground (arith, resources_free p.resource, cut-append b':' p.resource p.action)

-- What reads as a permission is a declared one, and the text is how that permission is written.
pub written-parse_permission :
    (text : Text) (p : Permission)
    → parse_permission text ≡ ok p
    → (is_valid p ≡ true) × (written p ≡ text)
unfolding parse_permission written is_valid
written-parse_permission text p h = elim (Option-cases (cut b':' text)) [
  | inl e ↦ ground arith
  | inr ((resource, action), e) ↦ ground (arith, cut-eq-some b':' text resource action e)
]

-- The order of `sortPermissions`.
unfoldable pub permission_before : Permission → Permission → Bool
unfolding text_before
permission_before a b =
    if a.resource == b.resource
    then text_before a.action b.action
    else text_before a.resource b.resource

unfoldable pub sort_permissions : List Permission → List Permission
unfolding sort permission_before
sort_permissions = sort permission_before

-- internal/authz/role.go.
pub record Role : Type 0 where
  pub name : Text
  pub description : Text
  pub permissions : List Permission

pub data RoleError : Type 0 where
  not_a_role_name no_description allows_nothing not_a_permission : RoleError

-- `append`, where the value is not kept yet.
unfoldable pub keep {ℓ} : {A : Type ℓ} ⦃e : Eq A⦄ → A → List A → List A
unfolding contains
keep a [] = a ∷ []
keep a (x ∷ kept) = if x == a then x ∷ kept else x ∷ keep a kept

-- The loop of `NewRole`: every permission is declared, and kept once.
unfoldable pub keep_permissions :
    List Permission → List Permission → Result RoleError (List Permission)
unfolding keep
keep_permissions kept [] = ok kept
keep_permissions kept (p ∷ ps) =
    let rest = keep_permissions (keep p kept) ps in
    if not (is_valid p) then err not_a_permission else rest

unfoldable pub new_role : Text → Text → List Permission → Result RoleError Role
new_role name description permissions = do
  refuse_if (not (valid_role name)) not_a_role_name
  refuse_if (is_nil description) no_description
  refuse_if (is_nil permissions) allows_nothing
  kept ← keep_permissions [] permissions
  ok (record { name = name; description = description; permissions = sort_permissions kept })

pub In-keep :
    {A : Type 0} ⦃e : Eq A⦄ (a b : A) (kept : List A) → In b (keep a kept) ↔ ((b ≡ a) ⊎ In b kept)
unfolding keep
In-keep a b [] = (λ m. ground arith, λ m. ground arith)
In-keep ⦃e⦄ a b (x ∷ kept) = (
  λ m. ground (arith, e.beq_iff x a, (In-keep a b kept).0),
  λ m. ground (arith, e.beq_iff x a, (In-keep a b kept).1),
)
