-- ===== src/Authz/Loading.antt =====
-- What the loops of internal/authz/policy.go (`Compile`, `Grant`) leave in the maps of a policy.
use seagull_backend_v.Base.{
  ◌≡◌, ◌≢◌, ◌↔◌, ◌⊎◌, inl, inr, refl, subst, true, none, some, List, [], ◌∷◌, arith, Text, text_Eq,
  text_eq_iff, nat_eq, In, ok, Option-cases,
}
use seagull_backend_v.Base.Map.{Map, lookup, insert, lookup-insert}
use seagull_backend_v.Base.Sort.{In-sort}
use seagull_backend_v.Authz.Permission.{
  Permission, permission_Eq, permission_before, Role, keep, In-keep, sort_permissions,
}
use seagull_backend_v.Authz.Policy.{
  Binding, load_roles, load_bindings, all_declared, permissions_of, gather_role, gather,
}

pub both : {A B C : Type 0} → A ↔ B → B ↔ C → A ↔ C
both f g = (λ a. g.0 (f.0 a), λ c. f.1 (g.1 c))

pub In-sort_permissions :
    (p : Permission) (ps : List Permission) → In p (sort_permissions ps) ↔ In p ps
unfolding sort_permissions
In-sort_permissions p ps = In-sort permission_before p ps

load_roles-cons :
    (held : Map Text Role) (x : Role) (roles : List Role) {loaded : Map Text Role}
    → load_roles held (x ∷ roles) ≡ ok loaded
    → (lookup x.name held ≡ none) × (load_roles (insert x.name x held) roles ≡ ok loaded)
unfolding load_roles
load_roles-cons held x roles e = elim (Option-cases (lookup x.name held)) [
  | inl n ↦ ground arith
  | inr (r, n) ↦ ground arith
]

-- The roles a policy was compiled from are the roles it holds, each under its name.
pub load_roles_iff :
    (held : Map Text Role) (roles : List Role) {loaded : Map Text Role} (name : Text) (r : Role)
    → load_roles held roles ≡ ok loaded
    → (lookup name loaded ≡ some r) ↔ ((lookup name held ≡ some r) ⊎ (In r roles × (r.name ≡ name)))
load_roles_iff held [] name r e = unfold load_roles in (λ m. ground arith, λ m. ground arith)
load_roles_iff held (x ∷ roles) {loaded} name r e =
    let (absent, rest) = load_roles-cons held x roles e in
    let ih = load_roles_iff (insert x.name x held) roles {loaded = loaded} name r rest in
    (
      λ m. ground (arith, ih.0 m, lookup-insert x.name name x held, text_eq_iff x.name name),
      λ m. ih.1 (ground (arith, lookup-insert x.name name x held, text_eq_iff x.name name)),
    )

load_bindings-cons :
    (by_name : Map Text Role) (held : Map Text Binding) (x : Binding) (bindings : List Binding)
    {loaded : Map Text Binding}
    → load_bindings by_name held (x ∷ bindings) ≡ ok loaded
    → (lookup x.subject held ≡ none)
      × (x.subject ≢ [])
      × (all_declared by_name x.roles ≡ true)
      × (load_bindings by_name (insert x.subject x held) bindings ≡ ok loaded)
unfolding load_bindings
load_bindings-cons by_name held x bindings e = elim (Option-cases (lookup x.subject held)) [
  | inl n ↦ ground arith
  | inr (r, n) ↦ ground arith
]

pub load_bindings_iff :
    (by_name : Map Text Role) (held : Map Text Binding) (bindings : List Binding)
    {loaded : Map Text Binding} (subject : Text) (b : Binding)
    → load_bindings by_name held bindings ≡ ok loaded
    → (lookup subject loaded ≡ some b)
      ↔ ((lookup subject held ≡ some b) ⊎ (In b bindings × (b.subject ≡ subject)))
load_bindings_iff by_name held [] subject b e =
    unfold load_bindings in (λ m. ground arith, λ m. ground arith)
load_bindings_iff by_name held (x ∷ bindings) {loaded} subject b e =
    let (absent, _, _, rest) = load_bindings-cons by_name held x bindings e in
    let ih =
      load_bindings_iff by_name (insert x.subject x held) bindings {loaded = loaded} subject b
        rest in
    (
      λ m.
          ground
            (arith, ih.0 m, lookup-insert x.subject subject x held, text_eq_iff x.subject subject),
      λ m.
          ih.1
            (ground (arith, lookup-insert x.subject subject x held, text_eq_iff x.subject subject)),
    )

pub load_bindings-named :
    (by_name : Map Text Role) (held : Map Text Binding) (bindings : List Binding)
    {loaded : Map Text Binding} (b : Binding)
    → load_bindings by_name held bindings ≡ ok loaded
    → In b bindings
    → b.subject ≢ []
load_bindings-named by_name held [] b e m = absurd m
load_bindings-named by_name held (x ∷ bindings) {loaded} b e m =
    let (_, named, _, rest) = load_bindings-cons by_name held x bindings e in
    ground (
      arith,
      load_bindings-named by_name (insert x.subject x held) bindings {loaded = loaded} b rest,
    )

In-gather_role :
    (p : Permission) (gathered ps : List Permission)
    → In p (gather_role gathered ps) ↔ (In p gathered ⊎ In p ps)
unfolding gather_role
In-gather_role p gathered [] = (λ m. inl m, λ m. ground arith)
In-gather_role p gathered (q ∷ ps) =
    let ih = In-gather_role p (keep q gathered) ps in
    (
      λ m. ground (arith, ih.0 m, (In-keep q p gathered).0),
      λ m. ih.1 (ground (arith, (In-keep q p gathered).1)),
    )

pub In-gather :
    (by_name : Map Text Role) (p : Permission) (gathered : List Permission) (names : List Text)
    → In p (gather by_name gathered names)
      ↔ (In p gathered ⊎ ((name : Text) × In name names × In p (permissions_of by_name name)))
unfolding gather
In-gather by_name p gathered [] = (λ m. inl m, λ m. elim m [ inl h ↦ h | inr (n, h, k) ↦ absurd h ])
In-gather by_name p gathered (n ∷ names) =
    let ih = In-gather by_name p (gather_role gathered (permissions_of by_name n)) names in
    let step = In-gather_role p gathered (permissions_of by_name n) in
    (
      λ m. elim (ih.0 m) [
        | inl h ↦ elim (step.0 h) [ inl g ↦ inl g | inr q ↦ inr (n, inl refl, q) ]
        | inr (name, h, q) ↦ inr (name, inr h, q)
      ],
      λ m. elim m [
        | inl g ↦ ih.1 (inl (step.1 (inl g)))
        | inr (name, inl e, q) ↦
            ih.1 (inl (step.1 (inr (subst (λ x. In p (permissions_of by_name x)) e q))))
        | inr (name, inr h, q) ↦ ih.1 (inr (name, h, q))
      ],
    )
