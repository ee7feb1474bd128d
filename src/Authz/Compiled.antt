-- ===== src/Authz/Compiled.antt =====
-- What a compiled policy grants: what its roles and bindings state and nothing else.
use seagull_backend_v.Base.{
  ◌≡◌, ◌≢◌, ◌↔◌, inl, inr, refl, sym, subst, true, some, List, [], arith, Text, text_Eq, nat_eq, In,
  ok, err, Option-cases, >>=-eq-ok,
}
use seagull_backend_v.Base.Map.{Map, lookup}
use seagull_backend_v.Authz.Permission.{Permission, permission_Eq, Role, is_valid, sort_permissions}
use seagull_backend_v.Authz.Policy.{
  Binding, Policy, Grant, unknown_subject, load_roles, load_bindings, compile, permissions_of,
  role_permissions, gather, grant,
}
use seagull_backend_v.Authz.Grant.{decide_within, decide_within_iff, allowed}
use seagull_backend_v.Authz.Loading.{
  both, In-sort_permissions, load_roles_iff, load_bindings_iff, load_bindings-named, In-gather,
}

-- What a policy document states: one of its bindings gives the subject the tenant and a role, and
-- the role of that name holds the permission.
pub record States (roles : List Role) (bindings : List Binding) (subject : Text) (p : Permission)
    (tenant : Text) : Type 0 where
  pub binding : Binding
  pub bound : In binding bindings
  pub names_subject : binding.subject ≡ subject
  pub names_tenant : In tenant binding.tenants
  pub role : Role
  pub declared : In role roles
  pub held : In role.name binding.roles
  pub permits : In p role.permissions

In-permissions_of :
    (by_name : Map Text Role) (p : Permission) (name : Text)
    → In p (permissions_of by_name name)
    → (r : Role) × (lookup name by_name ≡ some r) × In p r.permissions
unfolding permissions_of
In-permissions_of by_name p name m = elim (Option-cases (lookup name by_name)) [
  | inl e ↦ absurd (subst (λ o. In p (role_permissions o)) e m)
  | inr (r, e) ↦ (r, e, subst (λ o. In p (role_permissions o)) e m)
]

compile-loads :
    (roles : List Role) (bindings : List Binding) {policy : Policy}
    → compile roles bindings ≡ ok policy
    → (load_roles [] roles ≡ ok policy.roles)
      × (load_bindings policy.roles [] bindings ≡ ok policy.bindings)
unfolding compile
compile-loads roles bindings h =
    let (by_name, e, rest) = >>=-eq-ok (load_roles [] roles) _ h in
    let (by_subject, f, last) = >>=-eq-ok (load_bindings by_name [] bindings) _ rest in ground arith

grant-eq-ok :
    (policy : Policy) (subject : Text) {g : Grant}
    → grant policy subject ≡ ok g
    → (b : Binding) × (lookup subject policy.bindings ≡ some b)
      × (g ≡ record {
        subject = b.subject;
        roles = b.roles;
        tenants = b.tenants;
        permissions = sort_permissions (gather policy.roles [] b.roles);
      })
unfolding grant
grant-eq-ok policy subject h = elim (Option-cases (lookup subject policy.bindings)) [
  | inl e ↦ ground arith
  | inr (b, e) ↦ (b, e, ground arith)
]

-- The role that lets a binding's holder do something.
abbrev Through : List Role → List Text → Permission → Type 0
Through roles names p = (r : Role) × In r roles × In r.name names × In p r.permissions

In-loaded :
    (roles : List Role) {loaded : Map Text Role} (p : Permission) (names : List Text)
    → load_roles [] roles ≡ ok loaded
    → In p (gather loaded [] names) ↔ Through roles names p
unfolding permissions_of
In-loaded roles {loaded} p names e = (
  λ m. elim ((In-gather loaded p [] names).0 m) [
    | inl none_yet ↦ absurd none_yet
    | inr (name, h, q) ↦
        let (r, found, k) = In-permissions_of loaded p name q in
        elim ((load_roles_iff [] roles name r e).0 found) [
          | inl n ↦ unfold lookup in cc
          | inr (m', same) ↦ (r, m', subst (λ x. In x names) (sym same) h, k)
        ]
  ],
  λ (r, m, h, k). (In-gather loaded p [] names).1 (
      inr (
        r.name,
        h,
        subst (λ o. In p (role_permissions o))
            (sym ((load_roles_iff [] roles r.name r e).1 (inr (m, refl)))) k,
      )),
)

lookup-bindings :
    (by_name : Map Text Role) (bindings : List Binding) {loaded : Map Text Binding} (subject : Text)
    (b : Binding)
    → load_bindings by_name [] bindings ≡ ok loaded
    → (lookup subject loaded ≡ some b) ↔ (In b bindings × (b.subject ≡ subject))
lookup-bindings by_name bindings subject b e =
    let both = load_bindings_iff by_name [] bindings subject b e in
    (λ m. elim (both.0 m) [ inl n ↦ unfold lookup in cc | inr h ↦ h ], λ m. both.1 (inr m))

-- Where roles and bindings compile to a policy that gives a subject a grant, a request within a
-- tenant is allowed exactly when the permission is a declared one, the tenant has a name, and a
-- binding of the subject names the tenant and a role that holds the permission.
pub decide_within-compile :
    (roles : List Role) (bindings : List Binding) (subject : Text) (p : Permission) (tenant : Text)
    {policy : Policy} {g : Grant}
    → compile roles bindings ≡ ok policy
    → grant policy subject ≡ ok g
    → ((decide_within g p tenant).reason ≡ allowed)
      ↔ ((is_valid p ≡ true) × (tenant ≢ []) × States roles bindings subject p tenant)
decide_within-compile roles bindings subject p tenant {policy} {g} c h = (forth, back)
  where
    loads :
        (load_roles [] roles ≡ ok policy.roles)
        × (load_bindings policy.roles [] bindings ≡ ok policy.bindings)
    loads = compile-loads roles bindings c

    granted :
        (b : Binding) × (lookup subject policy.bindings ≡ some b)
        × (g ≡ record {
          subject = b.subject;
          roles = b.roles;
          tenants = b.tenants;
          permissions = sort_permissions (gather policy.roles [] b.roles);
        })
    granted = grant-eq-ok policy subject h

    b : Binding
    b = granted.0

    bound : In b bindings × (b.subject ≡ subject)
    bound = (lookup-bindings policy.roles bindings subject b loads.1).0 granted.1

    held : In p g.permissions ↔ Through roles b.roles p
    held = rw granted.2 (both (In-sort_permissions p _) (In-loaded roles p b.roles loads.0))

    forth :
        (decide_within g p tenant).reason ≡ allowed
        → (is_valid p ≡ true) × (tenant ≢ []) × States roles bindings subject p tenant
    forth d =
        let (v, _, m, t, k) = (decide_within_iff g p tenant).0 d in
        let (r, declared, named, permits) = held.0 m in
        (
          v,
          t,
          record {
            binding = b;
            bound = bound.0;
            names_subject = bound.1;
            names_tenant = subst (λ (x : Grant). In tenant x.tenants) granted.2 k;
            role = r;
            declared = declared;
            held = named;
            permits = permits;
          },
        )

    back :
        (is_valid p ≡ true) × (tenant ≢ []) × States roles bindings subject p tenant
        → (decide_within g p tenant).reason ≡ allowed
    back (v, t, s) =
        let same : s.binding ≡ b = cc (
          (lookup-bindings policy.roles bindings subject s.binding loads.1).1
              (s.bound, s.names_subject),
          granted.1,
        ) in
        (decide_within_iff g p tenant).1 (
          v,
          subst (λ (x : Grant). x.subject ≢ []) (sym granted.2)
              (load_bindings-named policy.roles [] bindings b loads.1 bound.0),
          held.1 (
            s.role,
            s.declared,
            subst (λ (x : Binding). In s.role.name x.roles) same s.held,
            s.permits,
          ),
          t,
          subst (λ (x : Grant). In tenant x.tenants) (sym granted.2)
              (subst (λ (x : Binding). In tenant x.tenants) same s.names_tenant),
        )

-- Where roles and bindings compile to a policy, a subject that no binding names is given no
-- grant.
pub grant-unknown :
    (roles : List Role) (bindings : List Binding) (subject : Text) {policy : Policy}
    → compile roles bindings ≡ ok policy
    → ((b : Binding) → In b bindings → b.subject ≢ subject)
    → grant policy subject ≡ err unknown_subject
unfolding grant
grant-unknown roles bindings subject {policy} c n =
    elim (Option-cases (lookup subject policy.bindings)) [
      | inl e ↦ rw (e, grant) refl
      | inr (b, e) ↦
          let (m, same) =
            (lookup-bindings policy.roles bindings subject b (compile-loads roles bindings c).1).0
              e in
          absurd (n b m same)
    ]
