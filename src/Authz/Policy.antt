-- ===== src/Authz/Policy.antt =====
-- internal/authz/policy.go: bindings, the compiled policy and the grant of a subject. The
-- policy's identity, a digest of its parts, is left out.
use seagull_backend_v.Base.{
  Bool, true, not, ◌&&◌, Option, none, some, List, [], ◌∷◌, Text, text_Eq, nat_eq, if◌then◌else◌,
  is_nil, is_some, Result, ok, err, ◌>>=◌, ◌>>◌, refuse_if,
}
use seagull_backend_v.Base.Map.{Map, lookup, insert}
use seagull_backend_v.Identifier.{valid_subject, valid_role, valid_identifier}
use seagull_backend_v.Authz.Permission.{Permission, permission_Eq, Role, keep, sort_permissions}
use seagull_backend_v.Base.Sort.{sort, text_before}

pub record Binding : Type 0 where
  pub subject : Text
  pub roles : List Text
  pub tenants : List Text

pub data PolicyError : Type 0 where
  not_a_subject not_a_role no_role not_a_tenant no_tenant : PolicyError
  empty_role role_twice empty_binding bound_twice undeclared_role empty_policy unknown_subject :
      PolicyError

unfoldable pub keep_valid :
    (Text → Bool) → PolicyError → List Text → List Text → Result PolicyError (List Text)
unfolding keep
keep_valid valid refusal kept [] = ok kept
keep_valid valid refusal kept (name ∷ names) =
    let rest = keep_valid valid refusal (keep name kept) names in
    if not (valid name) then err refusal else rest

unfoldable pub new_binding : Text → List Text → List Text → Result PolicyError Binding
unfolding sort text_before
new_binding subject roles tenants = do
  refuse_if (not (valid_subject subject)) not_a_subject
  kept_roles ← keep_valid valid_role not_a_role [] roles
  refuse_if (is_nil kept_roles) no_role
  kept_tenants ← keep_valid valid_identifier not_a_tenant [] tenants
  refuse_if (is_nil kept_tenants) no_tenant
  ok (record {
    subject = subject;
    roles = sort text_before kept_roles;
    tenants = sort text_before kept_tenants;
  })

pub record Policy : Type 0 where
  pub roles : Map Text Role
  pub bindings : Map Text Binding

-- The loop over the roles of `Compile`.
unfoldable pub load_roles : Map Text Role → List Role → Result PolicyError (Map Text Role)
load_roles by_name [] = ok by_name
load_roles by_name (role ∷ roles) =
    let rest = load_roles (insert role.name role by_name) roles in
    if is_nil role.name
    then err empty_role
    else if is_some (lookup role.name by_name)
    then err role_twice
    else rest

unfoldable pub all_declared : Map Text Role → List Text → Bool
all_declared by_name [] = true
all_declared by_name (name ∷ names) = is_some (lookup name by_name) && all_declared by_name names

-- The loop over the bindings of `Compile`.
unfoldable pub load_bindings :
    Map Text Role → Map Text Binding → List Binding → Result PolicyError (Map Text Binding)
load_bindings by_name by_subject [] = ok by_subject
load_bindings by_name by_subject (binding ∷ bindings) =
    let rest = load_bindings by_name (insert binding.subject binding by_subject) bindings in
    if is_nil binding.subject
    then err empty_binding
    else if is_some (lookup binding.subject by_subject)
    then err bound_twice
    else if not (all_declared by_name binding.roles)
    then err undeclared_role
    else rest

unfoldable pub compile : List Role → List Binding → Result PolicyError Policy
compile roles bindings = do
  by_name ← load_roles [] roles
  by_subject ← load_bindings by_name [] bindings
  refuse_if (is_nil by_subject) empty_policy
  ok (record { roles = by_name; bindings = by_subject })

pub record Grant : Type 0 where
  pub subject : Text
  pub roles : List Text
  pub tenants : List Text
  pub permissions : List Permission

abbrev pub role_permissions : Option Role → List Permission
role_permissions none = []
role_permissions (some role) = role.permissions

-- A role that the policy does not hold reads as the zero role, which allows nothing.
unfoldable pub permissions_of : Map Text Role → Text → List Permission
permissions_of by_name name = role_permissions (lookup name by_name)

unfoldable pub gather_role : List Permission → List Permission → List Permission
gather_role gathered [] = gathered
gather_role gathered (p ∷ ps) = gather_role (keep p gathered) ps

-- The nested loops of `Grant`.
unfoldable pub gather : Map Text Role → List Permission → List Text → List Permission
gather by_name gathered [] = gathered
gather by_name gathered (name ∷ names) =
    gather by_name (gather_role gathered (permissions_of by_name name)) names

unfoldable pub grant : Policy → Text → Result PolicyError Grant
unfolding gather sort_permissions
grant policy subject = elim (lookup subject policy.bindings) [
  | none ↦ err unknown_subject
  | some binding ↦ ok (record {
    subject = binding.subject;
    roles = binding.roles;
    tenants = binding.tenants;
    permissions = sort_permissions (gather policy.roles [] binding.roles);
  })
]
