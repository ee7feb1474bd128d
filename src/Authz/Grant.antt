-- ===== src/Authz/Grant.antt =====
-- internal/authz/grant.go: what a grant decides.
use seagull_backend_v.Base.{
  ◌≡◌, ◌≢◌, ◌↔◌, Bool, true, false, not, ◌&&◌, ◌||◌, [], arith, Text, text_Eq, nat_eq,
  if◌then◌else◌, contains, contains_iff, In, is_nil,
}
use seagull_backend_v.Authz.Permission.{Permission, permission_Eq, is_valid}
use seagull_backend_v.Authz.Policy.{Grant}

pub data Reason : Type 0 where
  allowed no_grant no_permission out_of_tenant undeclared : Reason

pub record Decision : Type 0 where
  pub reason : Reason
  pub permission : Permission
  pub tenant : Text

pub is_allowed : Decision → Bool
is_allowed d = elim (d.reason) [ allowed ↦ true | _ ↦ false ]

-- The zero value of a grant.
abbrev pub no_one : Grant
no_one = record { subject = []; roles = []; tenants = []; permissions = [] }

unfoldable pub reason_of : Grant → Permission → Reason
reason_of g p =
    if not (is_valid p)
    then undeclared
    else if is_nil g.subject
    then no_grant
    else if not (contains g.permissions p)
    then no_permission
    else allowed

unfoldable pub decide : Grant → Permission → Decision
unfolding reason_of
decide g p = record { reason = reason_of g p; permission = p; tenant = [] }

unfoldable pub within : Grant → Text → Bool
within g tenant = not (is_nil tenant) && contains g.tenants tenant

unfoldable pub decide_within : Grant → Permission → Text → Decision
unfolding is_allowed decide
decide_within g p tenant =
    let d = record (decide g p) { tenant = tenant } in
    if not (is_allowed d)
    then d
    else if is_nil tenant || not (contains g.tenants tenant)
    then record d { reason = out_of_tenant }
    else d

-- A request on a tenant's records is allowed exactly when the permission is a declared one, the
-- grant is somebody's, and it holds both the permission and the tenant, which has a name.
pub decide_within_iff :
    (g : Grant) (p : Permission) (tenant : Text)
    → ((decide_within g p tenant).reason ≡ allowed) ↔ (
        (is_valid p ≡ true)
        × (g.subject ≢ [])
        × In p g.permissions
        × (tenant ≢ [])
        × In tenant g.tenants)
unfolding decide_within
decide_within_iff g p tenant = (
  λ h. ground (arith, (contains_iff g.permissions p).0, (contains_iff g.tenants tenant).0),
  λ h. ground (arith, (contains_iff g.permissions p).1, (contains_iff g.tenants tenant).1),
)
