-- ===== src/Examples/Authz.antt =====
-- A policy document of internal/authz with one role and one binding.
use seagull_backend_v.Base.{
  ◌≡◌, ◌≢◌, ◌↔◌, refl, sym, ap, ◌∙◌, true, [], ◌∷◌, bytes, ok, inl, inr, In, contains, text_eq,
  text_eq_iff,
}
use seagull_backend_v.Base.Map.{lookup, insert}
use seagull_backend_v.Base.Sort.{sort, insert_sorted}
use seagull_backend_v.Authz.Permission.{
  Permission, Role, is_valid, written, parse_permission, cut, sort_permissions, keep,
}
use seagull_backend_v.Authz.Permission.{written-parse_permission}
use seagull_backend_v.Authz.Policy.{
  Binding, Policy, Grant, compile, grant, load_roles, load_bindings, all_declared, gather,
  gather_role, permissions_of,
}
use seagull_backend_v.Authz.Grant.{decide_within, allowed}
use seagull_backend_v.Authz.Compiled.{States, decide_within-compile}

abbrev read_alerts : Permission
read_alerts = record { resource = bytes "alerts"; action = bytes "read" }

abbrev analyst : Role
analyst = record {
  name = bytes "analyst";
  description = bytes "reads";
  permissions = read_alerts ∷ [];
}

abbrev ana : Binding
ana = record { subject = bytes "ana"; roles = bytes "analyst" ∷ []; tenants = bytes "acme" ∷ [] }

abbrev compiled : Policy
compiled = record { roles = (bytes "analyst", analyst) ∷ []; bindings = (bytes "ana", ana) ∷ [] }

abbrev granted : Grant
granted = record {
  subject = bytes "ana";
  roles = bytes "analyst" ∷ [];
  tenants = bytes "acme" ∷ [];
  permissions = read_alerts ∷ [];
}

compiles : compile (analyst ∷ []) (ana ∷ []) ≡ ok compiled
unfolding compile load_roles load_bindings all_declared lookup insert text_eq
compiles = refl

grants : grant compiled (bytes "ana") ≡ ok granted
unfolding grant lookup gather gather_role permissions_of sort_permissions sort insert_sorted keep
    text_eq
grants = refl

decide_within-compile_example :
    ((decide_within granted read_alerts (bytes "acme")).reason ≡ allowed) ↔ (
      (is_valid read_alerts ≡ true)
      × (bytes "acme" ≢ [])
      × States (analyst ∷ []) (ana ∷ []) (bytes "ana") read_alerts (bytes "acme"))
decide_within-compile_example =
    decide_within-compile (analyst ∷ []) (ana ∷ []) (bytes "ana") read_alerts (bytes "acme")
      compiles grants

ana_is_not_bob : bytes "ana" ≢ bytes "bob"
unfolding text_eq
ana_is_not_bob h = cc ((text_eq_iff (bytes "ana") (bytes "bob")).1 h)

nobody_else : (b : Binding) → In b (ana ∷ []) → b.subject ≢ bytes "bob"
nobody_else b (inl e) h = ana_is_not_bob (sym (ap (λ (x : Binding). x.subject) e) ∙ h)
nobody_else b (inr m) h = m

read_alerts_valid : is_valid read_alerts ≡ true
unfolding is_valid contains text_eq
read_alerts_valid = refl

reads : parse_permission (bytes "alerts:read") ≡ ok read_alerts
unfolding parse_permission cut contains text_eq
reads = refl

written-parse_permission_example :
    (is_valid read_alerts ≡ true) × (written read_alerts ≡ bytes "alerts:read")
written-parse_permission_example = written-parse_permission (bytes "alerts:read") read_alerts reads
