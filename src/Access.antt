-- ===== src/Access.antt =====
-- pkg/admin/context.go (actors and permissions), pkg/rbac/rbac.go (roles) and pkg/tenant/tenant.go.
pub mod Grants
pub mod Roles
mod Tests
use gomyadmin.Base.{
  ℕ, ◌-◌, Bool, true, false, ◌&&◌, ◌||◌, List, [], ◌∷◌, ◌++◌, Option, none, some, Str, ◌==◌, nat_eq,
  str_eq, ltb, leb, if◌then◌else◌, length, take, drop,
}
use gomyadmin.Text.{lit, has_prefix, has_suffix}
use gomyadmin.Dict.{Dict, lookup, insert}

-- `type Actor struct`
pub record Actor : Type 0 where
  pub id : Str
  pub email : Str
  pub name : Str
  pub tenant_id : Str
  pub roles : List Str
  pub permissions : List Str

-- `func (a Actor) HasRole`
unfoldable pub has_role_in : List Str → Str → Bool
has_role_in [] role = false
has_role_in (candidate ∷ rest) role = candidate == role || has_role_in rest role

unfoldable pub has_role : Actor → Str → Bool
unfolding has_role_in
has_role a role = has_role_in a.roles role

-- `func matchPermission`
unfoldable pub match_permission : Str → Str → Bool
match_permission granted requested =
    if granted == requested
    then true
    else if granted == lit "*"
    then true
    else if ltb 2 (length granted) && drop (length granted - 2) granted == lit ".*"
    then leb (length granted - 1) (length requested)
      && take (length granted - 1) requested == take (length granted - 1) granted
    else if has_prefix granted (lit "*.")
    then leb (length (drop 1 granted)) (length requested) && has_suffix requested (drop 1 granted)
    else false

-- `func (a Actor) Can`
unfoldable pub can_any : List Str → Str → Bool
can_any [] permission = false
can_any (candidate ∷ rest) permission =
    if candidate == lit "*" || match_permission candidate permission
    then true
    else can_any rest permission

unfoldable pub can : Actor → Str → Bool
unfolding can_any
can a permission = can_any a.permissions permission

-- `func adminMatchPermission` of package rbac
unfoldable pub admin_match_permission : Str → Str → Bool
admin_match_permission granted requested =
    if granted == requested || granted == lit "*"
    then true
    else if ltb 2 (length granted) && drop (length granted - 2) granted == lit ".*"
    then leb (length granted - 1) (length requested)
      && take (length granted - 1) requested == take (length granted - 1) granted
    else if ltb 2 (length granted) && take 2 granted == lit "*."
    then leb (length (drop 1 granted)) (length requested)
      && drop (length requested - length (drop 1 granted)) requested == drop 1 granted
    else false

-- `type Role struct` and `type Authorizer struct` of package rbac
pub record Role : Type 0 where
  pub name : Str
  pub description : Str
  pub permissions : List Str

pub record Authorizer : Type 0 where
  pub roles : Dict Role

-- `func DefaultRoles`
unfoldable pub default_roles : List Role
default_roles =
    record {
      name = lit "super_admin";
      description = lit "Unrestricted platform administrator";
      permissions = lit "*" ∷ [];
    }
    ∷ record {
      name = lit "tenant_admin";
      description = lit "Manage tenant resources";
      permissions = lit "users.*" ∷ lit "invoices.*" ∷ lit "files.*" ∷ lit "audit.view" ∷ [];
    }
    ∷ record {
      name = lit "manager";
      description = lit "Manage operational workflows";
      permissions =
          lit "users.view"
          ∷ lit "users.update"
          ∷ lit "invoices.view"
          ∷ lit "invoices.update"
          ∷ lit "audit.view"
          ∷ [];
    }
    ∷ record {
      name = lit "support";
      description = lit "Read and support customer records";
      permissions = lit "users.view" ∷ lit "invoices.view" ∷ lit "audit.view" ∷ [];
    }
    ∷ record {
      name = lit "viewer";
      description = lit "Read-only access";
      permissions = lit "*.view" ∷ [];
    }
    ∷ []

-- `func NewDefaultAuthorizer`
register_roles : List Role → Dict Role → Dict Role
register_roles [] m = m
register_roles (role ∷ rest) m = register_roles rest (insert role.name role m)

unfoldable pub new_default_authorizer : Authorizer
unfolding register_roles default_roles insert
new_default_authorizer = record { roles = register_roles default_roles [] }

-- The inner and the outer loop of `func (a *Authorizer) Can`.
unfoldable pub role_grants : List Str → Str → Bool
role_grants [] permission = false
role_grants (granted ∷ rest) permission =
    if admin_match_permission granted permission then true else role_grants rest permission

unfoldable pub roles_grant : Authorizer → List Str → Str → Bool
roles_grant a [] permission = false
roles_grant a (role_name ∷ rest) permission =
    let later = roles_grant a rest permission in
    elim (lookup role_name a.roles) [
      | none ↦ later
      | some role ↦ if role_grants role.permissions permission then true else later
    ]

-- `func (a *Authorizer) Can`
unfoldable pub authorizer_can : Authorizer → Actor → Str → Bool
unfolding roles_grant role_grants
authorizer_can a actor permission =
    if can actor permission then true else roles_grant a actor.roles permission

-- `type Tenant struct` and the two resolvers of package tenant; `none` is `ErrTenantRequired`.
pub record Tenant : Type 0 where
  pub id : Str
  pub name : Str
  pub slug : Str

unfoldable pub actor_resolve : Actor → Option Tenant
actor_resolve actor =
    if actor.tenant_id == []
    then none
    else some (record { id = actor.tenant_id; name = []; slug = [] })

unfoldable pub static_resolve : Tenant → Actor → Option Tenant
static_resolve t actor = if t.id == [] then none else some t
