-- ===== src/Access/Tests.antt =====
-- Runs of the permission matcher, and the theorems at concrete actors.
use gomyadmin.Base.{◌≡◌, refl, ◌↔◌, true, false, [], ◌∷◌, str_beq}
use gomyadmin.Text.{lit, has_prefix, has_suffix}
use gomyadmin.Access.{Actor, match_permission, admin_match_permission}
use gomyadmin.Access.Grants.{Grants, match_permission_iff}

abbrev ann : Actor
ann = record {
  id = lit "u1";
  email = lit "ann@x.io";
  name = lit "Ann";
  tenant_id = lit "t1";
  roles = lit "viewer" ∷ [];
  permissions = [];
}

abbrev bob : Actor
bob = record ann { roles = []; permissions = lit "users.*" ∷ [] }

matcher_runs :
    (match_permission (lit "users.*") (lit "users.view") ≡ true)
    × (match_permission (lit "users.*") (lit "usersview") ≡ false)
    × (match_permission (lit "*.view") (lit "users.view") ≡ true)
    × (match_permission (lit "*.*") (lit "users.view") ≡ false)
    × (match_permission (lit "*.") (lit "users.") ≡ true)
    × (admin_match_permission (lit "*.") (lit "users.") ≡ false)
unfolding match_permission admin_match_permission str_beq has_prefix has_suffix
matcher_runs = (refl, refl, refl, refl, refl, refl)

match_permission_iff_example :
    (match_permission (lit "users.*") (lit "users.view") ≡ true)
    ↔ Grants (lit "users.*") (lit "users.view")
match_permission_iff_example = match_permission_iff (lit "users.*") (lit "users.view")
