-- ===== src/Access/Roles.antt =====
-- What the roles of package rbac give an actor.
use gomyadmin.Base.{
  ◌≡◌, refl, sym, ◌↔◌, ◌⊎◌, inl, inr, true, List, [], ◌∷◌, ◌++◌, arith, Str, str_beq_iff, ◌==◌,
  nat_eq, str_eq, In, Bool-cases, Option-cases, some, if◌then◌else◌, str_beq,
}
use gomyadmin.Text.{lit, has_suffix}
use gomyadmin.Text.Laws.{has_suffix_sound, has_suffix-append}
use gomyadmin.Dict.{lookup}
use gomyadmin.Access.{
  Actor, Role, Authorizer, can, admin_match_permission, role_grants, roles_grant, authorizer_can,
  new_default_authorizer,
}

role_grants_sound :
    (l : List Str) (r : Str)
    → role_grants l r ≡ true
    → (g : Str) × In g l × (admin_match_permission g r ≡ true)
unfolding role_grants
role_grants_sound [] r h = cc
role_grants_sound (g ∷ l) r h = elim (Bool-cases (admin_match_permission g r)) [
  | inl m ↦ (g, inl refl, m)
  | inr m ↦ let (g', i, m') = role_grants_sound l r (rw m at h) in (g', inr i, m')
]

role_grants_complete :
    (l : List Str) (g r : Str) → In g l → admin_match_permission g r ≡ true → role_grants l r ≡ true
unfolding role_grants
role_grants_complete [] g r i m = absurd i
role_grants_complete (g' ∷ l) g r (inl e) m =
    let m' : admin_match_permission g' r ≡ true = rw (← e) m in ground arith
role_grants_complete (g' ∷ l) g r (inr i) m = ground (arith, role_grants_complete l g r i m)

-- A role that the actor has, that the authorizer knows, and one of whose patterns matches.
abbrev pub GivenByRole : Authorizer → List Str → Str → Type 0
GivenByRole a names r =
    (n : Str) × In n names
    × ((role : Role) × (lookup n a.roles ≡ some role)
        × ((g : Str) × In g role.permissions × (admin_match_permission g r ≡ true)))

roles_grant_sound :
    (a : Authorizer) (names : List Str) (r : Str)
    → roles_grant a names r ≡ true
    → GivenByRole a names r
unfolding roles_grant
roles_grant_sound a [] r h = cc
roles_grant_sound a (n ∷ names) r h = elim (Option-cases (lookup n a.roles)) [
  | inl e ↦ let (n', i, w) = roles_grant_sound a names r (ground arith) in (n', inr i, w)
  | inr (role, e) ↦ elim (Bool-cases (role_grants role.permissions r)) [
    | inl m ↦ (n, inl refl, (role, e, role_grants_sound role.permissions r m))
    | inr m ↦ let (n', i, w) = roles_grant_sound a names r (ground arith) in (n', inr i, w)
  ]
]

roles_grant_complete :
    (a : Authorizer) (names : List Str) (r : Str)
    → GivenByRole a names r
    → roles_grant a names r ≡ true
unfolding roles_grant
roles_grant_complete a [] r (n, i, w) = absurd i
roles_grant_complete a (n' ∷ names) r (n, inl e, (role, known, (g, j, m))) =
    let here : lookup n' a.roles ≡ some role = rw (← e) known in
    ground (arith, role_grants_complete role.permissions g r j m)
roles_grant_complete a (n' ∷ names) r (n, inr i, w) =
    ground (arith, roles_grant_complete a names r (n, i, w))

-- The authorizer lets an actor do exactly what the actor's own permissions allow and what a known
-- role among the actor's roles gives.
pub authorizer_can_iff :
    (a : Authorizer) (actor : Actor) (r : Str)
    → (authorizer_can a actor r ≡ true) ↔ ((can actor r ≡ true) ⊎ GivenByRole a actor.roles r)
unfolding authorizer_can
authorizer_can_iff a actor r = (sound, complete)
  where
    sound : authorizer_can a actor r ≡ true → (can actor r ≡ true) ⊎ GivenByRole a actor.roles r
    sound h = elim (Bool-cases (can actor r)) [
      | inl c ↦ inl c
      | inr c ↦ inr (roles_grant_sound a actor.roles r (rw c at h))
    ]

    complete : (can actor r ≡ true) ⊎ GivenByRole a actor.roles r → authorizer_can a actor r ≡ true
    complete (inl c) = ground arith
    complete (inr w) = ground (arith, roles_grant_complete a actor.roles r w)

abbrev pub IsViewerOnly : Actor → Type 0
IsViewerOnly a = (a.roles ≡ lit "viewer" ∷ []) × (a.permissions ≡ [])

viewer_pattern :
    (a : Actor) (r : Str)
    → IsViewerOnly a
    → authorizer_can new_default_authorizer a r
      ≡ (if lit "*.view" == r then true else has_suffix r (lit ".view"))
unfolding authorizer_can new_default_authorizer can lookup str_beq admin_match_permission has_suffix
viewer_pattern a r (e, e') = rw (e, e') (ground arith)

-- Under the default roles an actor whose only role is "viewer" and who has no permissions of its own
-- may do exactly the requests that end in ".view".
pub viewer_iff :
    (a : Actor) (r : Str)
    → IsViewerOnly a
    → (authorizer_can new_default_authorizer a r ≡ true)
      ↔ ((front : Str) × (r ≡ front ++ lit ".view"))
viewer_iff a r v = (sound, complete)
  where
    sound :
        authorizer_can new_default_authorizer a r ≡ true
        → (front : Str) × (r ≡ front ++ lit ".view")
    sound h = elim (Bool-cases (lit "*.view" == r)) [
      | inl same ↦ (lit "*", sym ((str_beq_iff (lit "*.view") r).0 same))
      | inr differ ↦ has_suffix_sound r (lit ".view") (rw (viewer_pattern a r v, differ) at h)
    ]

    complete :
        (front : Str) × (r ≡ front ++ lit ".view")
        → authorizer_can new_default_authorizer a r ≡ true
    complete (front, e) =
        let s : has_suffix r (lit ".view") ≡ true = rw e (has_suffix-append front (lit ".view")) in
        rw (viewer_pattern a r v) (ground arith)
