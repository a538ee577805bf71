-- ===== src/Registry/Reached.antt =====
-- What holds of every registry that the program can reach.
use gomyadmin.Base.{
  ℕ, zero, suc, ◌≡◌, ◌∙◌, refl, ap, Option, none, some, List, [], ◌∷◌, ◌++◌, arith, Str, ◌==◌,
  str_eq, length, get_elem?, map, All, All-map, IsDistinct, Bool-cases, inl, inr, Option-cases,
  some-injective,
}
use gomyadmin.Dict.Keys.{insert-All, insert-IsDistinct}
use gomyadmin.Dict.{lookup}
use gomyadmin.Registry.Names.{ModelType, resource_name}
use gomyadmin.Registry.Resources.{
  Resource, ResourceCall, call_resource, modify, sets, pages, audits, adds_field, adds_action,
  field_call, field_primary, action_call, set_text, page_size, primary_field,
}
use gomyadmin.Registry.{App, new_app, new_resource, resource, allocate, register, on_resource}

-- A call of the program: of the registry, or of a method of a resource through its pointer.
pub data Step : App → App → Type 0 where
  makes : (model : Option ModelType) {a : App} → Step a (resource model a).0
  builds : (r : Resource) {a : App} → Step a (allocate r a).0
  registers : (address : ℕ) {a : App} → Step a (register address a)
  changes : (address : ℕ) (call : ResourceCall) {a : App} → Step a (on_resource address call a)

pub data Reached (name : Str) : App → Type 0 where
  start : Reached name (new_app name)
  next : {a b : App} → Reached name a → Step a b → Reached name b

-- The name of the resource at an address
abbrev pub name_at : List Resource → ℕ → Option Str
name_at [] i = none
name_at (r ∷ rs) zero = some r.name
name_at (r ∷ rs) (suc i) = name_at rs i

-- Every name of the map is that of the resource to which it points, and stands there once.
pub record IsValid (a : App) : Type 0 where
  pub named : All (λ e. name_at a.heap e.1 ≡ some e.0) a.resources
  pub distinct : IsDistinct (map (λ e. e.0) a.resources)

call_resource-name : (call : ResourceCall) (r : Resource) → (call_resource call r).name ≡ r.name
unfolding call_resource set_text page_size primary_field
call_resource-name (sets what s) r = ground arith
call_resource-name (pages n) r = ground arith
call_resource-name audits r = refl
call_resource-name (adds_field s) r = refl
call_resource-name (adds_action s) r = refl
call_resource-name (field_call i c) r = refl
call_resource-name (field_primary i) r = elim (Option-cases (get_elem? r.fields i)) [
  | inl e ↦ rw (call_resource, primary_field, e) refl
  | inr (f, e) ↦ rw (call_resource, primary_field, e) refl
]
call_resource-name (action_call i c) r = refl

name_at-append :
    (h t : List Resource) (i : ℕ) {n : Str} → name_at h i ≡ some n → name_at (h ++ t) i ≡ some n
name_at-append [] t i e = cc
name_at-append (r ∷ h) t zero e = e
name_at-append (r ∷ h) t (suc i) e = name_at-append h t i e

name_at_last : (h : List Resource) (r : Resource) → name_at (h ++ r ∷ []) (length h) ≡ some r.name
name_at_last [] r = refl
name_at_last (x ∷ h) r = name_at_last h r

name_at-modify :
    (j : ℕ) (call : ResourceCall) (h : List Resource) (i : ℕ)
    → name_at (modify j (call_resource call) h) i ≡ name_at h i
unfolding modify
name_at-modify zero call [] i = refl
name_at-modify (suc j) call [] i = refl
name_at-modify zero call (r ∷ h) zero = ap some (call_resource-name call r)
name_at-modify zero call (r ∷ h) (suc i) = refl
name_at-modify (suc j) call (r ∷ h) zero = refl
name_at-modify (suc j) call (r ∷ h) (suc i) = name_at-modify j call h i

name_at-get :
    (h : List Resource) (i : ℕ) {r : Resource} → get_elem? h i ≡ some r → name_at h i ≡ some r.name
name_at-get [] i e = cc
name_at-get (x ∷ h) zero e = ap (λ z. some z) (ap (λ z. z.name) (some-injective e))
name_at-get (x ∷ h) (suc i) e = name_at-get h i e

resource-IsValid : (model : Option ModelType) {a : App} → IsValid a → IsValid (resource model a).0
unfolding resource
resource-IsValid model {a} v =
    let name = resource_name model in
    let grown = a.heap ++ new_resource name ∷ [] in
    elim (Option-cases (lookup name a.resources)) [
      | inr (i, e) ↦ rw (resource, e) v
      | inl e ↦
          rw (resource, e)
            (record {
              named =
                  insert-All (λ e. name_at grown e.1 ≡ some e.0) name (length a.heap) a.resources
                    (name_at_last a.heap (new_resource name))
                    (All-map (λ e. name_at a.heap e.1 ≡ some e.0)
                      (λ e. name_at grown e.1 ≡ some e.0)
                      (λ e h. name_at-append a.heap (new_resource name ∷ []) e.1 h) a.resources
                      v.named);
              distinct = insert-IsDistinct name (length a.heap) a.resources v.distinct;
            })
    ]

allocate-IsValid : (r : Resource) {a : App} → IsValid a → IsValid (allocate r a).0
unfolding allocate
allocate-IsValid r {a} v = record {
  named =
      All-map (λ e. name_at a.heap e.1 ≡ some e.0) (λ e. name_at (a.heap ++ r ∷ []) e.1 ≡ some e.0)
        (λ e h. name_at-append a.heap (r ∷ []) e.1 h) a.resources v.named;
  distinct = v.distinct;
}

register-IsValid : (address : ℕ) {a : App} → IsValid a → IsValid (register address a)
unfolding register
register-IsValid address {a} v = elim (Option-cases (get_elem? a.heap address)) [
  | inl e ↦ rw (register, e) v
  | inr (r, e) ↦ elim (Bool-cases (r.name == [])) [
    | inl t ↦ rw (register, e) (rw t v)
    | inr t ↦
        rw (register, e)
          (rw t (record {
            named =
                insert-All (λ e. name_at a.heap e.1 ≡ some e.0) r.name address a.resources
                  (name_at-get a.heap address e) v.named;
            distinct = insert-IsDistinct r.name address a.resources v.distinct;
          }))
  ]
]

on_resource-IsValid :
    (address : ℕ) (call : ResourceCall) {a : App} → IsValid a → IsValid (on_resource address call a)
unfolding on_resource
on_resource-IsValid address call {a} v = record {
  named =
      All-map (λ e. name_at a.heap e.1 ≡ some e.0)
        (λ e. name_at (modify address (call_resource call) a.heap) e.1 ≡ some e.0)
        (λ e h. name_at-modify address call a.heap e.1 ∙ h) a.resources v.named;
  distinct = v.distinct;
}

-- In every registry that the calls of the program reach from a new one, a name of the map stands there
-- once, and points to a resource of that name.
pub Reached-IsValid : {name : Str} {a : App} → Reached name a → IsValid a
Reached-IsValid start = unfold new_app in record { named = tt; distinct = tt }
Reached-IsValid (next r (makes model)) = resource-IsValid model (Reached-IsValid r)
Reached-IsValid (next r (builds x)) = allocate-IsValid x (Reached-IsValid r)
Reached-IsValid (next r (registers address)) = register-IsValid address (Reached-IsValid r)
Reached-IsValid (next r (changes address call)) =
    on_resource-IsValid address call (Reached-IsValid r)
