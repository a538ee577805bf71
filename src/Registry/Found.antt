-- ===== src/Registry/Found.antt =====
-- What the program finds in a registry that it has reached.
use gomyadmin.Base.{
  ℕ, zero, suc, ◌≡◌, ◌≢◌, ◌↔◌, ◌∙◌, refl, sym, ap, Option, none, some, List, [], ◌∷◌, Str, ◌==◌,
  str_eq, str_beq_iff, str_beq_refl, str_beq-false, length, get_elem?, map, All, In, IsDistinct,
  Bool-cases, inl, inr, Option-cases,
}
use gomyadmin.Dict.{Dict, lookup, insert, lookup-insert}
use gomyadmin.Registry.Names.{ModelType, resource_name}
use gomyadmin.Registry.Reached.{Reached, IsValid, Reached-IsValid, name_at}
use gomyadmin.Registry.Resources.{Resource, ResourceCall}
use gomyadmin.Registry.{
  App, resource, allocate, register, on_resource, get_resource, deref, resources_of,
}
use gomyadmin.Text.Order.Sorted.{
  IsSorted, sort_strings-IsSorted, sort_strings-IsDistinct, In-sort_strings,
}
use gomyadmin.Text.Order.{sort_strings}

-- The pointer is not to a resource of this name.
abbrev pub IsOther : Str → App → ℕ → Type 0
IsOther name a address = (r : Resource) → get_elem? a.heap address ≡ some r → r.name ≢ name

-- What any calls of the program make of a registry: of `Resource`, of methods of resources, and of
-- `Register`, but not for a resource of the given name.
pub data After (name : Str) (a : App) : App → Type 0 where
  now : After name a a
  then_makes :
      {b : App} → After name a b → (model : Option ModelType) → After name a (resource model b).0
  then_builds : {b : App} → After name a b → (r : Resource) → After name a (allocate r b).0
  then_registers :
      {b : App}
      → After name a b
      → (address : ℕ) → IsOther name b address
      → After name a (register address b)
  then_changes :
      {b : App}
      → After name a b
      → (address : ℕ) (call : ResourceCall) → After name a (on_resource address call b)

insert_other :
    (k name : Str) (i j : ℕ) (entries : Dict ℕ)
    → k ≢ name
    → lookup name entries ≡ some j
    → lookup name (insert k i entries) ≡ some j
insert_other k name i j entries n e = lookup-insert k name i entries ∙ rw (str_beq-false k name n) e

-- A name keeps its pointer.
After-lookup :
    {name : Str} {a b : App} {i : ℕ}
    → After name a b
    → lookup name a.resources ≡ some i
    → lookup name b.resources ≡ some i
unfolding resource allocate register on_resource
After-lookup now e = e
After-lookup {name} {a} (then_makes {b} h model) e =
    let known = After-lookup h e in
    elim (Option-cases (lookup (resource_name model) b.resources)) [
      | inr (j, f) ↦ rw (resource, f) known
      | inl f ↦
          rw (resource, f)
            (insert_other (resource_name model) name (length b.heap) _ b.resources
              (λ same. cc (f, ap (λ n. lookup n b.resources) same, known)) known)
    ]
After-lookup (then_builds h r) e = After-lookup h e
After-lookup {name} (then_registers {b} h address other) e =
    let known = After-lookup h e in
    elim (Option-cases (get_elem? b.heap address)) [
      | inl f ↦ rw (register, f) known
      | inr (r, f) ↦ elim (Bool-cases (r.name == [])) [
        | inl t ↦ rw (register, f, t) known
        | inr t ↦
            rw (register, f, t) (insert_other r.name name address _ b.resources (other r f) known)
      ]
    ]
After-lookup (then_changes h address call) e = After-lookup h e

resource_registered :
    (model : Option ModelType) (a : App)
    → lookup (resource_name model) (resource model a).0.resources ≡ some (resource model a).1
unfolding resource
resource_registered model a = elim (Option-cases (lookup (resource_name model) a.resources)) [
  | inr (i, e) ↦ rw (resource, e) e
  | inl e ↦
      rw (resource, e)
        (lookup-insert (resource_name model) (resource_name model) (length a.heap) a.resources
          ∙ rw (str_beq_refl (resource_name model)) refl)
]

resource_existing :
    (model : Option ModelType) (a : App) {address : ℕ}
    → lookup (resource_name model) a.resources ≡ some address
    → resource model a ≡ (a, address)
unfolding resource
resource_existing model a e = rw (resource, e) refl

-- Whatever the program has called since, but Register for a resource of the same name, Resource for the
-- same model changes nothing and returns the same pointer, and it is what GetResource finds under the
-- name of the model.
pub resource-resource :
    (model : Option ModelType) (a b : App)
    → After (resource_name model) (resource model a).0 b
    → (resource model b ≡ (b, (resource model a).1))
      × (get_resource b (resource_name model) ≡ get_elem? b.heap (resource model a).1)
unfolding get_resource
resource-resource model a b h =
    let found : lookup (resource_name model) b.resources ≡ some (resource model a).1 =
      After-lookup h (resource_registered model a) in
    (resource_existing model b found, rw (get_resource, found) refl)

abbrev pub keys_of : App → List Str
keys_of a = map (λ e. e.0) a.resources

-- The name of what a pointer of the list points to
abbrev pub listed_name : Option Resource → Option Str
listed_name none = none
listed_name (some r) = some r.name

listed-get : (h : List Resource) (i : ℕ) → listed_name (get_elem? h i) ≡ name_at h i
listed-get [] i = refl
listed-get (r ∷ h) zero = refl
listed-get (r ∷ h) (suc i) = listed-get h i

found_name :
    (a : App) (entries : Dict ℕ) (n : Str)
    → All (λ e. name_at a.heap e.1 ≡ some e.0) entries
    → In n (map (λ e. e.0) entries)
    → listed_name (deref a (lookup n entries)) ≡ some n
unfolding lookup deref
found_name a [] n h i = absurd i
found_name a ((k, address) ∷ rest) n h i = elim (Bool-cases (k == n)) [
  | inl t ↦ rw t (listed-get a.heap address ∙ h.0 ∙ ap some ((str_beq_iff k n).0 t))
  | inr t ↦ rw t (
      found_name a rest n h.1
        (elim i [ inl e ↦ absurd (cc (t, (str_beq_iff k n).1 (sym e))) | inr later ↦ later ]))
]

names_found :
    (a : App) (ns : List Str)
    → IsValid a
    → ((n : Str) → In n ns → In n (keys_of a))
    → map listed_name (map (λ name. deref a (lookup name a.resources)) ns) ≡ map some ns
names_found a [] v h = refl
names_found a (n ∷ ns) v h =
    rw
      (found_name a a.resources n v.named (h n (inl refl)), names_found a ns v (λ m i. h m (inr i)))
      refl

-- Resources gives, for a registry that the calls of the program reach from a new one, exactly one resource
-- for each name of the map and no other, each with its name, in the order of the names.
pub resources_of_lem :
    {name : Str} {a : App}
    → Reached name a
    → (names : List Str) × (map listed_name (resources_of a) ≡ map some names)
      × IsSorted names
      × IsDistinct names
      × ((n : Str) → In n names ↔ In n (keys_of a))
unfolding resources_of
resources_of_lem {a} r =
    let names = sort_strings (keys_of a) in
    (
      names,
      names_found a names (Reached-IsValid r) (λ n i. (In-sort_strings n (keys_of a)).0 i),
      sort_strings-IsSorted (keys_of a),
      sort_strings-IsDistinct (keys_of a) (Reached-IsValid r).distinct,
      λ n. In-sort_strings n (keys_of a),
    )
