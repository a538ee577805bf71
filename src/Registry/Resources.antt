-- ===== src/Registry/Resources.antt =====
-- `pkg/admin/resource.go`: a resource with its fields and actions, and the methods that set it up. A
-- field or an action is known by its place in the list of its resource, where its pointer stays. The
-- handler and the form of an action, the policy of a resource and the rule of its visibility are left
-- out: the code stores them.
use gomyadmin.Base.{
  ℕ, zero, suc, Bool, true, false, ◌||◌, Option, none, some, List, [], ◌∷◌, ◌++◌, Str, ◌==◌, str_eq,
  ltb, if◌then◌else◌, get_elem?,
}
use gomyadmin.Base.Int.{ℤ, pos, negsuc}
use gomyadmin.Database.{Value}
use gomyadmin.Registry.Fields.{Field, new_field, FieldCall, call_field}
use gomyadmin.Registry.Names.{slug}

-- `type Filter struct`
pub record DefaultFilter : Type 0 where
  pub field : Str
  pub operator : Str
  pub value : Value

pub record Action : Type 0 where
  pub name : Str
  pub label : Str
  pub description : Str
  pub icon : Str
  pub dangerous : Bool
  pub requires_confirm : Bool
  pub requires_reason : Bool
  pub permission : Str
  pub timeout : Str

pub record Resource : Type 0 where
  pub name : Str
  pub label_text : Str
  pub plural_text : Str
  pub icon_name : Str
  pub description_text : Str
  pub table : Str
  pub primary_key : Str
  pub default_sort : Str
  pub default_filters : List DefaultFilter
  pub default_page_size : ℤ
  pub navigation_group : Str
  pub fields : List Field
  pub actions : List Action
  pub audit_enabled : Bool
  pub tenant_column : Str

-- A change of the element at a place.
unfoldable pub modify {ℓ} : {A : Type ℓ} → ℕ → (A → A) → List A → List A
modify n f [] = []
modify zero f (x ∷ xs) = f x ∷ xs
modify (suc n) f (x ∷ xs) = x ∷ modify n f xs

-- The methods that set a text: `Label` to `TableName`, `Primary`, `Sort`, `Group`, `TenantScoped`
pub data Setting : Type 0 where
  label plural_label icon description table_name primary sort group tenant_scoped : Setting

unfoldable pub set_text : Setting → Str → Resource → Resource
set_text label s r = record r { label_text = s }
set_text plural_label s r = record r { plural_text = s }
set_text icon s r = record r { icon_name = s }
set_text description s r = record r { description_text = s }
set_text table_name s r = record r { table = s }
set_text primary s r = record r { primary_key = s }
set_text sort s r = record r { default_sort = s }
set_text group s r = record r { navigation_group = s }
set_text tenant_scoped s r = record r { tenant_column = s }

unfoldable pub page_size : ℤ → Resource → Resource
page_size (pos size) r = if ltb 0 size then record r { default_page_size = pos size } else r
page_size (negsuc _) r = r

unfoldable pub audit : Resource → Resource
audit r = record r { audit_enabled = true }

-- `func (r *Resource) Field`. The new field has the place `length r.fields`.
unfoldable pub add_field : Str → Resource → Resource
add_field name r = record r { fields = r.fields ++ new_field name ∷ [] }

-- `func (r *Resource) Action`. The new action has the place `length r.actions`.
unfoldable pub add_action : Str → Resource → Resource
unfolding slug
add_action given r = record r {
  actions =
      r.actions
      ++ (record {
        name = slug given;
        label = given;
        description = [];
        icon = [];
        dangerous = false;
        requires_confirm = false;
        requires_reason = false;
        permission = [];
        timeout = [];
      })
        ∷ [];
}

-- A method of the field at a place, but for `Primary`
unfoldable pub on_field : ℕ → FieldCall → Resource → Resource
unfolding modify call_field
on_field place call r = record r { fields = modify place (call_field call) r.fields }

-- `func (f *Field) Primary`
unfoldable pub primary_field : ℕ → Resource → Resource
unfolding modify
primary_field place r = elim (get_elem? r.fields place) [
  | none ↦ r
  | some f ↦ record r {
    fields = modify place (λ g. record g { primary = true }) r.fields;
    primary_key = f.name;
  }
]

-- The methods of an action that set its own members
pub data ActionCall : Type 0 where
  describe with_icon can with_timeout : Str → ActionCall
  danger require_confirmation require_reason : ActionCall

unfoldable pub call_action : ActionCall → Action → Action
call_action (describe s) a = record a { description = s }
call_action (with_icon s) a = record a { icon = s }
call_action (can s) a = record a { permission = s }
call_action (with_timeout s) a = record a { timeout = s }
call_action danger a = record a { dangerous = true }
call_action require_confirmation a = record a { requires_confirm = true }
call_action require_reason a = record a { requires_reason = true }

unfoldable pub on_action : ℕ → ActionCall → Resource → Resource
unfolding modify call_action
on_action place call r = record r { actions = modify place (call_action call) r.actions }

find_field : List Field → Str → Option Field
find_field [] name = none
find_field (f ∷ rest) name = if f.name == name then some f else find_field rest name

unfoldable pub field_by_name : Resource → Str → Option Field
unfolding find_field
field_by_name r name = find_field r.fields name

find_action : List Action → Str → Option Action
find_action [] name = none
find_action (a ∷ rest) name =
    if a.name == name || a.label == name then some a else find_action rest name

unfoldable pub action_by_name : Resource → Str → Option Action
unfolding find_action
action_by_name r name = find_action r.actions name

-- A call of one of the methods that change a resource. Those of a field or an action that pass the
-- call on to its resource are the same calls.
pub data ResourceCall : Type 0 where
  sets : Setting → Str → ResourceCall
  pages : ℤ → ResourceCall
  audits : ResourceCall
  adds_field : Str → ResourceCall
  adds_action : Str → ResourceCall
  field_call : ℕ → FieldCall → ResourceCall
  field_primary : ℕ → ResourceCall
  action_call : ℕ → ActionCall → ResourceCall

unfoldable pub call_resource : ResourceCall → Resource → Resource
unfolding set_text page_size audit add_field add_action on_field primary_field on_action
call_resource (sets what s) r = set_text what s r
call_resource (pages size) r = page_size size r
call_resource audits r = audit r
call_resource (adds_field name) r = add_field name r
call_resource (adds_action name) r = add_action name r
call_resource (field_call place call) r = on_field place call r
call_resource (field_primary place) r = primary_field place r
call_resource (action_call place call) r = on_action place call r
