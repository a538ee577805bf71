-- ===== src/Registry.antt =====
-- `pkg/admin/app.go`: the registry of resources. The program hands out pointers to resources, which are
-- addresses in a heap here: what is changed through a pointer is seen by all who have it. The lock is
-- not modelled: each operation is one step.
pub mod Names
pub mod Fields
pub mod Resources
pub mod Reached
pub mod Found
mod Tests
use gomyadmin.Base.{
  ℕ, ◌≡◌, Bool, true, false, Option, none, some, List, [], ◌∷◌, ◌++◌, Str, ◌==◌, str_eq,
  if◌then◌else◌, length, get_elem?, map,
}
use gomyadmin.Base.Int.{ℤ, pos}
use gomyadmin.Dict.{Dict, lookup, insert}
use gomyadmin.Registry.Names.{ModelType, resource_name, titleize, pluralize, snake_plural}
use gomyadmin.Registry.Resources.{Resource, ResourceCall, call_resource, modify}
use gomyadmin.Text.Order.{sort_strings}
use gomyadmin.Text.{lit, trim_space}

-- `type App struct`, with the resources that the program has made
pub record App : Type 0 where
  pub name : Str
  pub heap : List Resource
  pub resources : Dict ℕ

-- `func New`
unfoldable pub new_app : Str → App
new_app name = record {
  name = if trim_space name == [] then lit "GoMyAdmin" else name;
  heap = [];
  resources = [];
}

-- The literal of `func (a *App) Resource`
unfoldable pub new_resource : Str → Resource
new_resource given = record {
  name = given;
  label_text = titleize given;
  plural_text = pluralize (titleize given);
  icon_name = [];
  description_text = [];
  table = snake_plural given;
  primary_key = lit "id";
  default_sort = lit "-created_at";
  default_filters = [];
  default_page_size = pos 25;
  navigation_group = [];
  fields = [];
  actions = [];
  audit_enabled = false;
  tenant_column = [];
}

-- `func (a *App) Resource`, with the address that it returns
unfoldable pub resource : Option ModelType → App → App × ℕ
unfolding new_resource
resource model a =
    let name = resource_name model in
    elim (lookup name a.resources) [
      | some existing ↦ (a, existing)
      | none ↦ (
        record a {
          heap = a.heap ++ new_resource name ∷ [];
          resources = insert name (length a.heap) a.resources;
        },
        length a.heap,
      )
    ]

-- A resource that the program builds itself
unfoldable pub allocate : Resource → App → App × ℕ
allocate r a = (record a { heap = a.heap ++ r ∷ [] }, length a.heap)

-- `func (a *App) Register`; the pointer `nil` and an address outside the heap do nothing.
unfoldable pub register : ℕ → App → App
register address a = elim (get_elem? a.heap address) [
  | none ↦ a
  | some r ↦ if r.name == [] then a else record a { resources = insert r.name address a.resources }
]

-- A method of a resource, called through a pointer
unfoldable pub on_resource : ℕ → ResourceCall → App → App
on_resource address call a = record a { heap = modify address (call_resource call) a.heap }

-- `*r` for the pointer that the map has
unfoldable pub deref : App → Option ℕ → Option Resource
deref a none = none
deref a (some address) = get_elem? a.heap address

-- `func (a *App) GetResource`
unfoldable pub get_resource : App → Str → Option Resource
unfolding deref
get_resource a name = deref a (lookup name a.resources)

-- `func (a *App) Resources`
unfoldable pub resources_of : App → List (Option Resource)
unfolding deref
resources_of a =
    map (λ name. deref a (lookup name a.resources)) (sort_strings (map (λ e. e.0) a.resources))
