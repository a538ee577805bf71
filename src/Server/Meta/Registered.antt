-- ===== src/Server/Meta/Registered.antt =====
-- `appToMeta`, `resourceToMeta` and `fieldToMeta` of `pkg/server/meta.go`: the metadata of the
-- resources of a registry.
use gomyadmin.Base.{
  ℕ, zero, suc, ◌≡◌, ◌∙◌, refl, ap, true, Option, none, some, List, [], ◌∷◌, Str, ◌==◌, str_eq,
  str_beq_iff, if◌then◌else◌, get_elem?, map, Bool-cases, inl, inr, some-injective,
}
use gomyadmin.Dict.{Dict, lookup, insert, lookup-insert}
use gomyadmin.Registry.Fields
use gomyadmin.Registry.Fields.{Field}
use gomyadmin.Registry.Names.{camel_to_snake}
use gomyadmin.Registry.Resources.{Resource, primary_field, modify}
use gomyadmin.Registry.{App, resources_of}
use gomyadmin.Server.Meta.{
  FieldType, password, uuid, other, FieldMeta, ResourceMeta, field_in, field_by_sql_name,
  has_column,
}

kind_to_meta : Fields.FieldType → FieldType
kind_to_meta Fields.password = password
kind_to_meta Fields.uuid = uuid
kind_to_meta _ = other

-- `func fieldToMeta`
unfoldable pub field_to_meta : Field → FieldMeta
unfolding kind_to_meta
field_to_meta f = record {
  sql_name = camel_to_snake f.name;
  kind = kind_to_meta f.kind;
  searchable = f.searchable;
  sortable = f.sortable;
  filterable = f.filterable;
  readonly = f.readonly;
  hidden = f.hidden;
  primary = f.primary;
}

-- `func resourceToMeta`
unfoldable pub resource_to_meta : Resource → ResourceMeta
resource_to_meta r = record {
  table = r.table;
  primary_key = camel_to_snake r.primary_key;
  tenant_key = r.tenant_column;
  default_sort = r.default_sort;
  fields = map field_to_meta r.fields;
}

-- The loop of `func appToMeta`. The pointers of `Resources` are none of them nil.
unfoldable pub metas_loop : List (Option Resource) → Dict ResourceMeta → Dict ResourceMeta
unfolding resource_to_meta
metas_loop [] result = result
metas_loop (none ∷ rest) result = metas_loop rest result
metas_loop (some r ∷ rest) result = metas_loop rest (insert r.table (resource_to_meta r) result)

-- `func appToMeta`
unfoldable pub app_to_meta : App → Dict ResourceMeta
unfolding metas_loop
app_to_meta app = metas_loop (resources_of app) []

-- The metadata of the last resource of a list with a table, or what there is without one.
abbrev pub last_of_table : Str → List (Option Resource) → Option ResourceMeta → Option ResourceMeta
last_of_table asked [] before = before
last_of_table asked (none ∷ rest) before = last_of_table asked rest before
last_of_table asked (some r ∷ rest) before =
    last_of_table asked rest (if r.table == asked then some (resource_to_meta r) else before)

metas_loop_lem :
    (asked : Str) (rs : List (Option Resource)) (result : Dict ResourceMeta)
    → lookup asked (metas_loop rs result) ≡ last_of_table asked rs (lookup asked result)
unfolding metas_loop
metas_loop_lem asked [] result = refl
metas_loop_lem asked (none ∷ rest) result = metas_loop_lem asked rest result
metas_loop_lem asked (some r ∷ rest) result =
    metas_loop_lem asked rest (insert r.table (resource_to_meta r) result)
    ∙ ap (last_of_table asked rest) (lookup-insert r.table asked (resource_to_meta r) result)

-- The metadata under the name of a table is that of the last resource, in the order of their names,
-- that has this table, and there is none if no resource has it.
pub app_to_meta_lem :
    (app : App) (asked : Str)
    → lookup asked (app_to_meta app) ≡ last_of_table asked (resources_of app) none
unfolding app_to_meta lookup
app_to_meta_lem app asked = metas_loop_lem asked (resources_of app) []

has_column_at :
    (fields : List Field) (place : ℕ) {f : Field}
    → get_elem? fields place ≡ some f
    → (m : FieldMeta) × (field_in
          (map field_to_meta (modify place (λ g. record g { primary = true }) fields))
          (camel_to_snake f.name)
        ≡ some m)
unfolding field_in modify field_to_meta
has_column_at [] place e = cc
has_column_at (g ∷ fields) zero {f} e =
    let same : (camel_to_snake g.name == camel_to_snake f.name) ≡ true =
      (str_beq_iff _ _).1 (ap (λ z. camel_to_snake z.name) (some-injective e)) in
    (field_to_meta (record g { primary = true }), rw same refl)
has_column_at (g ∷ fields) (suc place) {f} e =
    let (m, later) = has_column_at fields place e in
    elim (Bool-cases (camel_to_snake g.name == camel_to_snake f.name)) [
      | inl t ↦ (field_to_meta g, rw t refl)
      | inr t ↦ (m, rw t later)
    ]

-- When Primary has been called on a field of a resource, the primary key of its metadata is a column of
-- its metadata.
pub has_column-primary_field :
    (r : Resource) (place : ℕ) {f : Field}
    → get_elem? r.fields place ≡ some f
    → has_column
        (resource_to_meta (primary_field place r))
        (resource_to_meta (primary_field place r)).primary_key
      ≡ true
unfolding has_column field_by_sql_name resource_to_meta primary_field
has_column-primary_field r place e =
    let (m, found) = has_column_at r.fields place e in
    rw (primary_field, e) (rw (has_column, found) refl)
