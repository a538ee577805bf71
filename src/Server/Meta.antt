-- ===== src/Server/Meta.antt =====
-- pkg/server/meta.go and the small helpers of pkg/server/store.go and pkg/server/handler.go.
pub mod Ids
pub mod Registered
use gomyadmin.Base.{
  ℕ, ◌+◌, ◌-◌, Bool, true, false, not, ◌&&◌, ◌||◌, Option, none, some, List, [], ◌∷◌, ◌++◌, Str,
  ◌==◌, nat_eq, str_eq, ltb, leb, if◌then◌else◌, any,
}
use gomyadmin.Base.Int.{ℤ, pos, negsuc}
use gomyadmin.Text.{lit, trim_space, split_byte, has_prefix, trim_prefix, trim_suffix, split_pair}
use gomyadmin.Text.Number.{atoi}
use gomyadmin.Access.{Actor}
use gomyadmin.Dict.{Dict, insert, lookup}
use gomyadmin.Text.Order.{sort_strings}
use gomyadmin.Base.{map}

-- `admin.FieldType`, as far as the server tells the types apart.
pub data FieldType : Type 0 where
  password uuid other : FieldType

-- `type fieldMeta struct`, less the texts that are only shown
pub record FieldMeta : Type 0 where
  pub sql_name : Str
  pub kind : FieldType
  pub searchable : Bool
  pub sortable : Bool
  pub filterable : Bool
  pub readonly : Bool
  pub hidden : Bool
  pub primary : Bool

-- `type resourceMeta struct`, less the texts that are only shown and the actions
pub record ResourceMeta : Type 0 where
  pub table : Str
  pub primary_key : Str
  pub tenant_key : Str
  pub default_sort : Str
  pub fields : List FieldMeta

-- `func fieldBySQLName`
unfoldable pub field_in : List FieldMeta → Str → Option FieldMeta
field_in [] sql_name = none
field_in (f ∷ rest) sql_name = if f.sql_name == sql_name then some f else field_in rest sql_name

unfoldable pub field_by_sql_name : ResourceMeta → Str → Option FieldMeta
unfolding field_in
field_by_sql_name resource sql_name = field_in resource.fields sql_name

-- `func hasColumn`
unfoldable pub has_column : ResourceMeta → Str → Bool
unfolding field_by_sql_name
has_column resource col = elim (field_by_sql_name resource col) [ none ↦ false | some _ ↦ true ]

-- `func visibleColumns`
unfoldable pub visible_in : List FieldMeta → List Str
visible_in [] = []
visible_in (f ∷ rest) = if not f.hidden then f.sql_name ∷ visible_in rest else visible_in rest

unfoldable pub visible_columns : ResourceMeta → List Str
unfolding visible_in
visible_columns resource = visible_in resource.fields

-- `func firstRole`
unfoldable pub first_role : Actor → Str
first_role actor = elim actor.roles [ [] ↦ [] | role ∷ _ ↦ role ]

-- `func parseInt`
unfoldable pub parse_int : Str → ℕ → ℕ
parse_int s fallback = elim (atoi s) [
  | none ↦ fallback
  | some n ↦ elim n [ pos k ↦ if k == 0 then fallback else k | negsuc _ ↦ fallback ]
]

-- `func firstNonEmpty`
unfoldable pub first_non_empty : List Str → Str
first_non_empty [] = []
first_non_empty (v ∷ rest) = if v == [] then first_non_empty rest else v

-- `func allowedMIME`
abbrev allowed_type : List Str → Bool
allowed_type [] = false
allowed_type (kind ∷ _) =
    any (λ allowed. kind == allowed)
      (lit "image/png"
        ∷ lit "image/jpeg"
        ∷ lit "image/webp"
        ∷ lit "application/pdf"
        ∷ lit "text/plain"
        ∷ lit "text/csv"
        ∷ [])

unfoldable pub allowed_mime : Str → Bool
allowed_mime content_type = allowed_type (split_byte content_type b';')

-- The loop of `func cleanIDs`; `seen` holds the keys of the map.
unfoldable pub clean_loop : List Str → List Str → List Str → List Str
clean_loop seen [] cleaned = cleaned
clean_loop seen (raw ∷ rest) cleaned =
    let id = trim_space raw in
    let skipped = clean_loop seen rest cleaned in
    let taken = clean_loop (id ∷ seen) rest (cleaned ++ id ∷ []) in
    if id == [] || any (λ other. other == id) seen then skipped else taken

-- `func cleanIDs`
unfoldable pub clean_ids : List Str → List Str
clean_ids ids = clean_loop [] ids []

-- A round of the loop of `func parseFilters` of the server, for a key with at least one value.
abbrev filter_name : List Str → Str
filter_name [] = []
filter_name (part ∷ []) = trim_suffix part (lit "]")
filter_name (part ∷ second ∷ _) =
    trim_suffix part (lit "]") ++ (lit "::" ++ trim_suffix second (lit "]"))

abbrev filter_field : List Str → Str
filter_field [] = []
filter_field (part ∷ _) = trim_suffix part (lit "]")

-- The loop of `func parseFilters` of the server over the query
unfoldable pub filters_loop : Dict (List Str) → Dict Str → Dict Str
filters_loop [] filters = filters
filters_loop ((key, []) ∷ rest) filters = filters_loop rest filters
filters_loop ((key, value ∷ _) ∷ rest) filters =
    let parts = split_pair (trim_prefix key (lit "filter[")) b']' b'[' in
    let skipped = filters_loop rest filters in
    let taken = filters_loop rest (insert (filter_name parts) value filters) in
    if not (has_prefix key (lit "filter["))
    then skipped
    else if filter_field parts == []
    then skipped
    else taken

-- `func parseFilters` of the server
unfoldable pub parse_filters : Dict (List Str) → Dict Str
unfolding filters_loop
parse_filters query = filters_loop query []

-- `func sortedResourceKeys`
unfoldable pub sorted_resource_keys : Dict ResourceMeta → List Str
sorted_resource_keys resources = sort_strings (map (λ e. e.0) resources)

-- `func (s *serverStore) Resources`: the metadata by table, in the order of their names.
unfoldable pub resources_by_name : Dict ResourceMeta → List (Option ResourceMeta)
unfolding sorted_resource_keys
resources_by_name resources = map (λ table. lookup table resources) (sorted_resource_keys resources)

-- `func (s *serverStore) HasResource`
unfoldable pub has_resource : Dict ResourceMeta → Str → Bool
has_resource resources table = elim (lookup table resources) [ none ↦ false | some _ ↦ true ]
