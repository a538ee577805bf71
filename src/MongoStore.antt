-- ===== src/MongoStore.antt =====
-- `pkg/adapters/mongostore/mongostore.go`: the record store over MongoDB. The filters that it builds are
-- here, its operations in MongoStore/Records.
pub mod Records
pub mod Scope
pub mod Deletes
mod Tests
use gomyadmin.Base.{
  ℕ, Bool, true, false, not, ◌&&◌, ◌||◌, Option, none, some, List, [], ◌∷◌, ◌++◌, Str, ◌==◌, str_eq,
  nat_eq, if◌then◌else◌, any,
}
use gomyadmin.Base.Result.{Result, ok, err, ◌>>=◌}
use gomyadmin.Dict.{Dict, lookup, insert}
use gomyadmin.Server.Meta.{FieldMeta, ResourceMeta, field_by_sql_name}
use gomyadmin.Server.Sql.{
  StoreError, not_filterable, unsupported_operator, is_scoped, field_operator, is_filterable,
}
use gomyadmin.Text.{lit, has_prefix, trim_prefix}

-- What a filter asks of a field: a value, a pattern with `"$options": "i"`, or a comparison; and the
-- alternatives of a search.
pub data Criterion : Type 0 where
  is matches gte lte gt lt : Str → Criterion
  any_of : List (Str × Str) → Criterion

-- `bson.M`
abbrev pub Filter : Type 0
Filter = Dict Criterion

-- `regexp.QuoteMeta(s)`
unfoldable pub quote_meta : Str → Str
quote_meta [] = []
quote_meta (c ∷ s) =
    if any (λ special. c == special) (lit "\\.+*?()|[]{}^$")
    then b'\\' ∷ c ∷ quote_meta s
    else c ∷ quote_meta s

-- `if resource.TenantKey != "" && role != "super_admin" { filter[resource.TenantKey] = tenantID }`
unfoldable pub add_tenant : ResourceMeta → Str → Str → Filter → Filter
unfolding is_scoped
add_tenant resource tenant_id role filter =
    if is_scoped resource role then insert resource.tenant_key (is tenant_id) filter else filter

-- The filter of one record
unfoldable pub key_filter : ResourceMeta → Str → Str → Str → Filter
unfolding add_tenant
key_filter resource id tenant_id role =
    add_tenant resource tenant_id role ((resource.primary_key, is id) ∷ [])

-- The loop over the fields for a search
unfoldable pub search_fields : Str → List FieldMeta → List (Str × Str)
unfolding quote_meta
search_fields search [] = []
search_fields search (f ∷ rest) =
    let later = search_fields search rest in
    if f.searchable && not f.hidden then (f.sql_name, quote_meta search) ∷ later else later

-- `if len(or) > 0 { filter["$or"] = or }`
abbrev with_or : List (Str × Str) → Filter → Filter
with_or [] filter = filter
with_or (f ∷ fs) filter = insert (lit "$or") (any_of (f ∷ fs)) filter

unfoldable pub add_search : ResourceMeta → Str → Filter → Filter
unfolding search_fields
add_search resource search filter =
    if search == [] then filter else with_or (search_fields search resource.fields) filter

-- The criterion of each case of the switch; no other operator is supported.
unfoldable pub criterion : Str → Str → Option Criterion
unfolding quote_meta
criterion operator value =
    if operator == lit "eq"
    then some (is value)
    else if operator == lit "contains"
    then some (matches (quote_meta value))
    else if operator == lit "starts_with"
    then some (matches (lit "^" ++ quote_meta value))
    else if operator == lit "ends_with"
    then some (matches (quote_meta value ++ lit "$"))
    else if operator == lit "gte"
    then some (gte value)
    else if operator == lit "lte"
    then some (lte value)
    else if operator == lit "gt"
    then some (gt value)
    else if operator == lit "lt"
    then some (lt value)
    else none

-- A round of the loop over the filters. An entry of the field that is there is overwritten.
unfoldable pub filter_round : ResourceMeta → Str → Str → Filter → Result StoreError Filter
unfolding criterion
filter_round resource key value filter =
    let name = (field_operator key).0 in
    let operator = (field_operator key).1 in
    let checked : Result StoreError Filter = elim (criterion operator value) [
      | none ↦ err (unsupported_operator operator)
      | some c ↦ ok (insert name c filter)
    ] in
    if value == []
    then ok filter
    else if not (is_filterable (field_by_sql_name resource name))
    then err (not_filterable name)
    else checked

unfoldable pub add_filters : ResourceMeta → Dict Str → Filter → Result StoreError Filter
unfolding filter_round
add_filters resource [] filter = ok filter
add_filters resource ((key, value) ∷ rest) filter =
    filter_round resource key value filter >>= add_filters resource rest

-- `func buildFilter`
unfoldable pub build_filter : ResourceMeta → Str → Str → Str → Dict Str → Result StoreError Filter
unfolding add_filters add_search add_tenant
build_filter resource tenant_id role search filters =
    add_filters resource filters
      (add_search resource search (add_tenant resource tenant_id role []))

-- The field and the direction of `buildSort`, where `true` is descending
unfoldable pub build_sort : ResourceMeta → Str → Option (Str × Bool)
build_sort resource sort_by =
    let by = if sort_by == [] then resource.default_sort else sort_by in
    let field_name = trim_prefix by (lit "-") in
    elim (field_by_sql_name resource field_name) [
      | none ↦ none
      | some field ↦ if field.sortable then some (field_name, has_prefix by (lit "-")) else none
    ]
