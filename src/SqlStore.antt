-- ===== src/SqlStore.antt =====
-- pkg/adapters/sqlstore/sqlstore.go: the record store over `database/sql`. The text of its SQL is
-- here, its operations are in SqlStore/Records.
pub mod Records
pub mod Text
pub mod Marks
pub mod Deletes
mod Tests
use gomyadmin.Base.{
  ℕ, Bool, not, ◌&&◌, ◌||◌, Option, none, some, List, [], ◌∷◌, ◌++◌, Str, ◌==◌, str_eq,
  if◌then◌else◌, map,
}
use gomyadmin.Base.Result.{Result, ok, err, ◌>>=◌}
use gomyadmin.Text.{lit, has_prefix, trim_prefix, join, replace_byte}
use gomyadmin.Dict.{Dict, lookup}
use gomyadmin.Database.{Value, text, bytes, document}
use gomyadmin.Server.Meta.{password, FieldMeta, ResourceMeta, field_by_sql_name, visible_columns}
use gomyadmin.Server.Sql.{
  StoreError, hash_failed, not_filterable, unsupported_operator, is_scoped, field_operator,
  filter_arg, is_filterable, Parts,
}
use gomyadmin.Server.Store.{Outside, Record}

-- `type Dialect string`
pub data Dialect : Type 0 where
  mysql sqlite : Dialect
  other : Str → Dialect

-- `func (s *Store) quote`
unfoldable pub quote : Dialect → Str → Str
quote mysql name = lit "`" ++ (replace_byte name b'`' (lit "``") ++ lit "`")
quote sqlite name = lit "\"" ++ (replace_byte name b'"' (lit "\"\"") ++ lit "\"")
quote (other _) name = lit "\"" ++ (replace_byte name b'"' (lit "\"\"") ++ lit "\"")

-- `func (s *Store) placeholder`
abbrev pub placeholder : Str
placeholder = lit "?"

-- `func (s *Store) selectCols`
unfoldable pub select_cols : Dialect → ResourceMeta → Str
unfolding visible_columns
select_cols dialect resource = join (map (quote dialect) (visible_columns resource)) (lit ", ")

-- `s.quote(name) + " = " + s.placeholder(n)`
unfoldable pub equals : Dialect → Str → Str
equals dialect name = quote dialect name ++ (lit " = " ++ placeholder)

unfoldable pub is_like : Dialect → Str → Str
is_like dialect name =
    lit "lower(cast("
    ++ (quote dialect name ++ (lit " as char)) like lower(" ++ (placeholder ++ lit ")")))

-- The tenant's part of `where`
unfoldable pub where_tenant : Dialect → ResourceMeta → Str → Str → Parts
where_tenant dialect resource tenant_id role =
    if is_scoped resource role
    then (text tenant_id ∷ [], equals dialect resource.tenant_key ∷ [])
    else ([], [])

-- The loop over the fields for a search.
unfoldable pub search_loop : Dialect → Str → List FieldMeta → Parts → Parts
search_loop dialect search [] p = p
search_loop dialect search (f ∷ rest) (args, parts) =
    let p = if not f.searchable || f.hidden then (args, parts) else (
      args ++ text (lit "%" ++ (search ++ lit "%")) ∷ [],
      parts ++ is_like dialect f.sql_name ∷ [],
    ) in
    search_loop dialect search rest p

-- `if len(parts) > 0 { ... }`
abbrev pub add_search : List Str → Parts → Parts
add_search clauses (args, []) = (args, clauses)
add_search clauses (args, part ∷ parts) =
    (args, clauses ++ (lit "(" ++ (join (part ∷ parts) (lit " or ") ++ lit ")")) ∷ [])

unfoldable pub where_search : Dialect → ResourceMeta → Str → Parts → Parts
where_search dialect resource search (args, clauses) =
    if search == []
    then (args, clauses)
    else add_search clauses (search_loop dialect search resource.fields (args, []))

abbrev compared : Dialect → Str → Str → Str
compared dialect name operator = quote dialect name ++ (operator ++ placeholder)

-- The clause of each case of the switch; no other operator is supported.
unfoldable pub filter_clause : Dialect → Str → Str → Option Str
filter_clause dialect name operator =
    if operator == lit "eq"
    then some (lit "cast(" ++ (quote dialect name ++ (lit " as char) = " ++ placeholder)))
    else if operator == lit "contains"
        || (operator == lit "starts_with" || operator == lit "ends_with")
    then some (is_like dialect name)
    else if operator == lit "gte"
    then some (compared dialect name (lit " >= "))
    else if operator == lit "lte"
    then some (compared dialect name (lit " <= "))
    else if operator == lit "gt"
    then some (compared dialect name (lit " > "))
    else if operator == lit "lt"
    then some (compared dialect name (lit " < "))
    else none

-- A round of the loop over the filters.
unfoldable pub filter_round : Dialect → ResourceMeta → Str → Str → Parts → Result StoreError Parts
filter_round dialect resource key value (args, clauses) =
    let name = (field_operator key).0 in
    let operator = (field_operator key).1 in
    let checked : Result StoreError Parts = elim (filter_clause dialect name operator) [
      | none ↦ err (unsupported_operator operator)
      | some clause ↦ ok (args ++ text (filter_arg operator value) ∷ [], clauses ++ clause ∷ [])
    ] in
    if value == []
    then ok (args, clauses)
    else if not (is_filterable (field_by_sql_name resource name))
    then err (not_filterable name)
    else checked

unfoldable pub where_filters : Dialect → ResourceMeta → Dict Str → Parts → Result StoreError Parts
where_filters dialect resource [] p = ok p
where_filters dialect resource ((key, value) ∷ rest) p =
    filter_round dialect resource key value p >>= where_filters dialect resource rest

abbrev pub where_text : Parts → Str × List Value
where_text (args, []) = ([], args)
where_text (args, clause ∷ clauses) = (lit " where " ++ join (clause ∷ clauses) (lit " and "), args)

-- `func (s *Store) where`; the loop over the map of filters goes by its association list.
unfoldable pub where_sql :
    Dialect → ResourceMeta → Str → Str → Str → Dict Str → Result StoreError (Str × List Value)
where_sql dialect resource tenant_id role search filters =
    where_filters dialect resource filters
      (where_search dialect resource search (where_tenant dialect resource tenant_id role))
    >>= λ p. ok (where_text p)

-- `func (s *Store) order`
unfoldable pub order : Dialect → ResourceMeta → Str → Str
order dialect resource sort_by =
    let by = if sort_by == [] then resource.default_sort else sort_by in
    let field_name = trim_prefix by (lit "-") in
    let clause =
      lit " order by "
      ++ (quote dialect field_name
          ++ (if has_prefix by (lit "-") then lit " desc" else lit " asc")) in
    elim (field_by_sql_name resource field_name) [
      | none ↦ []
      | some field ↦ if field.sortable then clause else []
    ]

-- The condition on one record, after the arguments `args`.
unfoldable pub where_key : Dialect → ResourceMeta → List Value → Str → Str → Str → Str × List Value
where_key dialect resource args id tenant_id role =
    let key = lit " where " ++ equals dialect resource.primary_key in
    if is_scoped resource role
    then (
      key ++ (lit " and " ++ equals dialect resource.tenant_key),
      args ++ text id ∷ text tenant_id ∷ [],
    )
    else (key, args ++ text id ∷ [])

-- `func normalize`
unfoldable pub normalize : Value → Value
normalize (document json) = text json
normalize v = v

-- `func normalizeScanned`
unfoldable pub normalize_scanned : Value → Value
normalize_scanned (bytes b) = text b
normalize_scanned v = v

-- The value that is stored for a field.
unfoldable pub stored : Outside → FieldMeta → Value → Result StoreError Value
stored out f value =
    let hashed : Result StoreError Value = elim (out.hash_password (out.sprint value)) [
      | none ↦ err hash_failed
      | some h ↦ ok (text h)
    ] in
    elim f.kind [ password ↦ hashed | _ ↦ ok (normalize value) ]

-- The loops of `insertValues` and `Update`: the names and values that are written, in order.
unfoldable pub written_loop :
    Outside → (FieldMeta → Bool) → List FieldMeta → Record → Result StoreError (List (Str × Value))
written_loop out skipped [] input = ok []
written_loop out skipped (f ∷ rest) input =
    let later = written_loop out skipped rest input in
    let taken : Result StoreError (List (Str × Value)) = elim (lookup f.sql_name input) [
      | none ↦ later
      | some value ↦ stored out f value >>= λ v. later >>= λ more. ok ((f.sql_name, v) ∷ more)
    ] in
    if skipped f then later else taken
