-- ===== src/Server/Sql.antt =====
-- The SQL helpers of pkg/server/store.go: columns, conditions and order of a resource's queries.
use gomyadmin.Base.{
  Bool, false, not, ◌&&◌, ◌||◌, Option, none, some, List, [], ◌∷◌, ◌++◌, Str, ◌==◌, str_eq, length,
  drop, if◌then◌else◌, map,
}
use gomyadmin.Base.Result.{Result, ok, err, ◌>>=◌}
use gomyadmin.Text.{lit, has_prefix, trim_prefix, join, replace_byte}
use gomyadmin.Text.Number.{itoa}
use gomyadmin.Dict.{Dict}
pub use gomyadmin.Database.{Value, nil, text, number, flag, time, bytes, uuid, document}
use gomyadmin.Server.Meta.{FieldMeta, ResourceMeta, field_by_sql_name, visible_columns}

-- `errNotFound`, the errors of `buildWhere` and `Create`, that of the hash, and those of the pool.
pub data StoreError : Type 0 where
  not_found no_fields hash_failed database : StoreError
  not_filterable unsupported_operator : Str → StoreError

-- `func quoteIdent`
unfoldable pub quote_ident : Str → Str
quote_ident s = lit "\"" ++ (replace_byte s b'"' (lit "\"\"") ++ lit "\"")

-- `func selectCols`
unfoldable pub select_cols : ResourceMeta → Str
unfolding visible_columns
select_cols resource = join (map quote_ident (visible_columns resource)) (lit ", ")

-- `resource.TenantKey != "" && role != "super_admin"`
unfoldable pub is_scoped : ResourceMeta → Str → Bool
is_scoped resource role = not (resource.tenant_key == []) && not (role == lit "super_admin")

-- `fmt.Sprintf("%s<operator>$%d", quoteIdent(column), len(args))`
abbrev pub condition : Str → Str → List Value → Str
condition column operator args = quote_ident column ++ (operator ++ (lit "$" ++ itoa (length args)))

abbrev pub with_tenant : ResourceMeta → Str → Str → Str × List Value → Str × List Value
with_tenant resource tenant_id role (where_sql, args) =
    let args' = args ++ text tenant_id ∷ [] in
    if is_scoped resource role
    then (where_sql ++ (lit " and " ++ condition resource.tenant_key (lit " = ") args'), args')
    else (where_sql, args)

-- The condition on one record, after the arguments `args`, in `Get`, `Update`, `Delete` and
-- `DeleteMany`.
unfoldable pub where_key : ResourceMeta → List Value → Str → Str → Str → Str × List Value
where_key resource args id tenant_id role =
    let args' = args ++ text id ∷ [] in
    with_tenant resource tenant_id role
      (lit " where " ++ condition resource.primary_key (lit " = ") args', args')

-- The arguments and the clauses collected so far.
abbrev pub Parts : Type 0
Parts = List Value × List Str

-- The tenant's part of `buildWhere`
unfoldable pub where_tenant : ResourceMeta → Str → Str → Parts
where_tenant resource tenant_id role =
    let args = text tenant_id ∷ [] in
    if is_scoped resource role
    then (args, condition resource.tenant_key (lit " = ") args ∷ [])
    else ([], [])

-- The loop over the fields for a search.
unfoldable pub search_loop : Str → List FieldMeta → Parts → Parts
search_loop search [] p = p
search_loop search (f ∷ rest) (args, parts) =
    let args' = args ++ text (lit "%" ++ (search ++ lit "%")) ∷ [] in
    let p =
      if not f.searchable || f.hidden
      then (args, parts)
      else (args', parts ++ condition f.sql_name (lit "::text ilike ") args' ∷ []) in
    search_loop search rest p

abbrev pub add_search : List Str → Parts → Parts
add_search clauses (args, []) = (args, clauses)
add_search clauses (args, part ∷ parts) =
    (args, clauses ++ (lit "(" ++ (join (part ∷ parts) (lit " or ") ++ lit ")")) ∷ [])

unfoldable pub where_search : ResourceMeta → Str → Parts → Parts
where_search resource search (args, clauses) =
    if search == []
    then (args, clauses)
    else add_search clauses (search_loop search resource.fields (args, []))

-- `strings.Cut(key, "::")`
unfoldable pub cut_colons : Str → Option (Str × Str)
cut_colons [] = none
cut_colons (c ∷ s) =
    let rest : Option (Str × Str) = elim (cut_colons s) [
      | none ↦ none
      | some p ↦ some (c ∷ p.0, p.1)
    ] in
    if has_prefix (c ∷ s) (lit "::") then some ([], drop 1 s) else rest

-- The field and the operator of a key.
unfoldable pub field_operator : Str → Str × Str
field_operator key = elim (cut_colons key) [ none ↦ (key, lit "eq") | some p ↦ p ]

-- The operator of the SQL of each case of the switch; no other operator is supported.
unfoldable pub sql_operator : Str → Option Str
sql_operator operator =
    if operator == lit "eq"
    then some (lit "::text = ")
    else if operator == lit "contains"
        || (operator == lit "starts_with" || operator == lit "ends_with")
    then some (lit "::text ilike ")
    else if operator == lit "gte"
    then some (lit "::text >= ")
    else if operator == lit "lte"
    then some (lit "::text <= ")
    else if operator == lit "gt"
    then some (lit "::text > ")
    else if operator == lit "lt"
    then some (lit "::text < ")
    else none

-- The argument of each case of the switch.
unfoldable pub filter_arg : Str → Str → Str
filter_arg operator value =
    if operator == lit "contains"
    then lit "%" ++ (value ++ lit "%")
    else if operator == lit "starts_with"
    then value ++ lit "%"
    else if operator == lit "ends_with"
    then lit "%" ++ value
    else value

abbrev pub is_filterable : Option FieldMeta → Bool
is_filterable o = elim o [ none ↦ false | some f ↦ f.filterable ]

-- A round of the loop over the filters.
unfoldable pub filter_round : ResourceMeta → Str → Str → Parts → Result StoreError Parts
filter_round resource key value (args, clauses) =
    let name = (field_operator key).0 in
    let operator = (field_operator key).1 in
    let args' = args ++ text (filter_arg operator value) ∷ [] in
    let checked : Result StoreError Parts = elim (sql_operator operator) [
      | none ↦ err (unsupported_operator operator)
      | some o ↦ ok (args', clauses ++ condition name o args' ∷ [])
    ] in
    if value == []
    then ok (args, clauses)
    else if not (is_filterable (field_by_sql_name resource name))
    then err (not_filterable name)
    else checked

unfoldable pub where_filters : ResourceMeta → Dict Str → Parts → Result StoreError Parts
where_filters resource [] p = ok p
where_filters resource ((key, value) ∷ rest) p =
    filter_round resource key value p >>= where_filters resource rest

abbrev pub where_text : Parts → Str × List Value
where_text (args, []) = ([], args)
where_text (args, clause ∷ clauses) = (lit " where " ++ join (clause ∷ clauses) (lit " and "), args)

-- `func (s *serverStore) buildWhere`
unfoldable pub build_where :
    ResourceMeta → Str → Str → Str → Dict Str → Result StoreError (Str × List Value)
build_where resource tenant_id role search filters =
    where_filters resource filters
      (where_search resource search (where_tenant resource tenant_id role))
    >>= λ p. ok (where_text p)

-- `func buildOrderClause`, which returns no error.
unfoldable pub build_order_clause : ResourceMeta → Str → Str
build_order_clause resource sort_by =
    let by = if sort_by == [] then resource.default_sort else sort_by in
    let chosen = if by == [] then lit "-created_at" else by in
    let field_name = trim_prefix chosen (lit "-") in
    let clause =
      lit " order by "
      ++ (quote_ident field_name
          ++ (lit " " ++ (if has_prefix chosen (lit "-") then lit "desc" else lit "asc"))) in
    elim (field_by_sql_name resource field_name) [
      | none ↦ []
      | some f ↦ if f.sortable then clause else []
    ]
