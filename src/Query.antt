-- ===== src/Query.antt =====
-- pkg/postgres/query.go: SQL text and arguments for a checked list query.
pub mod Quoting
pub mod Shape
pub mod Accepts
pub mod Clauses
pub mod Scope
mod Tests
use gomyadmin.Base.{
  ℕ, ◌+◌, Bool, true, false, not, ◌&&◌, ◌||◌, Option, none, some, List, [], ◌∷◌, ◌++◌, Str, ◌==◌,
  str_eq, leb, length, if◌then◌else◌, any, nat_eq,
}
use gomyadmin.Base.Int.{ℤ, pos}
use gomyadmin.Base.Result.{Result, ok, err, ◌>>=◌, ◌>>◌}
use gomyadmin.Text.{lit, has_prefix, join, replace_byte}
use gomyadmin.Text.Number.{itoa}
use gomyadmin.Dict.{Dict, lookup}
use gomyadmin.Filters.{AllowedField, Sort, Filter, Query, allows}

-- `type QueryBuilder struct`
pub record QueryBuilder : Type 0 where
  pub table : Str
  pub primary_key : Str
  pub allowed : Dict AllowedField
  pub tenant_column : Str

-- An argument of a query: a string or an `int`.
pub data Arg : Type 0 where
  text : Str → Arg
  number : ℤ → Arg

-- `type BuiltQuery struct`
pub record BuiltQuery : Type 0 where
  pub sql : Str
  pub args : List Arg

-- The errors, by the format strings of their messages.
pub data QueryError : Type 0 where
  identifier_empty : QueryError
  unsafe_identifier : Str → QueryError
  not_filterable : Str → QueryError
  not_sortable : Str → QueryError

-- `func quoteIdent`
unfoldable pub quote_ident : Str → Str
quote_ident identifier = lit "\"" ++ (replace_byte identifier b'"' (lit "\"\"") ++ lit "\"")

is_safe : ℕ → Bool
is_safe r =
    (leb b'a' r && leb r b'z')
    || ((leb b'A' r && leb r b'Z') || ((leb b'0' r && leb r b'9') || r == b'_'))

all_safe : Str → Bool
unfolding is_safe
all_safe [] = true
all_safe (r ∷ rest) = if is_safe r then all_safe rest else false

-- `func validateIdentifier`. Its loop goes over runes, and no byte of a longer rune is safe.
unfoldable pub validate_identifier : Str → Result QueryError (Unit {0})
unfolding all_safe
validate_identifier identifier =
    if identifier == []
    then err identifier_empty
    else if all_safe identifier
    then ok tt
    else err (unsafe_identifier identifier)

-- `func filterArg`
unfoldable pub filter_arg : Filter → Str
filter_arg filter =
    if filter.operator == lit "contains"
    then lit "%" ++ (filter.value ++ lit "%")
    else if filter.operator == lit "starts_with"
    then filter.value ++ lit "%"
    else if filter.operator == lit "ends_with"
    then lit "%" ++ filter.value
    else filter.value

-- `func sqlOperator`
unfoldable pub sql_operator : Str → Str
sql_operator operator =
    if operator == lit "contains" || (operator == lit "starts_with" || operator == lit "ends_with")
    then lit "ilike"
    else if operator == lit "gte"
    then lit ">="
    else if operator == lit "lte"
    then lit "<="
    else if operator == lit "gt"
    then lit ">"
    else if operator == lit "lt"
    then lit "<"
    else lit "="

-- `column := field.Column; if column == "" { column = field.Name }`
unfoldable pub column_of : AllowedField → Str
column_of field = if field.column == [] then field.name else field.column

-- The arguments and the clauses collected so far.
abbrev pub Parts : Type 0
Parts = List Arg × List Str

-- `"<quoted column> <operator> $<n>"`
abbrev pub condition : Str → Str → List Arg → Str
condition column operator args =
    quote_ident column ++ (lit " " ++ (operator ++ (lit " $" ++ itoa (length args))))

abbrev pub field_not_filterable : Option AllowedField → Bool
field_not_filterable o = not (allows (λ f. f.filterable) o)

-- The tenant's part of `func (b QueryBuilder) where`
unfoldable pub where_tenant : QueryBuilder → Str → Result QueryError Parts
where_tenant b tenant_id = if b.tenant_column == [] then ok ([], []) else do
  validate_identifier b.tenant_column
  let args = text tenant_id ∷ []
  ok (args, condition b.tenant_column (lit "=") args ∷ [])

-- The loop over the allowed fields for a search.
unfoldable pub search_loop : Str → Dict AllowedField → List Arg → List Str → Result QueryError Parts
search_loop search [] args parts = ok (args, parts)
search_loop search ((_, field) ∷ rest) args parts =
    let skipped = search_loop search rest args parts in
    let args' = args ++ text (lit "%" ++ (search ++ lit "%")) ∷ [] in
    let taken =
      validate_identifier (column_of field)
      >> search_loop search rest args'
          (parts ++ condition (column_of field) (lit "ilike") args' ∷ []) in
    if not field.searchable then skipped else taken

-- `if len(searchParts) > 0 { clauses = append(clauses, "(" + strings.Join(searchParts, " or ") + ")") }`
abbrev add_search : List Str → Parts → Parts
add_search clauses (args, []) = (args, clauses)
add_search clauses (args, part ∷ parts) =
    (args, clauses ++ (lit "(" ++ (join (part ∷ parts) (lit " or ") ++ lit ")")) ∷ [])

unfoldable pub where_search : QueryBuilder → Str → Parts → Result QueryError Parts
where_search b search (args, clauses) =
    if search == []
    then ok (args, clauses)
    else search_loop search b.allowed args [] >>= λ found. ok (add_search clauses found)

-- A round of the loop over the filters.
unfoldable pub filter_round : Filter → Option AllowedField → Parts → Result QueryError Parts
filter_round filter none parts = err (not_filterable filter.field)
filter_round filter (some field) (args, clauses) =
    if not field.filterable then err (not_filterable filter.field) else do
      validate_identifier (column_of field)
      let args' = args ++ text (filter_arg filter) ∷ []
      ok (args', clauses ++ condition (column_of field) (sql_operator filter.operator) args' ∷ [])

unfoldable pub where_filters : Dict AllowedField → List Filter → Parts → Result QueryError Parts
where_filters allowed [] parts = ok parts
where_filters allowed (filter ∷ rest) parts =
    filter_round filter (lookup filter.field allowed) parts >>= where_filters allowed rest

abbrev pub where_text : List Str → Str
where_text [] = []
where_text (clause ∷ clauses) = lit " where " ++ join (clause ∷ clauses) (lit " and ")

abbrev with_text : Parts → Str × List Arg
with_text (args, clauses) = (where_text clauses, args)

-- The body of `func (b QueryBuilder) where`, up to its last lines.
unfoldable pub where_parts : QueryBuilder → Query → Str → Result QueryError Parts
where_parts b query tenant_id =
    where_tenant b tenant_id
    >>= where_search b query.search
    >>= where_filters b.allowed query.filters

-- `func (b QueryBuilder) where`
unfoldable pub build_where : QueryBuilder → Query → Str → Result QueryError (Str × List Arg)
build_where b query tenant_id = do parts ← where_parts b query tenant_id; ok (with_text parts)

abbrev direction : Bool → Str
direction desc = if desc then lit "desc" else lit "asc"

-- A round of the loop of `func (b QueryBuilder) orderBy`
unfoldable pub order_round : Sort → Option AllowedField → Result QueryError Str
order_round sort none = err (not_sortable sort.field)
order_round sort (some field) = if not field.sortable then err (not_sortable sort.field) else do
  validate_identifier (column_of field)
  ok (quote_ident (column_of field) ++ (lit " " ++ direction sort.desc))

unfoldable pub order_loop : Dict AllowedField → List Sort → List Str → Result QueryError (List Str)
order_loop allowed [] orders = ok orders
order_loop allowed (sort ∷ rest) orders = order_round sort (lookup sort.field allowed) >>= λ order.
    order_loop allowed rest (orders ++ order ∷ [])

abbrev add_primary : Str → List Str → Result QueryError (Unit {0}) → List Str
add_primary key orders (err _) = orders
add_primary key orders (ok _) =
    if any (λ order. has_prefix order (quote_ident key ++ lit " ")) orders
    then orders
    else orders ++ (quote_ident key ++ lit " asc") ∷ []

-- The primary key as the last order, unless it is one already.
unfoldable pub with_primary : Str → List Str → List Str
with_primary key orders =
    if key == [] then orders else add_primary key orders (validate_identifier key)

abbrev order_text : List Str → Str
order_text [] = []
order_text (order ∷ orders) = lit " order by " ++ join (order ∷ orders) (lit ", ")

-- `func (b QueryBuilder) orderBy`
unfoldable pub order_by : QueryBuilder → Query → Result QueryError Str
order_by b query = do
  orders ← order_loop b.allowed query.sorts []
  ok (order_text (with_primary b.primary_key orders))

-- The text of `Select`, with `n` arguments before the limit and the offset.
unfoldable pub select_text : Str → Str → Str → ℕ → Str
select_text table where_sql order n =
    lit "select * from "
    ++ (quote_ident table
        ++ (where_sql
            ++ (order ++ (lit " limit $" ++ (itoa (n + 1) ++ (lit " offset $" ++ itoa (n + 2)))))))

abbrev built_select : QueryBuilder → Query → Str × List Arg → Str → BuiltQuery
built_select b query (where_sql, args) order = record {
  sql = select_text b.table where_sql order (length args);
  args = args ++ (number (pos query.page.limit) ∷ number query.page.offset ∷ []);
}

-- `func (b QueryBuilder) Select`
unfoldable pub select : QueryBuilder → Query → Str → Result QueryError BuiltQuery
select b query tenant_id = do
  validate_identifier b.table
  found ← build_where b query tenant_id
  order ← order_by b query
  ok (built_select b query found order)

abbrev built_count : QueryBuilder → Str × List Arg → BuiltQuery
built_count b (where_sql, args) = record {
  sql = lit "select count(*) from " ++ (quote_ident b.table ++ where_sql);
  args = args;
}

-- `func (b QueryBuilder) Count`
unfoldable pub count : QueryBuilder → Query → Str → Result QueryError BuiltQuery
count b query tenant_id = do
  validate_identifier b.table
  found ← build_where b query tenant_id
  ok (built_count b found)
