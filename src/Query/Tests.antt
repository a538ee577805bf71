-- ===== src/Query/Tests.antt =====
-- A query that is built, and the theorems at it.
use gomyadmin.Base.{◌≡◌, refl, inr, [], ◌∷◌, ◌++◌, Str, str_beq, true, false, some, arith}
use gomyadmin.Base.Int.{pos}
use gomyadmin.Base.Result.{ok}
use gomyadmin.Text.{lit, has_prefix, join, replace_byte, trim_prefix, trim_space, split_byte}
use gomyadmin.Text.Number.{itoa}
use gomyadmin.Text.Order.{sort_strings}
use gomyadmin.Dict.{lookup}
use gomyadmin.Paging
use gomyadmin.Paging.{Values, Page}
use gomyadmin.Filters
use gomyadmin.Filters.{AllowedField, Query, string, number, allows}
use gomyadmin.Query.{
  QueryBuilder, BuiltQuery, text, select, count, build_where, where_parts, where_tenant,
  where_search, where_filters, search_loop, filter_round, order_by, order_loop, order_round,
  with_primary, validate_identifier, quote_ident, column_of, sql_operator, filter_arg, select_text,
}
use gomyadmin.Query.Quoting.{read_identifier, read_identifier-quote_ident}
use gomyadmin.Query.Shape.{sql_of, select_same}
use gomyadmin.Query.Accepts.{IsSafe, select-parse}
use gomyadmin.Query.Scope.{IsTenantScoped, build_where_tenant}

query : Unit {0}
unfolding select count build_where where_parts where_tenant where_search where_filters search_loop
    filter_round order_by order_loop order_round with_primary validate_identifier quote_ident
    column_of sql_operator filter_arg select_text lookup str_beq join itoa replace_byte allows
    has_prefix
query = tt

abbrev builder : QueryBuilder
builder = record {
  table = lit "users";
  primary_key = lit "id";
  allowed =
      (
        lit "name",
        record {
          name = lit "name";
          column = [];
          kind = string;
          searchable = true;
          sortable = true;
          filterable = true;
        },
      )
      ∷ (
        lit "age",
        record {
          name = lit "age";
          column = lit "years";
          kind = number;
          searchable = false;
          sortable = true;
          filterable = true;
        },
      )
      ∷ [];
  tenant_column = lit "tenant_id";
}

abbrev first_page : Page
first_page = record { page = 1; per_page = 25; offset = pos 0; limit = 25 }

abbrev asked : Str → Str → Query
asked search value = record {
  page = first_page;
  search = search;
  sorts = record { field = lit "age"; desc = true } ∷ [];
  filters = record { field = lit "age"; operator = lit "gte"; value = value } ∷ [];
}

count_run :
    count builder (asked (lit "x") (lit "18")) (lit "t1")
    ≡ ok (record {
      sql =
          lit
            "select count(*) from \"users\" where \"tenant_id\" = $1 and (\"name\" ilike $2) and \"years\" >= $3";
      args = text (lit "t1") ∷ text (lit "%x%") ∷ text (lit "18") ∷ [];
    })
unfolding query
count_run = refl

select_run :
    sql_of (select builder (asked [] (lit "18")) (lit "t1"))
    ≡ ok (
        lit
          "select * from \"users\" where \"tenant_id\" = $1 and \"years\" >= $2 order by \"years\" desc, \"id\" asc limit $3 offset $4")
unfolding query
select_run = refl

read_identifier-quote_ident_example :
    read_identifier (quote_ident (lit "a\"; drop table b") ++ lit " = $1")
    ≡ some (lit "a\"; drop table b", lit " = $1")
read_identifier-quote_ident_example =
    read_identifier-quote_ident (lit "a\"; drop table b") (lit " = $1") (omega arith)

select_same_example :
    (sql_of (select builder (asked (lit "x") (lit "18")) (lit "t1"))
      ≡ sql_of (select builder (asked (lit "'; --") (lit "0")) (lit "t2")))
    × (sql_of (count builder (asked (lit "x") (lit "18")) (lit "t1"))
        ≡ sql_of (count builder (asked (lit "'; --") (lit "0")) (lit "t2")))
select_same_example =
    select_same builder (asked (lit "x") (lit "18")) (asked (lit "'; --") (lit "0")) (lit "t1")
      (lit "t2")
      (record { search = unfold str_beq in refl; sorts = refl; filters = (refl, refl, tt) })

builder-IsSafe : IsSafe builder
unfolding query
builder-IsSafe = record { table = refl; tenant = inr refl; columns = (refl, (refl, tt)) }

abbrev by_name : Values
by_name = (lit "sort", lit "name" ∷ []) ∷ []

abbrev by_name_query : Query
by_name_query = record {
  page = Paging.parse by_name;
  search = [];
  sorts = record { field = lit "name"; desc = false } ∷ [];
  filters = [];
}

by_name_run : Filters.parse by_name builder.allowed ≡ ok by_name_query
unfolding Filters.parse Filters.parse_sort Filters.parse_filters Filters.sort_loop
    Filters.filter_loop Filters.search_text allows lookup str_beq sort_strings has_prefix
    trim_prefix trim_space split_byte Paging.get
by_name_run = refl

select-parse_example : (built : BuiltQuery) × (select builder by_name_query (lit "t1") ≡ ok built)
select-parse_example =
    select-parse builder by_name (lit "t1") by_name_query builder-IsSafe by_name_run

where_run :
    build_where builder by_name_query (lit "t1")
    ≡ ok (lit " where \"tenant_id\" = $1", text (lit "t1") ∷ [])
unfolding query
where_run = refl

build_where_tenant_example :
    IsTenantScoped builder by_name_query
      (lit "t1")
      (lit " where \"tenant_id\" = $1")
      (text (lit "t1") ∷ [])
build_where_tenant_example =
    build_where_tenant builder by_name_query (lit "t1") _ _ (λ e. ground (arith, e)) where_run
