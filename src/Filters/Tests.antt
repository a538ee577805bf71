-- ===== src/Filters/Tests.antt =====
-- Queries that are parsed, and the theorems at a concrete query.
use gomyadmin.Base.{◌≡◌, refl, [], ◌∷◌, str_beq, true, false, All}
use gomyadmin.Base.Result.{ok}
use gomyadmin.Text.{
  lit, has_prefix, has_suffix, trim_prefix, trim_suffix, trim_space, split_byte, split_pair,
}
use gomyadmin.Text.Order.{sort_strings}
use gomyadmin.Dict.{Dict, lookup}
use gomyadmin.Paging.{Values}
use gomyadmin.Filters.{
  AllowedField, Query, string, number, parse, parse_sort, parse_filters, sort_loop, filter_loop,
  read_filter, checked_filter, allows, parse_filter_key, search_text, operator_allowed,
  default_operator,
}
use gomyadmin.Filters.Checked.{IsSortable, IsFilterable, parse_checked}
use gomyadmin.Paging

filters : Unit {0}
unfolding parse parse_sort parse_filters sort_loop filter_loop read_filter checked_filter allows
    parse_filter_key search_text operator_allowed default_operator lookup str_beq sort_strings
    has_prefix has_suffix trim_prefix trim_suffix trim_space split_byte split_pair Paging.get
filters = tt

abbrev allowed : Dict AllowedField
allowed =
    (
      lit "name",
      record {
        name = lit "name";
        column = [];
        kind = string;
        searchable = true;
        sortable = true;
        filterable = true;
      },
    )
    ∷ (
      lit "age",
      record {
        name = lit "age";
        column = lit "years";
        kind = number;
        searchable = false;
        sortable = true;
        filterable = true;
      },
    )
    ∷ []

abbrev values : Values
values =
    (lit "sort", lit "-age, name" ∷ [])
    ∷ (lit "filter[name]", lit "bo" ∷ [])
    ∷ (lit "filter[age][gte]", lit "18" ∷ [])
    ∷ (lit "q", lit " x " ∷ [])
    ∷ []

abbrev parsed : Query
parsed = record {
  page = Paging.parse values;
  search = lit "x";
  sorts =
      record { field = lit "age"; desc = true } ∷ record { field = lit "name"; desc = false } ∷ [];
  filters =
      record { field = lit "age"; operator = lit "gte"; value = lit "18" }
      ∷ record { field = lit "name"; operator = lit "contains"; value = lit "bo" }
      ∷ [];
}

parse_run : parse values allowed ≡ ok parsed
unfolding filters
parse_run = refl

parse_checked_example :
    All (IsSortable allowed) parsed.sorts × All (IsFilterable allowed) parsed.filters
parse_checked_example = parse_checked values allowed parsed parse_run
