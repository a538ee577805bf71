-- ===== src/SqlStore/Tests.antt =====
-- A table of ids behind the store of pkg/adapters/sqlstore/sqlstore.go.
use gomyadmin.Base.{
  ◌≡◌, refl, arith, true, false, Option, some, List, [], ◌∷◌, Str, ◌==◌, str_eq, str_beq, length,
  if◌then◌else◌,
}
use gomyadmin.Base.Result.{ok}
use gomyadmin.Text.{lit, has_prefix, join, replace_byte}
use gomyadmin.Dict.{Dict, insert, lookup}
use gomyadmin.Database.{Value, text, Pool}
use gomyadmin.Server.Meta.{
  other, field_by_sql_name, field_in, visible_columns, FieldMeta, ResourceMeta,
}
use gomyadmin.Server.Sql.{is_scoped, filter_arg, field_operator, cut_colons}
use gomyadmin.Server.Store.{Outside, Record}
use gomyadmin.SqlStore.{
  mysql, where_sql, where_key, where_filters, filter_round, filter_clause, where_search,
  search_loop, where_tenant, equals, quote, is_like, normalize_scanned,
}
use gomyadmin.SqlStore.Records.{
  get, read_rows, scan_loop, scan_row, delete_one, delete_loop, finish, delete_many,
}
use gomyadmin.SqlStore.Deletes.{Deleted, delete_many-Deleted}
use gomyadmin.SqlStore.Marks.{HasPlainNames, where_sql_marked}
use gomyadmin.SqlStore.Text.{marks_in}

abbrev field : Str → FieldMeta
field name = record {
  sql_name = name;
  kind = other;
  searchable = true;
  sortable = false;
  filterable = true;
  readonly = false;
  hidden = false;
  primary = false;
}

abbrev tags : ResourceMeta
tags = record {
  table = lit "tags";
  primary_key = lit "id";
  tenant_key = lit "org";
  default_sort = [];
  fields = field (lit "id") ∷ [];
}

abbrev resources : Dict ResourceMeta
resources = (lit "tags", tags) ∷ []

abbrev found_in : List Str → Str → List (List Value)
found_in [] id = []
found_in (x ∷ xs) id = if x == id then (text x ∷ []) ∷ [] else found_in xs id

abbrev without : List Str → Str → List Str
without [] id = []
without (x ∷ xs) id = let rest = without xs id in if x == id then rest else x ∷ rest

abbrev table_query : List Value → List Str → Option (List (List Value))
table_query (text id ∷ _) s = some (found_in s id)
table_query _ s = some []

abbrev table_exec : List Value → List Str → Option (List Str)
table_exec (text id ∷ _) s = some (without s id)
table_exec _ s = some s

abbrev pool : Pool
pool = record {
  State = List Str;
  query = λ _ args s. table_query args s;
  query_count = λ _ _ s. some (length s);
  exec = λ _ args s. table_exec args s;
  begin = λ s. some s;
  commit = λ t. some t;
}

abbrev outside : Outside
outside = record { sprint = λ _. lit "v"; hash_password = λ s. some s; format_uuid = λ s. s }

abbrev tag : Record
tag = (lit "id", text (lit "a")) ∷ []

-- An id that is given twice gives its record twice, while the row is deleted once.
delete_twice :
    delete_many pool outside mysql resources
      (lit "tags")
      (lit "a" ∷ lit "a" ∷ [])
      (lit "t1")
      (lit "editor")
      (lit "a" ∷ lit "b" ∷ [])
    ≡ (lit "b" ∷ [], ok (tag ∷ tag ∷ []))
unfolding delete_many finish delete_loop delete_one get lookup str_beq read_rows where_key is_scoped
    scan_loop scan_row visible_columns insert normalize_scanned
delete_twice = refl

delete_many-Deleted_example :
    Deleted pool outside mysql resources
      (lit "tags")
      (lit "t1")
      (lit "editor")
      (lit "a" ∷ lit "a" ∷ [])
      (lit "a" ∷ lit "b" ∷ [])
      (lit "b" ∷ [], ok (tag ∷ tag ∷ []))
unfolding delete_many finish delete_loop delete_one get lookup str_beq read_rows where_key is_scoped
    scan_loop scan_row visible_columns insert normalize_scanned
delete_many-Deleted_example =
    delete_many-Deleted pool outside mysql resources (lit "tags") (lit "t1") (lit "editor")
      (lit "a" ∷ lit "a" ∷ []) (lit "a" ∷ lit "b" ∷ [])

tags_plain : HasPlainNames tags
tags_plain = record {
  tenant = ((λ e. ground arith), ((λ e. ground arith), ((λ e. ground arith), tt)));
  fields = (((λ e. ground arith), ((λ e. ground arith), tt)), tt);
}

abbrev scoped_sql : Str
scoped_sql = lit " where `org` = ? and (lower(cast(`id` as char)) like lower(?)) and `id` >= ?"

where_sql_marked_example : marks_in scoped_sql ≡ 3
unfolding where_sql where_filters filter_round str_beq field_by_sql_name field_operator cut_colons
    has_prefix filter_clause where_search search_loop where_tenant is_scoped join filter_arg equals
    quote replace_byte is_like field_in
where_sql_marked_example =
    where_sql_marked mysql tags (lit "t1") (lit "editor") (lit "x?") ((lit "id::gte", lit "1") ∷ [])
      scoped_sql (text (lit "t1") ∷ text (lit "%x?%") ∷ text (lit "1") ∷ []) tags_plain refl
