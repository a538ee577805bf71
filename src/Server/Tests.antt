-- ===== src/Server/Tests.antt =====
-- The store and the handlers of pkg/server over a small table, and the theorems at it.
use gomyadmin.Base.{
  if◌then◌else◌, ℕ, ◌≡◌, refl, Bool, true, false, Option, none, some, List, [], ◌∷◌, Str, arith,
  All, ◌==◌, str_eq, str_beq, length,
}
use gomyadmin.Base.Result.{ok, err}
use gomyadmin.Server.Clauses.{quoted, IsClause}
use gomyadmin.Server.Scope.{build_where_scoped}
use gomyadmin.Base.{◌++◌}
use gomyadmin.Text.Number.{itoa}
use gomyadmin.Text.{replace_byte, join, lit}
use gomyadmin.Dict.{Dict, lookup, insert}
use gomyadmin.Access
use gomyadmin.Access.{Actor}
use gomyadmin.Server.Meta.{FieldType, password, other, FieldMeta, ResourceMeta, clean_ids}
use gomyadmin.Server.Sql.{Value, text, number, time, bytes, not_found, database}
use gomyadmin.Server.Store.{Pool, Outside, Record, Fresh, complete, updates}
use gomyadmin.Server.Records
use gomyadmin.Server.Sql
use gomyadmin.Server.Store
use gomyadmin.Server.Meta
use gomyadmin.Server.Handler
use gomyadmin.Server.Request
use gomyadmin.Text.{trim_space}
use gomyadmin.Server.Records.{delete, delete_many}
use gomyadmin.Server.Atomic.{Deletes, done, step, delete_many-Deletes, Deletes-delete_many}
use gomyadmin.Server.Written.{IsAllowed, updates-IsAllowed}
use gomyadmin.Server.Request.{
  no_values, Payload, Request, Reply, failure, can, permission, actor_of, listed, got, removed,
  bulk_removed,
}
use gomyadmin.Server.Handler.{deny, serve}
use gomyadmin.Server.Guard.{recorded, serve_denied, bulk_delete_failure}

abbrev field : Str → Bool → FieldMeta
field name readonly = record {
  sql_name = name;
  kind = other;
  searchable = false;
  sortable = false;
  filterable = false;
  readonly = readonly;
  hidden = false;
  primary = false;
}

abbrev posts : ResourceMeta
posts = record {
  table = lit "posts";
  primary_key = lit "id";
  tenant_key = lit "org";
  default_sort = [];
  fields = field (lit "id") false ∷ field (lit "org") false ∷ field (lit "title") false ∷ [];
}

abbrev resources : Dict ResourceMeta
resources = (lit "posts", posts) ∷ []

-- A table of the ids of posts: a query looks up its first argument, an execution removes it.
abbrev found_in : List Str → Str → List (List Value)
found_in [] id = []
found_in (x ∷ xs) id =
    if x == id then (text x ∷ text (lit "t1") ∷ text (lit "hello") ∷ []) ∷ [] else found_in xs id

abbrev without : List Str → Str → List Str
without [] id = []
without (x ∷ xs) id = let rest = without xs id in if x == id then rest else x ∷ rest

abbrev table_query : List Value → List Str → Option (List (List Value))
table_query (text id ∷ _) s = some (found_in s id)
table_query _ s = some []

-- An execution with one or two arguments deletes; one with more, such as an update's or that of an
-- audit event, leaves the ids.
abbrev table_exec : List Value → List Str → Option (List Str)
table_exec (text id ∷ []) s = some (without s id)
table_exec (text id ∷ text _ ∷ []) s = some (without s id)
table_exec _ s = some s

abbrev pool : Pool
pool = record {
  State = List Str;
  query = λ _ args s. table_query args s;
  query_count = λ _ _ s. some (length s);
  exec = λ _ args s. table_exec args s;
  begin = λ s. some s;
  commit = λ t. some t;
}

abbrev outside : Outside
outside = record { sprint = λ _. lit "v"; hash_password = λ s. some s; format_uuid = λ s. s }

abbrev marshal : Payload → List ℕ
marshal _ = lit "{}"

abbrev two_posts : List Str
two_posts = lit "a" ∷ lit "b" ∷ []

abbrev post : Str → Record
post id =
    (lit "id", text id) ∷ (lit "org", text (lit "t1")) ∷ (lit "title", text (lit "hello")) ∷ []

abbrev editor : Actor
editor = record {
  id = lit "u1";
  email = lit "e@x";
  name = lit "Ed";
  tenant_id = lit "t1";
  roles = [];
  permissions = lit "posts.*" ∷ [];
}

abbrev request : Option Actor → Str → Request
request actor id = record {
  actor = actor;
  table = lit "posts";
  id = id;
  query = [];
  body = some ((lit "title", text (lit "new")) ∷ (lit "org", text (lit "t2")) ∷ []);
  ids = some (id ∷ lit " a " ∷ []);
  remote_addr = [];
  user_agent = [];
  request_id = [];
  now = 7;
  now_after = 8;
  fresh_id = lit "f1";
  audit_id = lit "a1";
}

posts_known : lookup (lit "posts") resources ≡ some posts
unfolding lookup str_beq
posts_known = refl

may_view :
    can (request (some editor) (lit "a")) (permission listed (request (some editor) (lit "a")))
    ≡ true
unfolding can permission Access.can str_beq Access.match_permission
may_view = refl

updates_run :
    updates outside posts 7 ((lit "title", text (lit "new")) ∷ (lit "org", text (lit "t2")) ∷ [])
    ≡ ok ((lit "title", text (lit "new")) ∷ [])
unfolding updates Store.written_loop Store.is_fixed str_beq lookup Store.stored Meta.has_column
    Store.normalize_value
updates_run = refl

deleted_run :
    delete pool outside resources (lit "posts") (lit "a") (lit "t1") [] two_posts
    ≡ (lit "b" ∷ [], ok (post (lit "a")))
unfolding lookup str_beq Records.delete Records.delete_one Records.read_one Sql.where_key
    Sql.is_scoped Store.scan_rows Store.scan_loop Store.scan_row Store.normalize_scanned
    Meta.visible_columns insert
deleted_run = refl

deleted_next :
    delete pool outside resources (lit "posts") (lit "b") (lit "t1") [] (lit "b" ∷ [])
    ≡ ([], ok (post (lit "b")))
unfolding lookup str_beq Records.delete Records.delete_one Records.read_one Sql.where_key
    Sql.is_scoped Store.scan_rows Store.scan_loop Store.scan_row Store.normalize_scanned
    Meta.visible_columns insert
deleted_next = refl

missing_run :
    (delete pool outside resources (lit "posts") (lit "z") (lit "t1") [] two_posts).1
    ≡ err not_found
unfolding lookup str_beq Records.delete Records.delete_one Records.read_one Sql.where_key
    Sql.is_scoped Store.scan_rows Store.scan_loop Store.scan_row Store.normalize_scanned
    Meta.visible_columns insert
missing_run = refl

many_run :
    delete_many pool outside resources (lit "posts") two_posts (lit "t1") [] two_posts
    ≡ ([], ok (post (lit "a") ∷ post (lit "b") ∷ []))
unfolding lookup str_beq Records.delete Records.delete_one Records.read_one Sql.where_key
    Sql.is_scoped Store.scan_rows Store.scan_loop Store.scan_row Store.normalize_scanned
    Meta.visible_columns insert Records.delete_many Records.delete_all Records.delete_loop
    Records.finish
many_run = refl

delete_many-Deletes_example :
    Deletes pool outside resources
      (lit "posts")
      (lit "t1")
      []
      two_posts
      two_posts
      (post (lit "a") ∷ post (lit "b") ∷ [])
      []
delete_many-Deletes_example =
    delete_many-Deletes pool outside resources (λ s t h. ground arith) (λ t u h. ground arith)
      (lit "posts") two_posts (lit "t1") [] two_posts [] (post (lit "a") ∷ post (lit "b") ∷ [])
      many_run

Deletes-delete_many_example :
    delete_many pool outside resources (lit "posts") two_posts (lit "t1") [] two_posts
    ≡ ([], ok (post (lit "a") ∷ post (lit "b") ∷ []))
Deletes-delete_many_example =
    Deletes-delete_many pool outside resources (lit "posts") posts (lit "t1") [] two_posts two_posts
      [] (post (lit "a") ∷ post (lit "b") ∷ []) posts_known refl refl
      (step deleted_run (step deleted_next done))

updates-IsAllowed_example : All (IsAllowed posts 7) ((lit "title", text (lit "new")) ∷ [])
updates-IsAllowed_example =
    updates-IsAllowed outside posts 7
      ((lit "title", text (lit "new")) ∷ (lit "org", text (lit "t2")) ∷ [])
      ((lit "title", text (lit "new")) ∷ []) updates_run

serve_denied_example :
    serve pool outside resources marshal removed (request none (lit "a")) two_posts ≡ (
      recorded pool marshal
          (request none (lit "a"))
          (lit "permission_denied")
          []
          no_values
          no_values
          two_posts,
      failure 403 (lit "FORBIDDEN"),
    )
serve_denied_example =
    serve_denied pool outside resources marshal removed (request none (lit "a")) two_posts
      (λ a g n. absurd (cc n))

bulk_missing :
    (serve pool outside resources marshal bulk_removed
      (request (some editor) (lit "z"))
      two_posts).1
    ≡ failure 404 (lit "NOT_FOUND")
unfolding lookup str_beq Records.delete Records.delete_one Records.read_one Sql.where_key
    Sql.is_scoped Store.scan_rows Store.scan_loop Store.scan_row Store.normalize_scanned
    Meta.visible_columns insert Meta.first_role serve can Access.can Access.match_permission
    Handler.handle_bulk_delete Handler.finish_bulk Request.store_failure Records.delete_many
    Records.delete_all Records.delete_loop Records.finish clean_ids Meta.clean_loop trim_space
bulk_missing = refl

may_delete_many :
    can
      (request (some editor) (lit "z"))
      (permission bulk_removed (request (some editor) (lit "z")))
    ≡ true
unfolding can permission Access.can str_beq Access.match_permission
may_delete_many = refl

bulk_delete_failure_example :
    (serve pool outside resources marshal bulk_removed
      (request (some editor) (lit "z"))
      two_posts).0
    ≡ two_posts
bulk_delete_failure_example =
    bulk_delete_failure pool outside resources marshal (request (some editor) (lit "z")) two_posts
      404 (lit "NOT_FOUND") may_delete_many bulk_missing

scoped_run : Sql.is_scoped posts (lit "editor") ≡ true
unfolding Sql.is_scoped str_beq
scoped_run = refl

where_run :
    Sql.build_where posts (lit "t1") (lit "editor") (lit "x") []
    ≡ ok (lit " where \"org\" = $1", text (lit "t1") ∷ [])
unfolding Sql.build_where Sql.where_tenant Sql.is_scoped str_beq Sql.where_search Sql.search_loop
    Sql.where_filters join Sql.quote_ident replace_byte itoa
where_run = refl

build_where_scoped_example :
    (clauses : List Str) × (rest : List Value) × (lit " where \"org\" = $1"
      ≡ lit " where " ++ join ((quoted (lit "org") ++ lit " = $1") ∷ clauses) (lit " and "))
    × (text (lit "t1") ∷ [] ≡ text (lit "t1") ∷ rest)
    × All (IsClause posts (lit "x") [] (text (lit "t1") ∷ [])) clauses
build_where_scoped_example =
    build_where_scoped posts (lit "t1") (lit "editor") (lit "x") [] (lit " where \"org\" = $1")
      (text (lit "t1") ∷ []) scoped_run where_run
