-- ===== src/MongoStore/Tests.antt =====
-- The adapter on a small collection.
use gomyadmin.Base.{
  ◌≡◌, ◌≢◌, refl, Bool, true, false, Option, none, some, List, [], ◌∷◌, Str, ◌==◌, str_eq, str_beq,
  if◌then◌else◌, arith,
}
use gomyadmin.Base.Result.{ok, err}
use gomyadmin.Database.{text}
use gomyadmin.Dict.{Dict, lookup, insert}
use gomyadmin.MongoStore.Deletes.{StoppedAt, delete_many-StoppedAt}
use gomyadmin.MongoStore.Records.{Driver, delete_many}
use gomyadmin.MongoStore.Scope.{build_filter-IsOfTenant, error_of, build_filter-where_sql}
use gomyadmin.MongoStore.{Criterion, is, Filter, build_filter}
use gomyadmin.Server.Meta.{FieldMeta, ResourceMeta, other, field_by_sql_name}
use gomyadmin.Server.Sql.{field_operator, cut_colons, not_found, is_scoped, is_filterable}
use gomyadmin.Server.Store.{Record}
use gomyadmin.SqlStore.{mysql, where_sql}
use gomyadmin.Text.{has_prefix, lit}

abbrev field : Str → Bool → FieldMeta
field name asked = record {
  sql_name = name;
  kind = other;
  searchable = false;
  sortable = false;
  filterable = asked;
  readonly = false;
  hidden = false;
  primary = false;
}

abbrev posts_with : Bool → ResourceMeta
posts_with asked = record {
  table = lit "posts";
  primary_key = lit "id";
  tenant_key = lit "tenant_id";
  default_sort = [];
  fields = field (lit "id") false ∷ field (lit "title") true ∷ field (lit "tenant_id") asked ∷ [];
}

abbrev by_title : Dict Str
by_title = (lit "title", lit "x") ∷ []

abbrev title_filter : Filter
title_filter = (lit "tenant_id", is (lit "acme")) ∷ (lit "title", is (lit "x")) ∷ []

title_asked :
    build_filter (posts_with false) (lit "acme") (lit "editor") [] by_title ≡ ok title_filter
unfolding build_filter str_beq field_by_sql_name field_operator cut_colons has_prefix insert
title_asked = refl

-- Where filters may ask for the tenant, they set it.
other_tenant :
    build_filter
      (posts_with true)
      (lit "acme")
      (lit "editor")
      []
      ((lit "tenant_id", lit "rival") ∷ [])
    ≡ ok ((lit "tenant_id", is (lit "rival")) ∷ [])
unfolding build_filter str_beq field_by_sql_name field_operator cut_colons has_prefix insert
other_tenant = refl

-- Of the two bounds of a range one is left.
lost_bound :
    build_filter
      (posts_with false)
      (lit "acme")
      (lit "editor")
      []
      ((lit "title::gte", lit "a") ∷ (lit "title::lte", lit "b") ∷ [])
    ≡ ok ((lit "tenant_id", is (lit "acme")) ∷ (lit "title", Criterion.lte (lit "b")) ∷ [])
unfolding build_filter str_beq field_by_sql_name field_operator cut_colons has_prefix insert
lost_bound = refl

or_is_no_tenant : lit "$or" ≢ lit "tenant_id"
or_is_no_tenant e = ground arith

is_scoped_posts : is_scoped (posts_with false) (lit "editor") ≡ true
unfolding is_scoped str_beq
is_scoped_posts = refl

tenant_fixed : is_filterable (field_by_sql_name (posts_with false) (lit "tenant_id")) ≡ false
unfolding field_by_sql_name str_beq
tenant_fixed = refl

build_filter-IsOfTenant_example : lookup (lit "tenant_id") title_filter ≡ some (is (lit "acme"))
build_filter-IsOfTenant_example =
    build_filter-IsOfTenant (posts_with false) (lit "acme") (lit "editor") [] by_title
      is_scoped_posts tenant_fixed or_is_no_tenant title_asked

build_filter-where_sql_example :
    error_of
      (build_filter (posts_with false) (lit "acme") (lit "editor") [] ((lit "id", lit "1") ∷ []))
    ≡ error_of (
        where_sql mysql
          (posts_with false)
          (lit "acme")
          (lit "editor")
          []
          ((lit "id", lit "1") ∷ []))
build_filter-where_sql_example =
    build_filter-where_sql mysql (posts_with false) (lit "acme") (lit "editor") []
      ((lit "id", lit "1") ∷ [])

-- The state says which ids there are.
abbrev found_of : List Str → Option Criterion → Option Record
found_of ids none = none
found_of [] (some c) = none
found_of (i ∷ ids) (some (is id)) =
    if i == id then some ((lit "id", text id) ∷ []) else found_of ids (some (is id))
found_of (i ∷ ids) (some _) = none

abbrev without : List Str → Option Criterion → List Str
without ids none = ids
without [] (some c) = []
without (i ∷ ids) (some (is id)) = if i == id then ids else i ∷ without ids (some (is id))
without (i ∷ ids) (some _) = i ∷ ids

abbrev small : Driver
small = record {
  State = List Str;
  count = λ table filter s. some 0;
  find = λ table filter by limit skip s. some [];
  find_one = λ table filter s. some (found_of s (lookup (lit "id") filter));
  insert_one = λ table r s. some s;
  update_one = λ table filter r s. some s;
  delete_one = λ table filter s. some (without s (lookup (lit "id") filter));
  sprint = λ v. [];
}

abbrev resources : Dict ResourceMeta
resources = (lit "posts", posts_with false) ∷ []

abbrev ids : List Str
ids = lit "1" ∷ lit "9" ∷ lit "2" ∷ []

half_deleted :
    delete_many small resources
      (lit "posts")
      ids
      (lit "acme")
      (lit "editor")
      (lit "1" ∷ lit "2" ∷ [])
    ≡ (lit "2" ∷ [], err not_found)
unfolding delete_many lookup str_beq insert
half_deleted = refl

posts_known : lookup (lit "posts") resources ≡ some (posts_with false)
unfolding lookup str_beq
posts_known = refl

delete_many-StoppedAt_example :
    StoppedAt small
      (posts_with false)
      (lit "acme")
      (lit "editor")
      (lit "1" ∷ lit "2" ∷ [])
      (lit "2" ∷ [])
      not_found
      ids
delete_many-StoppedAt_example =
    delete_many-StoppedAt small resources (lit "posts") (lit "acme") (lit "editor")
      (posts_with false) ids (lit "1" ∷ lit "2" ∷ []) (lit "2" ∷ []) posts_known half_deleted
