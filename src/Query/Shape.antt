-- ===== src/Query/Shape.antt =====
-- The text of a query does not depend on the values in it (pkg/postgres/query.go): the tenant, the
-- search text, the filter values and the page reach the database in the arguments alone.
use gomyadmin.Base.{
  ◌≡◌, refl, sym, ap, subst, ◌∙◌, Bool, true, false, not, Option, none, some, List, [], ◌∷◌, ◌++◌,
  Str, ◌==◌, str_eq, arith, if◌then◌else◌, length, length-append,
}
use gomyadmin.Base.Result.{Result, ok, err, ◌>>=◌, ◌>>◌, ok-injective}
use gomyadmin.Text.{lit}
use gomyadmin.Dict.{Dict, lookup}
use gomyadmin.Filters.{AllowedField, Filter, Query}
use gomyadmin.Query.{
  QueryBuilder, Arg, text, BuiltQuery, QueryError, not_filterable, Parts, validate_identifier,
  condition, column_of, where_tenant, search_loop, where_search, filter_round, where_filters,
  build_where, order_by, select, count, sql_operator, filter_arg, add_search, with_text, where_text,
  where_parts, built_select, built_count, select_text, quote_ident,
}

abbrev pub HaveSameFields : List Filter → List Filter → Type 0
HaveSameFields [] [] = Unit
HaveSameFields (x ∷ xs) (y ∷ ys) =
    (x.field ≡ y.field) × (x.operator ≡ y.operator) × HaveSameFields xs ys
HaveSameFields _ _ = ⊥

-- Two queries that differ in nothing but values: both search or neither does, they sort alike, and
-- they filter the same fields by the same operators.
pub record HaveSameShape (q r : Query) : Type 0 where
  pub search : (q.search == []) ≡ (r.search == [])
  pub sorts : q.sorts ≡ r.sorts
  pub filters : HaveSameFields q.filters r.filters

-- Equal clauses, and arguments of which only the number is compared.
data HaveSameText : Result QueryError Parts → Result QueryError Parts → Type 0 where
  same_ok :
      {a a' : List Arg} {c c' : List Str}
      → length a ≡ length a'
      → c ≡ c'
      → HaveSameText (ok (a, c)) (ok (a', c'))
  same_err : (e e' : QueryError) → e ≡ e' → HaveSameText (err e) (err e')

HaveSameText-bind :
    {m m' : Result QueryError Parts} (f f' : Parts → Result QueryError Parts)
    → HaveSameText m m'
    → ((a a' : List Arg) (c : List Str)
        → length a ≡ length a'
        → HaveSameText (f (a, c)) (f' (a', c)))
    → HaveSameText (m >>= f) (m' >>= f')
HaveSameText-bind f f' (same_ok {a} {a'} {c} h e) k =
    subst (λ z. HaveSameText (f (a, c)) (f' (a', z))) e (k a a' c h)
HaveSameText-bind f f' (same_err e e' h) k = same_err e e' h

if_same :
    (b : Bool) {m m' n n' : Result QueryError Parts}
    → HaveSameText m m'
    → HaveSameText n n'
    → HaveSameText (if b then m else n) (if b then m' else n')
if_same true h k = h
if_same false h k = k

guard_same :
    (v : Result QueryError (Unit {0})) {m m' : Result QueryError Parts}
    → HaveSameText m m'
    → HaveSameText (v >> m) (v >> m')
guard_same (ok _) h = h
guard_same (err e) h = same_err e e refl

more_args :
    (a a' : List Arg) (x x' : Arg)
    → length a ≡ length a'
    → length (a ++ x ∷ []) ≡ length (a' ++ x' ∷ [])
more_args a a' x x' h = omega (arith, length-append {0} a (x ∷ []), length-append {0} a' (x' ∷ []))

condition_same :
    (column operator : Str) (a a' : List Arg)
    → length a ≡ length a'
    → condition column operator a ≡ condition column operator a'
condition_same column operator a a' h = rw h

where_tenant_same :
    (b : QueryBuilder) (t t' : Str) → HaveSameText (where_tenant b t) (where_tenant b t')
unfolding where_tenant
where_tenant_same b t t' =
    if_same (b.tenant_column == []) (same_ok refl refl)
      (guard_same (validate_identifier b.tenant_column) (same_ok refl refl))

search_loop_same :
    (s s' : Str) (allowed : Dict AllowedField) (a a' : List Arg) (parts : List Str)
    → length a ≡ length a'
    → HaveSameText (search_loop s allowed a parts) (search_loop s' allowed a' parts)
unfolding search_loop
search_loop_same s s' [] a a' parts h = same_ok h refl
search_loop_same s s' ((_, field) ∷ rest) a a' parts h =
    let x = text (lit "%" ++ (s ++ lit "%")) in
    let x' = text (lit "%" ++ (s' ++ lit "%")) in
    let h' = more_args a a' x x' h in
    if_same (not field.searchable) (search_loop_same s s' rest a a' parts h) (
      guard_same (validate_identifier (column_of field)) (
        rw (condition_same (column_of field) (lit "ilike") (a ++ x ∷ []) (a' ++ x' ∷ []) h')
          (search_loop_same s s' rest (a ++ x ∷ []) (a' ++ x' ∷ []) _ h')))

filter_round_same :
    (x y : Filter) (o : Option AllowedField) (a a' : List Arg) (c : List Str)
    → x.field ≡ y.field
    → x.operator ≡ y.operator
    → length a ≡ length a'
    → HaveSameText (filter_round x o (a, c)) (filter_round y o (a', c))
unfolding filter_round
filter_round_same x y none a a' c e e' h = same_err _ _ (ap not_filterable e)
filter_round_same x y (some field) a a' c e e' h =
    let b = a ++ text (filter_arg x) ∷ [] in
    let b' = a' ++ text (filter_arg y) ∷ [] in
    let h' = more_args a a' (text (filter_arg x)) (text (filter_arg y)) h in
    let lines : condition (column_of field) (sql_operator x.operator) b
        ≡ condition (column_of field) (sql_operator y.operator) b' =
      ap (λ o. condition (column_of field) (sql_operator o) b) e'
      ∙ condition_same (column_of field) (sql_operator y.operator) b b' h' in
    if_same (not field.filterable) (same_err _ _ (ap not_filterable e)) (
      guard_same (validate_identifier (column_of field)) (same_ok h' (ap (λ l. c ++ l ∷ []) lines)))

where_filters_same :
    (allowed : Dict AllowedField) (xs ys : List Filter) (a a' : List Arg) (c : List Str)
    → HaveSameFields xs ys
    → length a ≡ length a'
    → HaveSameText (where_filters allowed xs (a, c)) (where_filters allowed ys (a', c))
unfolding where_filters
where_filters_same allowed [] [] a a' c s h = same_ok h refl
where_filters_same allowed [] (y ∷ ys) a a' c s h = absurd s
where_filters_same allowed (x ∷ xs) [] a a' c s h = absurd s
where_filters_same allowed (x ∷ xs) (y ∷ ys) a a' c (e, e', s) h =
    let found : lookup y.field allowed ≡ lookup x.field allowed =
      ap (λ k. lookup k allowed) (sym e) in
    HaveSameText-bind (where_filters allowed xs) (where_filters allowed ys)
      (rw found (filter_round_same x y (lookup x.field allowed) a a' c e e' h))
      (λ b b' c' h'. where_filters_same allowed xs ys b b' c' s h')

add_search_same :
    (c : List Str) (a a' : List Arg) (parts : List Str)
    → length a ≡ length a'
    → HaveSameText (ok (add_search c (a, parts))) (ok (add_search c (a', parts)))
add_search_same c a a' [] h = same_ok h refl
add_search_same c a a' (part ∷ parts) h = same_ok h refl

where_search_same :
    (b : QueryBuilder) (s s' : Str) (a a' : List Arg) (c : List Str)
    → (s == []) ≡ (s' == [])
    → length a ≡ length a'
    → HaveSameText (where_search b s (a, c)) (where_search b s' (a', c))
unfolding where_search
where_search_same b s s' a a' c e h = rw e (
    if_same (s' == []) (same_ok h refl) (
      HaveSameText-bind (λ found. ok (add_search c found)) (λ found. ok (add_search c found))
        (search_loop_same s s' b.allowed a a' [] h)
        (λ b1 b2 parts h'. add_search_same c b1 b2 parts h')))

-- The collected clauses and the number of arguments.
where_parts_same :
    (b : QueryBuilder) (q r : Query) (t t' : Str)
    → HaveSameShape q r
    → HaveSameText (where_parts b q t) (where_parts b r t')
unfolding where_parts
where_parts_same b q r t t' h =
    HaveSameText-bind (where_filters b.allowed q.filters) (where_filters b.allowed r.filters)
      (HaveSameText-bind (where_search b q.search) (where_search b r.search)
        (where_tenant_same b t t')
        (λ a a' c e. where_search_same b q.search r.search a a' c h.search e))
      (λ a a' c e. where_filters_same b.allowed q.filters r.filters a a' c h.filters e)

abbrev pub sql_of : Result QueryError BuiltQuery → Result QueryError Str
sql_of (ok built) = ok built.sql
sql_of (err e) = err e

guard_sql :
    (v : Result QueryError (Unit {0})) (m m' : Result QueryError BuiltQuery)
    → sql_of m ≡ sql_of m'
    → sql_of (v >> m) ≡ sql_of (v >> m')
guard_sql (ok _) m m' h = h
guard_sql (err e) m m' h = refl

-- The end of `select`, for equal clauses.
select_end :
    (b : QueryBuilder) (q r : Query) (a a' : List Arg) (c c' : List Str)
    (o o' : Result QueryError Str)
    → length a ≡ length a'
    → c ≡ c'
    → o ≡ o'
    → sql_of (o >>= λ order. ok (built_select b q (with_text (a, c)) order))
      ≡ sql_of (o' >>= λ order. ok (built_select b r (with_text (a', c')) order))
select_end b q r a a' c c' (ok o) (ok o') h e e' =
    let text_same : select_text b.table (where_text c) o (length a)
        ≡ select_text b.table (where_text c') o' (length a') =
      ap (λ z. select_text b.table (where_text z) o (length a)) e
      ∙ ap (λ z. select_text b.table (where_text c') z (length a)) (ok-injective e')
      ∙ ap (select_text b.table (where_text c') o') h in
    ap ok text_same
select_end b q r a a' c c' (ok o) (err x') h e e' = cc
select_end b q r a a' c c' (err x) (ok o') h e e' = cc
select_end b q r a a' c c' (err x) (err x') h e e' = cc

select_from :
    (b : QueryBuilder) (q r : Query) {m m' : Result QueryError Parts}
    → HaveSameText m m'
    → order_by b q ≡ order_by b r
    → sql_of (
        m >>= (λ p. ok (with_text p)) >>= λ found.
        order_by b q >>= λ order. ok (built_select b q found order))
      ≡ sql_of (
          m' >>= (λ p. ok (with_text p)) >>= λ found.
          order_by b r >>= λ order. ok (built_select b r found order))
select_from b q r (same_ok {a} {a'} {c} {c'} h e) o =
    select_end b q r a a' c c' (order_by b q) (order_by b r) h e o
select_from b q r (same_err e e' h) o = ap err h

count_from :
    (b : QueryBuilder) {m m' : Result QueryError Parts}
    → HaveSameText m m'
    → sql_of (m >>= (λ p. ok (with_text p)) >>= λ found. ok (built_count b found))
      ≡ sql_of (m' >>= (λ p. ok (with_text p)) >>= λ found. ok (built_count b found))
count_from b (same_ok h e) =
    ap (λ z. ok (lit "select count(*) from " ++ (quote_ident b.table ++ where_text z))) e
count_from b (same_err e e' h) = ap err h

-- Two queries of one shape, whatever their values, pages and tenants, are selected and counted by the
-- same texts, or fail with the same errors.
pub select_same :
    (b : QueryBuilder) (q r : Query) (t t' : Str)
    → HaveSameShape q r
    → (sql_of (select b q t) ≡ sql_of (select b r t'))
      × (sql_of (count b q t) ≡ sql_of (count b r t'))
unfolding select count build_where
select_same b q r t t' h =
    let parts = where_parts_same b q r t t' h in
    let order : order_by b q ≡ order_by b r = unfold order_by in rw h.sorts refl in
    (
      guard_sql (validate_identifier b.table) _ _ (select_from b q r parts order),
      guard_sql (validate_identifier b.table) _ _ (count_from b parts),
    )
