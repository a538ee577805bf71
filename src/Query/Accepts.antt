-- ===== src/Query/Accepts.antt =====
-- The query builder accepts what the filter parser accepts (pkg/postgres/query.go and
-- pkg/filters/filters.go together).
use mathlib.Core.Bool.{false≢true}
use gomyadmin.Text.{lit}
use gomyadmin.Base.{
  ◌≡◌, sym, ◌∙◌, ◌⊎◌, inl, inr, true, not, List, [], ◌∷◌, ◌++◌, Str, ◌==◌, str_eq, arith, All,
  str_beq_iff,
}
use gomyadmin.Base.Result.{ok, Succeeds, good, if-Succeeds, bind-Succeeds, ok-Succeeds, Succeeds-ok}
use gomyadmin.Dict.{Dict, lookup, lookup-All}
use gomyadmin.Paging.{Values}
use gomyadmin.Filters
use gomyadmin.Filters.{AllowedField, Sort, Filter, Query}
use gomyadmin.Filters.Checked.{IsSortable, IsFilterable, parse_checked}
use gomyadmin.Query.{
  QueryBuilder, Arg, text, BuiltQuery, Parts, validate_identifier, column_of, where_tenant,
  search_loop, where_search, filter_round, where_filters, where_parts, build_where, order_round,
  order_loop, order_by, select,
}

-- The column of an allowed field is a safe identifier.
abbrev pub HasSafeColumn : AllowedField → Type 0
HasSafeColumn f = validate_identifier (column_of f) ≡ ok tt

-- The table, the tenant's column, if there is one, and the columns of the allowed fields are safe
-- identifiers.
pub record IsSafe (b : QueryBuilder) : Type 0 where
  pub table : validate_identifier b.table ≡ ok tt
  pub tenant : (b.tenant_column ≡ []) ⊎ (validate_identifier b.tenant_column ≡ ok tt)
  pub columns : All (λ e. HasSafeColumn e.1) b.allowed

where_tenant_ok : (b : QueryBuilder) (t : Str) → IsSafe b → Succeeds (where_tenant b t)
unfolding where_tenant
where_tenant_ok b t s =
    if-Succeeds (b.tenant_column == []) (λ _. good _)
      λ named.
        let safe : validate_identifier b.tenant_column ≡ ok tt = elim s.tenant [
          | inl z ↦ absurd (false≢true (sym named ∙ (str_beq_iff b.tenant_column []).1 z))
          | inr v ↦ v
        ] in
        bind-Succeeds _ (Succeeds-ok safe) (λ _ _. good _)

search_loop_ok :
    (s : Str) (allowed : Dict AllowedField) (args : List Arg) (parts : List Str)
    → All (λ e. HasSafeColumn e.1) allowed
    → Succeeds (search_loop s allowed args parts)
unfolding search_loop
search_loop_ok s [] args parts h = good _
search_loop_ok s ((_, field) ∷ rest) args parts (h, hs) =
    let args' = args ++ text (lit "%" ++ (s ++ lit "%")) ∷ [] in
    if-Succeeds (not field.searchable) (λ _. search_loop_ok s rest args parts hs)
      λ _. bind-Succeeds _ (Succeeds-ok h) (λ _ _. search_loop_ok s rest args' _ hs)

where_search_ok :
    (b : QueryBuilder) (s : Str) (p : Parts) → IsSafe b → Succeeds (where_search b s p)
unfolding where_search
where_search_ok b s (args, clauses) h =
    if-Succeeds (s == []) (λ _. good _)
      λ _. bind-Succeeds _ (search_loop_ok s b.allowed args [] h.columns) (λ _ _. good _)

filter_round_ok :
    (allowed : Dict AllowedField) (x : Filter) (p : Parts)
    → All (λ e. HasSafeColumn e.1) allowed
    → IsFilterable allowed x
    → Succeeds (filter_round x (lookup x.field allowed) p)
unfolding filter_round
filter_round_ok allowed x (args, clauses) h (f, l, g, o, v) =
    let c = lookup-All HasSafeColumn x.field allowed h l in
    rw l (
      if-Succeeds (not f.filterable) (λ n. absurd (no_filter f n g))
        λ _. bind-Succeeds _ (Succeeds-ok c) (λ _ _. good _))
  where
    no_filter : (f : AllowedField) → not f.filterable ≡ true → f.filterable ≡ true → ⊥
    no_filter f n g = ground arith

where_filters_ok :
    (allowed : Dict AllowedField) (xs : List Filter) (p : Parts)
    → All (λ e. HasSafeColumn e.1) allowed
    → All (IsFilterable allowed) xs
    → Succeeds (where_filters allowed xs p)
unfolding where_filters
where_filters_ok allowed [] p h k = good _
where_filters_ok allowed (x ∷ xs) p h (k, ks) =
    bind-Succeeds _ (filter_round_ok allowed x p h k) (λ p' _. where_filters_ok allowed xs p' h ks)

order_round_ok :
    (allowed : Dict AllowedField) (x : Sort)
    → All (λ e. HasSafeColumn e.1) allowed
    → IsSortable allowed x
    → Succeeds (order_round x (lookup x.field allowed))
unfolding order_round
order_round_ok allowed x h (f, l, g) =
    let c = lookup-All HasSafeColumn x.field allowed h l in
    rw l (
      if-Succeeds (not f.sortable) (λ n. absurd (no_sort f n g))
        λ _. bind-Succeeds _ (Succeeds-ok c) (λ _ _. good _))
  where
    no_sort : (f : AllowedField) → not f.sortable ≡ true → f.sortable ≡ true → ⊥
    no_sort f n g = ground arith

order_loop_ok :
    (allowed : Dict AllowedField) (xs : List Sort) (orders : List Str)
    → All (λ e. HasSafeColumn e.1) allowed
    → All (IsSortable allowed) xs
    → Succeeds (order_loop allowed xs orders)
unfolding order_loop
order_loop_ok allowed [] orders h k = good _
order_loop_ok allowed (x ∷ xs) orders h (k, ks) =
    bind-Succeeds _ (order_round_ok allowed x h k) (λ o _. order_loop_ok allowed xs _ h ks)

select_ok :
    (b : QueryBuilder) (q : Query) (t : Str)
    → IsSafe b
    → All (IsSortable b.allowed) q.sorts
    → All (IsFilterable b.allowed) q.filters
    → Succeeds (select b q t)
unfolding select build_where where_parts order_by
select_ok b q t s sorts filters = bind-Succeeds _ (Succeeds-ok s.table) λ _ _.
    bind-Succeeds _
      (bind-Succeeds _
        (bind-Succeeds _
          (bind-Succeeds _ (where_tenant_ok b t s) (λ p _. where_search_ok b q.search p s))
          (λ p _. where_filters_ok b.allowed q.filters p s.columns filters))
        (λ _ _. good _))
      λ found _.
        bind-Succeeds _
          (bind-Succeeds _ (order_loop_ok b.allowed q.sorts [] s.columns sorts) (λ _ _. good _))
          (λ order _. good _)

-- Every query that the filter parser accepts, against the allowed fields of a builder with safe
-- identifiers, is turned into SQL without an error, for every tenant.
pub select-parse :
    (b : QueryBuilder) (values : Values) (t : Str) (q : Query)
    → IsSafe b
    → Filters.parse values b.allowed ≡ ok q
    → (built : BuiltQuery) × (select b q t ≡ ok built)
select-parse b values t q s e =
    let (sorts, filters) = parse_checked values b.allowed q e in
    ok-Succeeds (select_ok b q t s sorts filters)
