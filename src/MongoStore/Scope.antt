-- ===== src/MongoStore/Scope.antt =====
-- The filter of a listing: what it says about the tenant, and which queries it refuses.
use gomyadmin.Base.{
  ◌≡◌, ◌≢◌, ◌∙◌, refl, sym, ap, Bool, true, false, Option, none, some, List, [], ◌∷◌, Str, ◌==◌,
  str_eq, str_beq_refl, str_beq-false, Bool-cases, inl, inr, Option-cases, subst, arith,
}
use gomyadmin.Base.Result.{Result, ok, err, ◌>>=◌, >>=-eq-ok, ok-injective, err≢ok, Result-cases}
use gomyadmin.Dict.{Dict, lookup, insert, lookup-insert}
use gomyadmin.MongoStore.{
  Criterion, is, Filter, add_tenant, search_fields, with_or, add_search, criterion, filter_round,
  add_filters, build_filter,
}
use gomyadmin.Server.Meta.{ResourceMeta, field_by_sql_name}
use gomyadmin.Server.Sql.{StoreError, is_scoped, field_operator, is_filterable, Parts}
use gomyadmin.SqlStore
use gomyadmin.SqlStore.{Dialect, filter_clause, where_filters, where_sql}
use gomyadmin.Text.{lit}

module _ (resource : ResourceMeta) (tenant_id : Str) where
  abbrev IsOfTenant : Filter → Type 0
  IsOfTenant filter = lookup resource.tenant_key filter ≡ some (is tenant_id)

  insert-IsOfTenant :
      (name : Str) (c : Criterion) (filter : Filter)
      → name ≢ resource.tenant_key
      → IsOfTenant filter
      → IsOfTenant (insert name c filter)
  insert-IsOfTenant name c filter h k =
      lookup-insert name resource.tenant_key c filter
      ∙ rw (str_beq-false name resource.tenant_key h) k

  with_or-IsOfTenant :
      (found : List (Str × Str)) (filter : Filter)
      → lit "$or" ≢ resource.tenant_key
      → IsOfTenant filter
      → IsOfTenant (with_or found filter)
  with_or-IsOfTenant [] filter h k = k
  with_or-IsOfTenant (f ∷ fs) filter h k = insert-IsOfTenant (lit "$or") _ filter h k

  add_search-IsOfTenant :
      (search : Str) (filter : Filter)
      → lit "$or" ≢ resource.tenant_key
      → IsOfTenant filter
      → IsOfTenant (add_search resource search filter)
  unfolding add_search
  add_search-IsOfTenant search filter h k = elim (Bool-cases (search == [])) [
    | inl t ↦ rw (add_search, t) k
    | inr t ↦
        rw (add_search, t) (with_or-IsOfTenant (search_fields search resource.fields) filter h k)
  ]

  filter_round-IsOfTenant :
      (key value : Str) (filter next : Filter)
      → is_filterable (field_by_sql_name resource resource.tenant_key) ≡ false
      → IsOfTenant filter
      → filter_round resource key value filter ≡ ok next
      → IsOfTenant next
  unfolding filter_round
  filter_round-IsOfTenant key value filter next fixed k h =
      let name = (field_operator key).0 in
      let operator = (field_operator key).1 in
      elim (Bool-cases (value == [])) [
        | inl a ↦ subst IsOfTenant (ok-injective (rw (filter_round, a) at h)) k
        | inr a ↦ elim (Bool-cases (is_filterable (field_by_sql_name resource name))) [
          | inr b ↦ absurd (err≢ok (rw (filter_round, a, b) at h))
          | inl b ↦ elim (Option-cases (criterion operator value)) [
            | inl c ↦ absurd (err≢ok (rw (filter_round, a, b, c) at h))
            | inr (crit, c) ↦ subst IsOfTenant (ok-injective (rw (filter_round, a, b, c) at h)) (
                insert-IsOfTenant name crit filter
                  (λ e. cc (b, fixed, ap (λ z. is_filterable (field_by_sql_name resource z)) e)) k)
          ]
        ]
      ]

  add_filters-IsOfTenant :
      (filters : Dict Str) (filter last : Filter)
      → is_filterable (field_by_sql_name resource resource.tenant_key) ≡ false
      → IsOfTenant filter
      → add_filters resource filters filter ≡ ok last
      → IsOfTenant last
  unfolding add_filters
  add_filters-IsOfTenant [] filter last fixed k h = subst IsOfTenant (ok-injective h) k
  add_filters-IsOfTenant ((key, value) ∷ rest) filter last fixed k h =
      let (next, e, later) =
        >>=-eq-ok (filter_round resource key value filter) (add_filters resource rest) h in
      add_filters-IsOfTenant rest next last fixed
        (filter_round-IsOfTenant key value filter next fixed k e) later

  -- A listing for a tenant asks for the records of this tenant, whatever its search and its filters, if
  -- the field with the tenant is not one of those that filters may ask for.
  pub build_filter-IsOfTenant :
      (role search : Str) (filters : Dict Str) {filter : Filter}
      → is_scoped resource role ≡ true
      → is_filterable (field_by_sql_name resource resource.tenant_key) ≡ false
      → lit "$or" ≢ resource.tenant_key
      → build_filter resource tenant_id role search filters ≡ ok filter
      → lookup resource.tenant_key filter ≡ some (is tenant_id)
  unfolding build_filter add_tenant
  build_filter-IsOfTenant role search filters {filter} scoped fixed no_or h =
      let at_first : IsOfTenant (add_tenant resource tenant_id role []) =
        rw (add_tenant, scoped)
          (lookup-insert resource.tenant_key resource.tenant_key (is tenant_id) []
            ∙ rw (str_beq_refl resource.tenant_key) refl) in
      add_filters-IsOfTenant filters _ filter fixed (add_search-IsOfTenant search _ no_or at_first)
        h

-- The error of a result
abbrev pub error_of {ℓ} : {A : Type ℓ} → Result StoreError A → Option StoreError
error_of (err e) = some e
error_of (ok _) = none

abbrev is_some {ℓ} : {A : Type ℓ} → Option A → Bool
is_some none = false
is_some (some _) = true

-- Both adapters support the same operators.
criterion-filter_clause :
    (dialect : Dialect) (name operator value : Str)
    → is_some (criterion operator value) ≡ is_some (filter_clause dialect name operator)
unfolding criterion filter_clause
criterion-filter_clause dialect name operator value = ground arith

module _ (dialect : Dialect) (resource : ResourceMeta) where
  filter_round-error_of :
      (key value : Str) (filter : Filter) (p : Parts)
      → error_of (filter_round resource key value filter)
        ≡ error_of (SqlStore.filter_round dialect resource key value p)
  unfolding filter_round SqlStore.filter_round
  filter_round-error_of key value filter p =
      let name = (field_operator key).0 in
      let operator = (field_operator key).1 in
      let same = criterion-filter_clause dialect name operator value in
      elim (Bool-cases (value == [])) [
        | inl a ↦ rw (filter_round, SqlStore.filter_round, a) refl
        | inr a ↦ elim (Bool-cases (is_filterable (field_by_sql_name resource name))) [
          | inr b ↦ rw (filter_round, SqlStore.filter_round, a, b) refl
          | inl b ↦ elim (Option-cases (criterion operator value)) [
            | inl c ↦ elim (Option-cases (filter_clause dialect name operator)) [
              | inl d ↦ rw (filter_round, SqlStore.filter_round, a, b, c, d) refl
              | inr (clause, d) ↦ cc (rw (c, d) at same)
            ]
            | inr (crit, c) ↦ elim (Option-cases (filter_clause dialect name operator)) [
              | inl d ↦ cc (rw (c, d) at same)
              | inr (clause, d) ↦ rw (filter_round, SqlStore.filter_round, a, b, c, d) refl
            ]
          ]
        ]
      ]

  add_filters-error_of :
      (filters : Dict Str) (filter : Filter) (p : Parts)
      → error_of (add_filters resource filters filter)
        ≡ error_of (where_filters dialect resource filters p)
  unfolding add_filters where_filters
  add_filters-error_of [] filter p = refl
  add_filters-error_of ((key, value) ∷ rest) filter p =
      let here = filter_round-error_of key value filter p in
      elim (Result-cases (filter_round resource key value filter)) [
        | inl (e, a) ↦ elim (Result-cases (SqlStore.filter_round dialect resource key value p)) [
          | inl (f, b) ↦ rw (a, b) (rw (a, b) at here)
          | inr (q, b) ↦ cc (rw (a, b) at here)
        ]
        | inr (next, a) ↦ elim (Result-cases (SqlStore.filter_round dialect resource key value p)) [
          | inl (f, b) ↦ cc (rw (a, b) at here)
          | inr (q, b) ↦ rw (a, b) (add_filters-error_of rest next q)
        ]
      ]

  failure_text :
      (r : Result StoreError Parts) → error_of (r >>= λ p. ok (SqlStore.where_text p)) ≡ error_of r
  failure_text (ok p) = refl
  failure_text (err e) = refl

  -- The MongoDB adapter refuses exactly the listings that the SQL adapter refuses, with the same error,
  -- for every dialect, tenant, search and filters.
  pub build_filter-where_sql :
      (tenant_id role search : Str) (filters : Dict Str)
      → error_of (build_filter resource tenant_id role search filters)
        ≡ error_of (where_sql dialect resource tenant_id role search filters)
  unfolding build_filter where_sql
  build_filter-where_sql tenant_id role search filters =
      add_filters-error_of filters _ _ ∙ sym (failure_text _)
