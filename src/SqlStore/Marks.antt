-- ===== src/SqlStore/Marks.antt =====
-- The question marks of the SQL of pkg/adapters/sqlstore/sqlstore.go and its arguments.
use gomyadmin.Base.{
  ℕ, arith, ◌+◌, ◌≡◌, refl, sym, subst, not, ◌||◌, ◌∙◌, inl, inr, true, false, Bool-cases,
  Option-cases, some, List, [], ◌∷◌, ◌++◌, Str, ◌==◌, nat_eq, str_eq, length, length-append, All,
  if◌then◌else◌, str_beq_iff,
}
use gomyadmin.Base.Result.{ok, ok-injective, >>=-eq-ok}
use gomyadmin.Text.{lit, join}
use gomyadmin.Text.Laws.{Lacks}
use gomyadmin.Dict.{Dict}
use gomyadmin.Database.{Value, text}
use gomyadmin.Server.Meta.{FieldMeta, ResourceMeta, field_in, field_by_sql_name}
use gomyadmin.Server.Sql.{Parts, is_scoped, field_operator, is_filterable, filter_arg}
use gomyadmin.SqlStore.{
  Dialect, is_like, where_tenant, search_loop, add_search, where_search, filter_clause,
  filter_round, where_filters, where_text, where_sql,
}
use gomyadmin.SqlStore.Text.{
  marks_in, marks_all, marks_in-append, marks_all-append, marks_in-join, marks_in-equals,
  marks_in-is_like, marks_in-filter_clause,
}

-- No name of a column has a question mark.
pub record HasPlainNames (resource : ResourceMeta) : Type 0 where
  pub tenant : Lacks b'?' resource.tenant_key
  pub fields : All (λ f. Lacks b'?' f.sql_name) resource.fields

-- As many marks as arguments.
abbrev IsMarked : Parts → Type 0
IsMarked (args, clauses) = marks_all clauses ≡ length args

field_in-Lacks :
    (fields : List FieldMeta) (name : Str)
    → All (λ f. Lacks b'?' f.sql_name) fields
    → is_filterable (field_in fields name) ≡ true
    → Lacks b'?' name
unfolding field_in
field_in-Lacks [] name plain h = cc
field_in-Lacks (f ∷ fields) name plain h = elim (Bool-cases (f.sql_name == name)) [
  | inl b ↦ subst (Lacks b'?') ((str_beq_iff f.sql_name name).0 b) plain.0
  | inr b ↦ field_in-Lacks fields name plain.1 (ground arith)
]

where_tenant-IsMarked :
    (dialect : Dialect) (resource : ResourceMeta) (tenant_id role : Str)
    → HasPlainNames resource
    → IsMarked (where_tenant dialect resource tenant_id role)
unfolding where_tenant
where_tenant-IsMarked dialect resource tenant_id role plain =
    elim (Bool-cases (is_scoped resource role)) [
      | inl b ↦
          rw (where_tenant, b)
            (let one = marks_in-equals dialect resource.tenant_key plain.tenant in
              omega (arith, one))
      | inr b ↦ rw (where_tenant, b) refl
    ]

search_loop-if :
    (dialect : Dialect) (search : Str) (f : FieldMeta) (rest : List FieldMeta) (args : List Value)
    (parts : List Str)
    → search_loop dialect search (f ∷ rest) (args, parts) ≡ (
        if not f.searchable || f.hidden
        then search_loop dialect search rest (args, parts)
        else search_loop dialect search rest (
          args ++ text (lit "%" ++ (search ++ lit "%")) ∷ [],
          parts ++ is_like dialect f.sql_name ∷ [],
        ))
unfolding search_loop
search_loop-if dialect search f rest args parts = elim (Bool-cases (not f.searchable || f.hidden)) [
  | inl b ↦ rw (search_loop, b) refl
  | inr b ↦ rw (search_loop, b) refl
]

-- The marks of a search, with those before it.
abbrev Counted : ℕ → Parts → Type 0
Counted n p = n + marks_all p.1 ≡ length p.0

search_loop_marked :
    (dialect : Dialect) (search : Str) (fields : List FieldMeta) (args : List Value)
    (parts : List Str) (n : ℕ)
    → All (λ f. Lacks b'?' f.sql_name) fields
    → n + marks_all parts ≡ length args
    → Counted n (search_loop dialect search fields (args, parts))
unfolding search_loop
search_loop_marked dialect search [] args parts n plain h = h
search_loop_marked dialect search (f ∷ rest) args parts n plain h =
    elim (Bool-cases (not f.searchable || f.hidden)) [
      | inl b ↦
          subst (Counted n) (sym (search_loop-if dialect search f rest args parts ∙ rw b refl))
            (search_loop_marked dialect search rest args parts n plain.1 h)
      | inr b ↦
          let one = marks_in-is_like dialect f.sql_name plain.0 in
          let clauses = marks_all-append parts (is_like dialect f.sql_name ∷ []) in
          let arguments = length-append args (text (lit "%" ++ (search ++ lit "%")) ∷ []) in
          let args' = args ++ text (lit "%" ++ (search ++ lit "%")) ∷ [] in
          let parts' = parts ++ is_like dialect f.sql_name ∷ [] in
          subst (Counted n) (sym (search_loop-if dialect search f rest args parts ∙ rw b refl)) (
            search_loop_marked dialect search rest args' parts' n plain.1
              (omega (arith, one, clauses, arguments, h)))
    ]

add_search-IsMarked :
    (clauses : List Str) (p : Parts)
    → Counted (marks_all clauses) p
    → IsMarked (add_search clauses p)
add_search-IsMarked clauses (args, []) h = omega (arith, h)
add_search-IsMarked clauses (args, part ∷ parts) h =
    let inside = marks_in-join (part ∷ parts) (lit " or ") refl in
    let around = marks_in-append (join (part ∷ parts) (lit " or ")) (lit ")") in
    let all =
      marks_all-append clauses ((lit "(" ++ (join (part ∷ parts) (lit " or ") ++ lit ")")) ∷ []) in
    omega (arith, inside, around, all, h)

where_search-IsMarked :
    (dialect : Dialect) (resource : ResourceMeta) (search : Str) (p : Parts)
    → HasPlainNames resource
    → IsMarked p
    → IsMarked (where_search dialect resource search p)
unfolding where_search
where_search-IsMarked dialect resource search (args, clauses) plain h =
    elim (Bool-cases (search == [])) [
      | inl b ↦ rw (where_search, b) h
      | inr b ↦
          rw (where_search, b)
            (add_search-IsMarked clauses (search_loop dialect search resource.fields (args, [])) (
              search_loop_marked dialect search resource.fields args [] (marks_all clauses)
                plain.fields (omega (arith, h))))
    ]

filter_round-added :
    (dialect : Dialect) (resource : ResourceMeta) (key value : Str) (args : List Value)
    (clauses : List Str) (clause : Str)
    → (value == []) ≡ false
    → is_filterable (field_by_sql_name resource (field_operator key).0) ≡ true
    → filter_clause dialect (field_operator key).0 (field_operator key).1 ≡ some clause
    → filter_round dialect resource key value (args, clauses)
      ≡ ok (args ++ text (filter_arg (field_operator key).1 value) ∷ [], clauses ++ clause ∷ [])
unfolding filter_round
filter_round-added dialect resource key value args clauses clause b y c =
    rw (filter_round, b, y, c) refl

filter_round-IsMarked :
    (dialect : Dialect) (resource : ResourceMeta) (key value : Str) (p q : Parts)
    → HasPlainNames resource
    → IsMarked p
    → filter_round dialect resource key value p ≡ ok q
    → IsMarked q
unfolding filter_round field_by_sql_name
filter_round-IsMarked dialect resource key value (args, clauses) q plain h e =
    elim (Bool-cases (value == [])) [
      | inl b ↦ subst IsMarked (ok-injective (sym (rw (filter_round, b) refl) ∙ e)) h
      | inr b ↦
          elim (Bool-cases (is_filterable (field_by_sql_name resource (field_operator key).0))) [
            | inr n ↦ ground arith
            | inl y ↦
                elim (Option-cases
                  (filter_clause dialect (field_operator key).0 (field_operator key).1)) [
                    | inl n ↦ ground arith
                    | inr (clause, c) ↦
                        let added =
                          filter_round-added dialect resource key value args clauses clause b y c in
                        let one =
                          marks_in-filter_clause dialect (field_operator key).0
                            (field_operator key).1 clause
                            (field_in-Lacks resource.fields (field_operator key).0 plain.fields y)
                            c in
                        let all = marks_all-append clauses (clause ∷ []) in
                        let arguments =
                          length-append args
                            (text (filter_arg (field_operator key).1 value) ∷ []) in
                        subst IsMarked (ok-injective (sym added ∙ e))
                          (omega (arith, one, all, arguments, h))
                  ]
          ]
    ]

where_filters-IsMarked :
    (dialect : Dialect) (resource : ResourceMeta) (filters : Dict Str) (p q : Parts)
    → HasPlainNames resource
    → IsMarked p
    → where_filters dialect resource filters p ≡ ok q
    → IsMarked q
unfolding where_filters
where_filters-IsMarked dialect resource [] p q plain h e = subst IsMarked (ok-injective e) h
where_filters-IsMarked dialect resource ((key, value) ∷ rest) p q plain h e =
    let (r, first, later) =
      >>=-eq-ok (filter_round dialect resource key value p) (where_filters dialect resource rest)
        e in
    where_filters-IsMarked dialect resource rest r q plain
      (filter_round-IsMarked dialect resource key value p r plain h first) later

where_text_marked : (p : Parts) → IsMarked p → marks_in (where_text p).0 ≡ length (where_text p).1
where_text_marked (args, []) h = h
where_text_marked (args, clause ∷ clauses) h =
    let joined = marks_in-join (clause ∷ clauses) (lit " and ") refl in omega (arith, joined, h)

-- The condition of a listing has as many question marks as it has arguments, for every search, tenant
-- and filters, where no name of a column has one: every placeholder has its argument.
pub where_sql_marked :
    (dialect : Dialect) (resource : ResourceMeta) (tenant_id role search : Str) (filters : Dict Str)
    (sql : Str) (args : List Value)
    → HasPlainNames resource
    → where_sql dialect resource tenant_id role search filters ≡ ok (sql, args)
    → marks_in sql ≡ length args
unfolding where_sql
where_sql_marked dialect resource tenant_id role search filters sql args plain h =
    let start =
      where_search dialect resource search (where_tenant dialect resource tenant_id role) in
    let (p, ran, made) =
      >>=-eq-ok (where_filters dialect resource filters start) (λ p. ok (where_text p)) h in
    let marked =
      where_filters-IsMarked dialect resource filters start p plain
        (where_search-IsMarked dialect resource search _ plain
          (where_tenant-IsMarked dialect resource tenant_id role plain))
        ran in
    subst (λ r. marks_in r.0 ≡ length r.1) (ok-injective made) (where_text_marked p marked)
