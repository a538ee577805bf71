-- ===== src/Query/Scope.antt =====
-- A query for a tenant is restricted to that tenant (pkg/postgres/query.go, `where`).
use gomyadmin.Base.{
  ◌≡◌, refl, sym, ap, subst, ◌∙◌, ◌≢◌, inl, inr, Bool, true, false, not, Option, none, some, List,
  [], ◌∷◌, ◌++◌, append_assoc, append-nil, length, In, Str, ◌==◌, str_eq, if◌then◌else◌, Bool-cases,
  str_beq_iff, All, All-append, All-map,
}
use gomyadmin.Base.Result.{Result, ok, err, ◌>>=◌, ◌>>◌, >>=-eq-ok, ok-injective, err≢ok}
use gomyadmin.Text.{lit, join}
use gomyadmin.Text.Number.{itoa}
use gomyadmin.Dict.{Dict, lookup}
use gomyadmin.Filters.{AllowedField, Filter, Query}
use gomyadmin.Query.Clauses.{
  quoted, HasArg-last, IsSearched, searched, IsClause, comparison, closed, IsSearched-append,
  IsClause-append, sql_operator_lem,
}
use gomyadmin.Query.{
  QueryBuilder, Arg, text, QueryError, sql_operator, filter_arg, Parts, validate_identifier,
  column_of, where_tenant, search_loop, condition, where_search, filter_round, where_filters,
  where_parts, build_where, add_search, with_text, where_text, quote_ident,
}

-- The parts of a result, if it is one, go on from those given, with texts of which `Q` holds for the
-- arguments.
data Extends (Q : List Arg → Str → Type 0) (p : Parts) : Result QueryError Parts → Type 0 where
  more :
      (q : Parts) (args : List Arg) (texts : List Str)
      → q.0 ≡ p.0 ++ args
      → q.1 ≡ p.1 ++ texts
      → All (Q q.0) texts
      → Extends Q p (ok q)
  failed : (e : QueryError) → Extends Q p (err e)

module _ (Q : List Arg → Str → Type 0)
    (grow : (a b : List Arg) (t : Str) → Q a t → Q (a ++ b) t) where
  Extends-trans :
      {p : Parts} (q : Parts) (args : List Arg) (texts : List Str) {m : Result QueryError Parts}
      → q.0 ≡ p.0 ++ args
      → q.1 ≡ p.1 ++ texts
      → All (Q q.0) texts
      → Extends Q q m
      → Extends Q p m
  Extends-trans {p} q args texts e e' c (more r args' texts' h h' c') =
      let grown : All (Q r.0) texts =
        subst (λ z. All (Q z) texts) (sym h)
          (All-map (Q q.0) (Q (q.0 ++ args')) (grow q.0 args') texts c) in
      more r (args ++ args') (texts ++ texts')
        (h ∙ ap (λ z. z ++ args') e ∙ append_assoc p.0 args args')
        (h' ∙ ap (λ z. z ++ texts') e' ∙ append_assoc p.1 texts texts')
        (All-append (Q r.0) texts texts' grown c')
  Extends-trans q args texts e e' c (failed x) = failed x

  Extends-bind :
      {p : Parts} {m : Result QueryError Parts} (f : Parts → Result QueryError Parts)
      → Extends Q p m
      → ((r : Parts) → Extends Q r (f r))
      → Extends Q p (m >>= f)
  Extends-bind f (more q args texts e e' c) k = Extends-trans q args texts e e' c (k q)
  Extends-bind f (failed e) k = failed e

module _ {Q : List Arg → Str → Type 0} where
  Extends-refl : (p : Parts) → Extends Q p (ok p)
  Extends-refl p = more p [] [] (sym (append-nil p.0)) (sym (append-nil p.1)) tt

  if-Extends :
      {p : Parts} (b : Bool) {m n : Result QueryError Parts}
      → Extends Q p m
      → Extends Q p n
      → Extends Q p (if b then m else n)
  if-Extends true h k = h
  if-Extends false h k = k

  unless-Extends :
      {p : Parts} (b : Bool) {m n : Result QueryError Parts}
      → Extends Q p m
      → (b ≡ true → Extends Q p n)
      → Extends Q p (if not b then m else n)
  unless-Extends true h k = k refl
  unless-Extends false h k = h

  guard-Extends :
      {p : Parts} (v : Result QueryError (Unit {0})) {m : Result QueryError Parts}
      → Extends Q p m
      → Extends Q p (v >> m)
  guard-Extends (ok _) h = h
  guard-Extends (err e) h = failed e

search_loop-Extends :
    (b : QueryBuilder) (q : Query) (allowed : Dict AllowedField) (args : List Arg)
    (parts : List Str)
    → ((e : Str × AllowedField) → In e allowed → In e b.allowed)
    → Extends (IsSearched b q) (args, parts) (search_loop q.search allowed args parts)
unfolding search_loop quote_ident
search_loop-Extends b q [] args parts among = Extends-refl (args, parts)
search_loop-Extends b q ((name, field) ∷ rest) args parts among =
    let x = text (lit "%" ++ (q.search ++ lit "%")) in
    let args' = args ++ x ∷ [] in
    let line = condition (column_of field) (lit "ilike") args' in
    let later : (e : Str × AllowedField) → In e rest → In e b.allowed = λ e i. among e (inr i) in
    unless-Extends field.searchable (search_loop-Extends b q rest args parts later) (λ asked.
      let good : IsSearched b q args' line =
        searched name field (length args') (among (name, field) (inl refl)) asked
          (HasArg-last args x) refl in
      guard-Extends (validate_identifier (column_of field)) (
        Extends-trans (IsSearched b q) (IsSearched-append b q) (args', parts ++ line ∷ []) (x ∷ [])
          (line ∷ []) refl refl (good, tt)
          (search_loop-Extends b q rest args' (parts ++ line ∷ []) later)))

-- The search clause is one more clause, or none.
add_search-Extends :
    (b : QueryBuilder) (q : Query) (p found : Parts) (args : List Arg)
    → found.0 ≡ p.0 ++ args
    → All (IsSearched b q found.0) found.1
    → Extends (IsClause b q) p (ok (add_search p.1 found))
add_search-Extends b q p (a, []) args e c = more _ args [] e (sym (append-nil p.1)) tt
add_search-Extends b q p (a, part ∷ parts) args e c =
    more _ args (_ ∷ []) e refl (closed (part ∷ parts) c refl, tt)

search_end :
    (b : QueryBuilder) (q : Query) (p : Parts) {m : Result QueryError Parts}
    → Extends (IsSearched b q) (p.0, []) m
    → Extends (IsClause b q) p (m >>= λ found. ok (add_search p.1 found))
search_end b q p (more found args texts e e' c) =
    add_search-Extends b q p found args e (subst (All (IsSearched b q found.0)) (sym e') c)
search_end b q p (failed e) = failed e

where_search-Extends :
    (b : QueryBuilder) (q : Query) (p : Parts)
    → Extends (IsClause b q) p (where_search b q.search p)
unfolding where_search
where_search-Extends b q (args, clauses) =
    if-Extends (q.search == []) (Extends-refl (args, clauses))
      (search_end b q (args, clauses) (search_loop-Extends b q b.allowed args [] (λ e i. i)))

filter_round-Extends :
    (b : QueryBuilder) (q : Query) (x : Filter) (o : Option AllowedField) (p : Parts)
    → In x q.filters
    → lookup x.field b.allowed ≡ o
    → Extends (IsClause b q) p (filter_round x o p)
unfolding filter_round quote_ident
filter_round-Extends b q x none p i found = failed _
filter_round-Extends b q x (some field) (args, clauses) i found =
    let n = length (args ++ text (filter_arg x) ∷ []) in
    unless-Extends field.filterable (failed _) (λ good.
      guard-Extends (validate_identifier (column_of field)) (
        more _ (_ ∷ []) (_ ∷ []) refl refl (
          comparison x field (sql_operator x.operator) n i found good (sql_operator_lem x.operator)
              (HasArg-last args (text (filter_arg x))) refl,
          tt,
        )))

where_filters-Extends :
    (b : QueryBuilder) (q : Query) (xs : List Filter) (p : Parts)
    → ((x : Filter) → In x xs → In x q.filters)
    → Extends (IsClause b q) p (where_filters b.allowed xs p)
unfolding where_filters
where_filters-Extends b q [] p among = Extends-refl p
where_filters-Extends b q (x ∷ xs) p among =
    Extends-bind (IsClause b q) (IsClause-append b q) (where_filters b.allowed xs)
      (filter_round-Extends b q x (lookup x.field b.allowed) p (among x (inl refl)) refl)
      (λ r. where_filters-Extends b q xs r (λ y i. among y (inr i)))

-- What stands behind the first clause: nothing, or " and " and the other clauses.
abbrev pub rest_of : List Str → Str
rest_of [] = []
rest_of (c ∷ cs) = lit " and " ++ join (c ∷ cs) (lit " and ")

first_clause : (c : Str) (cs : List Str) → where_text (c ∷ cs) ≡ lit " where " ++ (c ++ rest_of cs)
unfolding join
first_clause c [] = ap (λ z. lit " where " ++ z) (sym (append-nil c))
first_clause c (d ∷ cs) = refl

abbrev pub tenant_clause : QueryBuilder → Str
tenant_clause b = quoted b.tenant_column ++ lit " = $1"

tenant_parts :
    (b : QueryBuilder) (t : Str) {p : Parts}
    → b.tenant_column ≢ []
    → where_tenant b t ≡ ok p
    → p ≡ (text t ∷ [], tenant_clause b ∷ [])
unfolding where_tenant itoa quote_ident
tenant_parts b t n e = elim (Bool-cases (b.tenant_column == [])) [
  | inl none_named ↦ absurd (n ((str_beq_iff b.tenant_column []).0 none_named))
  | inr named ↦
      let (u, v, e') = >>=-eq-ok (validate_identifier b.tenant_column) _ (rw named at e) in
      sym (ok-injective e')
]

after_tenant :
    (t : Str) (b : QueryBuilder) (q : Query) {m : Result QueryError Parts} {w : Str}
    {args : List Arg}
    → Extends (IsClause b q) (text t ∷ [], tenant_clause b ∷ []) m
    → (m >>= λ p. ok (with_text p)) ≡ ok (w, args)
    → (rest : List Arg) × (cs : List Str) × (args ≡ text t ∷ rest)
      × (w ≡ lit " where " ++ (tenant_clause b ++ rest_of cs))
      × All (IsClause b q args) cs
after_tenant t b q (more found rest cs e e' c) h =
    let both = ok-injective h in
    (
      rest,
      cs,
      sym (ap (λ z. z.1) both) ∙ e,
      sym (ap (λ z. z.0) both) ∙ ap where_text e' ∙ first_clause (tenant_clause b) cs,
      subst (λ z. All (IsClause b q z) cs) (ap (λ z. z.1) both) c,
    )
after_tenant t b q (failed x) h = absurd (err≢ok h)

-- The statement below, of the condition's text and arguments.
abbrev pub IsTenantScoped : QueryBuilder → Query → Str → Str → List Arg → Type 0
IsTenantScoped b q t w args =
    (rest : List Arg) × (cs : List Str) × (args ≡ text t ∷ rest)
    × (w ≡ lit " where " ++ (tenant_clause b ++ rest_of cs))
    × All (IsClause b q args) cs

abbrev finish : QueryBuilder → Query → Result QueryError Parts → Result QueryError (Str × List Arg)
finish b q m =
    m >>= where_search b q.search >>= where_filters b.allowed q.filters >>= λ p. ok (with_text p)

finish_scoped :
    (b : QueryBuilder) (q : Query) (t : Str) (m : Result QueryError Parts) {w : Str}
    {args : List Arg}
    → ((p : Parts) → m ≡ ok p → p ≡ (text t ∷ [], tenant_clause b ∷ []))
    → finish b q m ≡ ok (w, args)
    → IsTenantScoped b q t w args
finish_scoped b q t (ok p) {w} {args} known h =
    let start : Parts = (text t ∷ [], tenant_clause b ∷ []) in
    after_tenant t b q
      (Extends-bind (IsClause b q) (IsClause-append b q) (where_filters b.allowed q.filters)
        (where_search-Extends b q start) (λ r. where_filters-Extends b q q.filters r (λ x i. i)))
      (subst (λ z. finish b q (ok z) ≡ ok (w, args)) (known p refl) h)
finish_scoped b q t (err e) known h = absurd (err≢ok h)

-- Where the builder has a tenant column, the condition of every query is that this column, in quotes,
-- equals the first argument, which is the tenant, and nothing or further clauses behind " and ". Each of
-- them compares the filterable field of a filter of the query, by =, ilike, >=, <=, > or <, with the
-- argument that has its value, or has, in parentheses with " or " between them, comparisons of searchable
-- fields by ilike with arguments that have the text of the search between percent signs.
pub build_where_tenant :
    (b : QueryBuilder) (q : Query) (t : Str) (w : Str) (args : List Arg)
    → b.tenant_column ≢ []
    → build_where b q t ≡ ok (w, args)
    → IsTenantScoped b q t w args
unfolding build_where where_parts
build_where_tenant b q t w args n h =
    finish_scoped b q t (where_tenant b t) (λ p e. tenant_parts b t n e) h
