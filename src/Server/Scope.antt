-- ===== src/Server/Scope.antt =====
-- The condition of a list query of pkg/server/store.go (`buildWhere`).
use gomyadmin.Base.{
  ◌≡◌, refl, sym, ap, ◌∙◌, inl, inr, Bool, true, false, not, ◌||◌, length, In, Option, none, some,
  List, [], ◌∷◌, ◌++◌, append_assoc, append-nil, Str, ◌==◌, str_eq, Bool-cases, Option-cases, All,
  All-append, All-map, subst,
}
use gomyadmin.Base.Result.{ok, ◌>>=◌, >>=-eq-ok, ok-injective, err≢ok}
use gomyadmin.Text.Number.{itoa}
use gomyadmin.Text.{lit, join}
use gomyadmin.Dict.{Dict}
use gomyadmin.Server.Clauses.{
  quoted, HasArg-last, IsSearched, searched, IsClause, comparison, closed, IsSearched-append,
  IsClause-append, sql_operator_lem,
}
use gomyadmin.Server.Meta.{FieldMeta, ResourceMeta, field_by_sql_name}
use gomyadmin.Server.Sql.{
  Value, text, Parts, condition, is_scoped, where_tenant, search_loop, add_search, where_search,
  field_operator, sql_operator, filter_arg, is_filterable, filter_round, where_filters, where_text,
  build_where, quote_ident,
}

module _ (resource : ResourceMeta) (search : Str) (filters : Dict Str) where
  -- The parts `q` go on from `p` with clauses of that form.
  record Extends (p q : Parts) : Type 0 where
    args : List Value
    clauses : List Str
    args_eq : q.0 ≡ p.0 ++ args
    clauses_eq : q.1 ≡ p.1 ++ clauses
    good : All (IsClause resource search filters q.0) clauses

  Extends-refl : (p : Parts) → Extends p p
  Extends-refl p = record {
    args = [];
    clauses = [];
    args_eq = sym (append-nil p.0);
    clauses_eq = sym (append-nil p.1);
    good = tt;
  }

  Extends-trans : (p q r : Parts) → Extends p q → Extends q r → Extends p r
  Extends-trans p q r h k =
      let grown : All (IsClause resource search filters r.0) h.clauses =
        subst (λ z. All (IsClause resource search filters z) h.clauses) (sym k.args_eq)
          (All-map (IsClause resource search filters q.0)
            (IsClause resource search filters (q.0 ++ k.args))
            (IsClause-append resource search filters q.0 k.args) h.clauses h.good) in
      record {
        args = h.args ++ k.args;
        clauses = h.clauses ++ k.clauses;
        args_eq = k.args_eq ∙ ap (λ z. z ++ k.args) h.args_eq ∙ append_assoc p.0 h.args k.args;
        clauses_eq =
            k.clauses_eq
            ∙ ap (λ z. z ++ k.clauses) h.clauses_eq
            ∙ append_assoc p.1 h.clauses k.clauses;
        good = All-append (IsClause resource search filters r.0) h.clauses k.clauses grown k.good;
      }

asked_for : (b c : Bool) → (not b || c) ≡ false → (b ≡ true) × (c ≡ false)
asked_for true false h = (refl, refl)
asked_for true true h = cc
asked_for false c h = cc

-- The search adds arguments, and parts of that form.
search_loop_lem :
    (resource : ResourceMeta) (s : Str) (fields : List FieldMeta) (p : Parts)
    → ((f : FieldMeta) → In f fields → In f resource.fields)
    → All (IsSearched resource s p.0) p.1
    → ((more : List Value) × ((search_loop s fields p).0 ≡ p.0 ++ more))
      × All (IsSearched resource s (search_loop s fields p).0) (search_loop s fields p).1
unfolding search_loop quote_ident
search_loop_lem resource s [] (args, parts) among good = (([], sym (append-nil args)), good)
search_loop_lem resource s (f ∷ fields) (args, parts) among good =
    let x = text (lit "%" ++ (s ++ lit "%")) in
    let args' = args ++ x ∷ [] in
    let line = condition f.sql_name (lit "::text ilike ") args' in
    let rest : (g : FieldMeta) → In g fields → In g resource.fields = λ g i. among g (inr i) in
    elim (Bool-cases (not f.searchable || f.hidden)) [
      | inl t ↦ rw (t, search_loop) (search_loop_lem resource s fields (args, parts) rest good)
      | inr n ↦
          let (asked, plain) = asked_for f.searchable f.hidden n in
          let here : IsSearched resource s args' line =
            searched f (length args') (among f (inl refl)) asked plain (HasArg-last args x) refl in
          let before : All (IsSearched resource s args') parts =
            All-map (IsSearched resource s args) (IsSearched resource s args')
              (IsSearched-append resource s args (x ∷ [])) parts good in
          let (more, all) =
            search_loop_lem resource s fields (args', parts ++ line ∷ []) rest
              (All-append (IsSearched resource s args') parts (line ∷ []) before (here, tt)) in
          rw (n, search_loop) ((_ ∷ more.0, more.1 ∙ append_assoc args (_ ∷ []) more.0), all)
    ]

filterable_field :
    (o : Option FieldMeta)
    → is_filterable o ≡ true
    → (f : FieldMeta) × (o ≡ some f) × (f.filterable ≡ true)
filterable_field none h = cc
filterable_field (some f) h = (f, refl, h)

module _ (resource : ResourceMeta) (search : Str) (filters : Dict Str) where
  add_search-Extends :
      (p q : Parts) (more : List Value)
      → q.0 ≡ p.0 ++ more
      → All (IsSearched resource search q.0) q.1
      → Extends resource search filters p (add_search p.1 q)
  add_search-Extends p (args, []) more e good = record {
    args = more;
    clauses = [];
    args_eq = e;
    clauses_eq = sym (append-nil p.1);
    good = tt;
  }
  add_search-Extends p (args, part ∷ parts) more e good = record {
    args = more;
    clauses = _ ∷ [];
    args_eq = e;
    clauses_eq = refl;
    good = (closed (part ∷ parts) good refl, tt);
  }

  where_search-Extends :
      (p : Parts) → Extends resource search filters p (where_search resource search p)
  unfolding where_search
  where_search-Extends (args, clauses) = elim (Bool-cases (search == [])) [
    | inl t ↦ rw t (Extends-refl resource search filters (args, clauses))
    | inr n ↦
        let (found, good) =
          search_loop_lem resource search resource.fields (args, []) (λ f i. i) tt in
        rw n (
          add_search-Extends (args, clauses) (search_loop search resource.fields (args, [])) found.0
            found.1 good)
  ]

  filter_round-Extends :
      (key value : Str) (p q : Parts)
      → In (key, value) filters
      → filter_round resource key value p ≡ ok q
      → Extends resource search filters p q
  unfolding filter_round quote_ident
  filter_round-Extends key value (args, clauses) q i h =
      let name = (field_operator key).0 in
      let operator = (field_operator key).1 in
      let x = text (filter_arg operator value) in
      let args' = args ++ x ∷ [] in
      elim (Bool-cases (value == [])) [
        | inl t ↦
            let e : (args, clauses) ≡ q = ok-injective (rw t at h) in
            rw (sym e) (Extends-refl resource search filters (args, clauses))
        | inr n ↦ elim (Bool-cases (is_filterable (field_by_sql_name resource name))) [
          | inr n' ↦ absurd (err≢ok (rw (n, n') at h))
          | inl t' ↦
              let f = filterable_field (field_by_sql_name resource name) t' in
              elim (Option-cases (sql_operator operator)) [
                | inl o ↦ absurd (err≢ok (rw (n, t', o) at h))
                | inr (symbol, o) ↦
                    let e : (args', clauses ++ condition name symbol args' ∷ []) ≡ q =
                      ok-injective (rw (n, t', o) at h) in
                    rw (sym e) (record {
                      args = _ ∷ [];
                      clauses = _ ∷ [];
                      args_eq = refl;
                      clauses_eq = refl;
                      good = (
                        comparison f.0 key value symbol (length args') i f.1 f.2
                            (sql_operator_lem operator symbol o) (HasArg-last args x) refl,
                        tt,
                      );
                    })
              ]
        ]
      ]

  where_filters-Extends :
      (left : Dict Str) (p q : Parts)
      → ((e : Str × Str) → In e left → In e filters)
      → where_filters resource left p ≡ ok q
      → Extends resource search filters p q
  unfolding where_filters
  where_filters-Extends [] p q among h =
      rw (sym (ok-injective h)) (Extends-refl resource search filters p)
  where_filters-Extends ((key, value) ∷ rest) p q among h =
      let one = >>=-eq-ok (filter_round resource key value p) _ h in
      Extends-trans resource search filters p one.0 q
        (filter_round-Extends key value p one.0 (among (key, value) (inl refl)) one.1)
        (where_filters-Extends rest one.0 q (λ e i. among e (inr i)) one.2)

first_clause :
    (q : Parts) (line : Str) (clauses : List Str) (more args : List Value) (sql : Str)
    → q.0 ≡ more
    → q.1 ≡ line ∷ clauses
    → where_text q ≡ (sql, args)
    → (sql ≡ lit " where " ++ join (line ∷ clauses) (lit " and ")) × (args ≡ more)
first_clause (found, []) line clauses more args sql e d h = absurd (cc d)
first_clause (found, c ∷ cs) line clauses more args sql e d h = (
  sym (ap (λ p. p.0) h) ∙ ap (λ z. lit " where " ++ join z (lit " and ")) d,
  sym (ap (λ p. p.1) h) ∙ e,
)

-- For a resource with a tenant and a role other than super_admin, the condition of every list query
-- begins with the comparison of the tenant's column, in quotes, with the first argument, which is the
-- tenant. Each further clause, behind " and ", compares the filterable field of a filter, by =, ilike, >=,
-- <=, > or < on its text, with the argument that has its value, or has, in parentheses with " or " between
-- them, comparisons by ilike of searchable fields that are not hidden with arguments that have the text of
-- the search between percent signs.
pub build_where_scoped :
    (resource : ResourceMeta) (tenant_id role asked : Str) (filters : Dict Str) (sql : Str)
    (args : List Value)
    → is_scoped resource role ≡ true
    → build_where resource tenant_id role asked filters ≡ ok (sql, args)
    → (clauses : List Str) × (rest : List Value) × (sql
        ≡ lit " where "
          ++ join ((quoted resource.tenant_key ++ lit " = $1") ∷ clauses) (lit " and "))
      × (args ≡ text tenant_id ∷ rest)
      × All (IsClause resource asked filters args) clauses
unfolding build_where where_tenant quote_ident itoa
build_where_scoped resource tenant_id role asked filters sql args scoped h =
    let start : Parts =
      (text tenant_id ∷ [], condition resource.tenant_key (lit " = ") (text tenant_id ∷ []) ∷ []) in
    let searched = where_search resource asked start in
    let h' : (where_filters resource filters searched >>= λ p. ok (where_text p)) ≡ ok (sql, args) =
      rw scoped at h in
    let one = >>=-eq-ok (where_filters resource filters searched) (λ p. ok (where_text p)) h' in
    let all =
      Extends-trans resource asked filters start searched one.0
        (where_search-Extends resource asked filters start)
        (where_filters-Extends resource asked filters filters searched one.0 (λ e i. i) one.1) in
    let text_of =
      first_clause one.0 _ all.clauses (text tenant_id ∷ all.args) args sql all.args_eq
        all.clauses_eq (ok-injective one.2) in
    (
      all.clauses,
      all.args,
      text_of.0,
      text_of.1,
      subst (λ z. All (IsClause resource asked filters z) all.clauses) (all.args_eq ∙ sym text_of.1)
          all.good,
    )
