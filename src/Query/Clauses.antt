-- ===== src/Query/Clauses.antt =====
-- What a clause of a condition is (pkg/postgres/query.go, `where`).
use gomyadmin.Base.{
  ◌≡◌, refl, ap, ◌∙◌, inl, inr, true, some, List, [], ◌∷◌, ◌++◌, append_assoc, ℕ, ◌||◌, length, In,
  Str, ◌==◌, str_eq, Bool-cases, All, All-map, length-append, arith, ◌+◌,
}
use gomyadmin.Text.{lit, join, replace_byte}
use gomyadmin.Text.Number.{itoa}
use gomyadmin.Dict.{lookup}
use gomyadmin.Filters.{AllowedField, Filter, Query}
use gomyadmin.Query.{QueryBuilder, Arg, text, sql_operator, filter_arg, column_of}

-- The name of a column in the quotes of SQL, with its own quotes doubled
abbrev pub quoted : Str → Str
quoted column = lit "\"" ++ (replace_byte column b'"' (lit "\"\"") ++ lit "\"")

-- One comparison of a column with a numbered argument
abbrev pub quoted_comparison : Str → Str → ℕ → Str
quoted_comparison column operator n =
    quoted column ++ (lit " " ++ (operator ++ (lit " $" ++ itoa n)))

-- The argument of number `n`, from 1 on, is `x`.
abbrev pub HasArg : List Arg → ℕ → Arg → Type 0
HasArg args n x =
    (before : List Arg) × (after : List Arg) × (args ≡ before ++ x ∷ after)
    × (n ≡ length before + 1)

pub HasArg-last : (args : List Arg) (x : Arg) → HasArg (args ++ x ∷ []) (length (args ++ x ∷ [])) x
HasArg-last args x = (args, [], refl, omega (arith, length-append {0} args (x ∷ [])))

HasArg-append :
    (args more : List Arg) (n : ℕ) (x : Arg) → HasArg args n x → HasArg (args ++ more) n x
HasArg-append args more n x (before, after, e, k) =
    (before, after ++ more, ap (λ z. z ++ more) e ∙ append_assoc before (x ∷ after) more, k)

-- A part of a search compares a searchable field of the builder by ilike with the argument that has the
-- text of the search between percent signs.
pub data IsSearched (b : QueryBuilder) (q : Query) (args : List Arg) (part : Str) : Type 0 where
  searched :
      (name : Str) (field : AllowedField) (n : ℕ)
      → In (name, field) b.allowed
      → field.searchable ≡ true
      → HasArg args n (text (lit "%" ++ (q.search ++ lit "%")))
      → part ≡ quoted_comparison (column_of field) (lit "ilike") n
      → IsSearched b q args part

-- A clause compares the filterable field of a filter of the query by one of six operators with the
-- argument that has the value of the filter, or is the parts of a search with " or " between them and in
-- parentheses.
pub data IsClause (b : QueryBuilder) (q : Query) (args : List Arg) (c : Str) : Type 0 where
  comparison :
      (filter : Filter) (field : AllowedField) (operator : Str) (n : ℕ)
      → In filter q.filters
      → lookup filter.field b.allowed ≡ some field
      → field.filterable ≡ true
      → In operator (lit "=" ∷ lit "ilike" ∷ lit ">=" ∷ lit "<=" ∷ lit ">" ∷ lit "<" ∷ [])
      → HasArg args n (text (filter_arg filter))
      → c ≡ quoted_comparison (column_of field) operator n
      → IsClause b q args c
  closed :
      (parts : List Str)
      → All (IsSearched b q args) parts
      → c ≡ lit "(" ++ (join parts (lit " or ") ++ lit ")")
      → IsClause b q args c

pub IsSearched-append :
    (b : QueryBuilder) (q : Query) (args more : List Arg) (part : Str)
    → IsSearched b q args part
    → IsSearched b q (args ++ more) part
IsSearched-append b q args more part (searched name field n i asked x e) =
    searched name field n i asked (HasArg-append args more n _ x) e

pub IsClause-append :
    (b : QueryBuilder) (q : Query) (args more : List Arg) (c : Str)
    → IsClause b q args c
    → IsClause b q (args ++ more) c
IsClause-append b q args more c (comparison filter field operator n i found good o x e) =
    comparison filter field operator n i found good o (HasArg-append args more n _ x) e
IsClause-append b q args more c (closed parts all e) =
    closed parts
      (All-map (IsSearched b q args) (IsSearched b q (args ++ more))
        (IsSearched-append b q args more) parts all)
      e

pub sql_operator_lem :
    (o : Str)
    → In (sql_operator o) (lit "=" ∷ lit "ilike" ∷ lit ">=" ∷ lit "<=" ∷ lit ">" ∷ lit "<" ∷ [])
unfolding sql_operator
sql_operator_lem o =
    elim (Bool-cases (o == lit "contains" || (o == lit "starts_with" || o == lit "ends_with"))) [
      | inl a ↦ rw (sql_operator, a) (inr (inl refl))
      | inr a ↦ elim (Bool-cases (o == lit "gte")) [
        | inl b ↦ rw (sql_operator, a, b) (inr (inr (inl refl)))
        | inr b ↦ elim (Bool-cases (o == lit "lte")) [
          | inl c ↦ rw (sql_operator, a, b, c) (inr (inr (inr (inl refl))))
          | inr c ↦ elim (Bool-cases (o == lit "gt")) [
            | inl d ↦ rw (sql_operator, a, b, c, d) (inr (inr (inr (inr (inl refl)))))
            | inr d ↦ elim (Bool-cases (o == lit "lt")) [
              | inl f ↦ rw (sql_operator, a, b, c, d, f) (inr (inr (inr (inr (inr (inl refl))))))
              | inr f ↦ rw (sql_operator, a, b, c, d, f) (inl refl)
            ]
          ]
        ]
      ]
    ]
