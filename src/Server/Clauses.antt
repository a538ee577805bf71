-- ===== src/Server/Clauses.antt =====
-- What a clause of the condition of a list query is (`buildWhere` of pkg/server/store.go).
use gomyadmin.Base.{
  ◌≡◌, refl, sym, ap, ◌∙◌, inl, inr, ℕ, true, false, ◌||◌, length, In, some-injective, some, List,
  [], ◌∷◌, ◌++◌, append_assoc, Str, ◌==◌, str_eq, Bool-cases, All, All-map, length-append, arith,
  ◌+◌,
}
use gomyadmin.Text.Number.{itoa}
use gomyadmin.Text.{lit, join, replace_byte}
use gomyadmin.Dict.{Dict}
use gomyadmin.Server.Meta.{FieldMeta, ResourceMeta, field_by_sql_name}
use gomyadmin.Server.Sql.{Value, text, field_operator, sql_operator, filter_arg}

-- The name of a column in the quotes of SQL, with its own quotes doubled
abbrev pub quoted : Str → Str
quoted column = lit "\"" ++ (replace_byte column b'"' (lit "\"\"") ++ lit "\"")

-- One comparison of a column with a numbered argument
abbrev pub quoted_comparison : Str → Str → ℕ → Str
quoted_comparison column operator n = quoted column ++ (operator ++ (lit "$" ++ itoa n))

-- The argument of number `n`, from 1 on, is `x`.
abbrev pub HasArg : List Value → ℕ → Value → Type 0
HasArg args n x =
    (before : List Value) × (after : List Value) × (args ≡ before ++ x ∷ after)
    × (n ≡ length before + 1)

pub HasArg-last :
    (args : List Value) (x : Value) → HasArg (args ++ x ∷ []) (length (args ++ x ∷ [])) x
HasArg-last args x = (args, [], refl, omega (arith, length-append {0} args (x ∷ [])))

HasArg-append :
    (args more : List Value) (n : ℕ) (x : Value) → HasArg args n x → HasArg (args ++ more) n x
HasArg-append args more n x (before, after, e, k) =
    (before, after ++ more, ap (λ z. z ++ more) e ∙ append_assoc before (x ∷ after) more, k)

-- A part of a search compares a searchable field that is not hidden with the argument that has the text
-- of the search between percent signs.
pub data IsSearched (resource : ResourceMeta) (search : Str) (args : List Value) (part : Str)
    : Type 0 where
  searched :
      (f : FieldMeta) (n : ℕ)
      → In f resource.fields
      → f.searchable ≡ true
      → f.hidden ≡ false
      → HasArg args n (text (lit "%" ++ (search ++ lit "%")))
      → part ≡ quoted_comparison f.sql_name (lit "::text ilike ") n
      → IsSearched resource search args part

-- The operators of a filter
abbrev pub operators : List Str
operators =
    lit "::text = "
    ∷ lit "::text ilike "
    ∷ lit "::text >= "
    ∷ lit "::text <= "
    ∷ lit "::text > "
    ∷ lit "::text < "
    ∷ []

-- A clause compares the filterable field of a filter by one of these operators with the argument that
-- has the value of the filter, or is the parts of a search with " or " between them and in parentheses.
pub data IsClause (resource : ResourceMeta) (search : Str) (filters : Dict Str) (args : List Value)
    (c : Str) : Type 0 where
  comparison :
      (f : FieldMeta) (key value operator : Str) (n : ℕ)
      → In (key, value) filters
      → field_by_sql_name resource (field_operator key).0 ≡ some f
      → f.filterable ≡ true
      → In operator operators
      → HasArg args n (text (filter_arg (field_operator key).1 value))
      → c ≡ quoted_comparison (field_operator key).0 operator n
      → IsClause resource search filters args c
  closed :
      (parts : List Str)
      → All (IsSearched resource search args) parts
      → c ≡ lit "(" ++ (join parts (lit " or ") ++ lit ")")
      → IsClause resource search filters args c

pub IsSearched-append :
    (resource : ResourceMeta) (search : Str) (args more : List Value) (part : Str)
    → IsSearched resource search args part
    → IsSearched resource search (args ++ more) part
IsSearched-append resource search args more part (searched f n i asked plain x e) =
    searched f n i asked plain (HasArg-append args more n _ x) e

module _ (resource : ResourceMeta) (search : Str) (filters : Dict Str) where
  pub IsClause-append :
      (args more : List Value) (c : Str)
      → IsClause resource search filters args c
      → IsClause resource search filters (args ++ more) c
  IsClause-append args more c (comparison f key value operator n i found good o x e) =
      comparison f key value operator n i found good o (HasArg-append args more n _ x) e
  IsClause-append args more c (closed parts all e) =
      closed parts
        (All-map (IsSearched resource search args) (IsSearched resource search (args ++ more))
          (IsSearched-append resource search args more) parts all)
        e

pub sql_operator_lem : (o symbol : Str) → sql_operator o ≡ some symbol → In symbol operators
unfolding sql_operator
sql_operator_lem o symbol h = elim (Bool-cases (o == lit "eq")) [
  | inl a ↦ inl (sym (some-injective (rw (sql_operator, a) at h)))
  | inr a ↦
      elim (Bool-cases (o == lit "contains" || (o == lit "starts_with" || o == lit "ends_with"))) [
        | inl b ↦ inr (inl (sym (some-injective (rw (sql_operator, a, b) at h))))
        | inr b ↦ elim (Bool-cases (o == lit "gte")) [
          | inl c ↦ inr (inr (inl (sym (some-injective (rw (sql_operator, a, b, c) at h)))))
          | inr c ↦ elim (Bool-cases (o == lit "lte")) [
            | inl d ↦
                inr (inr (inr (inl (sym (some-injective (rw (sql_operator, a, b, c, d) at h))))))
            | inr d ↦ elim (Bool-cases (o == lit "gt")) [
              | inl f ↦ inr (
                  inr (
                    inr (inr (inl (sym (some-injective (rw (sql_operator, a, b, c, d, f) at h)))))))
              | inr f ↦ elim (Bool-cases (o == lit "lt")) [
                | inl g ↦ inr (
                    inr (
                      inr (
                        inr (
                          inr (
                            inl
                              (sym (some-injective (rw (sql_operator, a, b, c, d, f, g) at h))))))))
                | inr g ↦ absurd (cc (rw (sql_operator, a, b, c, d, f, g) at h))
              ]
            ]
          ]
        ]
      ]
]
