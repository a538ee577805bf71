-- ===== src/Filters/Checked.antt =====
-- A query that is accepted names allowed fields only (pkg/filters/filters.go).
use gomyadmin.Base.{
  ◌≡◌, refl, subst, ◌≢◌, inl, inr, Bool, true, Option, none, some, List, [], ◌∷◌, Str, ◌==◌, str_eq,
  arith, str_beq_iff, Bool-cases, Option-cases, All, All-append,
}
use gomyadmin.Base.Result.{ok, >>=-eq-ok, ok-injective, err≢ok}
use gomyadmin.Text.{lit, has_prefix, trim_space, trim_prefix, split_byte}
use gomyadmin.Dict.{Dict, lookup}
use gomyadmin.Paging
use gomyadmin.Paging.{Values}
use gomyadmin.Filters.{
  AllowedField, Sort, Filter, Query, operator_allowed, allows, sort_loop, parse_sort,
  parse_filter_key, checked_filter, read_filter, filter_loop, parse_filters, parse,
}

-- The field of a sort is allowed and sortable.
abbrev pub IsSortable : Dict AllowedField → Sort → Type 0
IsSortable allowed s = (f : AllowedField) × (lookup s.field allowed ≡ some f) × (f.sortable ≡ true)

-- The field of a filter is allowed and filterable, its type has the operator, and its value is given.
abbrev pub IsFilterable : Dict AllowedField → Filter → Type 0
IsFilterable allowed x =
    (f : AllowedField) × (lookup x.field allowed ≡ some f)
    × (f.filterable ≡ true)
    × (operator_allowed f.kind x.operator ≡ true)
    × (x.value ≢ [])

allows_sound :
    (test : AllowedField → Bool) (o : Option AllowedField)
    → allows test o ≡ true
    → (f : AllowedField) × (o ≡ some f) × (test f ≡ true)
unfolding allows
allows_sound test none h = cc
allows_sound test (some f) h = (f, refl, h)

sort_loop_checked :
    (allowed : Dict AllowedField) (parts : List Str) (sorts : List Sort) {out : List Sort}
    → All (IsSortable allowed) sorts
    → sort_loop allowed parts sorts ≡ ok out
    → All (IsSortable allowed) out
unfolding sort_loop
sort_loop_checked allowed [] sorts h e = subst (All (IsSortable allowed)) (ok-injective e) h
sort_loop_checked allowed (raw ∷ rest) sorts h e =
    let field = trim_prefix (trim_space raw) (lit "-") in
    elim (Bool-cases (trim_space raw == [])) [
      | inl blank ↦ sort_loop_checked allowed rest sorts h (rw blank at e)
      | inr given ↦ elim (Bool-cases (allows (λ f. f.sortable) (lookup field allowed))) [
        | inl good ↦
            sort_loop_checked allowed rest _
              (All-append (IsSortable allowed) sorts _ h (allows_sound _ _ good, tt))
              (rw (given, good) at e)
        | inr bad ↦ absurd (err≢ok (rw (given, bad) at e))
      ]
    ]

checked_filter_sound :
    (allowed : Dict AllowedField) (field op value : Str) (o : Option AllowedField) {x : Filter}
    → value ≢ []
    → lookup field allowed ≡ o
    → checked_filter field op value o ≡ ok x
    → IsFilterable allowed x
unfolding checked_filter
checked_filter_sound allowed field op value none v l e = cc
checked_filter_sound allowed field op value (some f) {x} v l e =
    (f, ground arith, ground arith, ground arith, ground arith)

read_filter_sound :
    (allowed : Dict AllowedField) (key value : Str) {x : Filter}
    → value ≢ []
    → read_filter allowed key value ≡ ok x
    → IsFilterable allowed x
unfolding read_filter
read_filter_sound allowed key value v e = elim (Option-cases (parse_filter_key key)) [
  | inl bad ↦ absurd (err≢ok (rw (bad, read_filter) at e))
  | inr ((field, op), good) ↦
      checked_filter_sound allowed field op value (lookup field allowed) v refl
        (rw (good, read_filter) at e)
]

filter_loop_checked :
    (values : Values) (allowed : Dict AllowedField) (ks : List Str) (out : List Filter)
    {res : List Filter}
    → All (IsFilterable allowed) out
    → filter_loop values allowed ks out ≡ ok res
    → All (IsFilterable allowed) res
unfolding filter_loop
filter_loop_checked values allowed [] out h e =
    subst (All (IsFilterable allowed)) (ok-injective e) h
filter_loop_checked values allowed (key ∷ rest) out h e =
    let value = Paging.get values key in
    elim (Bool-cases (has_prefix key (lit "filter["))) [
      | inr other ↦ filter_loop_checked values allowed rest out h (rw other at e)
      | inl named ↦ elim (Bool-cases (value == [])) [
        | inl blank ↦ filter_loop_checked values allowed rest out h (rw (named, blank) at e)
        | inr given ↦
            let (x, read, after) =
              >>=-eq-ok (read_filter allowed key value) _ (rw (named, given) at e) in
            let v : value ≢ [] = λ z. cc (given, (str_beq_iff value []).1 z) in
            filter_loop_checked values allowed rest _
              (All-append (IsFilterable allowed) out _ h
                (read_filter_sound allowed key value v read, tt))
              after
      ]
    ]

parse_sort_checked :
    (value : Str) (allowed : Dict AllowedField) {sorts : List Sort}
    → parse_sort value allowed ≡ ok sorts
    → All (IsSortable allowed) sorts
unfolding parse_sort
parse_sort_checked value allowed e = elim (Bool-cases (trim_space value == [])) [
  | inl blank ↦ subst (All (IsSortable allowed)) (ok-injective (rw blank at e)) tt
  | inr given ↦ sort_loop_checked allowed (split_byte value b',') [] tt (rw given at e)
]

-- Every sort of an accepted query is by an allowed and sortable field, and every filter is on an
-- allowed and filterable field, by an operator of the field's type, with a value that is not empty.
pub parse_checked :
    (values : Values) (allowed : Dict AllowedField) (q : Query)
    → parse values allowed ≡ ok q
    → All (IsSortable allowed) q.sorts × All (IsFilterable allowed) q.filters
unfolding parse parse_filters
parse_checked values allowed q e =
    let (sorts, es, e') = >>=-eq-ok (parse_sort (Paging.get values (lit "sort")) allowed) _ e in
    let (filters, ef, e'') = >>=-eq-ok (parse_filters values allowed) _ e' in
    subst (λ (x : Query). All (IsSortable allowed) x.sorts × All (IsFilterable allowed) x.filters)
      (ok-injective e'')
      (
        parse_sort_checked (Paging.get values (lit "sort")) allowed es,
        filter_loop_checked values allowed _ [] tt ef,
      )
