-- ===== src/SqlStore/Text.antt =====
-- The question marks in the clauses of pkg/adapters/sqlstore/sqlstore.go.
use gomyadmin.Base.{
  ℕ, arith, ◌+◌, ◌≡◌, refl, inl, inr, Bool-cases, some, List, [], ◌∷◌, ◌++◌, Str, ◌==◌, nat_eq,
  str_eq, if◌then◌else◌,
}
use gomyadmin.Text.{lit, join, replace_byte}
use gomyadmin.Text.Laws.{Lacks}
use gomyadmin.SqlStore.{
  Dialect, mysql, sqlite, other, quote, placeholder, equals, is_like, filter_clause,
}

-- How many of the bytes are question marks.
abbrev pub marks_in : Str → ℕ
marks_in [] = 0
marks_in (c ∷ s) = (if c == b'?' then 1 else 0) + marks_in s

abbrev pub marks_all : List Str → ℕ
marks_all [] = 0
marks_all (s ∷ rest) = marks_in s + marks_all rest

pub marks_in-append : (s t : Str) → marks_in (s ++ t) ≡ marks_in s + marks_in t
marks_in-append [] t = omega arith
marks_in-append (c ∷ s) t = let later = marks_in-append s t in omega (arith, later)

pub marks_all-append : (ss ts : List Str) → marks_all (ss ++ ts) ≡ marks_all ss + marks_all ts
marks_all-append [] ts = omega arith
marks_all-append (s ∷ ss) ts = let later = marks_all-append ss ts in omega (arith, later)

pub marks_in-join :
    (ss : List Str) (sep : Str) → marks_in sep ≡ 0 → marks_in (join ss sep) ≡ marks_all ss
unfolding join
marks_in-join [] sep h = refl
marks_in-join (s ∷ []) sep h = omega arith
marks_in-join (s ∷ t ∷ more) sep h =
    let later = marks_in-join (t ∷ more) sep h in
    let outer = marks_in-append s (sep ++ join (t ∷ more) sep) in
    let inner = marks_in-append sep (join (t ∷ more) sep) in omega (arith, later, outer, inner, h)

marks_in-Lacks : (s : Str) → Lacks b'?' s → marks_in s ≡ 0
marks_in-Lacks [] h = refl
marks_in-Lacks (c ∷ s) h = let later = marks_in-Lacks s h.1 in ground (arith, later)

marks_in-replace_byte :
    (s : Str) (c : ℕ) (new : Str)
    → Lacks b'?' s
    → marks_in new ≡ 0
    → marks_in (replace_byte s c new) ≡ 0
unfolding replace_byte
marks_in-replace_byte [] c new h n = refl
marks_in-replace_byte (d ∷ s) c new h n =
    let later = marks_in-replace_byte s c new h.1 n in
    let here = h.0 in
    elim (Bool-cases (d == c)) [
      | inl b ↦ rw b (omega (arith, marks_in-append new (replace_byte s c new), later, n))
      | inr b ↦ rw b (ground (arith, later))
    ]

-- A text without a mark around a name without one.
marks_in-around :
    (s name t : Str) → marks_in s ≡ 0 → marks_in name ≡ 0 → marks_in (s ++ (name ++ t)) ≡ marks_in t
marks_in-around s name t h n =
    let outer = marks_in-append s (name ++ t) in
    let inner = marks_in-append name t in omega (arith, outer, inner, h, n)

marks_in-quote :
    (dialect : Dialect) (name : Str) → Lacks b'?' name → marks_in (quote dialect name) ≡ 0
unfolding quote
marks_in-quote mysql name h =
    marks_in-around (lit "`") (replace_byte name b'`' (lit "``")) (lit "`") refl
      (marks_in-replace_byte name b'`' (lit "``") h refl)
marks_in-quote sqlite name h =
    marks_in-around (lit "\"") (replace_byte name b'"' (lit "\"\"")) (lit "\"") refl
      (marks_in-replace_byte name b'"' (lit "\"\"") h refl)
marks_in-quote (other o) name h =
    marks_in-around (lit "\"") (replace_byte name b'"' (lit "\"\"")) (lit "\"") refl
      (marks_in-replace_byte name b'"' (lit "\"\"") h refl)

marks_in-compared :
    (dialect : Dialect) (name operator : Str)
    → Lacks b'?' name
    → marks_in operator ≡ 0
    → marks_in (quote dialect name ++ (operator ++ placeholder)) ≡ 1
marks_in-compared dialect name operator h o =
    marks_in-around (quote dialect name) operator placeholder (marks_in-quote dialect name h) o

pub marks_in-equals :
    (dialect : Dialect) (name : Str) → Lacks b'?' name → marks_in (equals dialect name) ≡ 1
unfolding equals
marks_in-equals dialect name h = marks_in-compared dialect name (lit " = ") h refl

pub marks_in-is_like :
    (dialect : Dialect) (name : Str) → Lacks b'?' name → marks_in (is_like dialect name) ≡ 1
unfolding is_like
marks_in-is_like dialect name h =
    marks_in-around (lit "lower(cast(") (quote dialect name)
      (lit " as char)) like lower(" ++ (placeholder ++ lit ")")) refl
      (marks_in-quote dialect name h)

marks_in-cast :
    (dialect : Dialect) (name : Str)
    → Lacks b'?' name
    → marks_in (lit "cast(" ++ (quote dialect name ++ (lit " as char) = " ++ placeholder))) ≡ 1
marks_in-cast dialect name h =
    marks_in-around (lit "cast(") (quote dialect name) (lit " as char) = " ++ placeholder) refl
      (marks_in-quote dialect name h)

pub marks_in-filter_clause :
    (dialect : Dialect) (name operator clause : Str)
    → Lacks b'?' name
    → filter_clause dialect name operator ≡ some clause
    → marks_in clause ≡ 1
unfolding filter_clause
marks_in-filter_clause dialect name operator clause h e =
    let m = marks_in-is_like dialect name h in
    let n = marks_in-cast dialect name h in
    let ge = marks_in-compared dialect name (lit " >= ") h refl in
    let le = marks_in-compared dialect name (lit " <= ") h refl in
    let gt = marks_in-compared dialect name (lit " > ") h refl in
    let lt = marks_in-compared dialect name (lit " < ") h refl in
    ground (arith, m, n, ge, le, gt, lt)
