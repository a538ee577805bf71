-- ===== src/Paging.antt =====
-- pkg/pagination/pagination.go
pub mod Bounds
mod Tests
use gomyadmin.Base.{
  ℕ, zero, suc, ◌+◌, ◌-◌, ◌*◌, Option, none, some, List, [], ◌∷◌, Str, ◌==◌, nat_eq, str_eq, ltb,
  if◌then◌else◌,
}
use gomyadmin.Base.Int.{ℤ, pos, negsuc, wrap, wrap_nat, add_nat, sub_one, quot}
use gomyadmin.Text.{lit}
use gomyadmin.Text.Number.{atoi}
use gomyadmin.Dict.{Dict, lookup}

abbrev pub default_page : ℕ
default_page = 1

abbrev pub default_per_page : ℕ
default_per_page = 25

abbrev pub max_per_page : ℕ
max_per_page = 100

-- `type Page struct`. `Parse` sets the other fields to positive numbers, and the offset is an `int`.
pub record Page : Type 0 where
  pub page : ℕ
  pub per_page : ℕ
  pub offset : ℤ
  pub limit : ℕ

-- `url.Values` and its `Get`: the first value of a key, or "".
abbrev pub Values : Type 0
Values = Dict (List Str)

unfoldable pub get : Values → Str → Str
unfolding lookup
get values key = elim (lookup key values) [ none ↦ [] | some vs ↦ elim vs [ [] ↦ [] | v ∷ _ ↦ v ] ]

-- `func parsePositive`
unfoldable pub parse_positive : Str → ℕ → ℕ
parse_positive value fallback = elim (atoi value) [
  | none ↦ fallback
  | some n ↦ elim n [ pos k ↦ if k == 0 then fallback else k | negsuc _ ↦ fallback ]
]

-- `func first`
unfoldable pub first : List Str → Str
first [] = []
first (value ∷ rest) = if value == [] then first rest else value

abbrev bounded : ℕ → ℕ
bounded n = if ltb max_per_page n then max_per_page else n

-- `func Parse`
unfoldable pub parse : Values → Page
parse values =
    let page = parse_positive (get values (lit "page")) default_page in
    let per_page = bounded (
      parse_positive (first (get values (lit "per_page") ∷ get values (lit "limit") ∷ []))
        default_per_page) in
    record {
      page = page;
      per_page = per_page;
      offset = wrap_nat ((page - 1) * per_page);
      limit = per_page;
    }

-- `func Meta`: the entries of the map that it returns.
pub record PageMeta : Type 0 where
  pub page : ℕ
  pub per_page : ℕ
  pub total : ℤ
  pub pages : ℤ

unfoldable pub meta : Page → ℤ → PageMeta
meta p total = record {
  page = p.page;
  per_page = p.per_page;
  total = total;
  pages =
      if ltb 0 p.per_page
      then quot (wrap (sub_one (wrap (add_nat total p.per_page)))) p.per_page
      else pos 0;
}
