-- ===== src/Paging/Bounds.antt =====
-- Bounds of the page that `Parse` describes, and the page count of `Meta`.
use gomyadmin.Base.{
  ℕ, suc, ◌+◌, ◌-◌, ◌*◌, ◌/◌, ◌≤◌, ◌<◌, ◌≡◌, ap, ◌∙◌, [], ◌∷◌, Str, arith, Option-cases, inl, inr,
}
use gomyadmin.Base.Int.{sub_one, pos, negsuc, max_int, wrap, wrap_nat_small, wrap_nat_large, quot}
use gomyadmin.Text.{lit}
use gomyadmin.Text.Number.{atoi, atoi-le}
use gomyadmin.Paging.{Page, Values, get, parse_positive, first, parse, meta}

parse_positive_bounds :
    (s : Str) (d : ℕ)
    → 0 < d
    → d ≤ max_int
    → (0 < parse_positive s d) × (parse_positive s d ≤ max_int)
unfolding parse_positive
parse_positive_bounds s d h k = elim (Option-cases (atoi s)) [
  | inl e ↦ ground arith
  | inr (pos n, e) ↦ ground (arith, atoi-le s n e)
  | inr (negsuc n, e) ↦ ground arith
]

-- Whatever the query, the page is a positive `int` and the page size is between 1 and 100.
pub parse_bounds :
    (values : Values)
    → (0 < (parse values).page)
      × ((parse values).page ≤ max_int)
      × (0 < (parse values).per_page)
      × ((parse values).per_page ≤ 100)
      × ((parse values).limit ≡ (parse values).per_page)
unfolding parse
parse_bounds values =
    let p = parse_positive_bounds (get values (lit "page")) 1 (omega arith) (omega arith) in
    let q =
      parse_positive_bounds (first (get values (lit "per_page") ∷ get values (lit "limit") ∷ [])) 25
        (omega arith) (omega arith) in
    ground arith

-- The offset is (page - 1) * per_page where that fits in an `int`.
pub parse_offset :
    (values : Values)
    → ((parse values).page - 1) * (parse values).per_page ≤ max_int
    → (parse values).offset ≡ pos (((parse values).page - 1) * (parse values).per_page)
unfolding parse
parse_offset values h = wrap_nat_small _ h

-- Where it does not fit, but is below 2^64, the offset is negative.
pub parse_offset_overflow :
    (values : Values)
    → max_int < ((parse values).page - 1) * (parse values).per_page
    → ((parse values).page - 1) * (parse values).per_page < 18446744073709551616
    → (n : ℕ) × ((parse values).offset ≡ negsuc n)
unfolding parse
parse_offset_overflow values h k = (_, wrap_nat_large _ h k)

-- Rounding up, on the `int64` arithmetic of `Meta`.
wrap_sum :
    (n d : ℕ) → 0 < d → n + d ≤ max_int → wrap (sub_one (wrap (pos (n + d)))) ≡ pos (n + d - 1)
unfolding wrap
wrap_sum n d h b =
    let e : n + d ≡ suc (n + d - 1) = omega arith in
    ap (λ z. wrap (sub_one z)) (wrap_nat_small (n + d) b)
    ∙ ap (λ k. wrap (sub_one (pos k))) e
    ∙ wrap_nat_small (n + d - 1) (omega arith)

-- For a total that is not negative and, with the page size added, fits in an `int64`, the page count
-- is the total divided by the page size, rounded up.
pub meta_pages :
    (p : Page) (n : ℕ)
    → 0 < p.per_page
    → n + p.per_page ≤ max_int
    → (k : ℕ) × ((meta p (pos n)).pages ≡ pos k)
      × (n ≤ k * p.per_page)
      × (k * p.per_page < n + p.per_page)
unfolding meta quot
meta_pages p n h b = (
  (n + p.per_page - 1) / p.per_page,
  ground (arith, wrap_sum n p.per_page h b),
  grind arith,
  grind arith,
)
