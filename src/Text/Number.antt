-- ===== src/Text/Number.antt =====
-- `fmt.Sprintf("%d", n)` and `strconv.Atoi`.
use gomyadmin.Base.{
  ℕ, zero, suc, ◌+◌, ◌-◌, ◌*◌, ◌/◌, ◌%◌, ◌^◌, ◌≤◌, ◌<◌, ◌≡◌, ◌∙◌, sym, ap, ◌&&◌, [], ◌∷◌, ◌++◌,
  Option, none, some, arith, Str, ◌==◌, nat_eq, ltb, leb, if◌then◌else◌, Bool-cases, inl, inr,
}
use gomyadmin.Base.Int.{ℤ, pos, max_int, neg_nat}
use gomyadmin.Text.Laws.{Lacks, Lacks-append}

-- Decimal digits. The fuel is more than the number, which falls in each round.
itoa_from : ℕ → ℕ → Str
itoa_from zero n = []
itoa_from (suc f) n =
    let front = itoa_from f (n / 10) in
    if ltb n 10 then (48 + n) ∷ [] else front ++ (48 + n % 10) ∷ []

unfoldable pub itoa : ℕ → Str
unfolding itoa_from
itoa n = itoa_from (suc n) n

-- The value of a run of digits, after those of value `acc`.
digits_value : ℕ → Str → Option ℕ
digits_value acc [] = some acc
digits_value acc (c ∷ s) =
    if leb 48 c && leb c 57 then digits_value (acc * 10 + (c - 48)) s else none

-- An unsigned run of at least one digit.
unsigned : Str → Option ℕ
unfolding digits_value
unsigned [] = none
unsigned (c ∷ s) = digits_value 0 (c ∷ s)

abbrev in_range_pos : Option ℕ → Option ℤ
in_range_pos none = none
in_range_pos (some n) = if leb n max_int then some (pos n) else none

abbrev in_range_neg : Option ℕ → Option ℤ
in_range_neg none = none
in_range_neg (some n) = if leb n (suc max_int) then some (neg_nat n) else none

-- `none` is a syntax error or a value outside `int64`.
unfoldable pub atoi : Str → Option ℤ
unfolding unsigned
atoi [] = none
atoi (c ∷ s) =
    if c == b'+'
    then in_range_pos (unsigned s)
    else if c == b'-'
    then in_range_neg (unsigned s)
    else in_range_pos (unsigned (c ∷ s))

digits_value-append :
    (acc : ℕ) (s : Str) (c m : ℕ)
    → digits_value acc s ≡ some m
    → 48 ≤ c
    → c ≤ 57
    → digits_value acc (s ++ c ∷ []) ≡ some (m * 10 + (c - 48))
unfolding digits_value
digits_value-append acc [] c m h lo hi = ground arith
digits_value-append acc (d ∷ s) c m h lo hi = elim (Bool-cases (leb 48 d && leb d 57)) [
  | inl t ↦ rw t (digits_value-append (acc * 10 + (d - 48)) s c m (rw t at h) lo hi)
  | inr t ↦ cc (rw t at h)
]

digits_value-itoa_from : (f n : ℕ) → n < f → digits_value 0 (itoa_from f n) ≡ some n
unfolding itoa_from
digits_value-itoa_from zero n h = elim h [ ]
digits_value-itoa_from (suc f) n h = elim (Bool-cases (ltb n 10)) [
  | inl t ↦ rw t (unfold digits_value in ground arith)
  | inr t ↦
      let ih = digits_value-itoa_from f (n / 10) (ground arith) in
      rw t (
        digits_value-append 0 (itoa_from f (n / 10)) (48 + n % 10) (n / 10) ih (omega arith)
          (omega arith)
        ∙ ap some (omega arith))
]

itoa_from_head : (f n : ℕ) → n < f → (c : ℕ) × (s : Str) × (itoa_from f n ≡ c ∷ s) × (48 ≤ c)
unfolding itoa_from
itoa_from_head zero n h = elim h [ ]
itoa_from_head (suc f) n h = elim (Bool-cases (ltb n 10)) [
  | inl t ↦ (48 + n, [], rw t, omega arith)
  | inr t ↦
      let (c, s, e, lo) = itoa_from_head f (n / 10) (ground arith) in
      (c, s ++ (48 + n % 10) ∷ [], rw (t, e), lo)
]

atoi_digits :
    (c : ℕ) (s : Str) (n : ℕ)
    → 48 ≤ c
    → digits_value 0 (c ∷ s) ≡ some n
    → n ≤ max_int
    → atoi (c ∷ s) ≡ some (pos n)
unfolding atoi
atoi_digits c s n lo v h = ground arith

-- Reading back a printed number that fits in an `int`.
pub atoi-itoa : (n : ℕ) → n ≤ max_int → atoi (itoa n) ≡ some (pos n)
unfolding itoa
atoi-itoa n h =
    let (c, s, e, lo) = itoa_from_head (suc n) n (omega arith) in
    let v = ap (digits_value 0) (sym e) ∙ digits_value-itoa_from (suc n) n (omega arith) in
    ap atoi e ∙ atoi_digits c s n lo v h

pub itoa_injective : (m n : ℕ) → itoa m ≡ itoa n → m ≡ n
unfolding itoa
itoa_injective m n e =
    cc (
      digits_value-itoa_from (suc m) m (omega arith),
      digits_value-itoa_from (suc n) n (omega arith),
    )

-- What is read is within the range of an `int`.
pub atoi-le : (s : Str) (n : ℕ) → atoi s ≡ some (pos n) → n ≤ max_int
unfolding atoi
atoi-le [] n h = cc
atoi-le (c ∷ s) n h = ground arith

-- `strconv.ParseUint(s, 10, 32)`: `none` is a syntax error or a value that does not fit.
unfoldable pub parse_uint32 : Str → Option ℕ
unfolding unsigned
parse_uint32 s = elim (unsigned s) [
  | none ↦ none
  | some n ↦ if ltb n (2 ^ 32) then some n else none
]

parse_uint32_digits :
    (c : ℕ) (s : Str) (n : ℕ)
    → digits_value 0 (c ∷ s) ≡ some n
    → n < 2 ^ 32
    → parse_uint32 (c ∷ s) ≡ some n
unfolding unsigned parse_uint32
parse_uint32_digits c s n v h = ground (arith, v)

-- Reading back a printed number that fits in 32 bits.
pub parse_uint32-itoa : (n : ℕ) → n < 2 ^ 32 → parse_uint32 (itoa n) ≡ some n
unfolding itoa
parse_uint32-itoa n h =
    let (c, s, e, lo) = itoa_from_head (suc n) n (omega arith) in
    let v = ap (digits_value 0) (sym e) ∙ digits_value-itoa_from (suc n) n (omega arith) in
    ap parse_uint32 e ∙ parse_uint32_digits c s n v h

itoa_from-Lacks : (c f n : ℕ) → c < 48 → Lacks c (itoa_from f n)
unfolding itoa_from
itoa_from-Lacks c zero n h = tt
itoa_from-Lacks c (suc f) n h = elim (Bool-cases (ltb n 10)) [
  | inl t ↦ rw t ((omega arith), tt)
  | inr t ↦ rw t (
      Lacks-append c (itoa_from f (n / 10)) ((48 + n % 10) ∷ []) (itoa_from-Lacks c f (n / 10) h)
        ((omega arith), tt))
]

-- A printed number has no byte below the digits.
pub itoa-Lacks : (c n : ℕ) → c < 48 → Lacks c (itoa n)
unfolding itoa
itoa-Lacks c n h = itoa_from-Lacks c (suc n) n h
