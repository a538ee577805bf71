-- ===== src/Text/Case.antt =====
-- Letters, digits and cases, on ASCII. A byte of a longer rune counts as a letter of no case.
use gomyadmin.Base.{
  ℕ, ◌+◌, ◌-◌, ◌≡◌, refl, Bool, false, ◌&&◌, ◌||◌, [], ◌∷◌, arith, Str, leb, length, if◌then◌else◌,
  All,
}
use gomyadmin.Text.{has_prefix}

-- `unicode.IsUpper(r)`
unfoldable pub is_upper : ℕ → Bool
is_upper c = leb 65 c && leb c 90

-- `unicode.IsLower(r)`
unfoldable pub is_lower : ℕ → Bool
is_lower c = leb 97 c && leb c 122

-- `unicode.IsDigit(r)`
unfoldable pub is_digit : ℕ → Bool
is_digit c = leb 48 c && leb c 57

-- `unicode.IsLetter(r)`
unfoldable pub is_letter : ℕ → Bool
unfolding is_upper is_lower
is_letter c = is_upper c || (is_lower c || leb 128 c)

-- `unicode.ToLower(r)`
unfoldable pub lower_byte : ℕ → ℕ
unfolding is_upper
lower_byte c = if is_upper c then c + 32 else c

-- `unicode.ToUpper(r)`
unfoldable pub upper_byte : ℕ → ℕ
unfolding is_lower
upper_byte c = if is_lower c then c - 32 else c

-- `strings.ToLower(s)`
unfoldable pub to_lower : Str → Str
unfolding lower_byte
to_lower [] = []
to_lower (c ∷ s) = lower_byte c ∷ to_lower s

-- `strings.Contains(s, p)`
unfoldable pub contains : Str → Str → Bool
contains [] p = has_prefix [] p
contains (c ∷ s) p = has_prefix (c ∷ s) p || contains s p

pub length-to_lower : (s : Str) → length (to_lower s) ≡ length s
unfolding to_lower
length-to_lower [] = refl
length-to_lower (c ∷ s) = omega (arith, length-to_lower s)

-- No upper case is left.
pub to_lower-All : (s : Str) → All (λ c. is_upper c ≡ false) (to_lower s)
unfolding to_lower is_upper
to_lower-All [] = tt
to_lower-All (c ∷ s) = (ground arith, to_lower-All s)

pub lower_byte_id : (c : ℕ) → is_upper c ≡ false → lower_byte c ≡ c
unfolding lower_byte
lower_byte_id c h = ground arith
