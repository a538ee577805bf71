-- ===== src/Text.antt =====
-- Go's package `strings` on byte strings, as far as the program uses it.
pub mod Laws
pub mod Number
pub mod Order
pub mod Trim
pub mod Case
use Prim.Native.Char.{code}
use Prim.Native.String.{String}
use gomyadmin.Base.{
  ℕ, zero, suc, ◌+◌, ◌-◌, ◌≡◌, refl, Bool, true, false, ◌&&◌, ◌||◌, List, [], ◌∷◌, ◌++◌, Option,
  none, some, reverse, Str, ◌==◌, str_eq, nat_eq, ltb, leb, if◌then◌else◌, length, take, drop,
}

-- The bytes of an ASCII literal.
abbrev pub lit : String → Str
lit String.[] = []
lit (String.◌∷◌ c s) = code c ∷ lit s

-- `strings.HasPrefix(s, p)`
unfoldable pub has_prefix : Str → Str → Bool
has_prefix s [] = true
has_prefix [] (c ∷ p) = false
has_prefix (d ∷ s) (c ∷ p) = d == c && has_prefix s p

-- `strings.HasSuffix(s, p)`: `len(s) >= len(p) && s[len(s)-len(p):] == p`
unfoldable pub has_suffix : Str → Str → Bool
has_suffix s p = leb (length p) (length s) && drop (length s - length p) s == p

-- `strings.TrimPrefix(s, p)`
unfoldable pub trim_prefix : Str → Str → Str
unfolding has_prefix
trim_prefix s p = if has_prefix s p then drop (length p) s else s

-- `strings.TrimSuffix(s, p)`
unfoldable pub trim_suffix : Str → Str → Str
unfolding has_suffix
trim_suffix s p = if has_suffix s p then take (length s - length p) s else s

-- `strings.Join(parts, sep)`
unfoldable pub join : List Str → Str → Str
join [] sep = []
join (s ∷ []) sep = s
join (s ∷ t ∷ more) sep = s ++ (sep ++ join (t ∷ more) sep)

-- `strings.ReplaceAll(s, c, new)` for a pattern `c` of one byte.
unfoldable pub replace_byte : Str → ℕ → Str → Str
replace_byte [] c new = []
replace_byte (d ∷ s) c new = (if d == c then new else d ∷ []) ++ replace_byte s c new

-- `strings.Split(s, sep)` for a separator of one byte. `cur` holds the part read so far.
split_byte_from : Str → ℕ → Str → List Str
split_byte_from cur c [] = cur ∷ []
split_byte_from cur c (d ∷ s) =
    let closed = split_byte_from [] c s in
    let longer = split_byte_from (cur ++ d ∷ []) c s in if d == c then cur ∷ closed else longer

unfoldable pub split_byte : Str → ℕ → List Str
unfolding split_byte_from
split_byte s c = split_byte_from [] c s

-- `strings.Split(s, sep)` for a separator of two bytes, scanned from the left.
split_pair_from : Str → ℕ → ℕ → Str → List Str
split_pair_from cur c d [] = cur ∷ []
split_pair_from cur c d (x ∷ []) = (cur ++ x ∷ []) ∷ []
split_pair_from cur c d (x ∷ y ∷ s) =
    let closed = split_pair_from [] c d s in
    let longer = split_pair_from (cur ++ x ∷ []) c d (y ∷ s) in
    if x == c && y == d then cur ∷ closed else longer

unfoldable pub split_pair : Str → ℕ → ℕ → List Str
unfolding split_pair_from
split_pair s c d = split_pair_from [] c d s

triple_width : ℕ → ℕ → ℕ → ℕ
triple_width a b c =
    if (a == 0xe1 && (b == 0x9a && c == 0x80))
      || ((a == 0xe2
            && ((b == 0x80
                  && ((leb 0x80 c && leb c 0x8a) || (c == 0xa8 || (c == 0xa9 || c == 0xaf))))
                || (b == 0x81 && c == 0x9f)))
          || (a == 0xe3 && (b == 0x80 && c == 0x80)))
    then 3
    else 0

wide_width : ℕ → ℕ → ℕ
wide_width a b = if a == 0xc2 && (b == 0x85 || b == 0xa0) then 2 else 0

unfoldable pub is_space : ℕ → Bool
is_space a = (leb 9 a && leb a 13) || a == 32

-- The width in bytes of the white space (`unicode.IsSpace`, in UTF-8) with which a string begins.
space_width : Str → ℕ
space_width [] = 0
space_width (a ∷ []) = if is_space a then 1 else 0
space_width (a ∷ b ∷ []) = if is_space a then 1 else wide_width a b
space_width (a ∷ b ∷ c ∷ s) =
    if is_space a then 1 else if wide_width a b == 2 then 2 else triple_width a b c

-- The same of a reversed string: the white space with which the string ends.
space_width_back : Str → ℕ
space_width_back [] = 0
space_width_back (a ∷ []) = if is_space a then 1 else 0
space_width_back (a ∷ b ∷ []) = if is_space a then 1 else wide_width b a
space_width_back (a ∷ b ∷ c ∷ s) =
    if is_space a then 1 else if wide_width b a == 2 then 2 else triple_width c b a

-- Drops white space while there is some. The fuel is the length, since each round drops a byte.
trim_while : (Str → ℕ) → ℕ → Str → Str
trim_while width zero s = s
trim_while width (suc n) s = elim (width s) [
  | zero ↦ s
  | suc w ↦ trim_while width n (drop (suc w) s)
]

-- `strings.TrimSpace(s)`
unfoldable pub trim_space : Str → Str
unfolding trim_while space_width space_width_back is_space wide_width triple_width
trim_space s =
    let front = trim_while space_width (length s) s in
    reverse (trim_while space_width_back (length front) (reverse front))
