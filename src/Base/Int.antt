-- ===== src/Base/Int.antt =====
-- Go's signed integers: ℤ over the native numbers, and the wrap-around at 64 bits.
use Prim.Native.Nat.{ℕ, zero, suc, ◌+◌, ◌-◌, ◌/◌, ◌%◌}
use Prim.Native.Nat.{◌≤◌, ◌<◌}
use mathlib.Core.Path.{◌≡◌}
use native.Mathlib.Omega.{arith}
use gomyadmin.Base.Tests.{leb, if◌then◌else◌}

-- `negsuc n` is -(n + 1).
pub data ℤ : Type 0 where
  pos : ℕ → ℤ
  negsuc : ℕ → ℤ

-- a - b, as an integer.
abbrev pub sub_ℕ : ℕ → ℕ → ℤ
sub_ℕ a b = if leb b a then pos (a - b) else negsuc (b - a - 1)

abbrev pub max_int : ℕ
max_int = 9223372036854775807

-- The `int64` with the two's complement of `n`, and of -(n + 1).
unfoldable pub wrap_nat : ℕ → ℤ
wrap_nat n =
    if leb (n % 18446744073709551616) max_int
    then pos (n % 18446744073709551616)
    else negsuc (18446744073709551615 - n % 18446744073709551616)

unfoldable pub wrap : ℤ → ℤ
unfolding wrap_nat
wrap (pos n) = wrap_nat n
wrap (negsuc n) =
    if leb (n % 18446744073709551616) max_int
    then negsuc (n % 18446744073709551616)
    else pos (18446744073709551615 - n % 18446744073709551616)

-- An integer and a number, added and subtracted without bounds.
abbrev pub add_nat : ℤ → ℕ → ℤ
add_nat (pos n) k = pos (n + k)
add_nat (negsuc n) k = sub_ℕ k (suc n)

abbrev pub sub_one : ℤ → ℤ
sub_one (pos zero) = negsuc 0
sub_one (pos (suc n)) = pos n
sub_one (negsuc n) = negsuc (suc n)

-- -n
abbrev pub neg_nat : ℕ → ℤ
neg_nat zero = pos 0
neg_nat (suc n) = negsuc n

-- Go's `/` on integers, which rounds towards zero, by a positive divisor.
unfoldable pub quot : ℤ → ℕ → ℤ
quot (pos n) d = pos (n / d)
quot (negsuc n) d = neg_nat (suc n / d)

pub wrap_nat_small : (n : ℕ) → n ≤ max_int → wrap_nat n ≡ pos n
unfolding wrap_nat
wrap_nat_small n h = ground arith

pub wrap_nat_large :
    (n : ℕ)
    → max_int < n
    → n < 18446744073709551616
    → wrap_nat n ≡ negsuc (18446744073709551615 - n)
unfolding wrap_nat
wrap_nat_large n h k = ground arith
