-- ===== src/Common/Int.antt =====
-- Signed integers over the native numbers, under the library's names, and Rust's `i64` on them:
-- casts between `u64` and `i64`, wrapping sums and products, division towards zero.
use Prim.Native.Nat.{ℕ, suc, ◌+◌, ◌-◌, ◌*◌, ◌/◌, ◌%◌, ◌^◌, ◌<◌}
use mathlib.Core.Path.{◌≡◌}
use native.Mathlib.Omega.{arith}
use msim_dap.Common.Tests.{ltb, leb, if◌then◌else◌}

-- `negsuc n` is -(n + 1).
pub data ℤ : Type 0 where
  pos : ℕ → ℤ
  negsuc : ℕ → ℤ

abbrev pub pos_part : ℤ → ℕ
pos_part (pos n) = n
pos_part (negsuc n) = 0

abbrev pub neg_part : ℤ → ℕ
neg_part (pos n) = 0
neg_part (negsuc n) = suc n

-- a - b, as an integer.
abbrev pub sub_ℕ : ℕ → ℕ → ℤ
sub_ℕ a b = if leb b a then pos (a - b) else negsuc (b - a - 1)

-- The value of an integer modulo 2 ^ 64: `cast_unsigned` of an `i64`.
abbrev pub cast_unsigned : ℤ → ℕ
cast_unsigned (pos n) = n % 2 ^ 64
cast_unsigned (negsuc n) = 2 ^ 64 - (n % 2 ^ 64) - 1

-- `cast_signed` of a `u64`.
abbrev pub cast_signed : ℕ → ℤ
cast_signed w = if ltb w (2 ^ 63) then pos w else negsuc (2 ^ 64 - w - 1)

-- The integers that an `i64` holds.
abbrev pub IsI64 : ℤ → Type 0
IsI64 (pos n) = n < 2 ^ 63
IsI64 (negsuc n) = n < 2 ^ 63

abbrev pub IsU64 : ℕ → Type 0
IsU64 n = n < 2 ^ 64

infixl 65 ◌+i64◌ ◌-i64◌
infixl 70 ◌*i64◌
-- Sums, differences and products of `i64`, wrapped to 64 bits.
unfoldable pub ◌+i64◌ : ℤ → ℤ → ℤ
a +i64 b = cast_signed ((cast_unsigned a + cast_unsigned b) % 2 ^ 64)

unfoldable pub ◌-i64◌ : ℤ → ℤ → ℤ
a -i64 b = cast_signed ((cast_unsigned a + (2 ^ 64 - cast_unsigned b)) % 2 ^ 64)

unfoldable pub ◌*i64◌ : ℤ → ℤ → ℤ
a *i64 b = cast_signed (cast_unsigned a * cast_unsigned b % 2 ^ 64)

-- `/` and `%` by a positive number: the quotient is cut towards zero, and the remainder has the
-- sign of the dividend.
unfoldable pub div_i64 : ℤ → ℕ → ℤ
div_i64 (pos n) d = pos (n / d)
div_i64 (negsuc n) d = sub_ℕ 0 (suc n / d)

unfoldable pub rem_i64 : ℤ → ℕ → ℤ
rem_i64 (pos n) d = pos (n % d)
rem_i64 (negsuc n) d = sub_ℕ 0 (suc n % d)

pub cast_unsigned-cast_signed : (w : ℕ) → IsU64 w → cast_unsigned (cast_signed w) ≡ w
cast_unsigned-cast_signed w h = ground arith

pub cast_signed-cast_unsigned : (a : ℤ) → IsI64 a → cast_signed (cast_unsigned a) ≡ a
cast_signed-cast_unsigned (pos n) h = ground arith
cast_signed-cast_unsigned (negsuc n) h = ground arith
