-- ===== src/Base/Word.antt =====
-- Machine words as native numbers: a `u32` is a number below 2 ^ 32, and what Rust wraps,
-- truncates or complements is written out.
use Prim.Native.Nat.{ℕ, ◌+◌, ◌-◌, ◌*◌, ◌/◌, ◌%◌, ◌^◌, bit_and, bit_or}
use mathlib.Core.Bool.{Bool}
use otorisc_v.Base.Tests.{ltb, if◌then◌else◌}

abbrev pub two32 : ℕ
two32 = 4294967296

abbrev pub two31 : ℕ
two31 = 2147483648

abbrev pub u8 : ℕ → ℕ
u8 n = n % 256

abbrev pub u16 : ℕ → ℕ
u16 n = n % 65536

abbrev pub u32 : ℕ → ℕ
u32 n = n % 4294967296

abbrev pub u64 : ℕ → ℕ
u64 n = n % 18446744073709551616

-- `wrapping_add` and `wrapping_sub` of u32; `-` on ℕ stops at 0, so the modulus comes first.
abbrev pub add32 : ℕ → ℕ → ℕ
add32 a b = (a + b) % 4294967296

abbrev pub sub32 : ℕ → ℕ → ℕ
sub32 a b = (a + 4294967296 - b) % 4294967296

-- `x << k` and `x >> k` on a u32; bits shifted out at the top are lost.
infixl 75 ◌<<<◌ ◌>>>◌
abbrev pub ◌<<<◌ : ℕ → ℕ → ℕ
x <<< k = x * 2 ^ k % 4294967296

abbrev pub ◌>>>◌ : ℕ → ℕ → ℕ
x >>> k = x / 2 ^ k

-- `a & b` and `a | b`, which bind less tightly than shifts.
infixl 62 ◌&&&◌
abbrev pub ◌&&&◌ : ℕ → ℕ → ℕ
a &&& b = bit_and a b

infixl 61 ◌|||◌
abbrev pub ◌|||◌ : ℕ → ℕ → ℕ
a ||| b = bit_or a b

-- The same at 64 bits.
abbrev pub add64 : ℕ → ℕ → ℕ
add64 a b = (a + b) % 18446744073709551616

abbrev pub sub64 : ℕ → ℕ → ℕ
sub64 a b = (a + 18446744073709551616 - b) % 18446744073709551616

abbrev pub shl64 : ℕ → ℕ → ℕ
shl64 x k = x * 2 ^ k % 18446744073709551616

abbrev pub not64 : ℕ → ℕ
not64 x = 18446744073709551615 - x

-- `!x` on a word below 2 ^ n.
abbrev pub complement : ℕ → ℕ → ℕ
complement n x = 2 ^ n - 1 - x

abbrev pub not32 : ℕ → ℕ
not32 x = 4294967295 - x

abbrev pub not8 : ℕ → ℕ
not8 x = 255 - x

-- `x as i8 as i32 as u32` and `x as i16 as i32 as u32`.
abbrev pub sext8 : ℕ → ℕ
sext8 x = if ltb x 128 then x else x + 4294967040

abbrev pub sext16 : ℕ → ℕ
sext16 x = if ltb x 32768 then x else x + 4294901760

-- `(a as i32) < (b as i32)`: the sign bit is flipped on both sides.
abbrev pub lt_signed : ℕ → ℕ → Bool
lt_signed a b = ltb (add32 a two31) (add32 b two31)

-- `((x as i32) >> k) as u32`.
abbrev pub sar : ℕ → ℕ → ℕ
sar x k = if ltb x two31 then x / 2 ^ k else 4294967295 - (4294967295 - x) / 2 ^ k
