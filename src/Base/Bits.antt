-- ===== src/Base/Bits.antt =====
-- The bits of a number, and the native operations on them: at bit `k`, `&` is `&&`, `|` is `||`,
-- `^` is `xor`.
use Prim.Native.Nat.{
  ℕ, zero, suc, ◌+◌, ◌*◌, ◌/◌, ◌%◌, ◌≤◌, ◌<◌, min, max, bit_and, bit_or, bit_xor, digits, bitwise,
  differ, bit_and-bitwise, bit_or-bitwise, bit_xor-bitwise,
}
use mathlib.Core.Path.{◌≡◌, refl}
use mathlib.Core.Bool.{Bool, xor, ◌&&◌, ◌||◌}
use native.Mathlib.Omega.{arith}
use otorisc_v.Base.Tests.{◌==◌}

-- Bit `k` of `x`.
unfoldable pub bit : ℕ → ℕ → Bool
bit x zero = x % 2 == 1
bit x (suc k) = bit (x / 2) k

-- The native operations run down the binary digits on fuel; one more unit of it than is needed
-- changes nothing, and so does any surplus.
module _ (ending : ℕ → ℕ) (combine : ℕ → ℕ → ℕ) where
  one_more :
      (y x fuel : ℕ)
      → x ≤ fuel
      → digits ending combine (suc fuel) x y ≡ digits ending combine fuel x y
  one_more y zero zero fits = refl
  one_more y zero (suc fuel) fits = refl
  one_more y (suc x) zero fits = absurd (omega arith)
  one_more y (suc x) (suc fuel) fits = rw (one_more (y / 2) (suc x / 2) fuel (omega arith))

  surplus : (y x fuel : ℕ) → x ≤ fuel → digits ending combine fuel x y ≡ digits ending combine x x y
  surplus y x zero fits = ground arith
  surplus y x (suc fuel) fits = ground (arith, one_more y x fuel, surplus y x fuel)

  -- The lowest digit, for an operation that this recursion defines.
  lowest_digit :
      (op : ℕ → ℕ → ℕ) (means : (x y : ℕ) → op x y ≡ bitwise ending combine x y) (x y : ℕ)
      → op (suc x) y ≡ op (suc x / 2) (y / 2) * 2 + combine (suc x % 2) (y % 2)
  lowest_digit op means x y = omega (
    arith,
    means (suc x) y,
    means (suc x / 2) (y / 2),
    surplus (y / 2) (suc x / 2) x (omega arith),
  )

differ-zero : (b : ℕ) → b < 2 → differ 0 b ≡ b
differ-zero zero h = refl
differ-zero (suc zero) h = refl
differ-zero (suc (suc b)) h = absurd (omega arith)

pub bit_xor_step : (a b : ℕ) → bit_xor a b ≡ bit_xor (a / 2) (b / 2) * 2 + differ (a % 2) (b % 2)
bit_xor_step zero b =
    omega (
      arith,
      bit_xor-bitwise zero b,
      bit_xor-bitwise zero (b / 2),
      differ-zero (b % 2) (omega arith),
    )
bit_xor_step (suc a) b = lowest_digit (λ y. y) differ bit_xor bit_xor-bitwise a b

pub bit_and_step : (x y : ℕ) → bit_and x y ≡ bit_and (x / 2) (y / 2) * 2 + min (x % 2) (y % 2)
bit_and_step (suc x) y = lowest_digit (λ _. 0) min bit_and bit_and-bitwise x y
bit_and_step zero y = omega (arith, bit_and-bitwise zero y, bit_and-bitwise zero (y / 2))

pub bit_or_step : (a b : ℕ) → bit_or a b ≡ bit_or (a / 2) (b / 2) * 2 + max (a % 2) (b % 2)
bit_or_step zero b = omega (arith, bit_or-bitwise zero b, bit_or-bitwise zero (b / 2))
bit_or_step (suc a) b = lowest_digit (λ y. y) max bit_or bit_or-bitwise a b

-- The lowest digit of each operation, by the four cases of the digits.
min_digit : (c d : ℕ) → c < 2 → d < 2 → (min c d < 2) × ((min c d == 1) ≡ ((c == 1) && (d == 1)))
min_digit zero zero p q = (omega arith, refl)
min_digit zero (suc zero) p q = (omega arith, refl)
min_digit (suc zero) zero p q = (omega arith, refl)
min_digit (suc zero) (suc zero) p q = (omega arith, refl)
min_digit zero (suc (suc d)) p q = absurd (omega arith)
min_digit (suc zero) (suc (suc d)) p q = absurd (omega arith)
min_digit (suc (suc c)) d p q = absurd (omega arith)

max_digit : (c d : ℕ) → c < 2 → d < 2 → (max c d < 2) × ((max c d == 1) ≡ ((c == 1) || (d == 1)))
max_digit zero zero p q = (omega arith, refl)
max_digit zero (suc zero) p q = (omega arith, refl)
max_digit (suc zero) zero p q = (omega arith, refl)
max_digit (suc zero) (suc zero) p q = (omega arith, refl)
max_digit zero (suc (suc d)) p q = absurd (omega arith)
max_digit (suc zero) (suc (suc d)) p q = absurd (omega arith)
max_digit (suc (suc c)) d p q = absurd (omega arith)

differ_digit :
    (c d : ℕ) → c < 2 → d < 2 → (differ c d < 2) × ((differ c d == 1) ≡ xor (c == 1) (d == 1))
unfolding xor
differ_digit zero zero p q = (omega arith, refl)
differ_digit zero (suc zero) p q = (omega arith, refl)
differ_digit (suc zero) zero p q = (omega arith, refl)
differ_digit (suc zero) (suc zero) p q = (omega arith, refl)
differ_digit zero (suc (suc d)) p q = absurd (omega arith)
differ_digit (suc zero) (suc (suc d)) p q = absurd (omega arith)
differ_digit (suc (suc c)) d p q = absurd (omega arith)

-- A number written as `q * 2 + r` has lowest digit `r` and rest `q`.
module _ (q r : ℕ) (h : r < 2) where
  rest_of : (q * 2 + r) / 2 ≡ q
  rest_of = omega arith

  digit_of : (q * 2 + r) % 2 ≡ r
  digit_of = omega arith

pub bit-bit_and : (k a b : ℕ) → bit (bit_and a b) k ≡ (bit a k && bit b k)
unfolding bit
bit-bit_and zero a b =
    let (lt, eq) = min_digit (a % 2) (b % 2) (omega arith) (omega arith) in
    rw (bit_and_step a b, digit_of (bit_and (a / 2) (b / 2)) (min (a % 2) (b % 2)) lt) eq
bit-bit_and (suc k) a b =
    let (lt, eq) = min_digit (a % 2) (b % 2) (omega arith) (omega arith) in
    rw (bit_and_step a b, rest_of (bit_and (a / 2) (b / 2)) (min (a % 2) (b % 2)) lt)
      (bit-bit_and k (a / 2) (b / 2))

pub bit-bit_or : (k a b : ℕ) → bit (bit_or a b) k ≡ (bit a k || bit b k)
unfolding bit
bit-bit_or zero a b =
    let (lt, eq) = max_digit (a % 2) (b % 2) (omega arith) (omega arith) in
    rw (bit_or_step a b, digit_of (bit_or (a / 2) (b / 2)) (max (a % 2) (b % 2)) lt) eq
bit-bit_or (suc k) a b =
    let (lt, eq) = max_digit (a % 2) (b % 2) (omega arith) (omega arith) in
    rw (bit_or_step a b, rest_of (bit_or (a / 2) (b / 2)) (max (a % 2) (b % 2)) lt)
      (bit-bit_or k (a / 2) (b / 2))

pub bit-bit_xor : (k a b : ℕ) → bit (bit_xor a b) k ≡ xor (bit a k) (bit b k)
unfolding bit
bit-bit_xor zero a b =
    let (lt, eq) = differ_digit (a % 2) (b % 2) (omega arith) (omega arith) in
    rw (bit_xor_step a b, digit_of (bit_xor (a / 2) (b / 2)) (differ (a % 2) (b % 2)) lt) eq
bit-bit_xor (suc k) a b =
    let (lt, eq) = differ_digit (a % 2) (b % 2) (omega arith) (omega arith) in
    rw (bit_xor_step a b, rest_of (bit_xor (a / 2) (b / 2)) (differ (a % 2) (b % 2)) lt)
      (bit-bit_xor k (a / 2) (b / 2))

pub differ-lt : (c d : ℕ) → c < 2 → d < 2 → differ c d < 2
differ-lt c d p q = (differ_digit c d p q).0
