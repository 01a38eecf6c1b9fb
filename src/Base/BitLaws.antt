-- ===== src/Base/BitLaws.antt =====
-- What masks, shifts and complements do to the bits of a word.
use Prim.Native.Nat.{
  ℕ, zero, suc, ◌+◌, ◌-◌, ◌*◌, ◌/◌, ◌%◌, ◌^◌, ◌≤◌, ◌<◌, bit_and, bit_or, bit_xor, bit_and-bitwise,
}
use mathlib.Core.Path.{◌≡◌, refl, sym}
use mathlib.Core.Bool.{Bool, true, false, not}
use native.Mathlib.Omega.{arith}
use native.Mathlib.Nat.{pow-suc, one-le-pow, div-div-eq-div-mul, div-add-mod}
use otorisc_v.Base.Tests.{◌==◌, ◌!=◌}
use otorisc_v.Base.Bits.{bit, bit_and_step, bit_or_step, bit_xor_step, differ-lt}

-- A number below 2 ^ n is given by its n lowest bits.
digit_ext : (a b : ℕ) → (a % 2 == 1) ≡ (b % 2 == 1) → a / 2 ≡ b / 2 → a ≡ b
digit_ext a b h q = ground arith

pub bit_ext : (n a b : ℕ) → a < 2 ^ n → b < 2 ^ n → ((k : ℕ) → k < n → bit a k ≡ bit b k) → a ≡ b
unfolding bit
bit_ext zero a b ha hb h = omega arith
bit_ext (suc n) a b ha hb h = digit_ext a b (h 0 (omega arith)) (
    bit_ext n (a / 2) (b / 2) (omega (arith, pow-suc 2 n)) (omega (arith, pow-suc 2 n))
      (λ k lt. h (suc k) (omega arith)))

pub bit-zero : (k : ℕ) → bit 0 k ≡ false
unfolding bit
bit-zero zero = refl
bit-zero (suc k) = bit-zero k

-- No bit stands at or above the width.
pub bit-above : (n k a : ℕ) → a < 2 ^ n → n ≤ k → bit a k ≡ false
unfolding bit
bit-above zero k a ha h = rw (let e : a ≡ 0 = omega arith in e) (bit-zero k)
bit-above (suc n) zero a ha h = absurd (omega arith)
bit-above (suc n) (suc k) a ha h = bit-above n k (a / 2) (omega (arith, pow-suc 2 n)) (omega arith)

-- `!x`.
pub bit-complement : (n k a : ℕ) → a < 2 ^ n → k < n → bit (2 ^ n - 1 - a) k ≡ not (bit a k)
unfolding bit
bit-complement zero k a ha h = absurd (omega arith)
bit-complement (suc n) zero a ha h = ground (arith, pow-suc 2 n, one-le-pow n 2)
bit-complement (suc n) (suc k) a ha h =
    let e : (2 ^ suc n - 1 - a) / 2 ≡ 2 ^ n - 1 - a / 2 = omega (arith, pow-suc 2 n) in
    rw e (bit-complement n k (a / 2) (omega (arith, pow-suc 2 n)) (omega arith))

pub bit-not32 : (k a : ℕ) → a < 4294967296 → k < 32 → bit (4294967295 - a) k ≡ not (bit a k)
bit-not32 k a ha h = bit-complement 32 k a ha h

pub bit-not8 : (k a : ℕ) → a < 256 → k < 8 → bit (255 - a) k ≡ not (bit a k)
bit-not8 k a ha h = bit-complement 8 k a ha h

-- `x / 2 ^ (j + 1)` halves first.
pub halve_first : (j x : ℕ) → x / 2 ^ suc j ≡ x / 2 / 2 ^ j
halve_first j x =
    let e : 2 ^ suc j ≡ 2 * 2 ^ j = omega (arith, pow-suc 2 j) in
    rw e (sym (div-div-eq-div-mul x 2 (2 ^ j)))

-- The rest of a remainder.
mod_halves_by :
    (p x q m : ℕ)
    → (2 * p) * q + m ≡ x
    → p * q + x / 2 % p ≡ x / 2
    → (m % 2 ≡ x % 2) × (m / 2 ≡ x / 2 % p)
mod_halves_by p x q m h k = omega arith

mod_halves : (n x : ℕ) → (x % 2 ^ suc n % 2 ≡ x % 2) × (x % 2 ^ suc n / 2 ≡ x / 2 % 2 ^ n)
mod_halves n x =
    let e : 2 ^ suc n ≡ 2 * 2 ^ n = omega (arith, pow-suc 2 n) in
    let wide = rw e at (div-add-mod x (2 ^ suc n)) in
    let same_rest = rw e at (halve_first n x) in
    let narrow : 2 ^ n * (x / (2 * 2 ^ n)) + x / 2 % 2 ^ n ≡ x / 2 =
      rw same_rest (div-add-mod (x / 2) (2 ^ n)) in
    rw e (mod_halves_by (2 ^ n) x (x / (2 * 2 ^ n)) (x % (2 * 2 ^ n)) wide narrow)

bit_and-zero_below : (n x : ℕ) → x < n → bit_and x 0 ≡ 0
bit_and-zero_below zero x h = absurd (omega arith)
bit_and-zero_below (suc n) zero h = refl
bit_and-zero_below (suc n) (suc x) h =
    omega (arith, bit_and_step (suc x) 0, bit_and-zero_below n (suc x / 2) (omega arith))

pub bit_and-zero : (x : ℕ) → bit_and x 0 ≡ 0
bit_and-zero x = bit_and-zero_below (suc x) x (omega arith)

-- `x >> j`.
pub bit-shr : (j k x : ℕ) → bit (x / 2 ^ j) k ≡ bit x (j + k)
unfolding bit
bit-shr zero k x =
    let e : x / 2 ^ 0 ≡ x = omega arith in let f : 0 + k ≡ k = omega arith in rw (e, f)
bit-shr (suc j) k x =
    let f : suc j + k ≡ suc (j + k) = omega arith in rw (halve_first j x, f) (bit-shr j k (x / 2))

-- `x % 2 ^ n`.
pub bit-mod : (n k x : ℕ) → k < n → bit (x % 2 ^ n) k ≡ bit x k
unfolding bit
bit-mod zero k x h = absurd (omega arith)
bit-mod (suc n) zero x h = rw ((mod_halves n x).0)
bit-mod (suc n) (suc k) x h = rw ((mod_halves n x).1) (bit-mod n k (x / 2) (omega arith))

-- `x & (1 << k)` tests a bit.
pub bit_and-pow : (k x : ℕ) → (bit_and x (2 ^ k) != 0) ≡ bit x k
unfolding bit
bit_and-pow zero x = ground (arith, bit_and_step x 1, bit_and-zero (x / 2))
bit_and-pow (suc k) x =
    ground (arith, bit_and_step x (2 ^ suc k), pow-suc 2 k, bit_and-pow k (x / 2))

-- `x & ((1 << k) - 1)` is the remainder.
pub bit_and_mask : (k x : ℕ) → bit_and x (2 ^ k - 1) ≡ x % 2 ^ k
bit_and_mask zero x = rw (bit_and-zero x) (omega arith)
bit_and_mask (suc k) x =
    let (low, high) = mod_halves k x in
    ground (
      arith,
      bit_and_step x (2 ^ suc k - 1),
      pow-suc 2 k,
      one-le-pow k 2,
      low,
      high,
      bit_and_mask k (x / 2),
    )

pub zero-bit_and : (b : ℕ) → bit_and 0 b ≡ 0
zero-bit_and b = bit_and-bitwise 0 b

-- The operations stay within the width.
pub bit_and-lt : (n a b : ℕ) → a < 2 ^ n → bit_and a b < 2 ^ n
bit_and-lt zero a b ha = let e : a ≡ 0 = omega arith in rw (e, zero-bit_and b) (omega arith)
bit_and-lt (suc n) a b ha = omega (
  arith,
  bit_and_step a b,
  pow-suc 2 n,
  bit_and-lt n (a / 2) (b / 2) (omega (arith, pow-suc 2 n)),
)

pub bit_or-lt : (n a b : ℕ) → a < 2 ^ n → b < 2 ^ n → bit_or a b < 2 ^ n
bit_or-lt zero a b ha hb =
    let e : a ≡ 0 = omega arith in let f : b ≡ 0 = omega arith in rw (e, f) (omega arith)
bit_or-lt (suc n) a b ha hb = omega (
  arith,
  bit_or_step a b,
  pow-suc 2 n,
  bit_or-lt n (a / 2) (b / 2) (omega (arith, pow-suc 2 n)) (omega (arith, pow-suc 2 n)),
)

pub bit_xor-lt : (n a b : ℕ) → a < 2 ^ n → b < 2 ^ n → bit_xor a b < 2 ^ n
bit_xor-lt zero a b ha hb =
    let e : a ≡ 0 = omega arith in let f : b ≡ 0 = omega arith in rw (e, f) (omega arith)
bit_xor-lt (suc n) a b ha hb = omega (
  arith,
  bit_xor_step a b,
  pow-suc 2 n,
  differ-lt (a % 2) (b % 2) (omega arith) (omega arith),
  bit_xor-lt n (a / 2) (b / 2) (omega (arith, pow-suc 2 n)) (omega (arith, pow-suc 2 n)),
)

-- One bit set.
pub bit-pow : (j k : ℕ) → bit (2 ^ j) k ≡ (j == k)
unfolding bit
bit-pow zero zero = refl
bit-pow zero (suc k) = ground (arith, bit-zero k)
bit-pow (suc j) zero = ground (arith, pow-suc 2 j)
bit-pow (suc j) (suc k) =
    let e : 2 ^ suc j / 2 ≡ 2 ^ j = omega (arith, pow-suc 2 j) in rw e (ground (arith, bit-pow j k))

-- A bit as a digit, and a field of two bits from its bits.
abbrev pub digit : Bool → ℕ
digit true = 1
digit false = 0

two_digits : (x : ℕ) → x % 4 ≡ digit (bit x 0) + 2 * digit (bit x 1)
unfolding bit
two_digits x = ground arith

pub one_bit_field : (j x : ℕ) → bit_and (x / 2 ^ j) 1 ≡ digit (bit x j)
unfolding bit
one_bit_field j x =
    let e : bit x j ≡ bit (x / 2 ^ j) 0 =
      let f : j + 0 ≡ j = omega arith in rw (bit-shr j 0 x, f) in
    rw e (ground (arith, bit_and_mask 1 (x / 2 ^ j)))

pub two_bit_field : (j x : ℕ) → bit_and (x / 2 ^ j) 3 ≡ digit (bit x j) + 2 * digit (bit x (j + 1))
two_bit_field j x =
    let f : j + 0 ≡ j = omega arith in
    let e : bit x j ≡ bit (x / 2 ^ j) 0 = rw (bit-shr j 0 x, f) in
    let g : bit x (j + 1) ≡ bit (x / 2 ^ j) 1 = rw (bit-shr j 1 x) in
    rw (e, g) (omega (arith, bit_and_mask 2 (x / 2 ^ j), two_digits (x / 2 ^ j)))
