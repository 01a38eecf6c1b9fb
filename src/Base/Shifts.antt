-- ===== src/Base/Shifts.antt =====
-- Shifts, sums of fields, and signs.
use Prim.Native.Nat.{
  ℕ, zero, suc, ◌+◌, ◌-◌, ◌*◌, ◌/◌, ◌%◌, ◌^◌, ◌<◌, bit_and, bit_or, bit_or-bitwise,
}
use mathlib.Core.Path.{◌≡◌, refl, sym, ap, ◌∙◌}
use mathlib.Core.Logic.{inl, inr}
use mathlib.Core.Bool.{false, not}
use native.Mathlib.Omega.{arith}
use native.Mathlib.Nat.{pow-suc, one-le-pow, div-le_self}
use otorisc_v.Base.Word.{sar}
use otorisc_v.Base.Tests.{ltb, if◌then◌else◌, Bool-cases}
use otorisc_v.Base.Bits.{bit, bit_and_step, bit_or_step}
use otorisc_v.Base.BitLaws.{bit-zero, bit-shr, bit-mod, bit-above, bit-not32, halve_first}

-- One more place of a shift to the left doubles.
shift_doubles : (k x : ℕ) → 2 * (x * 2 ^ k) ≡ x * 2 ^ suc k
shift_doubles k x = let e = pow-suc 2 k in omega (arith, ap (λ (power : ℕ). x * power) e)

bit_or-zero_below : (n x : ℕ) → x < n → bit_or x 0 ≡ x
bit_or-zero_below zero x h = absurd (omega arith)
bit_or-zero_below (suc n) zero h = refl
bit_or-zero_below (suc n) (suc x) h =
    omega (arith, bit_or_step (suc x) 0, bit_or-zero_below n (suc x / 2) (omega arith))

-- `(q << k) | r` is a sum when `r` has at most `k` bits.
pub bit_or_fields : (k high low : ℕ) → low < 2 ^ k → bit_or (high * 2 ^ k) low ≡ high * 2 ^ k + low
bit_or_fields zero high low h = ground (arith, bit_or-zero_below (suc high) high)
bit_or_fields (suc k) high low h =
    let shifted = shift_doubles k high in
    let halved = bit_or_fields k high (low / 2) (omega (arith, pow-suc 2 k)) in
    ground (arith, shifted, halved, bit_or_step (high * 2 ^ suc k) low)

-- A mask that starts at bit `k`.
pub bit_and_high : (k x m : ℕ) → bit_and x (m * 2 ^ k) ≡ bit_and (x / 2 ^ k) m * 2 ^ k
bit_and_high zero x m = ground arith
bit_and_high (suc k) x m = ground (
  arith,
  bit_and_step x (m * 2 ^ suc k),
  shift_doubles k m,
  shift_doubles k (bit_and (x / 2 ^ suc k) m),
  halve_first k x,
  bit_and_high k (x / 2) m,
)

zero-bit_or : (b : ℕ) → bit_or 0 b ≡ b
zero-bit_or b = bit_or-bitwise 0 b

bit_or_comm_below : (n a b : ℕ) → a < n → bit_or a b ≡ bit_or b a
bit_or_comm_below zero a b h = absurd (omega arith)
bit_or_comm_below (suc n) zero b h = omega (arith, zero-bit_or b, bit_or-zero_below (suc b) b)
bit_or_comm_below (suc n) (suc a) b h = omega (
  arith,
  bit_or_step (suc a) b,
  bit_or_step b (suc a),
  bit_or_comm_below n (suc a / 2) (b / 2) (omega arith),
)

pub bit_or_comm : (a b : ℕ) → bit_or a b ≡ bit_or b a
bit_or_comm a b = bit_or_comm_below (suc a) a b (omega arith)

pub pow_lt : (n k : ℕ) → k < n → 2 ^ k < 2 ^ n
pow_lt zero k h = absurd (omega arith)
pow_lt (suc n) zero h = omega (arith, pow-suc 2 n, one-le-pow n 2)
pow_lt (suc n) (suc k) h = omega (arith, pow-suc 2 n, pow-suc 2 k, pow_lt n k (omega arith))

-- A mask of `n` ones from the bottom.
pub bit-mask : (n k : ℕ) → bit (2 ^ n - 1) k ≡ ltb k n
unfolding bit
bit-mask zero k = ground (arith, bit-zero k)
bit-mask (suc n) zero = ground (arith, pow-suc 2 n, one-le-pow n 2)
bit-mask (suc n) (suc k) =
    let e : (2 ^ suc n - 1) / 2 ≡ 2 ^ n - 1 = omega (arith, pow-suc 2 n, one-le-pow n 2) in
    rw e (ground (arith, bit-mask n k))

-- `x << j`, before it is cut to the width.
pub bit-mul-pow : (j k x : ℕ) → bit (x * 2 ^ j) k ≡ (if ltb k j then false else bit x (k - j))
unfolding bit
bit-mul-pow zero k x =
    let e : x * 2 ^ 0 ≡ x = omega arith in
    let f : k - 0 ≡ k = omega arith in rw (e, f) (ground arith)
bit-mul-pow (suc j) zero x = ground (arith, shift_doubles j x)
bit-mul-pow (suc j) (suc k) x =
    let e : x * 2 ^ suc j / 2 ≡ x * 2 ^ j = omega (arith, shift_doubles j x) in
    let f : suc k - suc j ≡ k - j = omega arith in rw (e, f) (ground (arith, bit-mul-pow j k x))

pub bit-shl32 :
    (j k x : ℕ)
    → k < 32
    → bit (x * 2 ^ j % 4294967296) k ≡ (if ltb k j then false else bit x (k - j))
bit-shl32 j k x h = rw (bit-mod 32 k (x * 2 ^ j) h) (bit-mul-pow j k x)

-- The sign bit.
pub bit-sign : (x : ℕ) → x < 4294967296 → bit x 31 ≡ not (ltb x 2147483648)
bit-sign x h =
    let e : bit x 31 ≡ bit (x / 2147483648) 0 = bit-shr31 x in rw e (unfold bit in ground arith)
  where
    bit-shr31 : (y : ℕ) → bit y 31 ≡ bit (y / 2147483648) 0
    bit-shr31 y = sym (bit-shr 31 0 y)

quotient_lt : (n x : ℕ) → (4294967295 - x) / 2 ^ n < 4294967296
quotient_lt n x = omega (arith, div-le_self (4294967295 - x) (2 ^ n))

-- An arithmetic shift to the right repeats the sign bit.
pub bit-sar :
    (n k x : ℕ)
    → x < 4294967296
    → k < 32
    → bit (sar x n) k ≡ (if ltb (n + k) 32 then bit x (n + k) else bit x 31)
bit-sar n k x hx hk = elim (Bool-cases (ltb x 2147483648)) [
  | inl pos ↦ rw pos (bit-shr n k x ∙ ground (arith, bit-sign x hx, bit-above 32 (n + k) x hx))
  | inr neg ↦
      rw
        (
          neg,
          bit-not32 k ((4294967295 - x) / 2 ^ n) (quotient_lt n x) hk,
          bit-shr n k (4294967295 - x),
        )
        (ground
          (arith, bit-sign x hx, bit-not32 (n + k) x hx, bit-above 32 (n + k) (4294967295 - x)))
]
