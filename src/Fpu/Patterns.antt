-- ===== src/Fpu/Patterns.antt =====
-- What src/cpu/fpu.rs computes on the bit patterns of floats: the tests of a NaN, sign injection
-- and the classes, for single and double precision.
use otorisc_v.Base.{ℕ, Bool, ◌&&◌, ◌==◌, ◌!=◌, ◌>>>◌, ◌&&&◌, ◌|||◌, bit_xor, if◌then◌else◌}

unfoldable pub f32_is_snan : ℕ → Bool
f32_is_snan bits =
    let exp = bits >>> 23 &&& 0xFF in
    let frac = bits &&& 0x7FFFFF in (exp == 0xFF) && (frac != 0) && ((frac &&& 0x400000) == 0)

unfoldable pub f32_is_nan : ℕ → Bool
f32_is_nan bits =
    let exp = bits >>> 23 &&& 0xFF in let frac = bits &&& 0x7FFFFF in (exp == 0xFF) && (frac != 0)

unfoldable pub f64_is_snan : ℕ → Bool
f64_is_snan bits =
    let exp = bits >>> 52 &&& 0x7FF in
    let frac = bits &&& 0xFFFFFFFFFFFFF in
    (exp == 0x7FF) && (frac != 0) && ((frac &&& 0x8000000000000) == 0)

unfoldable pub f64_is_nan : ℕ → Bool
f64_is_nan bits =
    let exp = bits >>> 52 &&& 0x7FF in
    let frac = bits &&& 0xFFFFFFFFFFFFF in (exp == 0x7FF) && (frac != 0)

unfoldable pub f32_sgnj : ℕ → ℕ → ℕ
f32_sgnj a b = (a &&& 0x7FFFFFFF) ||| (b &&& 0x80000000)

unfoldable pub f32_sgnjn : ℕ → ℕ → ℕ
f32_sgnjn a b = (a &&& 0x7FFFFFFF) ||| (bit_xor b 0x80000000 &&& 0x80000000)

unfoldable pub f32_sgnjx : ℕ → ℕ → ℕ
f32_sgnjx a b = bit_xor a (b &&& 0x80000000)

unfoldable pub f64_sgnj : ℕ → ℕ → ℕ
f64_sgnj a b = (a &&& 0x7FFFFFFFFFFFFFFF) ||| (b &&& 0x8000000000000000)

unfoldable pub f64_sgnjn : ℕ → ℕ → ℕ
f64_sgnjn a b = (a &&& 0x7FFFFFFFFFFFFFFF) ||| (bit_xor b 0x8000000000000000 &&& 0x8000000000000000)

unfoldable pub f64_sgnjx : ℕ → ℕ → ℕ
f64_sgnjx a b = bit_xor a (b &&& 0x8000000000000000)

unfoldable pub f32_classify : ℕ → ℕ
f32_classify a =
    let sign = a >>> 31 &&& 1 in
    let exp = a >>> 23 &&& 0xFF in
    let frac = a &&& 0x7FFFFF in
    if exp == 0
    then if frac == 0 then if sign != 0 then 8 else 16 else if sign != 0 then 4 else 32
    else if exp == 0xFF
    then if frac == 0
      then if sign != 0 then 1 else 128
      else if (frac &&& 0x400000) != 0
      then 512
      else 256
    else if sign != 0
    then 2
    else 64

unfoldable pub f64_classify : ℕ → ℕ
f64_classify a =
    let sign = a >>> 63 &&& 1 in
    let exp = a >>> 52 &&& 0x7FF in
    let frac = a &&& 0xFFFFFFFFFFFFF in
    if exp == 0
    then if frac == 0 then if sign != 0 then 8 else 16 else if sign != 0 then 4 else 32
    else if exp == 0x7FF
    then if frac == 0
      then if sign != 0 then 1 else 128
      else if (frac &&& 0x8000000000000) != 0
      then 512
      else 256
    else if sign != 0
    then 2
    else 64
