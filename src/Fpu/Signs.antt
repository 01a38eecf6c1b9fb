-- ===== src/Fpu/Signs.antt =====
-- About the bit patterns of floats (src/cpu/fpu.rs): signs and classes.
use otorisc_v.Base.{
  ℕ, refl, ◌+◌, ◌-◌, ◌*◌, ◌/◌, ◌%◌, ◌^◌, ◌<◌, Bool, true, false, ◌≡◌, ◌==◌, leb, arith, bit,
  bit_and, bit_or, bit_xor, bit_and_mask, bit_and_high, bit_or_fields, bit_or_comm, digit,
  one_bit_field, bit-bit_xor, bit-pow, ◌!=◌, bit-mod, bit_and-pow, ==_iff, xor, if◌then◌else◌,
}
use native.Mathlib.Nat.{mod-lt, one-le-pow}
use otorisc_v.Fpu.Patterns.{
  f32_is_snan, f32_is_nan, f64_is_snan, f64_is_nan, f32_sgnj, f32_sgnjn, f64_sgnj, f64_sgnjn,
  f32_classify, f64_classify,
}

-- The sign of a pattern of `n` bits below its sign.
abbrev sign : ℕ → ℕ → ℕ
sign n x = x / 2 ^ n % 2

-- The bits below the sign and a sign, joined.
joined : (n a s : ℕ) → bit_or (bit_and a (2 ^ n - 1)) (s * 2 ^ n) ≡ s * 2 ^ n + a % 2 ^ n
joined n a s =
    rw (bit_and_mask n a, bit_or_comm (a % 2 ^ n) (s * 2 ^ n))
      (bit_or_fields n s (a % 2 ^ n) (mod-lt a (one-le-pow n 2 (omega arith))))

lone_bit : (n b : ℕ) → bit_and b (1 * 2 ^ n) ≡ sign n b * 2 ^ n
lone_bit n b = rw (bit_and_high n b 1, bit_and_mask 1 (b / 2 ^ n))

kept_sign : (n b : ℕ) → bit_and b (2 ^ n) ≡ sign n b * 2 ^ n
kept_sign n b = let e : 1 * 2 ^ n ≡ 2 ^ n = omega arith in simp e at (lone_bit n b)

sign-digit : (n b : ℕ) → sign n b ≡ digit (bit b n)
sign-digit n b = ground (arith, bit_and_mask 1 (b / 2 ^ n), one_bit_field n b)

flipped_digit : (b : Bool) → digit (xor b true) ≡ 1 - digit b
unfolding xor
flipped_digit true = omega arith
flipped_digit false = omega arith

flipped_sign : (n b : ℕ) → bit_and (bit_xor b (2 ^ n)) (2 ^ n) ≡ (1 - sign n b) * 2 ^ n
flipped_sign n b =
    let e : (n == n) ≡ true = (==_iff n n).1 refl in
    rw
      (
        kept_sign n (bit_xor b (2 ^ n)),
        sign-digit n (bit_xor b (2 ^ n)),
        sign-digit n b,
        bit-bit_xor n b (2 ^ n),
        bit-pow n n,
        e,
      )
      (rw (flipped_digit (bit b n)))

-- The class of the negated number: every class but those of a NaN has its mirror.
abbrev pub mirrored : ℕ → ℕ
mirrored c = if leb 256 c then c else 128 / c

-- The class of a number by its fields, `top` being the highest exponent.
abbrev class : ℕ → ℕ → ℕ → ℕ → Bool → ℕ
class top sign exp frac quiet =
    if exp == top
    then if frac == 0 then (if sign == 0 then 128 else 1) else if quiet then 512 else 256
    else if exp != 0
    then if sign == 0 then 64 else 2
    else if frac == 0
    then if sign == 0 then 16 else 8
    else if sign == 0
    then 32
    else 4

mirrored-class :
    (top s exp frac : ℕ) (quiet : Bool)
    → s < 2
    → mirrored (class top s exp frac quiet) ≡ class top (1 - s) exp frac quiet
mirrored-class top s exp frac quiet h = ground arith

f32_classify-class :
    (s x : ℕ)
    → s < 2
    → x < 2 ^ 31
    → f32_classify (s * 2 ^ 31 + x) ≡ class 255 s (x / 2 ^ 23) (x % 2 ^ 23) (bit x 22)
unfolding f32_classify
f32_classify-class s x hs hx =
    let y = s * 2 ^ 31 + x in
    let sign : y / 2 ^ 31 % 2 ≡ s = omega arith in
    let exp : y / 2 ^ 23 % 256 ≡ x / 2 ^ 23 = omega arith in
    let frac : y % 2 ^ 23 ≡ x % 2 ^ 23 = omega arith in
    rw
      (
        bit_and_mask 1 (y / 2 ^ 31),
        bit_and_mask 8 (y / 2 ^ 23),
        bit_and_mask 23 y,
        sign,
        exp,
        frac,
        bit_and-pow 22 (x % 2 ^ 23),
        bit-mod 23 22 x (omega arith),
      )
      (ground arith)

f64_classify-class :
    (s x : ℕ)
    → s < 2
    → x < 2 ^ 63
    → f64_classify (s * 2 ^ 63 + x) ≡ class 2047 s (x / 2 ^ 52) (x % 2 ^ 52) (bit x 51)
unfolding f64_classify
f64_classify-class s x hs hx =
    let y = s * 2 ^ 63 + x in
    let sign : y / 2 ^ 63 % 2 ≡ s = omega arith in
    let exp : y / 2 ^ 52 % 2048 ≡ x / 2 ^ 52 = omega arith in
    let frac : y % 2 ^ 52 ≡ x % 2 ^ 52 = omega arith in
    rw
      (
        bit_and_mask 1 (y / 2 ^ 63),
        bit_and_mask 11 (y / 2 ^ 52),
        bit_and_mask 52 y,
        sign,
        exp,
        frac,
        bit_and-pow 51 (x % 2 ^ 52),
        bit-mod 52 51 x (omega arith),
      )
      (ground arith)

f32_negated : (a : ℕ) → f32_sgnjn a a ≡ (1 - sign 31 a) * 2 ^ 31 + a % 2 ^ 31
unfolding f32_sgnjn
f32_negated a = rw (flipped_sign 31 a, joined 31 a (1 - sign 31 a))

f32_nan_tests :
    (a : ℕ)
    → a < 2 ^ 32
    → (f32_is_nan a ≡ leb 256 (f32_classify a)) × (f32_is_snan a ≡ (f32_classify a == 256))
unfolding f32_is_nan f32_is_snan f32_classify
f32_nan_tests a ha =
    rw (bit_and_mask 1 (a / 2 ^ 31), bit_and_mask 8 (a / 2 ^ 23), bit_and_mask 23 a)
      (ground arith, ground arith)

-- Single precision: negation mirrors the class of a number and leaves a NaN a NaN of its kind;
-- injecting the sign of the number into its negation gives the number back; and the tests of a NaN
-- and of a signaling NaN agree with the class.
f32_classify-sgnjn :
    (a : ℕ)
    → a < 2 ^ 32
    → (f32_classify (f32_sgnjn a a) ≡ mirrored (f32_classify a))
      × (f32_sgnj (f32_sgnjn a a) a ≡ a)
      × (f32_is_nan a ≡ leb 256 (f32_classify a))
      × (f32_is_snan a ≡ (f32_classify a == 256))
unfolding f32_sgnj
f32_classify-sgnjn a ha =
    let s = a / 2 ^ 31 in
    let x = a % 2 ^ 31 in
    let low : x < 2 ^ 31 = omega arith in
    let whole : s * 2 ^ 31 + x ≡ a = omega arith in
    let same : sign 31 a ≡ s = omega arith in
    let below : ((1 - s) * 2 ^ 31 + x) % 2 ^ 31 ≡ x = omega arith in
    let own : f32_classify a ≡ class 255 s (x / 2 ^ 23) (x % 2 ^ 23) (bit x 22) =
      simp whole at (f32_classify-class s x (omega arith) low) in
    (
      rw (
        f32_negated a,
        same,
        f32_classify-class (1 - s) x (omega arith) low,
        own,
        mirrored-class 255 s (x / 2 ^ 23) (x % 2 ^ 23) (bit x 22) (omega arith),
      ),
      rw (
        f32_negated a,
        kept_sign 31 a,
        joined 31 ((1 - sign 31 a) * 2 ^ 31 + x) (sign 31 a),
        same,
        below,
        whole,
      ),
      (f32_nan_tests a ha).0,
      (f32_nan_tests a ha).1,
    )

f64_negated : (a : ℕ) → f64_sgnjn a a ≡ (1 - sign 63 a) * 2 ^ 63 + a % 2 ^ 63
unfolding f64_sgnjn
f64_negated a = rw (flipped_sign 63 a, joined 63 a (1 - sign 63 a))

f64_nan_tests :
    (a : ℕ)
    → a < 2 ^ 64
    → (f64_is_nan a ≡ leb 256 (f64_classify a)) × (f64_is_snan a ≡ (f64_classify a == 256))
unfolding f64_is_nan f64_is_snan f64_classify
f64_nan_tests a ha =
    rw (bit_and_mask 1 (a / 2 ^ 63), bit_and_mask 11 (a / 2 ^ 52), bit_and_mask 52 a)
      (ground arith, ground arith)

-- Double precision: negation mirrors the class of a number and leaves a NaN a NaN of its kind;
-- injecting the sign of the number into its negation gives the number back; and the tests of a NaN
-- and of a signaling NaN agree with the class.
pub f64_classify-sgnjn :
    (a : ℕ)
    → a < 2 ^ 64
    → (f64_classify (f64_sgnjn a a) ≡ mirrored (f64_classify a))
      × (f64_sgnj (f64_sgnjn a a) a ≡ a)
      × (f64_is_nan a ≡ leb 256 (f64_classify a))
      × (f64_is_snan a ≡ (f64_classify a == 256))
unfolding f64_sgnj
f64_classify-sgnjn a ha =
    let s = a / 2 ^ 63 in
    let x = a % 2 ^ 63 in
    let low : x < 2 ^ 63 = omega arith in
    let whole : s * 2 ^ 63 + x ≡ a = omega arith in
    let same : sign 63 a ≡ s = omega arith in
    let below : ((1 - s) * 2 ^ 63 + x) % 2 ^ 63 ≡ x = omega arith in
    let own : f64_classify a ≡ class 2047 s (x / 2 ^ 52) (x % 2 ^ 52) (bit x 51) =
      simp whole at (f64_classify-class s x (omega arith) low) in
    (
      rw (
        f64_negated a,
        same,
        f64_classify-class (1 - s) x (omega arith) low,
        own,
        mirrored-class 2047 s (x / 2 ^ 52) (x % 2 ^ 52) (bit x 51) (omega arith),
      ),
      rw (
        f64_negated a,
        kept_sign 63 a,
        joined 63 ((1 - sign 63 a) * 2 ^ 63 + x) (sign 63 a),
        same,
        below,
        whole,
      ),
      (f64_nan_tests a ha).0,
      (f64_nan_tests a ha).1,
    )
