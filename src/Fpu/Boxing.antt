-- ===== src/Fpu/Boxing.antt =====
-- About the registers and fcsr written and read back (src/cpu/fpu.rs).
use otorisc_v.Base.{
  ℕ, ◌+◌, ◌*◌, ◌/◌, ◌%◌, ◌<◌, true, false, ◌||◌, ◌==◌, ◌≡◌, ◌≢◌, refl, arith, bit_or_fields,
  bit_and_mask, if◌then◌else◌, two32, all_below, all_below_sound, ==_iff,
}
use otorisc_v.Fpu.{
  Fpu, RoundingMode, read_f32, write_f32, write_f64, read_fcsr, write_fcsr, to_bits, from_bits,
  mode_from, mode_bits, at_reg, rne,
}

-- A single below 2 ^ 32 written to a register is read back, and reads of another register do not
-- see it; a register that holds a double whose upper half is not all ones reads as the canonical
-- NaN.
read_f32-write :
    (f : Fpu) (i j v w : ℕ)
    → v < two32
    → w / two32 ≢ 0xFFFFFFFF
    → (at_reg i == at_reg j) ≡ false
    → (read_f32 (write_f32 f i v) i ≡ v)
      × (read_f32 (write_f32 f i v) j ≡ read_f32 f j)
      × (read_f32 (write_f64 f i w) i ≡ 0x7FC00000)
unfolding read_f32 write_f32 write_f64
read_f32-write f i j v w hv hw ne =
    (ground (arith, bit_or_fields 32 0xFFFFFFFF v hv), ground arith, ground arith)

flags_table : all_below 32 (λ b. to_bits (from_bits b) == b) ≡ true
unfolding all_below to_bits from_bits
flags_table = refl

modes_table :
    all_below 8 (λ b. mode_bits (mode_from b) == (if b == 5 then 7 else if b == 6 then 7 else b))
    ≡ true
unfolding all_below mode_from
modes_table = refl

mode_bits-lt : (r : RoundingMode) → mode_bits r < 8
mode_bits-lt rne = omega arith
mode_bits-lt _ = omega arith

-- A value written to fcsr is read back in its low byte, except that the two reserved rounding
-- modes 5 and 6 read back as 7.
pub read_fcsr-write_fcsr :
    (f : Fpu) (v : ℕ)
    → let rm = v / 32 % 8 in
      read_fcsr (write_fcsr f v) ≡ (if (rm == 5) || (rm == 6) then 7 else rm) * 32 + v % 32
unfolding read_fcsr write_fcsr
read_fcsr-write_fcsr f v = ground (
  arith,
  bit_and_mask 5 v,
  bit_and_mask 3 (v / 32),
  (==_iff (to_bits (from_bits (v % 32))) (v % 32)).0
      (all_below_sound 32 (λ b. to_bits (from_bits b) == b) (v % 32) flags_table (omega arith)),
  (==_iff _ _).0 (
      all_below_sound 8
        (λ b. mode_bits (mode_from b) == (if b == 5 then 7 else if b == 6 then 7 else b))
        (v / 32 % 8) modes_table (omega arith)),
  bit_or_fields 5 (mode_bits (mode_from (v / 32 % 8))) (v % 32) (omega arith),
  mode_bits-lt (mode_from (v / 32 % 8)),
)
