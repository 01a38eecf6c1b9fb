-- ===== src/Devices/Clint/Registers.antt =====
-- About reads and writes of the 64-bit registers by halves (src/devices/clint.rs).
use otorisc_v.Base.{
  ℕ, ◌*◌, ◌/◌, ◌%◌, ◌<◌, Bool, true, false, ◌≡◌, arith, bit_and, bit_or_fields, bit_or_comm,
  bit_and_high, bit_and_mask, two32, if◌then◌else◌,
}
use otorisc_v.Devices.Clint.{Clint, read32, write32, with_low, with_high}

high_part : (x : ℕ) → x < 18446744073709551616 → bit_and x 0xFFFFFFFF00000000 ≡ x / two32 * two32
high_part x h = omega (arith, bit_and_high 32 x 0xFFFFFFFF, bit_and_mask 32 (x / two32))

pub with_low_halves :
    (x v : ℕ)
    → x < 18446744073709551616
    → v < two32
    → (with_low x v % two32 ≡ v) × (with_low x v / two32 ≡ x / two32)
with_low_halves x v hx hv =
    rw (high_part x hx, bit_or_fields 32 (x / two32) v hv) (omega arith, omega arith)

pub with_high_halves : (x v : ℕ) → (with_high x v % two32 ≡ x % two32) × (with_high x v / two32 ≡ v)
with_high_halves x v =
    rw
      (
        bit_and_mask 32 x,
        bit_or_comm (x % two32) (v * two32),
        bit_or_fields 32 v (x % two32) (omega arith),
      )
      (omega arith, omega arith)

-- The words of the register file.
pub data Word : Type 0 where
  msip mtimecmp_low mtimecmp_high mtime_low mtime_high : Word

abbrev pub offset : Word → ℕ
offset msip = 0
offset mtimecmp_low = 0x4000
offset mtimecmp_high = 0x4004
offset mtime_low = 0xBFF8
offset mtime_high = 0xBFFC

abbrev pub same_word : Word → Word → Bool
same_word msip msip = true
same_word mtimecmp_low mtimecmp_low = true
same_word mtimecmp_high mtimecmp_high = true
same_word mtime_low mtime_low = true
same_word mtime_high mtime_high = true
same_word _ _ = false

-- msip has one bit; the other words keep all of a value.
abbrev pub stored : Word → ℕ → ℕ
stored msip v = v % 2
stored _ v = v

-- With both 64-bit registers and the value in range, a word that is written is read back (msip in
-- its lowest bit), and every other word reads as before.
read32-write32 :
    (c : Clint) (w r : Word) (v : ℕ)
    → v < two32
    → c.mtimecmp < 18446744073709551616
    → c.mtime < 18446744073709551616
    → read32 (write32 c (offset w) v) (offset r)
      ≡ (if same_word w r then stored w v else read32 c (offset r))
unfolding read32 write32
read32-write32 c w r v hv hc ht = ground (
  arith,
  with_low_halves c.mtimecmp v hc hv,
  with_low_halves c.mtime v ht hv,
  with_high_halves c.mtimecmp v,
  with_high_halves c.mtime v,
  bit_and_mask 1 v,
)
