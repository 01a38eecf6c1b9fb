-- ===== src/Devices/Clint.antt =====
-- The core local interruptor: timer and software interrupts (src/devices/clint.rs).
pub mod Timer
pub mod Registers
use otorisc_v.Base.{
  ℕ, ◌+◌, ◌-◌, ◌*◌, ◌/◌, ◌%◌, ◌^◌, Bool, true, false, ◌&&◌, ◌||◌, ◌==◌, ◌!=◌, ltb, leb, bit_and,
  bit_or, if◌then◌else◌, ◌>>>◌, ◌<<<◌, not32, u32, u64,
}

pub record Clint : Type 0 where
  pub msip : ℕ
  pub mtimecmp : ℕ  -- u64
  pub mtime : ℕ  -- u64
  pub timer_interrupt : Bool
  pub software_interrupt : Bool

abbrev pub max64 : ℕ
max64 = 0xFFFFFFFFFFFFFFFF

unfoldable pub new : Clint
new = record {
  msip = 0;
  mtimecmp = max64;
  mtime = 0;
  timer_interrupt = false;
  software_interrupt = false;
}

unfoldable pub check_timer : Clint → Clint
check_timer c = record c { timer_interrupt = leb c.mtimecmp c.mtime }

unfoldable pub tick : Clint → ℕ → Clint
unfolding check_timer
tick c ticks = check_timer (record c { mtime = u64 (c.mtime + ticks) })

unfoldable pub set_mtime : Clint → ℕ → Clint
unfolding check_timer
set_mtime c value = check_timer (record c { mtime = value })

unfoldable pub ticks_until_interrupt : Clint → ℕ
ticks_until_interrupt c =
    if c.timer_interrupt || (c.mtimecmp == max64) then 0 else c.mtimecmp - c.mtime

unfoldable pub read32 : Clint → ℕ → ℕ
read32 c o =
    if ltb o 4
    then c.msip
    else if leb 0x4000 o && ltb o 0x4004
    then u32 c.mtimecmp
    else if leb 0x4004 o && ltb o 0x4008
    then u32 (c.mtimecmp / 2 ^ 32)
    else if leb 0xBFF8 o && ltb o 0xBFFC
    then u32 c.mtime
    else if leb 0xBFFC o && ltb o 0xC000
    then u32 (c.mtime / 2 ^ 32)
    else 0

-- `(x & 0xFFFFFFFF00000000) | value` and `(x & 0x00000000FFFFFFFF) | (value << 32)`.
abbrev pub with_low : ℕ → ℕ → ℕ
with_low x value = bit_or (bit_and x 0xFFFFFFFF00000000) value

abbrev pub with_high : ℕ → ℕ → ℕ
with_high x value = bit_or (bit_and x 0x00000000FFFFFFFF) (value * 2 ^ 32)

unfoldable pub write32 : Clint → ℕ → ℕ → Clint
unfolding check_timer
write32 c o value =
    if ltb o 4
    then record c { msip = bit_and value 1; software_interrupt = bit_and value 1 != 0 }
    else if leb 0x4000 o && ltb o 0x4004
    then check_timer (record c { mtimecmp = with_low c.mtimecmp value })
    else if leb 0x4004 o && ltb o 0x4008
    then check_timer (record c { mtimecmp = with_high c.mtimecmp value })
    else if leb 0xBFF8 o && ltb o 0xBFFC
    then check_timer (record c { mtime = with_low c.mtime value })
    else if leb 0xBFFC o && ltb o 0xC000
    then check_timer (record c { mtime = with_high c.mtime value })
    else c

abbrev pub byte_of : ℕ → ℕ → ℕ
byte_of word byte_offset = bit_and (word >>> (byte_offset * 8)) 0xFF

-- `(word & !(0xFF << (byte_offset * 8))) | (value << (byte_offset * 8))`.
abbrev pub with_byte : ℕ → ℕ → ℕ → ℕ
with_byte word byte_offset value =
    bit_or (bit_and word (not32 (0xFF <<< (byte_offset * 8)))) (value <<< (byte_offset * 8))

unfoldable pub read8 : Clint → ℕ → ℕ
unfolding read32
read8 c offset = byte_of (read32 c (bit_and offset (not32 3))) (bit_and offset 3)

unfoldable pub write8 : Clint → ℕ → ℕ → Clint
unfolding read32 write32
write8 c offset value =
    let word_offset = bit_and offset (not32 3) in
    write32 c word_offset (with_byte (read32 c word_offset) (bit_and offset 3) value)

unfoldable pub reset : Clint → Clint
reset c = record {
  msip = 0;
  mtimecmp = max64;
  mtime = 0;
  timer_interrupt = false;
  software_interrupt = false;
}
