-- ===== src/Execute/Alu.antt =====
-- Integer computation: the immediate and register operations and the M extension
-- (src/cpu/rv32/execute.rs).
use otorisc_v.Base.{
  ℕ, ◌+◌, ◌-◌, ◌*◌, ◌/◌, ◌%◌, ◌^◌, Bool, true, false, ◌&&◌, ◌==◌, ◌!=◌, not, if◌then◌else◌, add32,
  sub32, bit_and, bit_or, bit_xor, u32, u64, ◌>>>◌, ◌<<<◌, sar, lt_signed, ltb, two31, Result, ok,
  err,
}
use otorisc_v.Cpu.{Cpu}
use otorisc_v.Trap.{Trap, illegal_instruction}

-- What an instruction leaves: a trap or nothing, the hart and what is behind the bus.
abbrev pub Outcome : Type 0 → Type 0
Outcome S = Result Trap (Unit {0}) × Cpu × S

abbrev pub next_pc : Cpu → Cpu
next_pc cpu = record cpu { pc = add32 cpu.pc 4 }

abbrev pub illegal : {S : Type 0} → ℕ → Cpu → S → Outcome S
illegal inst cpu s = (err (illegal_instruction inst), cpu, s)

abbrev pub as_number : Bool → ℕ
as_number b = if b then 1 else 0

-- The `match` of `OP_OP_IMM`.
unfoldable pub op_imm_result : ℕ → ℕ → ℕ → ℕ → Result Trap ℕ
op_imm_result inst funct3 rs1 imm =
    let shamt = bit_and imm 0x1F in
    if funct3 == 0
    then ok (add32 rs1 imm)
    else if funct3 == 2
    then ok (as_number (lt_signed rs1 imm))
    else if funct3 == 3
    then ok (as_number (ltb rs1 imm))
    else if funct3 == 4
    then ok (bit_xor rs1 imm)
    else if funct3 == 6
    then ok (bit_or rs1 imm)
    else if funct3 == 7
    then ok (bit_and rs1 imm)
    else if funct3 == 1
    then ok (rs1 <<< shamt)
    else if funct3 == 5
    then ok (if bit_and (imm >>> 10) 1 != 0 then sar rs1 shamt else rs1 >>> shamt)
    else err (illegal_instruction inst)

-- `x as i32 as i64`, as a u64.
abbrev pub sext64 : ℕ → ℕ
sext64 x = if ltb x two31 then x else x + 18446744069414584320

-- `unsigned_abs` and `wrapping_neg` of an i32.
abbrev pub abs32 : ℕ → ℕ
abs32 x = if ltb x two31 then x else 4294967296 - x

abbrev pub neg32 : ℕ → ℕ
neg32 x = sub32 0 x

abbrev pub is_negative : ℕ → Bool
is_negative x = not (ltb x two31)

-- `wrapping_div` and `wrapping_rem` of two i32: the quotient is rounded towards zero and the
-- remainder has the sign of the dividend.
unfoldable pub wrapping_div : ℕ → ℕ → ℕ
wrapping_div a b =
    let q = abs32 a / abs32 b in
    elim (is_negative a) [
      | true ↦ if is_negative b then u32 q else neg32 q
      | false ↦ if is_negative b then neg32 q else u32 q
    ]

unfoldable pub wrapping_rem : ℕ → ℕ → ℕ
wrapping_rem a b = let r = abs32 a % abs32 b in if is_negative a then neg32 r else r

abbrev pub u32_max : ℕ
u32_max = 0xFFFFFFFF

-- The test of the overflow case, `i32::MIN / -1`.
abbrev pub overflows : ℕ → ℕ → Bool
overflows rs1 rs2 = (rs1 == two31) && (rs2 == u32_max)

unfoldable pub div : ℕ → ℕ → ℕ
unfolding wrapping_div
div rs1 rs2 = if rs2 == 0 then u32_max else if overflows rs1 rs2 then rs1 else wrapping_div rs1 rs2

unfoldable pub rem : ℕ → ℕ → ℕ
unfolding wrapping_rem
rem rs1 rs2 = if rs2 == 0 then rs1 else if overflows rs1 rs2 then 0 else wrapping_rem rs1 rs2

unfoldable pub execute_m_extension : ℕ → ℕ → ℕ → Result Trap ℕ
unfolding div rem
execute_m_extension funct3 rs1 rs2 =
    if funct3 == 0
    then ok (u32 (rs1 * rs2))
    else if funct3 == 1
    then ok (u64 (sext64 rs1 * sext64 rs2) / 2 ^ 32)
    else if funct3 == 2
    then ok (u64 (sext64 rs1 * rs2) / 2 ^ 32)
    else if funct3 == 3
    then ok (u64 (rs1 * rs2) / 2 ^ 32)
    else if funct3 == 4
    then ok (div rs1 rs2)
    else if funct3 == 5
    then ok (if rs2 == 0 then u32_max else rs1 / rs2)
    else if funct3 == 6
    then ok (rem rs1 rs2)
    else if funct3 == 7
    then ok (if rs2 == 0 then rs1 else rs1 % rs2)
    else err (illegal_instruction 0)

-- The `match` of `OP_OP` without the M extension.
unfoldable pub base_result : ℕ → ℕ → ℕ → ℕ → ℕ → Result Trap ℕ
base_result inst funct3 funct7 rs1 rs2 =
    let shamt = bit_and rs2 0x1F in
    if (funct3 == 0) && (funct7 == 0)
    then ok (add32 rs1 rs2)
    else if (funct3 == 0) && (funct7 == 0x20)
    then ok (sub32 rs1 rs2)
    else if (funct3 == 1) && (funct7 == 0)
    then ok (rs1 <<< shamt)
    else if (funct3 == 2) && (funct7 == 0)
    then ok (as_number (lt_signed rs1 rs2))
    else if (funct3 == 3) && (funct7 == 0)
    then ok (as_number (ltb rs1 rs2))
    else if (funct3 == 4) && (funct7 == 0)
    then ok (bit_xor rs1 rs2)
    else if (funct3 == 5) && (funct7 == 0)
    then ok (rs1 >>> shamt)
    else if (funct3 == 5) && (funct7 == 0x20)
    then ok (sar rs1 shamt)
    else if (funct3 == 6) && (funct7 == 0)
    then ok (bit_or rs1 rs2)
    else if (funct3 == 7) && (funct7 == 0)
    then ok (bit_and rs1 rs2)
    else err (illegal_instruction inst)

unfoldable pub op_result : ℕ → ℕ → ℕ → ℕ → ℕ → Result Trap ℕ
unfolding execute_m_extension base_result
op_result inst funct3 funct7 rs1 rs2 =
    if funct7 == 1
    then execute_m_extension funct3 rs1 rs2
    else base_result inst funct3 funct7 rs1 rs2
