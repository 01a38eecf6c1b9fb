-- ===== src/Rv64/Execute/Integer.antt =====
-- Integer computation of the 64-bit hart: the immediate and register operations of both widths and
-- the M extension (src/cpu/rv64/execute.rs).
use otorisc_v.Base.{
  ℕ, ◌+◌, ◌-◌, ◌*◌, ◌/◌, ◌%◌, ◌^◌, Bool, true, false, ◌&&◌, ◌==◌, if◌then◌else◌, add32, sub32,
  add64, sub64, shl64, bit_xor, u32, u64, ◌>>>◌, ◌<<<◌, ◌&&&◌, ◌|||◌, sar, ltb, two31, Result, ok,
  err,
}
use otorisc_v.Execute.Alu.{as_number, u32_max}
use otorisc_v.Execute.Alu
use otorisc_v.Rv64.Op
use otorisc_v.Rv64.Cpu.{Cpu64}
use otorisc_v.Rv64.Trap.{Trap64}
use otorisc_v.Trap.{illegal_instruction}

-- What an instruction leaves: a trap or nothing, the hart and what is behind the bus.
abbrev pub Outcome : Type 0 → Type 0
Outcome S = Result Trap64 (Unit {0}) × Cpu64 × S

abbrev pub next_pc : Cpu64 → Cpu64
next_pc cpu = record cpu { pc = add64 cpu.pc 4 }

abbrev pub illegal : {S : Type 0} → ℕ → Cpu64 → S → Outcome S
illegal inst cpu s = (err (illegal_instruction inst), cpu, s)

abbrev pub two63 : ℕ
two63 = 9223372036854775808

-- `x as i32 as i64 as u64`, `(a as i64) < (b as i64)` and `((x as i64) >> k) as u64`.
abbrev pub sext32 : ℕ → ℕ
sext32 x = if ltb x two31 then x else x + 18446744069414584320

abbrev pub lt_signed64 : ℕ → ℕ → Bool
lt_signed64 a b = ltb (add64 a two63) (add64 b two63)

abbrev pub sar64 : ℕ → ℕ → ℕ
sar64 x k =
    if ltb x two63 then x / 2 ^ k else 18446744073709551615 - (18446744073709551615 - x) / 2 ^ k

-- The `match` of `OP_OP_IMM` behind the bit manipulation.
unfoldable pub op_imm_result : ℕ → ℕ → ℕ → ℕ → Result Trap64 ℕ
op_imm_result inst funct3 rs1 imm =
    let shamt = imm &&& 0x3F in
    let funct6 = inst >>> 26 &&& 0x3F in
    if funct3 == Op.funct3_add_sub
    then ok (add64 rs1 imm)
    else if funct3 == Op.funct3_slt
    then ok (as_number (lt_signed64 rs1 imm))
    else if funct3 == Op.funct3_sltu
    then ok (as_number (ltb rs1 imm))
    else if funct3 == Op.funct3_xor
    then ok (bit_xor rs1 imm)
    else if funct3 == Op.funct3_or
    then ok (rs1 ||| imm)
    else if funct3 == Op.funct3_and
    then ok (rs1 &&& imm)
    else if funct3 == Op.funct3_sll
    then ok (shl64 rs1 shamt)
    else if funct3 == Op.funct3_srl_sra
    then ok (if funct6 == 0b010000 then sar64 rs1 shamt else rs1 >>> shamt)
    else err (illegal_instruction inst)

-- The `match` of `OP_OP` behind the bit manipulation and the M extension.
unfoldable pub base_result : ℕ → ℕ → ℕ → ℕ → ℕ → Result Trap64 ℕ
base_result inst funct3 funct7 rs1 rs2 =
    let shamt = rs2 &&& 0x3F in
    if (funct3 == Op.funct3_add_sub) && (funct7 == 0)
    then ok (add64 rs1 rs2)
    else if (funct3 == Op.funct3_add_sub) && (funct7 == 0b0100000)
    then ok (sub64 rs1 rs2)
    else if (funct3 == Op.funct3_sll) && (funct7 == 0)
    then ok (shl64 rs1 shamt)
    else if (funct3 == Op.funct3_slt) && (funct7 == 0)
    then ok (as_number (lt_signed64 rs1 rs2))
    else if (funct3 == Op.funct3_sltu) && (funct7 == 0)
    then ok (as_number (ltb rs1 rs2))
    else if (funct3 == Op.funct3_xor) && (funct7 == 0)
    then ok (bit_xor rs1 rs2)
    else if (funct3 == Op.funct3_srl_sra) && (funct7 == 0)
    then ok (rs1 >>> shamt)
    else if (funct3 == Op.funct3_srl_sra) && (funct7 == 0b0100000)
    then ok (sar64 rs1 shamt)
    else if (funct3 == Op.funct3_or) && (funct7 == 0)
    then ok (rs1 ||| rs2)
    else if (funct3 == Op.funct3_and) && (funct7 == 0)
    then ok (rs1 &&& rs2)
    else err (illegal_instruction inst)

-- The `match` of `OP_OP_IMM_32`, on the low words.
unfoldable pub op_imm_w_result : ℕ → ℕ → ℕ → ℕ → Result Trap64 ℕ
op_imm_w_result inst funct3 rs1 imm =
    let shamt = imm &&& 0x1F in
    let funct7 = inst >>> 25 &&& 0x7F in
    if funct3 == Op.funct3_add_sub
    then ok (add32 rs1 imm)
    else if funct3 == Op.funct3_sll
    then ok (rs1 <<< shamt)
    else if funct3 == Op.funct3_srl_sra
    then ok (if funct7 == 0b0100000 then sar rs1 shamt else rs1 >>> shamt)
    else err (illegal_instruction inst)

-- The `match` of `OP_OP_32`.
unfoldable pub base_w_result : ℕ → ℕ → ℕ → ℕ → ℕ → Result Trap64 ℕ
base_w_result inst funct3 funct7 rs1 rs2 =
    let shamt = rs2 &&& 0x1F in
    if (funct3 == Op.funct3_add_sub) && (funct7 == 0)
    then ok (add32 rs1 rs2)
    else if (funct3 == Op.funct3_add_sub) && (funct7 == 0b0100000)
    then ok (sub32 rs1 rs2)
    else if (funct3 == Op.funct3_sll) && (funct7 == 0)
    then ok (rs1 <<< shamt)
    else if (funct3 == Op.funct3_srl_sra) && (funct7 == 0)
    then ok (rs1 >>> shamt)
    else if (funct3 == Op.funct3_srl_sra) && (funct7 == 0b0100000)
    then ok (sar rs1 shamt)
    else err (illegal_instruction inst)

-- A number as u128, or as the bits of an i128.
abbrev pub u128 : ℕ → ℕ
u128 x = x % 340282366920938463463374607431768211456

abbrev pub u64_max : ℕ
u64_max = 18446744073709551615

-- The quotient and the remainder of two i64, rounded towards zero.
abbrev pub abs64 : ℕ → ℕ
abs64 x = if ltb x two63 then x else 18446744073709551616 - x

abbrev pub neg64 : ℕ → ℕ
neg64 x = sub64 0 x

unfoldable pub quotient : ℕ → ℕ → ℕ
quotient a b =
    let q = abs64 a / abs64 b in
    elim (ltb a two63) [
      | false ↦ if ltb b two63 then neg64 q else u64 q
      | true ↦ if ltb b two63 then u64 q else neg64 q
    ]

unfoldable pub remainder : ℕ → ℕ → ℕ
remainder a b = let r = abs64 a % abs64 b in if ltb a two63 then r else neg64 r

-- The test of the overflow case, `i64::MIN / -1`.
abbrev pub overflows : ℕ → ℕ → Bool
overflows a b = (a == two63) && (b == u64_max)

unfoldable pub div : ℕ → ℕ → ℕ
unfolding quotient
div rs1 rs2 = if rs2 == 0 then u64_max else if overflows rs1 rs2 then rs1 else quotient rs1 rs2

unfoldable pub rem : ℕ → ℕ → ℕ
unfolding remainder
rem rs1 rs2 = if rs2 == 0 then rs1 else if overflows rs1 rs2 then 0 else remainder rs1 rs2

-- The casts of MULH and MULHSU, from u64 to i128, extend by zeros.
unfoldable pub execute_m_extension : ℕ → ℕ → ℕ → Result Trap64 ℕ
unfolding div rem
execute_m_extension funct3 rs1 rs2 =
    if funct3 == Op.funct3_mul
    then ok (u64 (rs1 * rs2))
    else if funct3 == Op.funct3_mulh
    then ok (u128 (rs1 * rs2) / 2 ^ 64)
    else if funct3 == Op.funct3_mulhsu
    then ok (u128 (rs1 * rs2) / 2 ^ 64)
    else if funct3 == Op.funct3_mulhu
    then ok (u128 (rs1 * rs2) / 2 ^ 64)
    else if funct3 == Op.funct3_div
    then ok (div rs1 rs2)
    else if funct3 == Op.funct3_divu
    then ok (if rs2 == 0 then u64_max else rs1 / rs2)
    else if funct3 == Op.funct3_rem
    then ok (rem rs1 rs2)
    else if funct3 == Op.funct3_remu
    then ok (if rs2 == 0 then rs1 else rs1 % rs2)
    else err (illegal_instruction 0)

-- The divisions of i32 are those of the 32-bit hart.
unfoldable pub execute_m_extension_w : ℕ → ℕ → ℕ → Result Trap64 ℕ
unfolding Alu.div Alu.rem
execute_m_extension_w funct3 rs1 rs2 =
    if funct3 == Op.funct3_mul
    then ok (u32 (rs1 * rs2))
    else if funct3 == Op.funct3_div
    then ok (Alu.div rs1 rs2)
    else if funct3 == Op.funct3_divu
    then ok (if rs2 == 0 then u32_max else rs1 / rs2)
    else if funct3 == Op.funct3_rem
    then ok (Alu.rem rs1 rs2)
    else if funct3 == Op.funct3_remu
    then ok (if rs2 == 0 then rs1 else rs1 % rs2)
    else err (illegal_instruction 0)
