-- ===== src/Execute/Float.antt =====
-- The floating-point instructions of the 32-bit hart (src/cpu/rv32/execute_fp.rs): the computational
-- and fused multiply-add ones. What they share with those of the 64-bit hart, whose file has the
-- same text, is taken from there; the functions of src/cpu/fpu.rs that compute with the floats of the
-- host are the same parameters.
pub mod Access
pub mod Keeps
use otorisc_v.Base.{
  ℕ, Bool, ◌&&◌, ◌==◌, bit_or, bit_and, ◌>>>◌, if◌then◌else◌, Option, none, some, ok, not,
}
use otorisc_v.Csr.Mstatus
use otorisc_v.Trap.{has}
use otorisc_v.Fpu.{
  RoundingMode, Fflags, merge, write_f32, write_f64, read_f32, read_f64, effective_rm,
}
use otorisc_v.Fpu.Patterns.{
  f32_sgnj, f32_sgnjn, f32_sgnjx, f32_classify, f64_sgnj, f64_sgnjn, f64_sgnjx, f64_classify,
}
use otorisc_v.Cpu.{Cpu, read_reg, write_reg}
use otorisc_v.Decode.{DecodedInst}
use otorisc_v.Execute.Alu.{Outcome, next_pc, illegal}
use otorisc_v.Rv64.Execute.Float.{
  FloatOps, FloatUnit, Target, single_reg, double_reg, integer_reg, Effect, flagged,
}
use otorisc_v.Rv64.Execute.Float.Compute.{
  sign_injection, min_max, comparison, move_or_classify, move, fused,
}

-- FS is off.
abbrev pub is_off : Cpu → Bool
is_off cpu = not (has cpu.csr.mstatus Mstatus.fs)

abbrev pub merged : Cpu → Option Fflags → Cpu
merged cpu none = cpu
merged cpu (some flags) = record cpu {
  fpu = record (cpu.fpu) { fflags = merge cpu.fpu.fflags flags };
}

abbrev pub write_target : Cpu → ℕ → Target → Cpu
write_target cpu rd (single_reg v) = record cpu { fpu = write_f32 cpu.fpu rd v }
write_target cpu rd (double_reg v) = record cpu { fpu = write_f64 cpu.fpu rd v }
write_target cpu rd (integer_reg v) = write_reg cpu rd v

-- `self.csr.mstatus |= MSTATUS_FS`.
abbrev pub fs_dirty : Cpu → Cpu
fs_dirty cpu = record cpu { csr = record (cpu.csr) { mstatus = bit_or cpu.csr.mstatus Mstatus.fs } }

abbrev pub complete : {S : Type 0} → ℕ → ℕ → Cpu → S → Option Effect → Outcome S
complete inst rd cpu s none = illegal inst cpu s
complete inst rd cpu s (some (target, flags)) =
    (ok tt, next_pc (fs_dirty (write_target (merged cpu flags) rd target)), s)

-- `FUNCT7_FCVT_W_S` and `FUNCT7_FCVT_W_D`, by the field of rs2, and the conversions back.
unfoldable pub to_word : FloatOps → ℕ → ℕ → RoundingMode → Option Effect
to_word ops rs2 value rm =
    if rs2 == 0
    then some (flagged integer_reg (ops.to_i32 value rm))
    else if rs2 == 1
    then some (flagged integer_reg (ops.to_u32 value rm))
    else none

unfoldable pub word_to_f32 : FloatUnit → ℕ → ℕ → RoundingMode → Option Effect
word_to_f32 unit rs2 value rm =
    if rs2 == 0
    then some (flagged single_reg (unit.i32_to_f32 value rm))
    else if rs2 == 1
    then some (flagged single_reg (unit.u32_to_f32 value rm))
    else none

unfoldable pub word_to_f64 : FloatUnit → ℕ → ℕ → Option Effect
word_to_f64 unit rs2 value =
    if rs2 == 0
    then some (double_reg (unit.i32_to_f64 value), none)
    else if rs2 == 1
    then some (double_reg (unit.u32_to_f64 value), none)
    else none

unfoldable pub double_effect : FloatUnit → DecodedInst → Cpu → RoundingMode → Option Effect
unfolding sign_injection min_max to_word comparison word_to_f64
double_effect unit d cpu rm =
    let a = read_f64 cpu.fpu d.rs1 in
    let b = read_f64 cpu.fpu d.rs2 in
    if d.funct7 == 0b0000001
    then some (flagged double_reg (unit.double.add a b rm))
    else if d.funct7 == 0b0000101
    then some (flagged double_reg (unit.double.sub a b rm))
    else if d.funct7 == 0b0001001
    then some (flagged double_reg (unit.double.mul a b rm))
    else if d.funct7 == 0b0001101
    then some (flagged double_reg (unit.double.div a b rm))
    else if d.funct7 == 0b0101101
    then some (flagged double_reg (unit.double.sqrt a rm))
    else if d.funct7 == 0b0010001
    then sign_injection double_reg f64_sgnj f64_sgnjn f64_sgnjx d.funct3 a b
    else if d.funct7 == 0b0010101
    then min_max double_reg unit.double d.funct3 a b
    else if d.funct7 == 0b0100000
    then some (flagged single_reg (unit.f64_to_f32 a rm))
    else if d.funct7 == 0b0100001
    then some (flagged double_reg (unit.f32_to_f64 (read_f32 cpu.fpu d.rs1)))
    else if d.funct7 == 0b1100001
    then to_word unit.double d.rs2 a rm
    else if d.funct7 == 0b1010001
    then comparison unit.double d.funct3 a b
    else if d.funct7 == 0b1110001
    then if (d.funct3 == 1) && (d.rs2 == 0) then some (integer_reg (f64_classify a), none) else none
    else if d.funct7 == 0b1101001
    then word_to_f64 unit d.rs2 (read_reg cpu d.rs1)
    else none

-- The `match d.funct7` of `execute_op_fp`.
unfoldable pub op_fp_effect : FloatUnit → DecodedInst → Cpu → RoundingMode → Option Effect
unfolding double_effect word_to_f32
op_fp_effect unit d cpu rm =
    let a = read_f32 cpu.fpu d.rs1 in
    let b = read_f32 cpu.fpu d.rs2 in
    if d.funct7 == 0b0000000
    then some (flagged single_reg (unit.single.add a b rm))
    else if d.funct7 == 0b0000100
    then some (flagged single_reg (unit.single.sub a b rm))
    else if d.funct7 == 0b0001000
    then some (flagged single_reg (unit.single.mul a b rm))
    else if d.funct7 == 0b0001100
    then some (flagged single_reg (unit.single.div a b rm))
    else if d.funct7 == 0b0101100
    then some (flagged single_reg (unit.single.sqrt a rm))
    else if d.funct7 == 0b0010000
    then sign_injection single_reg f32_sgnj f32_sgnjn f32_sgnjx d.funct3 a b
    else if d.funct7 == 0b0010100
    then min_max single_reg unit.single d.funct3 a b
    else if d.funct7 == 0b1100000
    then to_word unit.single d.rs2 a rm
    else if d.funct7 == 0b1110000
    then move_or_classify f32_classify d.funct3 d.rs2 a
    else if d.funct7 == 0b1010000
    then comparison unit.single d.funct3 a b
    else if d.funct7 == 0b1101000
    then word_to_f32 unit d.rs2 (read_reg cpu d.rs1) rm
    else if d.funct7 == 0b1111000
    then move single_reg d.funct3 d.rs2 (read_reg cpu d.rs1)
    else double_effect unit d cpu rm

unfoldable pub execute_op_fp : {S : Type 0} → FloatUnit → ℕ → DecodedInst → Cpu → S → Outcome S
unfolding op_fp_effect
execute_op_fp unit inst d cpu s =
    if is_off cpu
    then illegal inst cpu s
    else complete inst d.rd cpu s (op_fp_effect unit d cpu (effective_rm cpu.fpu d.funct3))

unfoldable pub fma_effect : FloatUnit → ℕ → DecodedInst → ℕ → Cpu → RoundingMode → Option Effect
unfolding fused
fma_effect unit inst d opcode cpu rm =
    let fmt = bit_and (inst >>> 25) 0b11 in
    let f = cpu.fpu in
    if fmt == 0b00
    then fused unit.single single_reg 0x80000000 opcode (read_f32 f d.rs1) (read_f32 f d.rs2)
        (read_f32 f d.rs3) rm
    else if fmt == 0b01
    then fused unit.double double_reg 0x8000000000000000 opcode (read_f64 f d.rs1)
        (read_f64 f d.rs2) (read_f64 f d.rs3) rm
    else none

unfoldable pub execute_fma : {S : Type 0} → FloatUnit → ℕ → DecodedInst → ℕ → Cpu → S → Outcome S
unfolding fma_effect
execute_fma unit inst d opcode cpu s =
    if is_off cpu
    then illegal inst cpu s
    else complete inst d.rd cpu s
        (fma_effect unit inst d opcode cpu (effective_rm cpu.fpu d.funct3))
