-- ===== src/Rv64/Execute/Float/Compute.antt =====
-- Computational and fused multiply-add instructions (src/cpu/rv64/execute_fp.rs).
use otorisc_v.Base.{ℕ, ◌&&◌, ◌==◌, if◌then◌else◌, u32, ◌>>>◌, ◌&&&◌, bit_xor, Option, none, some}
use otorisc_v.Fpu.{RoundingMode, read_f32, read_f64, effective_rm}
use otorisc_v.Fpu.Patterns.{
  f32_sgnj, f32_sgnjn, f32_sgnjx, f32_classify, f64_sgnj, f64_sgnjn, f64_sgnjx, f64_classify,
}
use otorisc_v.Rv64.Op
use otorisc_v.Rv64.Cpu.{Cpu64, read_reg}
use otorisc_v.Rv64.Decode.{DecodedInst}
use otorisc_v.Rv64.Execute.Integer.{Outcome, sext32}
use otorisc_v.Rv64.Execute.Float.{
  FloatOps, FloatUnit, Target, single_reg, double_reg, integer_reg, Effect, flagged, compared,
  complete,
}

-- `FUNCT7_FSGNJ_S`, `FUNCT7_FMIN_S` and `FUNCT7_FCMP_S` and those of double precision, by funct3.
unfoldable pub sign_injection :
    (ℕ → Target) → (ℕ → ℕ → ℕ) → (ℕ → ℕ → ℕ) → (ℕ → ℕ → ℕ) → ℕ → ℕ → ℕ → Option Effect
sign_injection target sgnj sgnjn sgnjx funct3 rs1 rs2 =
    if funct3 == 0b000
    then some (target (sgnj rs1 rs2), none)
    else if funct3 == 0b001
    then some (target (sgnjn rs1 rs2), none)
    else if funct3 == 0b010
    then some (target (sgnjx rs1 rs2), none)
    else none

unfoldable pub min_max : (ℕ → Target) → FloatOps → ℕ → ℕ → ℕ → Option Effect
min_max target ops funct3 rs1 rs2 =
    if funct3 == 0b000
    then some (flagged target (ops.min rs1 rs2))
    else if funct3 == 0b001
    then some (flagged target (ops.max rs1 rs2))
    else none

unfoldable pub comparison : FloatOps → ℕ → ℕ → ℕ → Option Effect
comparison ops funct3 rs1 rs2 =
    if funct3 == 0b010
    then some (compared (ops.eq rs1 rs2))
    else if funct3 == 0b001
    then some (compared (ops.lt rs1 rs2))
    else if funct3 == 0b000
    then some (compared (ops.le rs1 rs2))
    else none

-- `FUNCT7_FCVT_W_S` and `FUNCT7_FCVT_W_D`, by the field of rs2.
unfoldable pub to_integer : FloatOps → ℕ → ℕ → RoundingMode → Option Effect
to_integer ops rs2 value rm =
    if rs2 == 0
    then some (flagged (λ v. integer_reg (sext32 v)) (ops.to_i32 value rm))
    else if rs2 == 1
    then some (flagged integer_reg (ops.to_u32 value rm))
    else if rs2 == 2
    then some (flagged integer_reg (ops.to_i64 value rm))
    else if rs2 == 3
    then some (flagged integer_reg (ops.to_u64 value rm))
    else none

unfoldable pub integer_to_f32 : FloatUnit → ℕ → ℕ → RoundingMode → Option Effect
integer_to_f32 unit rs2 value rm =
    if rs2 == 0
    then some (flagged single_reg (unit.i32_to_f32 (u32 value) rm))
    else if rs2 == 1
    then some (flagged single_reg (unit.u32_to_f32 (u32 value) rm))
    else if rs2 == 2
    then some (flagged single_reg (unit.i64_to_f32 value rm))
    else if rs2 == 3
    then some (flagged single_reg (unit.u64_to_f32 value rm))
    else none

unfoldable pub integer_to_f64 : FloatUnit → ℕ → ℕ → Option Effect
integer_to_f64 unit rs2 value =
    if rs2 == 0
    then some (double_reg (unit.i32_to_f64 (u32 value)), none)
    else if rs2 == 1
    then some (double_reg (unit.u32_to_f64 (u32 value)), none)
    else if rs2 == 2
    then some (flagged double_reg (unit.i64_to_f64 value))
    else if rs2 == 3
    then some (flagged double_reg (unit.u64_to_f64 value))
    else none

-- `FUNCT7_FMV_X_W` and `FUNCT7_FCLASS_D`, and the moves the other way.
abbrev pub move_or_classify : (ℕ → ℕ) → ℕ → ℕ → ℕ → Option Effect
move_or_classify classify funct3 rs2 value =
    if (funct3 == 0) && (rs2 == 0)
    then some (integer_reg value, none)
    else if (funct3 == 1) && (rs2 == 0)
    then some (integer_reg (classify value), none)
    else none

abbrev pub move : (ℕ → Target) → ℕ → ℕ → ℕ → Option Effect
move target funct3 rs2 value =
    if (funct3 == 0) && (rs2 == 0) then some (target value, none) else none

unfoldable pub double_effect : FloatUnit → DecodedInst → Cpu64 → RoundingMode → Option Effect
unfolding sign_injection min_max to_integer comparison integer_to_f64
double_effect unit d cpu rm =
    let a = read_f64 cpu.fpu d.rs1 in
    let b = read_f64 cpu.fpu d.rs2 in
    if d.funct7 == 0b0000001
    then some (flagged double_reg (unit.double.add a b rm))
    else if d.funct7 == 0b0000101
    then some (flagged double_reg (unit.double.sub a b rm))
    else if d.funct7 == 0b0001001
    then some (flagged double_reg (unit.double.mul a b rm))
    else if d.funct7 == 0b0001101
    then some (flagged double_reg (unit.double.div a b rm))
    else if d.funct7 == 0b0101101
    then some (flagged double_reg (unit.double.sqrt a rm))
    else if d.funct7 == 0b0010001
    then sign_injection double_reg f64_sgnj f64_sgnjn f64_sgnjx d.funct3 a b
    else if d.funct7 == 0b0010101
    then min_max double_reg unit.double d.funct3 a b
    else if d.funct7 == 0b0100000
    then some (flagged single_reg (unit.f64_to_f32 a rm))
    else if d.funct7 == 0b0100001
    then some (flagged double_reg (unit.f32_to_f64 (read_f32 cpu.fpu d.rs1)))
    else if d.funct7 == 0b1100001
    then to_integer unit.double d.rs2 a rm
    else if d.funct7 == 0b1010001
    then comparison unit.double d.funct3 a b
    else if d.funct7 == 0b1110001
    then move_or_classify f64_classify d.funct3 d.rs2 a
    else if d.funct7 == 0b1101001
    then integer_to_f64 unit d.rs2 (read_reg cpu d.rs1)
    else if d.funct7 == 0b1111001
    then move double_reg d.funct3 d.rs2 (read_reg cpu d.rs1)
    else none

-- The `match d.funct7` of `execute_op_fp`.
unfoldable pub op_fp_effect : FloatUnit → DecodedInst → Cpu64 → RoundingMode → Option Effect
unfolding double_effect integer_to_f32
op_fp_effect unit d cpu rm =
    let a = read_f32 cpu.fpu d.rs1 in
    let b = read_f32 cpu.fpu d.rs2 in
    if d.funct7 == 0b0000000
    then some (flagged single_reg (unit.single.add a b rm))
    else if d.funct7 == 0b0000100
    then some (flagged single_reg (unit.single.sub a b rm))
    else if d.funct7 == 0b0001000
    then some (flagged single_reg (unit.single.mul a b rm))
    else if d.funct7 == 0b0001100
    then some (flagged single_reg (unit.single.div a b rm))
    else if d.funct7 == 0b0101100
    then some (flagged single_reg (unit.single.sqrt a rm))
    else if d.funct7 == 0b0010000
    then sign_injection single_reg f32_sgnj f32_sgnjn f32_sgnjx d.funct3 a b
    else if d.funct7 == 0b0010100
    then min_max single_reg unit.single d.funct3 a b
    else if d.funct7 == 0b1100000
    then to_integer unit.single d.rs2 a rm
    else if d.funct7 == 0b1110000
    then move_or_classify f32_classify d.funct3 d.rs2 a
    else if d.funct7 == 0b1010000
    then comparison unit.single d.funct3 a b
    else if d.funct7 == 0b1101000
    then integer_to_f32 unit d.rs2 (read_reg cpu d.rs1) rm
    else if d.funct7 == 0b1111000
    then move single_reg d.funct3 d.rs2 (u32 (read_reg cpu d.rs1))
    else double_effect unit d cpu rm

unfoldable pub execute_op_fp : {S : Type 0} → FloatUnit → ℕ → DecodedInst → Cpu64 → S → Outcome S
unfolding op_fp_effect
execute_op_fp unit inst d cpu s =
    complete inst d.rd cpu s (op_fp_effect unit d cpu (effective_rm cpu.fpu d.funct3))

-- The `match opcode` of `execute_fma`, with `bit` the bit of the sign.
unfoldable pub fused : FloatOps → (ℕ → Target) → ℕ → ℕ → ℕ → ℕ → ℕ → RoundingMode → Option Effect
fused ops target bit opcode rs1 rs2 rs3 rm =
    if opcode == Op.madd
    then some (flagged target (ops.fmadd rs1 rs2 rs3 rm))
    else if opcode == Op.msub
    then some (flagged target (ops.fmadd rs1 rs2 (bit_xor rs3 bit) rm))
    else if opcode == Op.nmsub
    then some (flagged target (ops.fmadd (bit_xor rs1 bit) rs2 rs3 rm))
    else if opcode == Op.nmadd
    then some (flagged target (ops.fmadd (bit_xor rs1 bit) rs2 (bit_xor rs3 bit) rm))
    else none

unfoldable pub fma_effect : FloatUnit → ℕ → DecodedInst → ℕ → Cpu64 → RoundingMode → Option Effect
unfolding fused
fma_effect unit inst d opcode cpu rm =
    let fmt = inst >>> 25 &&& 0b11 in
    let f = cpu.fpu in
    if fmt == 0b00
    then fused unit.single single_reg 0x80000000 opcode (read_f32 f d.rs1) (read_f32 f d.rs2)
        (read_f32 f d.rs3) rm
    else if fmt == 0b01
    then fused unit.double double_reg 0x8000000000000000 opcode (read_f64 f d.rs1)
        (read_f64 f d.rs2) (read_f64 f d.rs3) rm
    else none

unfoldable pub execute_fma : {S : Type 0} → FloatUnit → ℕ → DecodedInst → ℕ → Cpu64 → S → Outcome S
unfolding fma_effect
execute_fma unit inst d opcode cpu s =
    complete inst d.rd cpu s (fma_effect unit inst d opcode cpu (effective_rm cpu.fpu d.funct3))
