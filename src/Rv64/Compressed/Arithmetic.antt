-- ===== src/Rv64/Compressed/Arithmetic.antt =====
-- The fields of a compressed instruction, and the expansion of the loads, stores and arithmetic of
-- the first two quadrants (src/cpu/rv64/execute_c.rs).
use otorisc_v.Base.{ℕ, ◌>>>◌, ◌<<<◌, ◌&&&◌, ◌|||◌, ◌==◌, ◌&&◌, if◌then◌else◌, Option, none, some}
use otorisc_v.Rv64.Op
use otorisc_v.Rv64.Compressed.Encode.{
  reg_prime, sign_extend, encode_i, encode_u, encode_r, encode_s,
}

-- The register numbers of five bits, and of three bits (`rd'`, `rs1'`, `rs2'`).
abbrev pub wide_rd : ℕ → ℕ
wide_rd inst = inst >>> 7 &&& 0x1F

abbrev pub wide_rs2 : ℕ → ℕ
wide_rs2 inst = inst >>> 2 &&& 0x1F

abbrev pub low_reg : ℕ → ℕ
low_reg inst = reg_prime (inst >>> 2 &&& 0x7)

abbrev pub high_reg : ℕ → ℕ
high_reg inst = reg_prime (inst >>> 7 &&& 0x7)

-- The offsets of the word and the double-word accesses, and the immediate of six bits.
abbrev pub word_offset : ℕ → ℕ
word_offset inst =
    (inst >>> 10 &&& 0x7) <<< 3 ||| (inst >>> 6 &&& 1) <<< 2 ||| (inst >>> 5 &&& 1) <<< 6

abbrev pub double_offset : ℕ → ℕ
double_offset inst = (inst >>> 10 &&& 0x7) <<< 3 ||| (inst >>> 5 &&& 0x3) <<< 6

abbrev pub imm6 : ℕ → ℕ
imm6 inst = sign_extend ((inst >>> 2 &&& 0x1F) ||| (inst >>> 12 &&& 1) <<< 5) 6

abbrev pub shamt6 : ℕ → ℕ
shamt6 inst = (inst >>> 2 &&& 0x1F) ||| (inst >>> 12 &&& 1) <<< 5

unfoldable pub c_addi4spn : ℕ → Option ℕ
c_addi4spn inst =
    let rd = low_reg inst in
    let imm =
      (inst >>> 12 &&& 1) <<< 5
      ||| (inst >>> 11 &&& 1) <<< 4
      ||| (inst >>> 7 &&& 0xF) <<< 6
      ||| (inst >>> 6 &&& 1) <<< 2
      ||| (inst >>> 5 &&& 1) <<< 3 in
    if imm == 0 then none else some (encode_i Op.op_imm rd 2 Op.funct3_add_sub imm)

unfoldable pub c_lw : ℕ → Option ℕ
c_lw inst = some (encode_i Op.load (low_reg inst) (high_reg inst) Op.funct3_lw (word_offset inst))

unfoldable pub c_ld : ℕ → Option ℕ
c_ld inst = some (encode_i Op.load (low_reg inst) (high_reg inst) Op.funct3_ld (double_offset inst))

unfoldable pub c_sw : ℕ → Option ℕ
c_sw inst = some (encode_s Op.store (high_reg inst) (low_reg inst) Op.funct3_lw (word_offset inst))

unfoldable pub c_sd : ℕ → Option ℕ
c_sd inst =
    some (encode_s Op.store (high_reg inst) (low_reg inst) Op.funct3_ld (double_offset inst))

unfoldable pub c_fld : ℕ → Option ℕ
c_fld inst =
    some (encode_i Op.load_fp (low_reg inst) (high_reg inst) Op.funct3_fld (double_offset inst))

unfoldable pub c_fsd : ℕ → Option ℕ
c_fsd inst =
    some (encode_s Op.store_fp (high_reg inst) (low_reg inst) Op.funct3_fld (double_offset inst))

unfoldable pub c_addi : ℕ → Option ℕ
c_addi inst =
    let rd = wide_rd inst in
    let imm = imm6 inst in
    if (rd == 0) && (imm == 0)
    then some (encode_i Op.op_imm 0 0 Op.funct3_add_sub 0)
    else some (encode_i Op.op_imm rd rd Op.funct3_add_sub imm)

unfoldable pub c_addiw : ℕ → Option ℕ
c_addiw inst =
    let rd = wide_rd inst in some (encode_i Op.op_imm_32 rd rd Op.funct3_add_sub (imm6 inst))

unfoldable pub c_li : ℕ → Option ℕ
c_li inst = some (encode_i Op.op_imm (wide_rd inst) 0 Op.funct3_add_sub (imm6 inst))

unfoldable pub c_addi16sp_lui : ℕ → Option ℕ
c_addi16sp_lui inst =
    let rd = wide_rd inst in
    let imm10 =
      (inst >>> 12 &&& 1) <<< 9
      ||| (inst >>> 3 &&& 0x3) <<< 7
      ||| (inst >>> 5 &&& 1) <<< 6
      ||| (inst >>> 2 &&& 1) <<< 5
      ||| (inst >>> 6 &&& 1) <<< 4 in
    let imm = sign_extend ((inst >>> 12 &&& 1) <<< 5 ||| (inst >>> 2 &&& 0x1F)) 6 in
    if rd == 2
    then some (encode_i Op.op_imm 2 2 Op.funct3_add_sub (sign_extend imm10 10))
    else if imm == 0
    then none
    else some (encode_u Op.lui rd (imm <<< 12))

unfoldable pub c_alu_reg : ℕ → Option ℕ
c_alu_reg inst =
    let rs1 = high_reg inst in
    let rs2 = low_reg inst in
    let funct2 = inst >>> 5 &&& 0x3 in
    if (inst >>> 12 &&& 1) == 0
    then if funct2 == 0b00
      then some (encode_r Op.op rs1 rs1 rs2 Op.funct3_add_sub 0b0100000)
      else if funct2 == 0b01
      then some (encode_r Op.op rs1 rs1 rs2 Op.funct3_xor 0)
      else if funct2 == 0b10
      then some (encode_r Op.op rs1 rs1 rs2 Op.funct3_or 0)
      else some (encode_r Op.op rs1 rs1 rs2 Op.funct3_and 0)
    else if funct2 == 0b00
    then some (encode_r Op.op_32 rs1 rs1 rs2 Op.funct3_add_sub 0b0100000)
    else if funct2 == 0b01
    then some (encode_r Op.op_32 rs1 rs1 rs2 Op.funct3_add_sub 0)
    else none

unfoldable pub c_alu_imm : ℕ → Option ℕ
unfolding c_alu_reg
c_alu_imm inst =
    let subop = inst >>> 10 &&& 0x3 in
    let rs1 = high_reg inst in
    let shamt = shamt6 inst in
    if subop == 0b00
    then some (encode_i Op.op_imm rs1 rs1 Op.funct3_srl_sra shamt)
    else if subop == 0b01
    then some (encode_i Op.op_imm rs1 rs1 Op.funct3_srl_sra (0b010000 <<< 6 ||| shamt))
    else if subop == 0b10
    then some (encode_i Op.op_imm rs1 rs1 Op.funct3_and (imm6 inst))
    else c_alu_reg inst
