-- ===== src/Rv64/Compressed/Control.antt =====
-- The expansion of jumps and branches, and of the third quadrant (src/cpu/rv64/execute_c.rs).
use otorisc_v.Base.{ℕ, ◌>>>◌, ◌<<<◌, ◌&&&◌, ◌|||◌, ◌==◌, if◌then◌else◌, Option, none, some}
use otorisc_v.Rv64.Op
use otorisc_v.Rv64.Compressed.Arithmetic.{wide_rd, wide_rs2, high_reg, shamt6}
use otorisc_v.Rv64.Compressed.Encode.{sign_extend, encode_i, encode_r, encode_s, encode_b, encode_j}

unfoldable pub decode_cj_imm : ℕ → ℕ
decode_cj_imm inst =
    let imm =
      (inst >>> 12 &&& 1) <<< 11
      ||| (inst >>> 8 &&& 0x1) <<< 10
      ||| (inst >>> 9 &&& 0x3) <<< 8
      ||| (inst >>> 6 &&& 0x1) <<< 7
      ||| (inst >>> 7 &&& 0x1) <<< 6
      ||| (inst >>> 2 &&& 0x1) <<< 5
      ||| (inst >>> 11 &&& 0x1) <<< 4
      ||| (inst >>> 3 &&& 0x7) <<< 1 in
    sign_extend imm 12

unfoldable pub decode_cb_imm : ℕ → ℕ
decode_cb_imm inst =
    let imm =
      (inst >>> 12 &&& 1) <<< 8
      ||| (inst >>> 5 &&& 0x3) <<< 6
      ||| (inst >>> 2 &&& 0x1) <<< 5
      ||| (inst >>> 10 &&& 0x3) <<< 3
      ||| (inst >>> 3 &&& 0x3) <<< 1 in
    sign_extend imm 9

unfoldable pub c_j : ℕ → Option ℕ
c_j inst = some (encode_j Op.jal 0 (decode_cj_imm inst))

unfoldable pub c_beqz : ℕ → Option ℕ
c_beqz inst = some (encode_b Op.branch (high_reg inst) 0 Op.funct3_beq (decode_cb_imm inst))

unfoldable pub c_bnez : ℕ → Option ℕ
c_bnez inst = some (encode_b Op.branch (high_reg inst) 0 Op.funct3_bne (decode_cb_imm inst))

unfoldable pub c_slli : ℕ → Option ℕ
c_slli inst = let rd = wide_rd inst in some (encode_i Op.op_imm rd rd Op.funct3_sll (shamt6 inst))

unfoldable pub c_lwsp : ℕ → Option ℕ
c_lwsp inst =
    let rd = wide_rd inst in
    let imm =
      (inst >>> 12 &&& 1) <<< 5 ||| (inst >>> 4 &&& 0x7) <<< 2 ||| (inst >>> 2 &&& 0x3) <<< 6 in
    if rd == 0 then none else some (encode_i Op.load rd 2 Op.funct3_lw imm)

unfoldable pub c_ldsp : ℕ → Option ℕ
c_ldsp inst =
    let rd = wide_rd inst in
    let imm =
      (inst >>> 12 &&& 1) <<< 5 ||| (inst >>> 5 &&& 0x3) <<< 3 ||| (inst >>> 2 &&& 0x7) <<< 6 in
    if rd == 0 then none else some (encode_i Op.load rd 2 Op.funct3_ld imm)

unfoldable pub c_misc_alu : ℕ → Option ℕ
c_misc_alu inst =
    let rd = wide_rd inst in
    let rs2 = wide_rs2 inst in
    let bit12 = inst >>> 12 &&& 1 in
    if bit12 == 0
    then if rs2 == 0
      then if rd == 0 then none else some (encode_i Op.jalr 0 rd Op.funct3_add_sub 0)
      else some (encode_r Op.op rd 0 rs2 Op.funct3_add_sub 0)
    else if rs2 == 0
    then if rd == 0 then some 0x00100073 else some (encode_i Op.jalr 1 rd Op.funct3_add_sub 0)
    else some (encode_r Op.op rd rd rs2 Op.funct3_add_sub 0)

unfoldable pub c_swsp : ℕ → Option ℕ
c_swsp inst =
    let imm = (inst >>> 9 &&& 0xF) <<< 2 ||| (inst >>> 7 &&& 0x3) <<< 6 in
    some (encode_s Op.store 2 (wide_rs2 inst) Op.funct3_lw imm)

unfoldable pub c_sdsp : ℕ → Option ℕ
c_sdsp inst =
    let imm = (inst >>> 10 &&& 0x7) <<< 3 ||| (inst >>> 7 &&& 0x7) <<< 6 in
    some (encode_s Op.store 2 (wide_rs2 inst) Op.funct3_ld imm)

unfoldable pub c_fldsp : ℕ → Option ℕ
c_fldsp inst =
    let imm =
      (inst >>> 12 &&& 0x1) <<< 5 ||| (inst >>> 5 &&& 0x3) <<< 3 ||| (inst >>> 2 &&& 0x7) <<< 6 in
    some (encode_i Op.load_fp (wide_rd inst) 2 Op.funct3_fld imm)

unfoldable pub c_fsdsp : ℕ → Option ℕ
c_fsdsp inst =
    let imm = (inst >>> 10 &&& 0x7) <<< 3 ||| (inst >>> 7 &&& 0x7) <<< 6 in
    some (encode_s Op.store_fp 2 (wide_rs2 inst) Op.funct3_fld imm)
