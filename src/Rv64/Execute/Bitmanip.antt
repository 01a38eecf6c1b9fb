-- ===== src/Rv64/Execute/Bitmanip.antt =====
-- The bit manipulation instructions (src/cpu/rv64/execute.rs).
use otorisc_v.Base.{
  ℕ, zero, suc, ◌+◌, ◌-◌, ◌*◌, ◌/◌, ◌%◌, ◌^◌, ◌&&◌, ◌==◌, if◌then◌else◌, add64, shl64, not64,
  bit_xor, u32, ◌>>>◌, ◌&&&◌, ◌|||◌, ltb, Option, none, some,
}
use otorisc_v.Rv64.Op
use otorisc_v.Rv64.Execute.Integer.{lt_signed64}

-- `count_ones`, `trailing_zeros` and `leading_zeros` of a word of `w` bits.
unfoldable pub count_ones : ℕ → ℕ → ℕ
count_ones zero x = 0
count_ones (suc w) x = x % 2 + count_ones w (x / 2)

unfoldable pub trailing_zeros : ℕ → ℕ → ℕ
trailing_zeros zero x = 0
trailing_zeros (suc w) x = let rest = 1 + trailing_zeros w (x / 2) in if x % 2 == 1 then 0 else rest

unfoldable pub leading_zeros : ℕ → ℕ → ℕ
leading_zeros zero x = 0
leading_zeros (suc w) x = let rest = 1 + leading_zeros w x in if x / 2 ^ w % 2 == 1 then 0 else rest

-- `rotate_left` and `rotate_right` of a word of `w` bits by less than `w`.
abbrev pub rotate_left : ℕ → ℕ → ℕ → ℕ
rotate_left w x k = x * 2 ^ k % 2 ^ w ||| x / 2 ^ (w - k)

abbrev pub rotate_right : ℕ → ℕ → ℕ → ℕ
rotate_right w x k = x / 2 ^ k ||| x * 2 ^ (w - k) % 2 ^ w

-- `swap_bytes`, from the `n` lowest bytes on.
unfoldable pub swap_bytes : ℕ → ℕ → ℕ
swap_bytes zero x = 0
swap_bytes (suc n) x = x % 256 * 256 ^ n + swap_bytes n (x / 256)

-- The loop of `orc_b`, with `n` bytes to go from byte `i` on.
unfoldable pub orc_from : ℕ → ℕ → ℕ → ℕ → ℕ
orc_from zero i value out = out
orc_from (suc n) i value out =
    let byte = value >>> (i * 8) &&& 0xFF in
    let expanded = if byte == 0 then 0 else 0xFF in
    orc_from n (suc i) value (out ||| shl64 expanded (i * 8))

abbrev pub orc_b : ℕ → ℕ
orc_b value = orc_from 8 0 value 0

-- `x as i8 as i64 as u64` and `x as i16 as i64 as u64`.
abbrev pub sext_byte : ℕ → ℕ
sext_byte x = let b = x % 256 in if ltb b 128 then b else b + 18446744073709551360

abbrev pub sext_half : ℕ → ℕ
sext_half x = let h = x % 65536 in if ltb h 32768 then h else h + 18446744073709486080

unfoldable pub execute_bitmanip_imm : ℕ → ℕ → ℕ → Option ℕ
unfolding leading_zeros trailing_zeros count_ones swap_bytes orc_from
execute_bitmanip_imm inst funct3 rs1 =
    let imm12 = inst >>> 20 &&& 0xFFF in
    let funct6 = inst >>> 26 &&& 0x3F in
    let shamt = imm12 &&& 0x3F in
    if funct3 == Op.funct3_sll
    then if imm12 == 0x600
      then some (leading_zeros 64 rs1)
      else if imm12 == 0x601
      then some (trailing_zeros 64 rs1)
      else if imm12 == 0x602
      then some (count_ones 64 rs1)
      else if imm12 == 0x604
      then some (sext_byte rs1)
      else if imm12 == 0x605
      then some (sext_half rs1)
      else if funct6 == 0x0A
      then some (rs1 ||| shl64 1 shamt)
      else if funct6 == 0x12
      then some (rs1 &&& not64 (shl64 1 shamt))
      else if funct6 == 0x1A
      then some (bit_xor rs1 (shl64 1 shamt))
      else none
    else if funct3 == Op.funct3_srl_sra
    then if imm12 == 0x287
      then some (orc_b rs1)
      else if imm12 == 0x6B8
      then some (swap_bytes 8 rs1)
      else if funct6 == 0x12
      then some (rs1 >>> shamt &&& 1)
      else if funct6 == 0x18
      then some (rotate_right 64 rs1 shamt)
      else none
    else none

unfoldable pub execute_bitmanip_op : ℕ → ℕ → ℕ → ℕ → Option ℕ
execute_bitmanip_op funct7 funct3 rs1 rs2 =
    let shamt = rs2 &&& 0x3F in
    if (funct7 == 0x10) && (funct3 == 0x2)
    then some (add64 rs2 (shl64 rs1 1))
    else if (funct7 == 0x10) && (funct3 == 0x4)
    then some (add64 rs2 (shl64 rs1 2))
    else if (funct7 == 0x10) && (funct3 == 0x6)
    then some (add64 rs2 (shl64 rs1 3))
    else if (funct7 == 0x20) && (funct3 == 0x7)
    then some (rs1 &&& not64 rs2)
    else if (funct7 == 0x20) && (funct3 == 0x6)
    then some (rs1 ||| not64 rs2)
    else if (funct7 == 0x20) && (funct3 == 0x4)
    then some (not64 (bit_xor rs1 rs2))
    else if (funct7 == 0x05) && (funct3 == 0x4)
    then some (if lt_signed64 rs1 rs2 then rs1 else rs2)
    else if (funct7 == 0x05) && (funct3 == 0x5)
    then some (if ltb rs1 rs2 then rs1 else rs2)
    else if (funct7 == 0x05) && (funct3 == 0x6)
    then some (if lt_signed64 rs2 rs1 then rs1 else rs2)
    else if (funct7 == 0x05) && (funct3 == 0x7)
    then some (if ltb rs2 rs1 then rs1 else rs2)
    else if (funct7 == 0x30) && (funct3 == 0x1)
    then some (rotate_left 64 rs1 shamt)
    else if (funct7 == 0x30) && (funct3 == 0x5)
    then some (rotate_right 64 rs1 shamt)
    else if (funct7 == 0x14) && (funct3 == 0x1)
    then some (rs1 ||| shl64 1 shamt)
    else if (funct7 == 0x24) && (funct3 == 0x1)
    then some (rs1 &&& not64 (shl64 1 shamt))
    else if (funct7 == 0x24) && (funct3 == 0x5)
    then some (rs1 >>> shamt &&& 1)
    else if (funct7 == 0x34) && (funct3 == 0x1)
    then some (bit_xor rs1 (shl64 1 shamt))
    else none

unfoldable pub execute_bitmanip_op_uw : ℕ → ℕ → ℕ → ℕ → Option ℕ
execute_bitmanip_op_uw funct7 funct3 rs1 rs2 =
    let rs1_uw = u32 rs1 in
    if (funct7 == 0x04) && (funct3 == 0x0)
    then some (add64 rs2 rs1_uw)
    else if (funct7 == 0x10) && (funct3 == 0x2)
    then some (add64 rs2 (shl64 rs1_uw 1))
    else if (funct7 == 0x10) && (funct3 == 0x4)
    then some (add64 rs2 (shl64 rs1_uw 2))
    else if (funct7 == 0x10) && (funct3 == 0x6)
    then some (add64 rs2 (shl64 rs1_uw 3))
    else none

unfoldable pub execute_bitmanip_imm_w : ℕ → ℕ → ℕ → Option ℕ
unfolding leading_zeros trailing_zeros count_ones
execute_bitmanip_imm_w inst funct3 rs1 =
    let imm12 = inst >>> 20 &&& 0xFFF in
    let funct7 = inst >>> 25 &&& 0x7F in
    if funct3 == Op.funct3_sll
    then if imm12 == 0x600
      then some (leading_zeros 32 rs1)
      else if imm12 == 0x601
      then some (trailing_zeros 32 rs1)
      else if imm12 == 0x602
      then some (count_ones 32 rs1)
      else none
    else if funct3 == Op.funct3_srl_sra
    then if funct7 == 0x30 then some (rotate_right 32 rs1 (imm12 &&& 0x1F)) else none
    else none

unfoldable pub execute_bitmanip_op_w : ℕ → ℕ → ℕ → ℕ → Option ℕ
execute_bitmanip_op_w funct7 funct3 rs1 rs2 =
    let shamt = rs2 &&& 0x1F in
    if (funct7 == 0x30) && (funct3 == 0x1)
    then some (rotate_left 32 rs1 shamt)
    else if (funct7 == 0x30) && (funct3 == 0x5)
    then some (rotate_right 32 rs1 shamt)
    else none
