-- ===== src/Rv64/Compressed.antt =====
-- The compressed instructions, each expanded to a full one (src/cpu/rv64/execute_c.rs).
pub mod Encode
pub mod Arithmetic
pub mod Control
pub mod Fields
pub mod RoundTrip
pub mod Meaning
pub mod Immediates
pub mod Operands
pub mod Expansion
use otorisc_v.Base.{ℕ, ◌/◌, ◌^◌, ◌>>>◌, ◌&&&◌, bit_and, ◌==◌, ◌&&◌, if◌then◌else◌, Option, none}
use Arithmetic.{
  c_addi4spn, c_lw, c_ld, c_sw, c_sd, c_fld, c_fsd, c_addi, c_addiw, c_li, c_addi16sp_lui,
  c_alu_imm,
}
use Control.{
  c_j, c_beqz, c_bnez, c_slli, c_lwsp, c_ldsp, c_misc_alu, c_swsp, c_sdsp, c_fldsp, c_fsdsp,
}

abbrev pub quadrant : ℕ → ℕ
quadrant inst = inst &&& 0b11

abbrev pub funct3 : ℕ → ℕ
funct3 inst = inst >>> 13 &&& 0b111

unfoldable pub expand_compressed : ℕ → Option ℕ
expand_compressed inst =
    let opcode = quadrant inst in
    let funct3 = funct3 inst in
    if (funct3 == 0) && (opcode == 0)
    then c_addi4spn inst
    else if (funct3 == 1) && (opcode == 0)
    then c_fld inst
    else if (funct3 == 2) && (opcode == 0)
    then c_lw inst
    else if (funct3 == 3) && (opcode == 0)
    then c_ld inst
    else if (funct3 == 5) && (opcode == 0)
    then c_fsd inst
    else if (funct3 == 6) && (opcode == 0)
    then c_sw inst
    else if (funct3 == 7) && (opcode == 0)
    then c_sd inst
    else if (funct3 == 0) && (opcode == 1)
    then c_addi inst
    else if (funct3 == 1) && (opcode == 1)
    then c_addiw inst
    else if (funct3 == 2) && (opcode == 1)
    then c_li inst
    else if (funct3 == 3) && (opcode == 1)
    then c_addi16sp_lui inst
    else if (funct3 == 4) && (opcode == 1)
    then c_alu_imm inst
    else if (funct3 == 5) && (opcode == 1)
    then c_j inst
    else if (funct3 == 6) && (opcode == 1)
    then c_beqz inst
    else if (funct3 == 7) && (opcode == 1)
    then c_bnez inst
    else if (funct3 == 0) && (opcode == 2)
    then c_slli inst
    else if (funct3 == 1) && (opcode == 2)
    then c_fldsp inst
    else if (funct3 == 2) && (opcode == 2)
    then c_lwsp inst
    else if (funct3 == 3) && (opcode == 2)
    then c_ldsp inst
    else if (funct3 == 4) && (opcode == 2)
    then c_misc_alu inst
    else if (funct3 == 5) && (opcode == 2)
    then c_fsdsp inst
    else if (funct3 == 6) && (opcode == 2)
    then c_swsp inst
    else if (funct3 == 7) && (opcode == 2)
    then c_sdsp inst
    else none
