-- ===== src/Rv64/Compressed/Meaning.antt =====
-- What each compressed instruction stands for, written from the tables of the C extension with
-- fields and sums in place of masks, shifts and `|`; for src/cpu/rv64/execute_c.rs.
use otorisc_v.Base.{
  ℕ, ◌+◌, ◌-◌, ◌*◌, ◌/◌, ◌%◌, ◌^◌, ◌==◌, ◌&&◌, ltb, ◌≡◌, Option, none, some, if◌then◌else◌,
}
use otorisc_v.Rv64.Op
use otorisc_v.Rv64.Decode.{imm_s, imm_b, imm_u, imm_j}
use otorisc_v.Rv64.Compressed.RoundTrip.{DecodesI, DecodesR, DecodesS, DecodesU}

-- A full instruction by its format, its operation and its operands.
pub data Meaning : Type 0 where
  i_type : (op funct3 rd rs1 imm : ℕ) → Meaning
  r_type : (op funct3 funct7 rd rs1 rs2 : ℕ) → Meaning
  s_type : (op funct3 rs1 rs2 imm : ℕ) → Meaning
  b_type : (funct3 rs1 rs2 imm : ℕ) → Meaning
  u_type : (rd imm : ℕ) → Meaning
  j_type : (rd imm : ℕ) → Meaning
  ebreak reserved : Meaning

-- Bits `hi` to `lo` of a word, and a word of `n` bits sign extended to 32.
abbrev pub bits : ℕ → ℕ → ℕ → ℕ
bits inst hi lo = inst / 2 ^ lo % 2 ^ (hi + 1 - lo)

abbrev pub signed : ℕ → ℕ → ℕ
signed n x = if ltb x (2 ^ (n - 1)) then x else x + (2 ^ 32 - 2 ^ n)

-- The registers of five bits, and those of three bits, which are x8 to x15.
abbrev pub rd : ℕ → ℕ
rd inst = bits inst 11 7

abbrev pub rs2 : ℕ → ℕ
rs2 inst = bits inst 6 2

abbrev pub rd' : ℕ → ℕ
rd' inst = 8 + bits inst 4 2

abbrev pub rs1' : ℕ → ℕ
rs1' inst = 8 + bits inst 9 7

-- The offsets and immediates.
abbrev pub imm_ci : ℕ → ℕ
imm_ci inst = signed 6 (bits inst 12 12 * 32 + bits inst 6 2)

abbrev pub shamt : ℕ → ℕ
shamt inst = bits inst 12 12 * 32 + bits inst 6 2

abbrev pub uimm_lw : ℕ → ℕ
uimm_lw inst = bits inst 5 5 * 64 + bits inst 12 10 * 8 + bits inst 6 6 * 4

abbrev pub uimm_ld : ℕ → ℕ
uimm_ld inst = bits inst 6 5 * 64 + bits inst 12 10 * 8

abbrev pub uimm_lwsp : ℕ → ℕ
uimm_lwsp inst = bits inst 3 2 * 64 + bits inst 12 12 * 32 + bits inst 6 4 * 4

abbrev pub uimm_ldsp : ℕ → ℕ
uimm_ldsp inst = bits inst 4 2 * 64 + bits inst 12 12 * 32 + bits inst 6 5 * 8

abbrev pub uimm_swsp : ℕ → ℕ
uimm_swsp inst = bits inst 8 7 * 64 + bits inst 12 9 * 4

abbrev pub uimm_sdsp : ℕ → ℕ
uimm_sdsp inst = bits inst 9 7 * 64 + bits inst 12 10 * 8

abbrev pub nzuimm_addi4spn : ℕ → ℕ
nzuimm_addi4spn inst =
    bits inst 10 7 * 64 + bits inst 12 11 * 16 + bits inst 5 5 * 8 + bits inst 6 6 * 4

abbrev pub nzimm_addi16sp : ℕ → ℕ
nzimm_addi16sp inst = signed 10 (
    bits inst 12 12 * 512
    + bits inst 4 3 * 128
    + bits inst 5 5 * 64
    + bits inst 2 2 * 32
    + bits inst 6 6 * 16)

abbrev pub imm_cj : ℕ → ℕ
imm_cj inst = signed 12 (
    bits inst 12 12 * 2048
    + bits inst 8 8 * 1024
    + bits inst 10 9 * 256
    + bits inst 6 6 * 128
    + bits inst 7 7 * 64
    + bits inst 2 2 * 32
    + bits inst 11 11 * 16
    + bits inst 5 3 * 2)

abbrev pub imm_cb : ℕ → ℕ
imm_cb inst = signed 9 (
    bits inst 12 12 * 256
    + bits inst 6 5 * 64
    + bits inst 2 2 * 32
    + bits inst 11 10 * 8
    + bits inst 4 3 * 2)

-- Quadrant 1, funct3 3 and 4; quadrant 2, funct3 4. As in the source, C.ADDI16SP with a zero
-- immediate, which the architecture reserves, is an addition of zero.
abbrev pub addi16sp_lui : ℕ → Meaning
addi16sp_lui inst =
    if rd inst == 2
    then i_type Op.op_imm 0 2 2 (nzimm_addi16sp inst)
    else if imm_ci inst == 0
    then reserved
    else u_type (rd inst) (imm_ci inst * 4096 % 2 ^ 32)

abbrev pub alu_reg : ℕ → Meaning
alu_reg inst =
    let r = rs1' inst in
    let o = bits inst 6 5 in
    if bits inst 12 12 == 0
    then if o == 0
      then r_type Op.op 0 0x20 r r (rd' inst)
      else if o == 1
      then r_type Op.op 4 0 r r (rd' inst)
      else if o == 2
      then r_type Op.op 6 0 r r (rd' inst)
      else r_type Op.op 7 0 r r (rd' inst)
    else if o == 0
    then r_type Op.op_32 0 0x20 r r (rd' inst)
    else if o == 1
    then r_type Op.op_32 0 0 r r (rd' inst)
    else reserved

abbrev pub alu : ℕ → Meaning
alu inst =
    let r = rs1' inst in
    let o = bits inst 11 10 in
    if o == 0
    then i_type Op.op_imm 5 r r (shamt inst)
    else if o == 1
    then i_type Op.op_imm 5 r r (1024 + shamt inst)
    else if o == 2
    then i_type Op.op_imm 7 r r (imm_ci inst)
    else alu_reg inst

abbrev pub jr_mv_add : ℕ → Meaning
jr_mv_add inst =
    if bits inst 12 12 == 0
    then if rs2 inst == 0
      then if rd inst == 0 then reserved else i_type Op.jalr 0 0 (rd inst) 0
      else r_type Op.op 0 0 (rd inst) 0 (rs2 inst)
    else if rs2 inst == 0
    then if rd inst == 0 then ebreak else i_type Op.jalr 0 1 (rd inst) 0
    else r_type Op.op 0 0 (rd inst) (rd inst) (rs2 inst)

-- The three quadrants. As in the source, C.ADDIW to x0, which the architecture reserves, is an
-- addition that writes no register.
unfoldable pub meaning : ℕ → Meaning
meaning inst =
    let f = bits inst 15 13 in
    let q = bits inst 1 0 in
    if (f == 0) && (q == 0)
    then if nzuimm_addi4spn inst == 0
      then reserved
      else i_type Op.op_imm 0 (rd' inst) 2 (nzuimm_addi4spn inst)
    else if (f == 1) && (q == 0)
    then i_type Op.load_fp 3 (rd' inst) (rs1' inst) (uimm_ld inst)
    else if (f == 2) && (q == 0)
    then i_type Op.load 2 (rd' inst) (rs1' inst) (uimm_lw inst)
    else if (f == 3) && (q == 0)
    then i_type Op.load 3 (rd' inst) (rs1' inst) (uimm_ld inst)
    else if (f == 5) && (q == 0)
    then s_type Op.store_fp 3 (rs1' inst) (rd' inst) (uimm_ld inst)
    else if (f == 6) && (q == 0)
    then s_type Op.store 2 (rs1' inst) (rd' inst) (uimm_lw inst)
    else if (f == 7) && (q == 0)
    then s_type Op.store 3 (rs1' inst) (rd' inst) (uimm_ld inst)
    else if (f == 0) && (q == 1)
    then i_type Op.op_imm 0 (rd inst) (rd inst) (imm_ci inst)
    else if (f == 1) && (q == 1)
    then i_type Op.op_imm_32 0 (rd inst) (rd inst) (imm_ci inst)
    else if (f == 2) && (q == 1)
    then i_type Op.op_imm 0 (rd inst) 0 (imm_ci inst)
    else if (f == 3) && (q == 1)
    then addi16sp_lui inst
    else if (f == 4) && (q == 1)
    then alu inst
    else if (f == 5) && (q == 1)
    then j_type 0 (imm_cj inst)
    else if (f == 6) && (q == 1)
    then b_type 0 (rs1' inst) 0 (imm_cb inst)
    else if (f == 7) && (q == 1)
    then b_type 1 (rs1' inst) 0 (imm_cb inst)
    else if (f == 0) && (q == 2)
    then i_type Op.op_imm 1 (rd inst) (rd inst) (shamt inst)
    else if (f == 1) && (q == 2)
    then i_type Op.load_fp 3 (rd inst) 2 (uimm_ldsp inst)
    else if (f == 2) && (q == 2)
    then if rd inst == 0 then reserved else i_type Op.load 2 (rd inst) 2 (uimm_lwsp inst)
    else if (f == 3) && (q == 2)
    then if rd inst == 0 then reserved else i_type Op.load 3 (rd inst) 2 (uimm_ldsp inst)
    else if (f == 4) && (q == 2)
    then jr_mv_add inst
    else if (f == 5) && (q == 2)
    then s_type Op.store_fp 3 2 (rs2 inst) (uimm_sdsp inst)
    else if (f == 6) && (q == 2)
    then s_type Op.store 2 2 (rs2 inst) (uimm_swsp inst)
    else if (f == 7) && (q == 2)
    then s_type Op.store 3 2 (rs2 inst) (uimm_sdsp inst)
    else reserved

-- An expansion that the decoder reads as the meaning; none for a reserved encoding.
abbrev pub Expands : Meaning → Option ℕ → Type 0
Expands (i_type op f rd rs1 imm) o = (e : ℕ) × (o ≡ some e) × DecodesI e op rd rs1 f imm
Expands (r_type op f g rd rs1 rs2) o = (e : ℕ) × (o ≡ some e) × DecodesR e op rd rs1 rs2 f g
Expands (s_type op f rs1 rs2 imm) o = (e : ℕ) × (o ≡ some e) × DecodesS imm_s e op rs1 rs2 f imm
Expands (b_type f rs1 rs2 imm) o = (e : ℕ) × (o ≡ some e) × DecodesS imm_b e Op.branch rs1 rs2 f imm
Expands (u_type rd imm) o = (e : ℕ) × (o ≡ some e) × DecodesU imm_u e Op.lui rd imm
Expands (j_type rd imm) o = (e : ℕ) × (o ≡ some e) × DecodesU imm_j e Op.jal rd imm
Expands ebreak o = o ≡ some 0x00100073
Expands reserved o = o ≡ none
