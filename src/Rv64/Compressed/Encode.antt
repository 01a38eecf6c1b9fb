-- ===== src/Rv64/Compressed/Encode.antt =====
-- The encoders that the expansion of a compressed instruction uses (src/cpu/rv64/execute_c.rs). An
-- i32 is the u32 with its bits.
use otorisc_v.Base.{ℕ, ◌+◌, ◌-◌, ◌>>>◌, ◌<<<◌, ◌&&&◌, ◌|||◌, sar}

abbrev pub reg_prime : ℕ → ℕ
reg_prime val = 8 + (val &&& 0x7)

unfoldable pub sign_extend : ℕ → ℕ → ℕ
sign_extend val bits = let shift = 32 - bits in sar (val <<< shift) shift

unfoldable pub encode_i : ℕ → ℕ → ℕ → ℕ → ℕ → ℕ
encode_i op rd rs1 funct3 imm =
    let imm_u = imm &&& 0xFFF in imm_u <<< 20 ||| rs1 <<< 15 ||| funct3 <<< 12 ||| rd <<< 7 ||| op

unfoldable pub encode_u : ℕ → ℕ → ℕ → ℕ
encode_u op rd imm = (imm &&& 0xFFFFF000) ||| rd <<< 7 ||| op

unfoldable pub encode_r : ℕ → ℕ → ℕ → ℕ → ℕ → ℕ → ℕ
encode_r op rd rs1 rs2 funct3 funct7 =
    funct7 <<< 25 ||| rs2 <<< 20 ||| rs1 <<< 15 ||| funct3 <<< 12 ||| rd <<< 7 ||| op

unfoldable pub encode_s : ℕ → ℕ → ℕ → ℕ → ℕ → ℕ
encode_s op rs1 rs2 funct3 imm_u =
    let imm_11_5 = imm_u >>> 5 &&& 0x7F in
    let imm_4_0 = imm_u &&& 0x1F in
    imm_11_5 <<< 25 ||| rs2 <<< 20 ||| rs1 <<< 15 ||| funct3 <<< 12 ||| imm_4_0 <<< 7 ||| op

unfoldable pub encode_b : ℕ → ℕ → ℕ → ℕ → ℕ → ℕ
encode_b op rs1 rs2 funct3 imm_u =
    let imm_12 = imm_u >>> 12 &&& 1 in
    let imm_10_5 = imm_u >>> 5 &&& 0x3F in
    let imm_4_1 = imm_u >>> 1 &&& 0xF in
    let imm_11 = imm_u >>> 11 &&& 1 in
    imm_12 <<< 31
    ||| imm_10_5 <<< 25
    ||| rs2 <<< 20
    ||| rs1 <<< 15
    ||| funct3 <<< 12
    ||| imm_4_1 <<< 8
    ||| imm_11 <<< 7
    ||| op

unfoldable pub encode_j : ℕ → ℕ → ℕ → ℕ
encode_j op rd imm_u =
    let imm_20 = imm_u >>> 20 &&& 1 in
    let imm_10_1 = imm_u >>> 1 &&& 0x3FF in
    let imm_11 = imm_u >>> 11 &&& 1 in
    let imm_19_12 = imm_u >>> 12 &&& 0xFF in
    imm_20 <<< 31 ||| imm_19_12 <<< 12 ||| imm_11 <<< 20 ||| imm_10_1 <<< 21 ||| rd <<< 7 ||| op
