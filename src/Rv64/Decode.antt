-- ===== src/Rv64/Decode.antt =====
-- The decoder of the 64-bit hart (src/cpu/rv64/decode.rs), the same text as in
-- src/cpu/rv32/decode.rs.
use otorisc_v.Base.{ℕ}
use otorisc_v.Decode

abbrev pub DecodedInst : Type 0
DecodedInst = Decode.DecodedInst

abbrev pub decode : ℕ → DecodedInst
decode = Decode.decode

abbrev pub imm_i : ℕ → ℕ
imm_i = Decode.imm_i

abbrev pub imm_s : ℕ → ℕ
imm_s = Decode.imm_s

abbrev pub imm_b : ℕ → ℕ
imm_b = Decode.imm_b

abbrev pub imm_u : ℕ → ℕ
imm_u = Decode.imm_u

abbrev pub imm_j : ℕ → ℕ
imm_j = Decode.imm_j
