-- ===== src/Decode.antt =====
-- The fields and immediates of an instruction (src/cpu/rv32/decode.rs).
pub mod Op
pub mod Immediates
use otorisc_v.Base.{ℕ, ◌+◌, ◌-◌, ◌*◌, ◌/◌, ◌%◌, ◌^◌, bit_and, bit_or, ◌>>>◌, ◌<<<◌, sar}
use otorisc_v.Icache.{CachedInst}

pub record DecodedInst : Type 0 where
  pub opcode : ℕ
  pub rd : ℕ
  pub rs1 : ℕ
  pub rs2 : ℕ
  pub rs3 : ℕ
  pub funct3 : ℕ
  pub funct7 : ℕ
  pub imm_i : ℕ
  pub imm_s : ℕ
  pub imm_b : ℕ
  pub imm_u : ℕ
  pub imm_j : ℕ

-- The immediates are left 0 here and taken from the instruction where they are used.
unfoldable pub decode : ℕ → DecodedInst
decode inst = record {
  opcode = bit_and inst 0x7F;
  rd = bit_and (inst >>> 7) 0x1F;
  rs1 = bit_and (inst >>> 15) 0x1F;
  rs2 = bit_and (inst >>> 20) 0x1F;
  rs3 = bit_and (inst >>> 27) 0x1F;
  funct3 = bit_and (inst >>> 12) 0x7;
  funct7 = bit_and (inst >>> 25) 0x7F;
  imm_i = 0;
  imm_s = 0;
  imm_b = 0;
  imm_u = 0;
  imm_j = 0;
}

unfoldable pub from_cached : CachedInst → DecodedInst
from_cached cached = record {
  opcode = cached.opcode;
  rd = cached.rd;
  rs1 = cached.rs1;
  rs2 = cached.rs2;
  rs3 = cached.rs3;
  funct3 = cached.funct3;
  funct7 = cached.funct7;
  imm_i = 0;
  imm_s = 0;
  imm_b = 0;
  imm_u = 0;
  imm_j = 0;
}

-- The immediates are i32; their callers cast them to u32, and here they are those u32. A shift of
-- an i32 to the right is arithmetic.
unfoldable pub imm_i : ℕ → ℕ
imm_i inst = sar inst 20

unfoldable pub imm_s : ℕ → ℕ
imm_s inst = bit_or (sar (bit_and inst 0xFE000000) 20) (bit_and (inst >>> 7) 0x1F)

unfoldable pub imm_b : ℕ → ℕ
imm_b inst =
    bit_or
      (bit_or (bit_or (sar (bit_and inst 0x80000000) 19) (bit_and (inst >>> 7) 1 <<< 11))
        (bit_and (inst >>> 25) 0x3F <<< 5))
      (bit_and (inst >>> 8) 0xF <<< 1)

unfoldable pub imm_u : ℕ → ℕ
imm_u inst = bit_and inst 0xFFFFF000

unfoldable pub imm_j : ℕ → ℕ
imm_j inst =
    bit_or
      (bit_or (bit_or (sar (bit_and inst 0x80000000) 11) (bit_and inst 0xFF000))
        (bit_and (inst >>> 20) 1 <<< 11))
      (bit_and (inst >>> 21) 0x3FF <<< 1)
