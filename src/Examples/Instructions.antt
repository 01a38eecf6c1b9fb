-- ===== src/Examples/Instructions.antt =====
-- Decoding and execution at concrete inputs (src/cpu/rv32/decode.rs and src/cpu/rv32/execute.rs).
use otorisc_v.Base.{ℕ, ◌+◌, ◌*◌, ◌<◌, u32, ◌≤◌, ◌≡◌, ◌⊎◌, refl, arith, bit}
use otorisc_v.Privilege.{as_u8}
use otorisc_v.Mmu
use otorisc_v.Csr
use otorisc_v.Mmu.{store}
use otorisc_v.Icache
use otorisc_v.Icache.{CachedInst, get_or_decode}
use otorisc_v.Icache.Transparent.{new-IsCoherent}
use otorisc_v.Cpu.{Cpu, read_reg, write_reg}
use otorisc_v.Cpu
use otorisc_v.Decode.{DecodedInst, decode, imm_i, imm_s, imm_b, imm_u, imm_j}
use otorisc_v.Decode.Immediates.{bit_of_i, bit_of_s, bit_of_b, bit_of_u, bit_of_j, bit-immediates}
use otorisc_v.Execute.{FpUnit, execute, execute_cached, fetch_execute, count_instruction}
use otorisc_v.Execute.Alu.{div, rem, abs32, illegal}
use otorisc_v.Execute.Access.{translate_data}
use otorisc_v.Execute.Amo.{execute_amo}
use otorisc_v.Execute.Division.{div-rem}
use otorisc_v.Execute.Float.Access.{fp_unit}
use otorisc_v.Execute.Float.Keeps.{priv_level-execute_cached}
use otorisc_v.Examples.Floats.{float_unit}
use otorisc_v.Execute.Paths.{fetch_execute-execute}
use otorisc_v.Execute.Reservation.{Accepted, lr-sc}
use otorisc_v.Examples.Memory.{Ram, ram}

bit-immediates_example :
    (bit (imm_i 0xFE0008E3) 31 ≡ bit_of_i 0xFE0008E3 31)
    × (bit (imm_s 0xFE0008E3) 31 ≡ bit_of_s 0xFE0008E3 31)
    × (bit (imm_b 0xFE0008E3) 31 ≡ bit_of_b 0xFE0008E3 31)
    × (bit (imm_u 0xFE0008E3) 31 ≡ bit_of_u 0xFE0008E3 31)
    × (bit (imm_j 0xFE0008E3) 31 ≡ bit_of_j 0xFE0008E3 31)
bit-immediates_example = bit-immediates 0xFE0008E3 31 (omega arith) (omega arith)

-- A unit without floating-point instructions.
abbrev no_fp : FpUnit Ram
no_fp = record {
  execute_load_fp = λ inst d. illegal inst;
  execute_store_fp = λ inst d. illegal inst;
  execute_fma = λ inst d op. illegal inst;
  execute_op_fp = λ inst d. illegal inst;
}

abbrev zeros : Ram
zeros _ = 0

-- `fadd.d f3, f1, f2` in machine mode.
priv_level-execute_cached_example :
    as_u8
      (execute_cached ram
        (fp_unit ram float_unit)
        0x022081D3
        (Icache.decode 0x022081D3)
        Cpu.new
        zeros).1.priv_level
    ≤ as_u8 Cpu.new.priv_level
priv_level-execute_cached_example =
    priv_level-execute_cached ram float_unit 0x022081D3 (Icache.decode 0x022081D3) Cpu.new zeros

abbrev program : Ram
program _ = 0x500093

fetch_execute-execute_example :
    fetch_execute ram no_fp Cpu.new program 0x1000
    ≡ count_instruction ram no_fp (
        execute ram no_fp 0x500093
          (record (Cpu.new) { icache = (get_or_decode Cpu.new.icache 0x1000 0x500093).1 })
          program)
unfolding Cpu.new
fetch_execute-execute_example =
    fetch_execute-execute ram no_fp Cpu.new program 0x1000 new-IsCoherent

-- x1 is 0x2000; `lr.w x5, (x1)` and `sc.w x6, x2, (x1)`.
abbrev at_lock : Cpu
at_lock = write_reg (write_reg Cpu.new 1 0x2000) 2 1

abbrev lr_w : DecodedInst
lr_w = decode 0x1000A2AF

abbrev sc_w : DecodedInst
sc_w = decode 0x1820A32F

lr-sc_example :
    let (_, cpu1, s1) = execute_amo ram 0x1000A2AF lr_w at_lock zeros in
    Accepted ram sc_w
      (read_reg cpu1 2)
      (execute_amo ram 0x1820A32F sc_w cpu1 s1)
      (translate_data ram cpu1 s1 (read_reg at_lock 1) store)
unfolding decode read_reg write_reg execute_amo translate_data Mmu.translate Cpu.new Csr.new
lr-sc_example = lr-sc ram 0x1000A2AF 0x1820A32F lr_w sc_w at_lock zeros refl refl refl refl

-- The dividend is -7.
abbrev divisor : ℕ
divisor = 2

div-rem_example :
    (u32 (div 0xFFFFFFF9 divisor * divisor + rem 0xFFFFFFF9 divisor) ≡ 0xFFFFFFF9)
    × ((divisor ≡ 0) ⊎ (abs32 (rem 0xFFFFFFF9 divisor) < abs32 divisor))
div-rem_example = div-rem 0xFFFFFFF9 divisor (omega arith) (omega arith)
