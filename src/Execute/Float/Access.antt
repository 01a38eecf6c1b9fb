-- ===== src/Execute/Float/Access.antt =====
-- Floating-point loads and stores of the 32-bit hart (src/cpu/rv32/execute_fp.rs).
use otorisc_v.Base.{
  ℕ, ◌==◌, ◌!=◌, if◌then◌else◌, add32, shl64, u32, bit_and, bit_or, ◌>>>◌, Result, ok, err,
}
use otorisc_v.Bus.{Bus}
use otorisc_v.Mmu.{load, store}
use otorisc_v.Trap.{Trap, load_address_misaligned, store_address_misaligned}
use otorisc_v.Fpu.{write_f32, write_f64, read_f32, read_f64}
use otorisc_v.Cpu.{Cpu, read_reg}
use otorisc_v.Decode.{DecodedInst, imm_i, imm_s}
use otorisc_v.Execute.{FpUnit}
use otorisc_v.Execute.Alu.{Outcome, next_pc, illegal}
use otorisc_v.Execute.Access.{translate_data}
use otorisc_v.Execute.Float.{is_off, fs_dirty, execute_op_fp, execute_fma}
use otorisc_v.Rv64.Execute.Float.{FloatUnit}

module _ {S : Type 0} (bus : Bus S) where
  abbrev pub read_float : ℕ → DecodedInst → ℕ → Result Trap ℕ × Cpu × S → Outcome S
  read_float inst d vaddr (err t, cpu, s) = (err t, cpu, s)
  read_float inst d vaddr (ok paddr, cpu, s) =
      let (lo, s1) = bus.read32 s paddr in
      let (hi, s2) = bus.read32 s1 (add32 paddr 4) in
      if d.funct3 == 0b010
      then if bit_and vaddr 3 != 0
        then (err (load_address_misaligned vaddr), cpu, s)
        else (ok tt, next_pc (fs_dirty (record cpu { fpu = write_f32 cpu.fpu d.rd lo })), s1)
      else if d.funct3 == 0b011
      then if bit_and vaddr 7 != 0 then (err (load_address_misaligned vaddr), cpu, s) else (
        ok tt,
        next_pc (fs_dirty (record cpu { fpu = write_f64 cpu.fpu d.rd (bit_or (shl64 hi 32) lo) })),
        s2,
      )
      else illegal inst cpu s

  unfoldable pub execute_load_fp : ℕ → DecodedInst → Cpu → S → Outcome S
  unfolding translate_data
  execute_load_fp inst d cpu s =
      let vaddr = add32 (read_reg cpu d.rs1) (imm_i inst) in
      if is_off cpu
      then illegal inst cpu s
      else read_float inst d vaddr (translate_data bus cpu s vaddr load)

  abbrev pub write_float : ℕ → DecodedInst → ℕ → Result Trap ℕ × Cpu × S → Outcome S
  write_float inst d vaddr (err t, cpu, s) = (err t, cpu, s)
  write_float inst d vaddr (ok paddr, cpu, s) =
      let value = read_f64 cpu.fpu d.rs2 in
      if d.funct3 == 0b010
      then if bit_and vaddr 3 != 0
        then (err (store_address_misaligned vaddr), cpu, s)
        else (ok tt, next_pc cpu, bus.write32 s paddr (read_f32 cpu.fpu d.rs2))
      else if d.funct3 == 0b011
      then if bit_and vaddr 7 != 0 then (err (store_address_misaligned vaddr), cpu, s) else (
        ok tt,
        next_pc cpu,
        bus.write32 (bus.write32 s paddr (u32 value)) (add32 paddr 4) (u32 (value >>> 32)),
      )
      else illegal inst cpu s

  unfoldable pub execute_store_fp : ℕ → DecodedInst → Cpu → S → Outcome S
  unfolding translate_data
  execute_store_fp inst d cpu s =
      let vaddr = add32 (read_reg cpu d.rs1) (imm_s inst) in
      if is_off cpu
      then illegal inst cpu s
      else write_float inst d vaddr (translate_data bus cpu s vaddr store)

  -- The instructions as the hart takes them.
  unfoldable pub fp_unit : FloatUnit → FpUnit S
  fp_unit unit = record {
    execute_load_fp = execute_load_fp;
    execute_store_fp = execute_store_fp;
    execute_op_fp = execute_op_fp unit;
    execute_fma = execute_fma unit;
  }
