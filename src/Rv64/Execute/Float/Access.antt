-- ===== src/Rv64/Execute/Float/Access.antt =====
-- Floating-point loads and stores (src/cpu/rv64/execute_fp.rs).
use otorisc_v.Base.{
  ℕ, Bool, ◌==◌, ◌!=◌, if◌then◌else◌, add32, add64, shl64, u32, ◌>>>◌, ◌&&&◌, ◌|||◌, Result, ok,
  err,
}
use otorisc_v.Bus.{Bus}
use otorisc_v.Mmu.{load, store}
use otorisc_v.Trap.{load_address_misaligned, store_address_misaligned}
use otorisc_v.Fpu.{write_f32, write_f64, read_f32, read_f64}
use otorisc_v.Rv64.Cpu.{Cpu64, read_reg}
use otorisc_v.Rv64.Trap.{Trap64}
use otorisc_v.Rv64.Decode.{DecodedInst, imm_i, imm_s}
use otorisc_v.Rv64.Execute.Integer.{Outcome, next_pc, illegal, sext32}
use otorisc_v.Rv64.Execute.Access.{translate_at, data_priv}
use otorisc_v.Rv64.Execute.Float.{FloatUnit, fs_dirty}
use otorisc_v.Rv64.Execute.Float.Compute.{execute_op_fp, execute_fma}
use otorisc_v.Rv64.Execute.{FpUnit64}

module _ {S : Type 0} (bus : Bus S) (debug : Bool) where
  abbrev pub read_float : ℕ → DecodedInst → ℕ → Result Trap64 ℕ × Cpu64 × S → Outcome S
  read_float inst d vaddr (err t, cpu, s) = (err t, cpu, s)
  read_float inst d vaddr (ok addr, cpu, s) =
      let (lo, s1) = bus.read32 s addr in
      let (hi, s2) = bus.read32 s1 (add32 addr 4) in
      if d.funct3 == 0b010
      then if (vaddr &&& 3) != 0
        then (err (load_address_misaligned vaddr), cpu, s)
        else (ok tt, next_pc (fs_dirty (record cpu { fpu = write_f32 cpu.fpu d.rd lo })), s1)
      else if d.funct3 == 0b011
      then if (vaddr &&& 7) != 0 then (err (load_address_misaligned vaddr), cpu, s) else (
        ok tt,
        next_pc (fs_dirty (record cpu { fpu = write_f64 cpu.fpu d.rd (shl64 hi 32 ||| lo) })),
        s2,
      )
      else illegal inst cpu s

  unfoldable pub execute_load_fp : ℕ → DecodedInst → Cpu64 → S → Outcome S
  unfolding translate_at data_priv
  execute_load_fp inst d cpu s =
      let vaddr = add64 (read_reg cpu d.rs1) (sext32 (imm_i inst)) in
      read_float inst d vaddr (translate_at bus debug (data_priv cpu) cpu s vaddr load)

  abbrev pub write_float : ℕ → DecodedInst → ℕ → Result Trap64 ℕ × Cpu64 × S → Outcome S
  write_float inst d vaddr (err t, cpu, s) = (err t, cpu, s)
  write_float inst d vaddr (ok addr, cpu, s) =
      let value = read_f64 cpu.fpu d.rs2 in
      if d.funct3 == 0b010
      then if (vaddr &&& 3) != 0
        then (err (store_address_misaligned vaddr), cpu, s)
        else (ok tt, next_pc cpu, bus.write32 s addr (read_f32 cpu.fpu d.rs2))
      else if d.funct3 == 0b011
      then if (vaddr &&& 7) != 0 then (err (store_address_misaligned vaddr), cpu, s) else (
        ok tt,
        next_pc cpu,
        bus.write32 (bus.write32 s addr (u32 value)) (add32 addr 4) (u32 (value >>> 32)),
      )
      else illegal inst cpu s

  unfoldable pub execute_store_fp : ℕ → DecodedInst → Cpu64 → S → Outcome S
  unfolding translate_at data_priv
  execute_store_fp inst d cpu s =
      let vaddr = add64 (read_reg cpu d.rs1) (sext32 (imm_s inst)) in
      write_float inst d vaddr (translate_at bus debug (data_priv cpu) cpu s vaddr store)

  -- The instructions as the hart takes them.
  abbrev pub fp_unit : FloatUnit → FpUnit64 S
  fp_unit unit = record {
    execute_load_fp = execute_load_fp;
    execute_store_fp = execute_store_fp;
    execute_op_fp = execute_op_fp unit;
    execute_fma = execute_fma unit;
  }
