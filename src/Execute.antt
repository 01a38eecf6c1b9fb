-- ===== src/Execute.antt =====
-- The execution of one instruction (src/cpu/rv32/execute.rs, and `step` of src/cpu/rv32/mod.rs).
pub mod Alu
pub mod Access
pub mod System
pub mod Float
pub mod Amo
pub mod Paths
pub mod Branches
pub mod Guards
pub mod Division
pub mod Reservation
pub mod Stable
use otorisc_v.Base.{
  ℕ, ◌+◌, Bool, true, false, ◌&&◌, ◌||◌, ◌==◌, ◌!=◌, if◌then◌else◌, add32, not32, bit_and, u64,
  Result, ok, err, lt_signed, ltb, leb, not,
}
use otorisc_v.Bus.{Bus}
use otorisc_v.Cpu.{Cpu, read_reg, write_reg}
use otorisc_v.Trap.{Trap, from_cause, illegal_instruction}
use otorisc_v.Decode.{DecodedInst, from_cached, imm_i, imm_b, imm_u, imm_j}
use otorisc_v.Decode
use otorisc_v.Decode.Op
use otorisc_v.Icache.{CachedInst, get_or_decode, invalidate_all}
use otorisc_v.Icache
use otorisc_v.Mmu
use otorisc_v.Mmu.{translate, instruction}
use Alu.{Outcome, next_pc, illegal, op_imm_result, op_result}
use Access.{execute_load, execute_store}
use System.{execute_system}
use Amo.{execute_amo}

-- The floating-point instructions as the hart takes them, which Execute/Float/Access gives.
pub record FpUnit (S : Type 0) : Type 0 where
  pub execute_load_fp : ℕ → DecodedInst → Cpu → S → Outcome S
  pub execute_store_fp : ℕ → DecodedInst → Cpu → S → Outcome S
  pub execute_fma : ℕ → DecodedInst → ℕ → Cpu → S → Outcome S
  pub execute_op_fp : ℕ → DecodedInst → Cpu → S → Outcome S

-- `OP_BRANCH`: whether the branch is taken, if funct3 names a condition.
unfoldable pub branch_taken : ℕ → ℕ → ℕ → ℕ → Result Trap Bool
branch_taken inst funct3 rs1 rs2 =
    if funct3 == 0
    then ok (rs1 == rs2)
    else if funct3 == 1
    then ok (rs1 != rs2)
    else if funct3 == 4
    then ok (lt_signed rs1 rs2)
    else if funct3 == 5
    then ok (not (lt_signed rs1 rs2))
    else if funct3 == 6
    then ok (ltb rs1 rs2)
    else if funct3 == 7
    then ok (leb rs2 rs1)
    else err (illegal_instruction inst)

module _ {S : Type 0} where
  abbrev pub jump : Cpu → S → ℕ → Result Trap Bool → Outcome S
  jump cpu s imm (ok true) = (ok tt, record cpu { pc = add32 cpu.pc imm }, s)
  jump cpu s imm (ok false) = (ok tt, next_pc cpu, s)
  jump cpu s imm (err t) = (err t, cpu, s)

  abbrev pub finish : ℕ → Cpu → S → Result Trap ℕ → Outcome S
  finish rd cpu s (ok value) = (ok tt, next_pc (write_reg cpu rd value), s)
  finish rd cpu s (err t) = (err t, cpu, s)

  unfoldable pub execute_branch : ℕ → DecodedInst → Cpu → S → Outcome S
  unfolding branch_taken
  execute_branch inst d cpu s =
      jump cpu s (imm_b inst) (branch_taken inst d.funct3 (read_reg cpu d.rs1) (read_reg cpu d.rs2))

  abbrev pub execute_lui : ℕ → DecodedInst → Cpu → S → Outcome S
  execute_lui inst d cpu s = (ok tt, next_pc (write_reg cpu d.rd (imm_u inst)), s)

  abbrev pub execute_auipc : ℕ → DecodedInst → Cpu → S → Outcome S
  execute_auipc inst d cpu s = (ok tt, next_pc (write_reg cpu d.rd (add32 cpu.pc (imm_u inst))), s)

  abbrev pub execute_jal : ℕ → DecodedInst → Cpu → S → Outcome S
  execute_jal inst d cpu s =
      (ok tt, record (write_reg cpu d.rd (add32 cpu.pc 4)) { pc = add32 cpu.pc (imm_j inst) }, s)

  abbrev pub execute_jalr : ℕ → DecodedInst → Cpu → S → Outcome S
  execute_jalr inst d cpu s =
      let target = bit_and (add32 (read_reg cpu d.rs1) (imm_i inst)) (not32 1) in
      (ok tt, record (write_reg cpu d.rd (add32 cpu.pc 4)) { pc = target }, s)

  -- FENCE is a no-op; FENCE.I empties the instruction cache.
  abbrev pub execute_misc_mem : DecodedInst → Cpu → S → Outcome S
  execute_misc_mem d cpu s = (
    ok tt,
    next_pc (
        if d.funct3 == 1
        then record cpu { icache = invalidate_all cpu.icache; cache_invalidation_pending = true }
        else cpu),
    s,
  )

module _ {S : Type 0} (bus : Bus S) (fp : FpUnit S) where
  unfoldable pub dispatch : ℕ → DecodedInst → Cpu → S → Outcome S
  dispatch inst d cpu s =
      if d.opcode == Op.lui
      then execute_lui inst d cpu s
      else if d.opcode == Op.auipc
      then execute_auipc inst d cpu s
      else if d.opcode == Op.jal
      then execute_jal inst d cpu s
      else if d.opcode == Op.jalr
      then execute_jalr inst d cpu s
      else if d.opcode == Op.branch
      then execute_branch inst d cpu s
      else if d.opcode == Op.load
      then execute_load bus inst d cpu s
      else if d.opcode == Op.store
      then execute_store bus inst d cpu s
      else if d.opcode == Op.op_imm
      then finish d.rd cpu s (op_imm_result inst d.funct3 (read_reg cpu d.rs1) (imm_i inst))
      else if d.opcode == Op.op
      then finish d.rd cpu s
          (op_result inst d.funct3 d.funct7 (read_reg cpu d.rs1) (read_reg cpu d.rs2))
      else if d.opcode == Op.misc_mem
      then execute_misc_mem d cpu s
      else if d.opcode == Op.system
      then execute_system inst d cpu s
      else if d.opcode == Op.amo
      then execute_amo bus inst d cpu s
      else if d.opcode == Op.load_fp
      then fp.execute_load_fp inst d cpu s
      else if d.opcode == Op.store_fp
      then fp.execute_store_fp inst d cpu s
      else if (d.opcode == Op.madd)
          || (d.opcode == Op.msub)
          || (d.opcode == Op.nmsub)
          || (d.opcode == Op.nmadd)
      then fp.execute_fma inst d d.opcode cpu s
      else if d.opcode == Op.op_fp
      then fp.execute_op_fp inst d cpu s
      else illegal inst cpu s

  unfoldable pub execute_cached : ℕ → CachedInst → Cpu → S → Outcome S
  execute_cached inst cached cpu s = dispatch inst (from_cached cached) cpu s

  -- The path without a cache decodes twice, except for LUI.
  unfoldable pub execute : ℕ → Cpu → S → Outcome S
  execute inst cpu s =
      let d = Decode.decode inst in
      if d.opcode == Op.lui
      then execute_lui inst d cpu s
      else execute_cached inst (Icache.decode inst) cpu s

  abbrev pub count_instruction : Outcome S → Outcome S
  count_instruction (ok _, cpu, s) =
      (ok tt, record cpu { instruction_count = u64 (cpu.instruction_count + 1) }, s)
  count_instruction (err t, cpu, s) = (err t, cpu, s)

  -- Fetch through the instruction cache, and execution.
  unfoldable pub fetch_execute : Cpu → S → ℕ → Outcome S
  fetch_execute cpu s paddr =
      let (inst, s') = bus.read32 s paddr in
      let (cached, icache) = get_or_decode cpu.icache paddr inst in
      count_instruction (execute_cached inst cached (record cpu { icache = icache }) s')

  abbrev pub step_from : Cpu → Result ℕ ℕ × Mmu.Mmu × S → Outcome S
  step_from cpu (ok paddr, m, s) = fetch_execute (record cpu { mmu = m }) s paddr
  step_from cpu (err cause, m, s) = (err (from_cause cause cpu.pc), record cpu { mmu = m }, s)

  unfoldable pub step : Cpu → S → Outcome S
  step cpu s =
      step_from cpu
        (translate bus cpu.mmu s cpu.pc instruction cpu.priv_level cpu.csr.satp cpu.csr.mstatus)
