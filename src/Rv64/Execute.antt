-- ===== src/Rv64/Execute.antt =====
-- The execution of one instruction of the 64-bit hart (src/cpu/rv64/execute.rs, `step` of
-- src/cpu/rv64/mod.rs, `execute_compressed` of src/cpu/rv64/execute_c.rs). What only prints is left
-- out.
pub mod Integer
pub mod Bitmanip
pub mod Access
pub mod Amo
pub mod System
pub mod Float
pub mod Lengths
pub mod Satp
use otorisc_v.Base.{
  ℕ, ◌+◌, ◌/◌, ◌*◌, ◌%◌, ◌^◌, Bool, true, false, ◌&&◌, ◌||◌, ◌==◌, ◌!=◌, if◌then◌else◌, add64,
  not64, shl64, u16, u32, u64, bit_and, ◌>>>◌, ◌&&&◌, Option, none, some, Result, ok, err, ltb, leb,
  not,
}
use otorisc_v.Bus.{Bus}
use otorisc_v.Mmu.{instruction}
use otorisc_v.Trap.{illegal_instruction}
use otorisc_v.Rv64.Op
use otorisc_v.Rv64.Mmu
use otorisc_v.Rv64.Mmu.{Mmu64, translate}
use otorisc_v.Rv64.Cpu.{Cpu64, read_reg, write_reg, map_paddr}
use otorisc_v.Rv64.Trap.{Trap64, from_cause}
use otorisc_v.Rv64.Decode.{DecodedInst, decode, imm_i, imm_b, imm_u, imm_j}
use otorisc_v.Rv64.Compressed.{expand_compressed}
use Integer.{
  Outcome, next_pc, illegal, sext32, lt_signed64, op_imm_result, base_result, op_imm_w_result,
  base_w_result, execute_m_extension, execute_m_extension_w,
}
use Bitmanip.{
  execute_bitmanip_imm, execute_bitmanip_op, execute_bitmanip_op_uw, execute_bitmanip_imm_w,
  execute_bitmanip_op_w,
}
use Access.{execute_load, execute_store}
use Amo.{execute_amo}
use System.{execute_system, SatpSetting}

-- The floating-point instructions as the hart takes them, which Rv64/Execute/Float/Access gives.
pub record FpUnit64 (S : Type 0) : Type 0 where
  pub execute_load_fp : ℕ → DecodedInst → Cpu64 → S → Outcome S
  pub execute_store_fp : ℕ → DecodedInst → Cpu64 → S → Outcome S
  pub execute_op_fp : ℕ → DecodedInst → Cpu64 → S → Outcome S
  pub execute_fma : ℕ → DecodedInst → ℕ → Cpu64 → S → Outcome S

-- What the environment variables RISCV_DEBUG and RISCV_SATP_MODE say.
pub record Settings : Type 0 where
  pub debug : Bool
  pub satp : SatpSetting

-- Whether a branch is taken, if funct3 names a condition.
unfoldable pub branch_taken : ℕ → ℕ → ℕ → ℕ → Result Trap64 Bool
branch_taken inst funct3 rs1 rs2 =
    if funct3 == Op.funct3_beq
    then ok (rs1 == rs2)
    else if funct3 == Op.funct3_bne
    then ok (rs1 != rs2)
    else if funct3 == Op.funct3_blt
    then ok (lt_signed64 rs1 rs2)
    else if funct3 == Op.funct3_bge
    then ok (not (lt_signed64 rs1 rs2))
    else if funct3 == Op.funct3_bltu
    then ok (ltb rs1 rs2)
    else if funct3 == Op.funct3_bgeu
    then ok (leb rs2 rs1)
    else err (illegal_instruction inst)

abbrev pub or_else {ℓ} : {A : Type ℓ} → Option ℕ → (ℕ → A) → A → A
or_else none f other = other
or_else (some v) f other = f v

-- `OP_OP_IMM`, `OP_OP`, and the words of `OP_OP_IMM_32` and `OP_OP_32`.
unfoldable pub op_imm : ℕ → DecodedInst → ℕ → Result Trap64 ℕ
unfolding execute_bitmanip_imm op_imm_result
op_imm inst d rs1 =
    or_else (execute_bitmanip_imm inst d.funct3 rs1) (λ v. ok v)
      (op_imm_result inst d.funct3 rs1 (sext32 (imm_i inst)))

unfoldable pub op : ℕ → DecodedInst → ℕ → ℕ → Result Trap64 ℕ
unfolding execute_bitmanip_op execute_m_extension base_result
op inst d rs1 rs2 =
    or_else (execute_bitmanip_op d.funct7 d.funct3 rs1 rs2) (λ v. ok v)
      (if d.funct7 == 1
        then execute_m_extension d.funct3 rs1 rs2
        else base_result inst d.funct3 d.funct7 rs1 rs2)

abbrev pub widened : Result Trap64 ℕ → Result Trap64 ℕ
widened (ok w) = ok (sext32 w)
widened (err t) = err t

unfoldable pub op_imm_32 : ℕ → DecodedInst → ℕ → Result Trap64 ℕ
unfolding execute_bitmanip_imm_w op_imm_w_result
op_imm_32 inst d rs1_full =
    let imm12 = inst >>> 20 &&& 0xFFF in
    let funct6 = inst >>> 26 &&& 0x3F in
    let rs1 = u32 rs1_full in
    if (d.funct3 == Op.funct3_sll) && (funct6 == 0b000010)
    then ok (shl64 rs1 (imm12 &&& 0x3F))
    else widened (
        or_else (execute_bitmanip_imm_w inst d.funct3 rs1) (λ v. ok v)
          (op_imm_w_result inst d.funct3 rs1 (imm_i inst)))

unfoldable pub op_32 : ℕ → DecodedInst → ℕ → ℕ → Result Trap64 ℕ
unfolding execute_bitmanip_op_uw execute_bitmanip_op_w execute_m_extension_w base_w_result
op_32 inst d rs1_full rs2_full =
    let rs1 = u32 rs1_full in
    let rs2 = u32 rs2_full in
    or_else (execute_bitmanip_op_uw d.funct7 d.funct3 rs1_full rs2_full) (λ v. ok v)
      (widened (
        or_else (execute_bitmanip_op_w d.funct7 d.funct3 rs1 rs2) (λ v. ok v)
          (if d.funct7 == 1
            then execute_m_extension_w d.funct3 rs1 rs2
            else base_w_result inst d.funct3 d.funct7 rs1 rs2)))

module _ {S : Type 0} where
  abbrev pub jump : Cpu64 → S → ℕ → Result Trap64 Bool → Outcome S
  jump cpu s imm (ok true) = (ok tt, record cpu { pc = add64 cpu.pc imm }, s)
  jump cpu s imm (ok false) = (ok tt, next_pc cpu, s)
  jump cpu s imm (err t) = (err t, cpu, s)

  abbrev pub finish : ℕ → Cpu64 → S → Result Trap64 ℕ → Outcome S
  finish rd cpu s (ok value) = (ok tt, next_pc (write_reg cpu rd value), s)
  finish rd cpu s (err t) = (err t, cpu, s)

  unfoldable pub execute_branch : ℕ → DecodedInst → Cpu64 → S → Outcome S
  unfolding branch_taken
  execute_branch inst d cpu s =
      jump cpu s (sext32 (imm_b inst))
        (branch_taken inst d.funct3 (read_reg cpu d.rs1) (read_reg cpu d.rs2))

  abbrev pub execute_lui : ℕ → DecodedInst → Cpu64 → S → Outcome S
  execute_lui inst d cpu s = (ok tt, next_pc (write_reg cpu d.rd (sext32 (imm_u inst))), s)

  abbrev pub execute_auipc : ℕ → DecodedInst → Cpu64 → S → Outcome S
  execute_auipc inst d cpu s =
      (ok tt, next_pc (write_reg cpu d.rd (add64 cpu.pc (sext32 (imm_u inst)))), s)

  abbrev pub execute_jal : ℕ → DecodedInst → Cpu64 → S → Outcome S
  execute_jal inst d cpu s = (
    ok tt,
    record (write_reg cpu d.rd (add64 cpu.pc 4)) { pc = add64 cpu.pc (sext32 (imm_j inst)) },
    s,
  )

  abbrev pub execute_jalr : ℕ → DecodedInst → Cpu64 → S → Outcome S
  execute_jalr inst d cpu s =
      let target = add64 (read_reg cpu d.rs1) (sext32 (imm_i inst)) &&& not64 1 in
      (ok tt, record (write_reg cpu d.rd (add64 cpu.pc 4)) { pc = target }, s)

  -- FENCE is a no-op; FENCE.I empties the translation buffer.
  abbrev pub execute_misc_mem : DecodedInst → Cpu64 → S → Outcome S
  execute_misc_mem d cpu s = (
    ok tt,
    next_pc (
        if d.funct3 == 1
        then record cpu { mmu = Mmu.invalidate cpu.mmu; cache_invalidation_pending = true }
        else cpu),
    s,
  )

module _ {S : Type 0} (bus : Bus S) (fp : FpUnit64 S) (settings : Settings) where
  unfoldable pub execute_decoded : ℕ → DecodedInst → Cpu64 → S → Outcome S
  execute_decoded inst d cpu s =
      if d.opcode == Op.lui
      then execute_lui inst d cpu s
      else if d.opcode == Op.auipc
      then execute_auipc inst d cpu s
      else if d.opcode == Op.jal
      then execute_jal inst d cpu s
      else if d.opcode == Op.jalr
      then execute_jalr inst d cpu s
      else if d.opcode == Op.branch
      then execute_branch inst d cpu s
      else if d.opcode == Op.load
      then execute_load bus settings.debug inst d cpu s
      else if d.opcode == Op.store
      then execute_store bus settings.debug inst d cpu s
      else if d.opcode == Op.op_imm
      then finish d.rd cpu s (op_imm inst d (read_reg cpu d.rs1))
      else if d.opcode == Op.op
      then finish d.rd cpu s (op inst d (read_reg cpu d.rs1) (read_reg cpu d.rs2))
      else if d.opcode == Op.op_imm_32
      then finish d.rd cpu s (op_imm_32 inst d (read_reg cpu d.rs1))
      else if d.opcode == Op.op_32
      then finish d.rd cpu s (op_32 inst d (read_reg cpu d.rs1) (read_reg cpu d.rs2))
      else if d.opcode == Op.amo
      then execute_amo bus settings.debug inst d cpu s
      else if d.opcode == Op.misc_mem
      then execute_misc_mem d cpu s
      else if d.opcode == Op.system
      then execute_system settings.satp inst d cpu s
      else if d.opcode == Op.load_fp
      then fp.execute_load_fp inst d cpu s
      else if d.opcode == Op.store_fp
      then fp.execute_store_fp inst d cpu s
      else if d.opcode == Op.op_fp
      then fp.execute_op_fp inst d cpu s
      else if (d.opcode == Op.madd)
          || (d.opcode == Op.msub)
          || (d.opcode == Op.nmsub)
          || (d.opcode == Op.nmadd)
      then fp.execute_fma inst d d.opcode cpu s
      else illegal inst cpu s

  unfoldable pub execute : ℕ → Cpu64 → S → Outcome S
  execute inst cpu s = execute_decoded inst (decode inst) cpu s

  -- The `match d.opcode` of `execute_compressed`: the length of the instruction is two.
  abbrev pub adjust_branch : ℕ → Cpu64 → S → ℕ → Result Trap64 Bool → Outcome S
  adjust_branch expanded cpu s pc_before (ok true) =
      (ok tt, record cpu { pc = add64 pc_before (sext32 (imm_b expanded)) }, s)
  adjust_branch expanded cpu s pc_before (ok false) =
      (ok tt, record cpu { pc = add64 pc_before 2 }, s)
  adjust_branch expanded cpu s pc_before (err t) = (err t, cpu, s)

  abbrev pub adjust : ℕ → DecodedInst → ℕ → ℕ → ℕ → Outcome S → Outcome S
  adjust expanded d pc_before rs1_val rs2_val (err t, cpu, s) = (err t, cpu, s)
  adjust expanded d pc_before rs1_val rs2_val (ok _, cpu, s) =
      if d.opcode == Op.branch
      then adjust_branch expanded cpu s pc_before (branch_taken expanded d.funct3 rs1_val rs2_val)
      else if (d.opcode == Op.jal) || (d.opcode == Op.jalr)
      then (ok tt, if d.rd != 0 then write_reg cpu d.rd (add64 pc_before 2) else cpu, s)
      else (
        ok tt,
        if cpu.pc == add64 pc_before 4 then record cpu { pc = add64 pc_before 2 } else cpu,
        s,
      )

  abbrev pub execute_expanded : ℕ → Cpu64 → S → Option ℕ → Outcome S
  execute_expanded inst16 cpu s none = illegal inst16 cpu s
  execute_expanded inst16 cpu s (some expanded) =
      let d = decode expanded in
      adjust expanded d cpu.pc (read_reg cpu d.rs1) (read_reg cpu d.rs2)
        (execute_decoded expanded d cpu s)

  unfoldable pub execute_compressed : ℕ → Cpu64 → S → Outcome S
  unfolding execute_decoded
  execute_compressed inst16 cpu s = execute_expanded inst16 cpu s (expand_compressed inst16)

  -- `read_inst`: a half-word, and the word if its low bits are both set.
  unfoldable pub read_inst : S → ℕ → Result Trap64 ℕ × S
  read_inst s paddr = elim (map_paddr paddr) [
    | err t ↦ (err t, s)
    | ok addr ↦
        let (inst16, s1) = bus.read16 s addr in
        let (inst, s2) = bus.read32 s1 addr in
        if (inst16 &&& 0b11) != 0b11 then (ok inst16, s1) else (ok inst, s2)
  ]

  abbrev pub count_instruction : Outcome S → Outcome S
  count_instruction (ok _, cpu, s) =
      (ok tt, record cpu { instruction_count = u64 (cpu.instruction_count + 1) }, s)
  count_instruction (err t, cpu, s) = (err t, cpu, s)

  abbrev pub run_inst : Cpu64 → Result Trap64 ℕ × S → Outcome S
  run_inst cpu (err t, s) = (err t, cpu, s)
  run_inst cpu (ok inst, s) =
      count_instruction (
        if (inst &&& 0b11) != 0b11 then execute_compressed (u16 inst) cpu s else execute inst cpu s)

  abbrev pub step_from : Cpu64 → Result ℕ ℕ × Mmu64 × S → Outcome S
  step_from cpu (ok paddr, m, s) = run_inst (record cpu { mmu = m }) (read_inst s paddr)
  step_from cpu (err cause, m, s) = (err (from_cause cause cpu.pc), record cpu { mmu = m }, s)

  unfoldable pub step : Cpu64 → S → Outcome S
  step cpu s = step_from cpu (
      translate bus settings.debug cpu.mmu s cpu.pc instruction cpu.priv_level cpu.csr.satp
        cpu.csr.mstatus)
