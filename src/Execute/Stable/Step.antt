-- ===== src/Execute/Stable/Step.antt =====
-- About a step of the hart and what is behind the bus (src/cpu/rv32/execute.rs,
-- src/cpu/rv32/mod.rs).
use otorisc_v.Base.{ℕ, ◌≡◌, sym, ◌||◌, ◌==◌, on_if, add32, Result, ok, err}
use mathlib.Core.Path.{subst}
use otorisc_v.Bus.{Bus}
use otorisc_v.Mmu.{Mmu, load, store, instruction, translate}
use otorisc_v.Icache.{CachedInst, get_or_decode}
use otorisc_v.Cpu.{Cpu, read_reg}
use otorisc_v.Decode.{DecodedInst, from_cached, imm_i, imm_s, imm_b}
use otorisc_v.Decode.Op
use otorisc_v.Execute.{
  FpUnit, branch_taken, execute_branch, dispatch, execute_cached, count_instruction, fetch_execute,
  step_from, step,
}
use otorisc_v.Execute.Alu.{Outcome, op_imm_result, op_result}
use otorisc_v.Execute.Access.{translate_data, execute_load, execute_store}
use otorisc_v.Execute.Stable.{
  Keeps, FpKeeps, translate-kept, translate_data-kept, load_from-kept, store_to-kept,
  execute_amo-kept,
}
use otorisc_v.Execute.Stable.Apart.{finish-same, jump-same, execute_system-same}

module _ {S : Type 0} (P : S → Type 0) (bus : Bus S) (fp : FpUnit S) (keeps : Keeps P bus)
    (fp_keeps : FpKeeps P fp) where
  -- The property of what an instruction leaves behind the bus.
  abbrev After : Outcome S → Type 0
  After r = P r.2

  dispatch-kept :
      (inst : ℕ) (d : DecodedInst) (cpu : Cpu) (s : S) → P s → P (dispatch bus fp inst d cpu s).2
  unfolding dispatch execute_branch execute_load execute_store
  dispatch-kept inst d cpu s h =
      let va = add32 (read_reg cpu d.rs1) (imm_i inst) in
      let vs = add32 (read_reg cpu d.rs1) (imm_s inst) in
      let unchanged = λ (s' : S) (e : s' ≡ s). subst P (sym e) h in
      on_if After (d.opcode == Op.lui) (λ _. h)
        λ _.
          on_if After (d.opcode == Op.auipc) (λ _. h)
            λ _.
              on_if After (d.opcode == Op.jal) (λ _. h)
                λ _.
                  on_if After (d.opcode == Op.jalr) (λ _. h)
                    λ _.
                      on_if After (d.opcode == Op.branch)
                        (λ _. unchanged _ (
                          jump-same cpu s (imm_b inst)
                            (branch_taken inst d.funct3 (read_reg cpu d.rs1) (read_reg cpu d.rs2))))
                        λ _.
                          on_if After (d.opcode == Op.load)
                            (λ _.
                              load_from-kept P bus keeps inst d va
                                (translate_data bus cpu s va load)
                                (translate_data-kept P bus keeps cpu s va load h))
                            λ _.
                              on_if After (d.opcode == Op.store)
                                (λ _.
                                  store_to-kept P bus keeps inst d vs (read_reg cpu d.rs2)
                                    (translate_data bus cpu s vs store)
                                    (translate_data-kept P bus keeps cpu s vs store h))
                                λ _.
                                  on_if After (d.opcode == Op.op_imm)
                                    (λ _. unchanged _ (
                                      finish-same d.rd cpu s (
                                        op_imm_result inst d.funct3 (read_reg cpu d.rs1)
                                          (imm_i inst))))
                                    λ _.
                                      on_if After (d.opcode == Op.op)
                                        (λ _. unchanged _ (
                                          finish-same d.rd cpu s (
                                            op_result inst d.funct3 d.funct7 (read_reg cpu d.rs1)
                                              (read_reg cpu d.rs2))))
                                        λ _.
                                          on_if After (d.opcode == Op.misc_mem) (λ _. h)
                                            λ _.
                                              on_if After (d.opcode == Op.system)
                                                (λ _.
                                                  unchanged _ (execute_system-same inst d cpu s))
                                                λ _.
                                                  on_if After (d.opcode == Op.amo)
                                                    (λ _.
                                                      execute_amo-kept P bus keeps inst d cpu s h)
                                                    λ _.
                                                      on_if After (d.opcode == Op.load_fp)
                                                        (λ _. fp_keeps.on_load inst d cpu s h)
                                                        λ _.
                                                          on_if After (d.opcode == Op.store_fp)
                                                            (λ _. fp_keeps.on_store inst d cpu s h)
                                                            λ _.
                                                            on_if After
                                                            ((d.opcode == Op.madd)
                                                            || (d.opcode == Op.msub)
                                                            || (d.opcode == Op.nmsub)
                                                            || (d.opcode == Op.nmadd))
                                                            (λ _.
                                                            fp_keeps.on_fma inst d d.opcode cpu s h)
                                                            λ _.
                                                            on_if After (d.opcode == Op.op_fp)
                                                            (λ _. fp_keeps.on_op inst d cpu s h)
                                                            λ _. h

  pub execute_cached-kept :
      (inst : ℕ) (c : CachedInst) (cpu : Cpu) (s : S)
      → P s
      → P (execute_cached bus fp inst c cpu s).2
  unfolding execute_cached
  execute_cached-kept inst c cpu s h = dispatch-kept inst (from_cached c) cpu s h

  count_instruction-kept : (r : Outcome S) → P r.2 → P (count_instruction bus fp r).2
  count_instruction-kept (ok _, cpu, s) h = h
  count_instruction-kept (err t, cpu, s) h = h

  step_from-kept : (cpu : Cpu) (r : Result ℕ ℕ × Mmu × S) → P r.2 → P (step_from bus fp cpu r).2
  unfolding fetch_execute
  step_from-kept cpu (ok paddr, m, s) h =
      let (inst, s') = bus.read32 s paddr in
      let (cached, icache) = get_or_decode cpu.icache paddr inst in
      let cpu' = record cpu { mmu = m; icache = icache } in
      count_instruction-kept (execute_cached bus fp inst cached cpu' s')
        (execute_cached-kept inst cached cpu' s' (keeps.on_read32 s paddr h))
  step_from-kept cpu (err cause, m, s) h = h

  -- A step of the hart keeps every property that all accesses through the bus and the
  -- floating-point instructions keep.
  pub step-kept : (cpu : Cpu) (s : S) → P s → P (step bus fp cpu s).2
  unfolding step
  step-kept cpu s h =
      step_from-kept cpu
        (translate bus cpu.mmu s cpu.pc instruction cpu.priv_level cpu.csr.satp cpu.csr.mstatus)
        (translate-kept P bus keeps cpu.mmu s cpu.pc instruction cpu.priv_level cpu.csr.satp
          cpu.csr.mstatus h)
