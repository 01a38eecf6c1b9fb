-- ===== src/Execute/Float/Keeps.antt =====
-- About what the floating-point instructions of the 32-bit hart leave alone
-- (src/cpu/rv32/execute_fp.rs).
use otorisc_v.Base.{
  ℕ, ◌==◌, ◌!=◌, ◌≡◌, ◌≤◌, refl, arith, bit_and, on_if, add32, Option, none, some, Result, ok, err,
  u32, ◌>>>◌,
}
use otorisc_v.Bus.{Bus}
use otorisc_v.Mmu.{load, store}
use otorisc_v.Trap.{Trap}
use otorisc_v.Fpu.{read_f32, read_f64}
use otorisc_v.Cpu.{Cpu, read_reg, write_reg}
use otorisc_v.Decode.{DecodedInst, imm_i, imm_s}
use otorisc_v.Icache.{CachedInst}
use otorisc_v.Privilege.{as_u8}
use otorisc_v.Execute.{execute_cached}
use otorisc_v.Execute.Alu.{Outcome}
use otorisc_v.Execute.Access.{translate_data}
use otorisc_v.Execute.Guards.{KeepsPrivilege, as_u8-execute_cached}
use otorisc_v.Execute.Stable.{Keeps, FpKeeps, translate_data-kept}
use otorisc_v.Execute.Float.{is_off, complete, execute_op_fp, execute_fma}
use otorisc_v.Execute.Float.Access.{
  read_float, write_float, execute_load_fp, execute_store_fp, fp_unit,
}
use otorisc_v.Rv64.Execute.Float.{FloatUnit, single_reg, double_reg, integer_reg, Effect}

-- An effect leaves the privilege.
complete-priv :
    {S : Type 0} (inst rd : ℕ) (cpu : Cpu) (s : S) (e : Option Effect)
    → (complete inst rd cpu s e).1.priv_level ≡ cpu.priv_level
unfolding write_reg
complete-priv inst rd cpu s none = refl
complete-priv inst rd cpu s (some (single_reg v, none)) = refl
complete-priv inst rd cpu s (some (single_reg v, some f)) = refl
complete-priv inst rd cpu s (some (double_reg v, none)) = refl
complete-priv inst rd cpu s (some (double_reg v, some f)) = refl
complete-priv inst rd cpu s (some (integer_reg v, none)) = ground arith
complete-priv inst rd cpu s (some (integer_reg v, some f)) = ground arith

module _ {S : Type 0} (bus : Bus S) where
  read_float-priv :
      (inst : ℕ) (d : DecodedInst) (vaddr : ℕ) (r : Result Trap ℕ × Cpu × S)
      → (read_float bus inst d vaddr r).1.priv_level ≡ r.1.priv_level
  read_float-priv inst d vaddr (ok paddr, cpu, s) = ground arith
  read_float-priv inst d vaddr (err t, cpu, s) = refl

  write_float-priv :
      (inst : ℕ) (d : DecodedInst) (vaddr : ℕ) (r : Result Trap ℕ × Cpu × S)
      → (write_float bus inst d vaddr r).1.priv_level ≡ r.1.priv_level
  write_float-priv inst d vaddr (ok paddr, cpu, s) = ground arith
  write_float-priv inst d vaddr (err t, cpu, s) = refl

  fp_unit-KeepsPrivilege : (unit : FloatUnit) → KeepsPrivilege (fp_unit bus unit)
  unfolding fp_unit execute_load_fp execute_store_fp execute_op_fp execute_fma translate_data
  fp_unit-KeepsPrivilege unit = record {
    on_load = λ inst d cpu s.
        let va = add32 (read_reg cpu d.rs1) (imm_i inst) in
        on_if (λ (r : Outcome S). r.1.priv_level ≡ cpu.priv_level) (is_off cpu) (λ _. refl)
          (λ _. read_float-priv inst d va (translate_data bus cpu s va load));
    on_store = λ inst d cpu s.
        let va = add32 (read_reg cpu d.rs1) (imm_s inst) in
        on_if (λ (r : Outcome S). r.1.priv_level ≡ cpu.priv_level) (is_off cpu) (λ _. refl)
          (λ _. write_float-priv inst d va (translate_data bus cpu s va store));
    on_fma = λ inst d op cpu s.
        on_if (λ (r : Outcome S). r.1.priv_level ≡ cpu.priv_level) (is_off cpu) (λ _. refl)
          (λ _. complete-priv inst d.rd cpu s _);
    on_op = λ inst d cpu s.
        on_if (λ (r : Outcome S). r.1.priv_level ≡ cpu.priv_level) (is_off cpu) (λ _. refl)
          (λ _. complete-priv inst d.rd cpu s _);
  }

  module _ (P : S → Type 0) (keeps : Keeps P bus) where
    read_float-kept :
        (inst : ℕ) (d : DecodedInst) (vaddr : ℕ) (r : Result Trap ℕ × Cpu × S)
        → P r.2
        → P (read_float bus inst d vaddr r).2
    read_float-kept inst d vaddr (err t, cpu, s) h = h
    read_float-kept inst d vaddr (ok paddr, cpu, s) h =
        let Q = λ (r : Outcome S). P r.2 in
        let h1 = keeps.on_read32 s paddr h in
        let h2 = keeps.on_read32 (bus.read32 s paddr).1 (add32 paddr 4) h1 in
        on_if Q (d.funct3 == 0b010) (λ _. on_if Q (bit_and vaddr 3 != 0) (λ _. h) (λ _. h1))
          (λ _.
            on_if Q (d.funct3 == 0b011) (λ _. on_if Q (bit_and vaddr 7 != 0) (λ _. h) (λ _. h2))
              (λ _. h))

    write_float-kept :
        (inst : ℕ) (d : DecodedInst) (vaddr : ℕ) (r : Result Trap ℕ × Cpu × S)
        → P r.2
        → P (write_float bus inst d vaddr r).2
    write_float-kept inst d vaddr (err t, cpu, s) h = h
    write_float-kept inst d vaddr (ok paddr, cpu, s) h =
        let Q = λ (r : Outcome S). P r.2 in
        let v = read_f64 cpu.fpu d.rs2 in
        let h1 = keeps.on_write32 s paddr (u32 v) h in
        on_if Q (d.funct3 == 0b010)
          (λ _.
            on_if Q (bit_and vaddr 3 != 0) (λ _. h)
              (λ _. keeps.on_write32 s paddr (read_f32 cpu.fpu d.rs2) h))
          (λ _.
            on_if Q (d.funct3 == 0b011)
              (λ _.
                on_if Q (bit_and vaddr 7 != 0) (λ _. h)
                  (λ _.
                    keeps.on_write32 (bus.write32 s paddr (u32 v)) (add32 paddr 4) (u32 (v >>> 32))
                      h1))
              (λ _. h))

    complete-kept :
        (inst rd : ℕ) (cpu : Cpu) (s : S) (e : Option Effect) → P s → P (complete inst rd cpu s e).2
    complete-kept inst rd cpu s none h = h
    complete-kept inst rd cpu s (some (t, f)) h = h

    pub fp_unit-FpKeeps : (unit : FloatUnit) → FpKeeps P (fp_unit bus unit)
    unfolding fp_unit execute_load_fp execute_store_fp execute_op_fp execute_fma
    fp_unit-FpKeeps unit = record {
      on_load = λ inst d cpu s h.
          let va = add32 (read_reg cpu d.rs1) (imm_i inst) in
          on_if (λ (r : Outcome S). P r.2) (is_off cpu) (λ _. h)
            (λ _.
              read_float-kept inst d va (translate_data bus cpu s va load)
                (translate_data-kept P bus keeps cpu s va load h));
      on_store = λ inst d cpu s h.
          let va = add32 (read_reg cpu d.rs1) (imm_s inst) in
          on_if (λ (r : Outcome S). P r.2) (is_off cpu) (λ _. h)
            (λ _.
              write_float-kept inst d va (translate_data bus cpu s va store)
                (translate_data-kept P bus keeps cpu s va store h));
      on_fma = λ inst d op cpu s h.
          on_if (λ (r : Outcome S). P r.2) (is_off cpu) (λ _. h)
            (λ _. complete-kept inst d.rd cpu s _ h);
      on_op = λ inst d cpu s h.
          on_if (λ (r : Outcome S). P r.2) (is_off cpu) (λ _. h)
            (λ _. complete-kept inst d.rd cpu s _ h);
    }

-- Executing one instruction, whatever it is, floating-point instructions included, and whether it
-- traps or not, never raises the privilege, for any arithmetic of floats.
pub priv_level-execute_cached :
    {S : Type 0} (bus : Bus S) (unit : FloatUnit) (inst : ℕ) (c : CachedInst) (cpu : Cpu) (s : S)
    → as_u8 (execute_cached bus (fp_unit bus unit) inst c cpu s).1.priv_level ≤ as_u8 cpu.priv_level
priv_level-execute_cached bus unit inst c cpu s =
    as_u8-execute_cached bus (fp_unit bus unit) inst c cpu s (fp_unit-KeepsPrivilege bus unit)
