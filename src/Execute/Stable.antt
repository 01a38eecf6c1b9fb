-- ===== src/Execute/Stable.antt =====
-- About properties of what is behind the bus that every access keeps (src/cpu/rv32/execute.rs,
-- src/cpu/rv32/mmu.rs).
pub mod Apart
pub mod Step
use otorisc_v.Base.{
  ℕ, ◌+◌, ◌*◌, ◌≡◌, refl, arith, Bool, true, false, ◌&&◌, ◌||◌, ◌==◌, ◌!=◌, leb, if◌then◌else◌,
  on_if, add32, bit_and, bit_or, bit_xor, ◌>>>◌, ◌<<<◌, u8, u16, u64, Result, ok, err, Option, none,
  some, sext8, sext16,
}
use otorisc_v.Privilege.{PrivilegeLevel, machine, is_priv}
use otorisc_v.Bus.{Bus}
use otorisc_v.Mmu
use otorisc_v.Mmu.{
  Mmu, AccessType, load, store, instruction, translate, translate_slow, megapage, level0,
  update_ad_bits, raised, is_hit, flag, check_permissions, page_fault_cause, fill_xor_tlb,
}
use otorisc_v.Icache.{CachedInst, get_or_decode}
use otorisc_v.Cpu.{Cpu, read_reg, write_reg}
use otorisc_v.Trap.{Trap, from_cause}
use otorisc_v.Decode.{DecodedInst, from_cached, imm_i, imm_s, imm_b, imm_u}
use otorisc_v.Decode.Op
use otorisc_v.Execute.{
  FpUnit, jump, finish, branch_taken, execute_branch, dispatch, execute_cached, count_instruction,
  fetch_execute, step_from, step,
}
use otorisc_v.Execute.Alu.{Outcome, op_imm_result, op_result}
use otorisc_v.Execute.Access.{
  translate_data, data_priv, load_value, load_from, finish_load, execute_load, store_value,
  store_to, execute_store, read_half, read_word, read_bytes2, read_bytes4, write_bytes2,
  write_bytes4, stored, mapped,
}
use otorisc_v.Execute.Amo.{
  amo_value, execute_amo, load_reserved, store_conditional, modify, read_modify, is_reserved,
}
use otorisc_v.Execute.System.{
  execute_priv, execute_csr, execute_system, csr_write, csr_old, csr_new, csr_update, finish_csr,
}

-- Every access through the bus keeps a property of the state behind it.
pub record Keeps {S : Type 0} (P : S → Type 0) (bus : Bus S) : Type 0 where
  pub on_read8 : (s : S) (a : ℕ) → P s → P (bus.read8 s a).1
  pub on_write8 : (s : S) (a v : ℕ) → P s → P (bus.write8 s a v)
  pub on_read16 : (s : S) (a : ℕ) → P s → P (bus.read16 s a).1
  pub on_write16 : (s : S) (a v : ℕ) → P s → P (bus.write16 s a v)
  pub on_read32 : (s : S) (a : ℕ) → P s → P (bus.read32 s a).1
  pub on_write32 : (s : S) (a v : ℕ) → P s → P (bus.write32 s a v)

-- The floating-point instructions keep it too.
pub record FpKeeps {S : Type 0} (P : S → Type 0) (fp : FpUnit S) : Type 0 where
  pub on_load :
      (inst : ℕ) (d : DecodedInst) (cpu : Cpu) (s : S) → P s → P (fp.execute_load_fp inst d cpu s).2
  pub on_store :
      (inst : ℕ) (d : DecodedInst) (cpu : Cpu) (s : S)
      → P s
      → P (fp.execute_store_fp inst d cpu s).2
  pub on_fma :
      (inst : ℕ) (d : DecodedInst) (op : ℕ) (cpu : Cpu) (s : S)
      → P s
      → P (fp.execute_fma inst d op cpu s).2
  pub on_op :
      (inst : ℕ) (d : DecodedInst) (cpu : Cpu) (s : S) → P s → P (fp.execute_op_fp inst d cpu s).2

module _ {S : Type 0} (P : S → Type 0) (bus : Bus S) (keeps : Keeps P bus) where
  abbrev pub Kept : {A B : Type 0} → A × B × S → Type 0
  Kept r = P r.2

  update_ad_bits-kept :
      (s : S) (a pte : ℕ) (access : AccessType) → P s → P (update_ad_bits bus s a pte access)
  unfolding update_ad_bits
  update_ad_bits-kept s a pte access h =
      on_if P (raised pte access != pte) (λ _. keeps.on_write32 s a (raised pte access) h) (λ _. h)

  megapage-kept :
      (m : Mmu) (s : S) (a pte vaddr : ℕ) (access : AccessType) (priv : PrivilegeLevel)
      (mstatus : ℕ)
      → P s
      → P (megapage bus m s a pte vaddr access priv mstatus).2
  unfolding megapage
  megapage-kept m s a pte vaddr access priv mstatus h =
      ground (arith, update_ad_bits-kept s a pte access h)

  level0-kept :
      (m : Mmu) (s : S) (pte1 vaddr : ℕ) (access : AccessType) (priv : PrivilegeLevel) (mstatus : ℕ)
      → P s
      → P (level0 bus m s pte1 vaddr access priv mstatus).2
  unfolding level0
  level0-kept m s pte1 vaddr access priv mstatus h =
      let a = (bit_and (pte1 >>> 10) 0x3FFFFF <<< 12) + bit_and (vaddr >>> 12) 0x3FF * 4 in
      let k = keeps.on_read32 s a h in
      let (pte, s') = bus.read32 s a in ground (arith, k, update_ad_bits-kept s' a pte access k)

  pub translate-kept :
      (m : Mmu) (s : S) (vaddr : ℕ) (access : AccessType) (priv : PrivilegeLevel) (satp mstatus : ℕ)
      → P s
      → P (translate bus m s vaddr access priv satp mstatus).2
  unfolding translate translate_slow
  translate-kept m s vaddr access priv satp mstatus h =
      let m' = record m { tlb_misses = u64 (m.tlb_misses + 1) } in
      let a = (bit_and satp 0x3FFFFF <<< 12) + bit_and (vaddr >>> 22) 0x3FF * 4 in
      let k = keeps.on_read32 s a h in
      let (pte, s') = bus.read32 s a in
      ground (
        arith,
        k,
        megapage-kept m' s' a pte vaddr access priv mstatus k,
        level0-kept m' s' pte vaddr access priv mstatus k,
      )

  pub translate_data-kept :
      (cpu : Cpu) (s : S) (vaddr : ℕ) (access : AccessType)
      → P s
      → P (translate_data bus cpu s vaddr access).2
  unfolding translate_data
  translate_data-kept cpu s vaddr access h =
      translate-kept cpu.mmu s vaddr access (data_priv cpu) cpu.csr.satp cpu.csr.mstatus h

  read_half-kept : (s : S) (vaddr paddr : ℕ) → P s → P (read_half bus s vaddr paddr).1
  unfolding read_bytes2
  read_half-kept s vaddr paddr h =
      let k = keeps.on_read8 s paddr h in
      ground
        (arith, keeps.on_read8 (bus.read8 s paddr).1 (add32 paddr 1) k, keeps.on_read16 s paddr h)

  read_word-kept : (s : S) (vaddr paddr : ℕ) → P s → P (read_word bus s vaddr paddr).1
  unfolding read_bytes4
  read_word-kept s vaddr paddr h =
      let s1 = (bus.read8 s paddr).1 in
      let s2 = (bus.read8 s1 (add32 paddr 1)).1 in
      let s3 = (bus.read8 s2 (add32 paddr 2)).1 in
      let k1 = keeps.on_read8 s paddr h in
      let k2 = keeps.on_read8 s1 (add32 paddr 1) k1 in
      let k3 = keeps.on_read8 s2 (add32 paddr 2) k2 in
      ground (arith, keeps.on_read8 s3 (add32 paddr 3) k3, keeps.on_read32 s paddr h)

  load_value-kept :
      (inst f : ℕ) (s : S) (vaddr paddr : ℕ) → P s → P (load_value bus inst f s vaddr paddr).1
  unfolding load_value
  load_value-kept inst f s vaddr paddr h =
      let Q = λ (r : Result Trap ℕ × S). P r.1 in
      on_if Q (f == 0) (λ _. keeps.on_read8 s paddr h)
        λ _.
          on_if Q (f == 1) (λ _. read_half-kept s vaddr paddr h)
            λ _.
              on_if Q (f == 2) (λ _. read_word-kept s vaddr paddr h)
                λ _.
                  on_if Q (f == 4) (λ _. keeps.on_read8 s paddr h)
                    λ _. on_if Q (f == 5) (λ _. read_half-kept s vaddr paddr h) λ _. h

  finish_load-kept :
      (rd : ℕ) (cpu : Cpu) (r : Result Trap ℕ × S) → P r.1 → P (finish_load bus rd cpu r).2
  finish_load-kept rd cpu (ok v, s) h = h
  finish_load-kept rd cpu (err t, s) h = h

  pub load_from-kept :
      (inst : ℕ) (d : DecodedInst) (vaddr : ℕ) (r : Result Trap ℕ × Cpu × S)
      → P r.2
      → P (load_from bus inst d vaddr r).2
  load_from-kept inst d vaddr (ok paddr, cpu, s) h =
      finish_load-kept d.rd cpu (load_value bus inst d.funct3 s vaddr paddr)
        (load_value-kept inst d.funct3 s vaddr paddr h)
  load_from-kept inst d vaddr (err t, cpu, s) h = h

  write_bytes2-kept : (s : S) (paddr v : ℕ) → P s → P (write_bytes2 bus s paddr v)
  unfolding write_bytes2
  write_bytes2-kept s paddr v h =
      keeps.on_write8 (bus.write8 s paddr (u8 v)) (add32 paddr 1) (u8 (v >>> 8))
        (keeps.on_write8 s paddr (u8 v) h)

  write_bytes4-kept : (s : S) (paddr v : ℕ) → P s → P (write_bytes4 bus s paddr v)
  unfolding write_bytes4
  write_bytes4-kept s paddr v h = keeps.on_write8 _ (add32 paddr 3) (u8 (v >>> 24)) (
      keeps.on_write8 _ (add32 paddr 2) (u8 (v >>> 16))
        (keeps.on_write8 _ (add32 paddr 1) (u8 (v >>> 8)) (keeps.on_write8 s paddr (u8 v) h)))

  pub store_to-kept :
      (inst : ℕ) (d : DecodedInst) (vaddr v : ℕ) (r : Result Trap ℕ × Cpu × S)
      → P r.2
      → P (store_to bus inst d vaddr v r).2
  unfolding store_value
  store_to-kept inst d vaddr v (ok paddr, cpu, s) h = ground (
    arith,
    keeps.on_write8 s paddr (u8 v) h,
    keeps.on_write16 s paddr (u16 v) h,
    keeps.on_write32 s paddr v h,
    write_bytes2-kept s paddr v h,
    write_bytes4-kept s paddr v h,
  )
  store_to-kept inst d vaddr v (err t, cpu, s) h = h

  load_reserved-kept :
      (d : DecodedInst) (vaddr : ℕ) (r : Result Trap ℕ × Cpu × S)
      → P r.2
      → P (load_reserved bus d vaddr r).2
  load_reserved-kept d vaddr (ok paddr, cpu, s) h = keeps.on_read32 s paddr h
  load_reserved-kept d vaddr (err t, cpu, s) h = h

  store_conditional-kept :
      (d : DecodedInst) (r : Result Trap ℕ × Cpu × S) → P r.2 → P (store_conditional bus d r).2
  store_conditional-kept d (ok paddr, cpu, s) h = keeps.on_write32 s paddr (read_reg cpu d.rs2) h
  store_conditional-kept d (err t, cpu, s) h = h

  modify-kept :
      (inst : ℕ) (d : DecodedInst) (cpu : Cpu) (s : S) (paddr old : ℕ) (o : Option ℕ)
      → P s
      → P (modify bus inst d cpu s paddr old o).2
  modify-kept inst d cpu s paddr old none h = h
  modify-kept inst d cpu s paddr old (some new) h = keeps.on_write32 s paddr new h

  read_modify-kept :
      (inst : ℕ) (d : DecodedInst) (f : ℕ) (r : Result Trap ℕ × Cpu × S)
      → P r.2
      → P (read_modify bus inst d f r).2
  read_modify-kept inst d f (ok paddr, cpu, s) h =
      let (old, s') = bus.read32 s paddr in
      modify-kept inst d cpu s' paddr old (amo_value f old (read_reg cpu d.rs2))
        (keeps.on_read32 s paddr h)
  read_modify-kept inst d f (err t, cpu, s) h = h

  pub execute_amo-kept :
      (inst : ℕ) (d : DecodedInst) (cpu : Cpu) (s : S) → P s → P (execute_amo bus inst d cpu s).2
  unfolding execute_amo
  execute_amo-kept inst d cpu s h =
      let v = read_reg cpu d.rs1 in
      let l = translate_data-kept cpu s v load h in
      let t = translate_data-kept cpu s v store h in
      on_if Kept (bit_and v 3 != 0) (λ _. h)
        λ _.
          on_if Kept ((d.funct7 >>> 2) == 2)
            (λ _. load_reserved-kept d v (translate_data bus cpu s v load) l)
            λ _.
              on_if Kept ((d.funct7 >>> 2) == 3)
                (λ _.
                  on_if Kept (is_reserved cpu.reservation v)
                    (λ _. store_conditional-kept d (translate_data bus cpu s v store) t) (λ _. h))
                (λ _. read_modify-kept inst d (d.funct7 >>> 2) (translate_data bus cpu s v store) t)
