-- ===== src/Execute/Guards.antt =====
-- About the privilege before and after an instruction (src/cpu/rv32/execute.rs).
use otorisc_v.Base.{
  ℕ, ◌≤◌, ◌≡◌, refl, arith, Bool, ◌||◌, ◌==◌, ◌!=◌, Result, ok, err, Option, none, some, true,
  false, bit_and, ◌>>>◌, add32, leb, if◌then◌else◌,
}
use otorisc_v.Privilege.{PrivilegeLevel, as_u8, from_u8}
use otorisc_v.Bus.{Bus}
use otorisc_v.Mmu.{AccessType, load, store}
use otorisc_v.Icache.{CachedInst}
use otorisc_v.Cpu.{Cpu, read_reg, write_reg}
use otorisc_v.Trap.{Trap, mret, sret}
use otorisc_v.Decode.{DecodedInst, from_cached, imm_i, imm_s, imm_b, imm_u}
use otorisc_v.Execute.{FpUnit, jump, finish, branch_taken, execute_branch, dispatch, execute_cached}
use otorisc_v.Execute.Alu.{op_imm_result, op_result}
use otorisc_v.Execute.Access.{
  translate_data, load_value, load_from, finish_load, execute_load, store_value, store_to,
  execute_store,
}
use otorisc_v.Execute.Amo.{
  amo_value, execute_amo, load_reserved, store_conditional, modify, read_modify,
}
use otorisc_v.Execute.System.{
  execute_priv, execute_csr, execute_system, csr_write, csr_old, csr_new, csr_update, finish_csr,
}

write_reg-priv : (cpu : Cpu) (r v : ℕ) → (write_reg cpu r v).priv_level ≡ cpu.priv_level
unfolding write_reg
write_reg-priv cpu r v = ground arith

as_u8-max : (p : PrivilegeLevel) → as_u8 p ≤ 3
as_u8-max p = ground arith

execute_priv-le :
    {S : Type 0} (inst : ℕ) (cpu : Cpu) (s : S)
    → as_u8 (execute_priv inst cpu s).1.priv_level ≤ as_u8 cpu.priv_level
unfolding execute_priv mret sret
execute_priv-le inst cpu s =
    ground
      (arith, as_u8-max (from_u8 (bit_and (cpu.csr.mstatus >>> 11) 3)), as_u8-max cpu.priv_level)

csr_write-priv :
    (inst : ℕ) (cpu : Cpu) (a old new : ℕ)
    → (csr_write inst cpu a old new).1.priv_level ≡ cpu.priv_level
unfolding csr_write
csr_write-priv inst cpu a old new = ground arith

finish_csr-priv :
    {S : Type 0} (rd old : ℕ) (s : S) (r : Result Trap (Unit {0}) × Cpu)
    → (finish_csr rd old s r).1.priv_level ≡ r.1.priv_level
finish_csr-priv rd old s (ok _, cpu) = write_reg-priv cpu rd old
finish_csr-priv rd old s (err t, cpu) = refl

csr_update-priv :
    {S : Type 0} (inst : ℕ) (d : DecodedInst) (cpu : Cpu) (s : S) (a v : ℕ) (o : Option ℕ)
    → (csr_update inst d cpu s a v o).1.priv_level ≡ cpu.priv_level
csr_update-priv inst d cpu s a v none = refl
csr_update-priv inst d cpu s a v (some old) =
    let r =
      if (bit_and d.funct3 3 == 0b01) || (v != 0)
      then csr_write inst cpu a old (csr_new d.funct3 old v)
      else (ok tt, cpu) in
    ground
      (arith, finish_csr-priv d.rd old s r, csr_write-priv inst cpu a old (csr_new d.funct3 old v))

execute_system-le :
    {S : Type 0} (inst : ℕ) (d : DecodedInst) (cpu : Cpu) (s : S)
    → as_u8 (execute_system inst d cpu s).1.priv_level ≤ as_u8 cpu.priv_level
unfolding execute_system execute_csr
execute_system-le inst d cpu s = ground (
  arith,
  execute_priv-le inst cpu s,
  csr_update-priv inst d cpu s (bit_and (inst >>> 20) 0xFFF)
      (if leb 5 d.funct3 then d.rs1 else read_reg cpu d.rs1)
      (csr_old cpu (bit_and (inst >>> 20) 0xFFF)),
)

module _ {S : Type 0} (bus : Bus S) where
  translate_data-priv :
      (cpu : Cpu) (s : S) (vaddr : ℕ) (access : AccessType)
      → (translate_data bus cpu s vaddr access).1.priv_level ≡ cpu.priv_level
  unfolding translate_data
  translate_data-priv cpu s vaddr access = refl

  finish_load-priv :
      (rd : ℕ) (cpu : Cpu) (r : Result Trap ℕ × S)
      → (finish_load bus rd cpu r).1.priv_level ≡ cpu.priv_level
  finish_load-priv rd cpu (ok v, s) = write_reg-priv cpu rd v
  finish_load-priv rd cpu (err t, s) = refl

  load_from-priv :
      (inst : ℕ) (d : DecodedInst) (vaddr : ℕ) (r : Result Trap ℕ × Cpu × S)
      → (load_from bus inst d vaddr r).1.priv_level ≡ r.1.priv_level
  load_from-priv inst d vaddr (ok paddr, cpu, s) =
      finish_load-priv d.rd cpu (load_value bus inst d.funct3 s vaddr paddr)
  load_from-priv inst d vaddr (err t, cpu, s) = refl

  store_to-priv :
      (inst : ℕ) (d : DecodedInst) (vaddr v : ℕ) (r : Result Trap ℕ × Cpu × S)
      → (store_to bus inst d vaddr v r).1.priv_level ≡ r.1.priv_level
  unfolding store_value
  store_to-priv inst d vaddr v (ok paddr, cpu, s) = ground arith
  store_to-priv inst d vaddr v (err t, cpu, s) = refl

  load_reserved-priv :
      (d : DecodedInst) (vaddr : ℕ) (r : Result Trap ℕ × Cpu × S)
      → (load_reserved bus d vaddr r).1.priv_level ≡ r.1.priv_level
  load_reserved-priv d vaddr (ok paddr, cpu, s) = write_reg-priv cpu d.rd (bus.read32 s paddr).0
  load_reserved-priv d vaddr (err t, cpu, s) = refl

  store_conditional-priv :
      (d : DecodedInst) (r : Result Trap ℕ × Cpu × S)
      → (store_conditional bus d r).1.priv_level ≡ r.1.priv_level
  store_conditional-priv d (ok paddr, cpu, s) = write_reg-priv cpu d.rd 0
  store_conditional-priv d (err t, cpu, s) = refl

  modify-priv :
      (inst : ℕ) (d : DecodedInst) (cpu : Cpu) (s : S) (paddr old : ℕ) (o : Option ℕ)
      → (modify bus inst d cpu s paddr old o).1.priv_level ≡ cpu.priv_level
  modify-priv inst d cpu s paddr old none = refl
  modify-priv inst d cpu s paddr old (some new) = write_reg-priv cpu d.rd old

  read_modify-priv :
      (inst : ℕ) (d : DecodedInst) (f : ℕ) (r : Result Trap ℕ × Cpu × S)
      → (read_modify bus inst d f r).1.priv_level ≡ r.1.priv_level
  read_modify-priv inst d f (ok paddr, cpu, s) =
      let (old, s') = bus.read32 s paddr in
      modify-priv inst d cpu s' paddr old (amo_value f old (read_reg cpu d.rs2))
  read_modify-priv inst d f (err t, cpu, s) = refl

  execute_amo-priv :
      (inst : ℕ) (d : DecodedInst) (cpu : Cpu) (s : S)
      → (execute_amo bus inst d cpu s).1.priv_level ≡ cpu.priv_level
  unfolding execute_amo
  execute_amo-priv inst d cpu s =
      let v = read_reg cpu d.rs1 in
      ground (
        arith,
        load_reserved-priv d v (translate_data bus cpu s v load),
        store_conditional-priv d (translate_data bus cpu s v store),
        read_modify-priv inst d (d.funct7 >>> 2) (translate_data bus cpu s v store),
        translate_data-priv cpu s v load,
        translate_data-priv cpu s v store,
        write_reg-priv cpu d.rd 1,
      )

finish-priv :
    {S : Type 0} (rd : ℕ) (cpu : Cpu) (s : S) (r : Result Trap ℕ)
    → (finish rd cpu s r).1.priv_level ≡ cpu.priv_level
finish-priv rd cpu s (ok v) = write_reg-priv cpu rd v
finish-priv rd cpu s (err t) = refl

jump-priv :
    {S : Type 0} (cpu : Cpu) (s : S) (imm : ℕ) (r : Result Trap Bool)
    → (jump cpu s imm r).1.priv_level ≡ cpu.priv_level
jump-priv cpu s imm (ok true) = refl
jump-priv cpu s imm (ok false) = refl
jump-priv cpu s imm (err t) = refl

-- The floating-point instructions leave the privilege as it is.
pub record KeepsPrivilege {S : Type 0} (fp : FpUnit S) : Type 0 where
  pub on_load :
      (inst : ℕ) (d : DecodedInst) (cpu : Cpu) (s : S)
      → (fp.execute_load_fp inst d cpu s).1.priv_level ≡ cpu.priv_level
  pub on_store :
      (inst : ℕ) (d : DecodedInst) (cpu : Cpu) (s : S)
      → (fp.execute_store_fp inst d cpu s).1.priv_level ≡ cpu.priv_level
  pub on_fma :
      (inst : ℕ) (d : DecodedInst) (op : ℕ) (cpu : Cpu) (s : S)
      → (fp.execute_fma inst d op cpu s).1.priv_level ≡ cpu.priv_level
  pub on_op :
      (inst : ℕ) (d : DecodedInst) (cpu : Cpu) (s : S)
      → (fp.execute_op_fp inst d cpu s).1.priv_level ≡ cpu.priv_level

-- Executing one instruction, whatever it is and whether it traps or not, never raises the
-- privilege, if the floating-point instructions leave it alone.
pub as_u8-execute_cached :
    {S : Type 0} (bus : Bus S) (fp : FpUnit S) (inst : ℕ) (c : CachedInst) (cpu : Cpu) (s : S)
    → KeepsPrivilege fp
    → as_u8 (execute_cached bus fp inst c cpu s).1.priv_level ≤ as_u8 cpu.priv_level
unfolding execute_cached dispatch execute_branch execute_load execute_store
as_u8-execute_cached bus fp inst c cpu s h =
    let d = from_cached c in
    let va = add32 (read_reg cpu d.rs1) (imm_i inst) in
    let vs = add32 (read_reg cpu d.rs1) (imm_s inst) in
    ground (
      arith,
      h.on_load inst d cpu s,
      h.on_store inst d cpu s,
      h.on_fma inst d d.opcode cpu s,
      h.on_op inst d cpu s,
      execute_system-le inst d cpu s,
      execute_amo-priv bus inst d cpu s,
      write_reg-priv cpu d.rd (imm_u inst),
      write_reg-priv cpu d.rd (add32 cpu.pc (imm_u inst)),
      write_reg-priv cpu d.rd (add32 cpu.pc 4),
      finish-priv d.rd cpu s (op_imm_result inst d.funct3 (read_reg cpu d.rs1) (imm_i inst)),
      finish-priv d.rd cpu s
          (op_result inst d.funct3 d.funct7 (read_reg cpu d.rs1) (read_reg cpu d.rs2)),
      jump-priv cpu s (imm_b inst)
          (branch_taken inst d.funct3 (read_reg cpu d.rs1) (read_reg cpu d.rs2)),
      load_from-priv bus inst d va (translate_data bus cpu s va load),
      store_to-priv bus inst d vs (read_reg cpu d.rs2) (translate_data bus cpu s vs store),
      translate_data-priv bus cpu s va load,
      translate_data-priv bus cpu s vs store,
    )
