-- ===== src/Execute/System.antt =====
-- The SYSTEM instructions: calls, returns, waits, fences and register accesses
-- (src/cpu/rv32/execute.rs).
use otorisc_v.Base.{
  ℕ, Bool, true, false, ◌&&◌, ◌||◌, ◌==◌, ◌!=◌, if◌then◌else◌, bit_and, bit_or, not32, ◌>>>◌, leb,
  Option, none, some, Result, ok, err,
}
use otorisc_v.Privilege.{PrivilegeLevel, user, supervisor, machine, lt_priv}
use otorisc_v.Csr
use otorisc_v.Csr.Mstatus
use otorisc_v.Mmu
use otorisc_v.Icache
use otorisc_v.Fpu
use otorisc_v.Cpu.{Cpu, read_reg, write_reg}
use otorisc_v.Trap.{
  Trap, environment_call_from_u, environment_call_from_s, environment_call_from_m, breakpoint,
  illegal_instruction, sret, mret,
}
use otorisc_v.Decode.{DecodedInst}
use otorisc_v.Execute.Alu.{Outcome, next_pc, illegal}

abbrev pub call_trap : PrivilegeLevel → Trap
call_trap user = environment_call_from_u
call_trap supervisor = environment_call_from_s
call_trap machine = environment_call_from_m

abbrev pub sfence : Cpu → Cpu
sfence cpu = record cpu {
  mmu = Mmu.invalidate cpu.mmu;
  icache = Icache.invalidate_all cpu.icache;
  cache_invalidation_pending = true;
}

-- `FUNCT3_PRIV`.
unfoldable pub execute_priv : {S : Type 0} → ℕ → Cpu → S → Outcome S
execute_priv inst cpu s =
    if inst == 0x00000073
    then (err (call_trap cpu.priv_level), cpu, s)
    else if inst == 0x00100073
    then (err (breakpoint cpu.pc), cpu, s)
    else if inst == 0x10200073
    then if lt_priv cpu.priv_level supervisor then illegal inst cpu s else (ok tt, sret cpu, s)
    else if inst == 0x30200073
    then if lt_priv cpu.priv_level machine then illegal inst cpu s else (ok tt, mret cpu, s)
    else if inst == 0x10500073
    then (ok tt, next_pc (record cpu { wfi = true }), s)
    else if (inst >>> 25) == 0b0001001
    then (ok tt, next_pc (sfence cpu), s)
    else illegal inst cpu s

-- The register's value before; the floating-point registers live in the FPU.
unfoldable pub csr_old : Cpu → ℕ → Option ℕ
csr_old cpu csr_addr =
    if csr_addr == 0x001
    then some (Fpu.to_bits cpu.fpu.fflags)
    else if csr_addr == 0x002
    then some (Fpu.mode_bits cpu.fpu.frm)
    else if csr_addr == 0x003
    then some (Fpu.read_fcsr cpu.fpu)
    else Csr.read cpu.csr csr_addr cpu.priv_level

unfoldable pub csr_new : ℕ → ℕ → ℕ → ℕ
csr_new funct3 old_val rs1_val =
    let operation = bit_and funct3 3 in
    if operation == 0b01
    then rs1_val
    else if operation == 0b10
    then bit_or old_val rs1_val
    else if operation == 0b11
    then bit_and old_val (not32 rs1_val)
    else old_val

-- The FS field of mstatus is set to dirty.
abbrev pub dirty : Cpu → Fpu.Fpu → Cpu
dirty cpu f = record cpu {
  fpu = f;
  csr = record (cpu.csr) { mstatus = bit_or cpu.csr.mstatus Mstatus.fs };
}

abbrev pub written : ℕ → Cpu → Csr.Csr × Bool → Result Trap (Unit {0}) × Cpu
written inst cpu (c, true) = (ok tt, record cpu { csr = c })
written inst cpu (c, false) = (err (illegal_instruction inst), record cpu { csr = c })

-- A new satp empties the translation buffer.
abbrev pub satp_flush : Cpu → ℕ → ℕ → ℕ → Cpu
satp_flush cpu csr_addr old_val new_val =
    if (csr_addr == 0x180) && (new_val != old_val)
    then record cpu { mmu = Mmu.invalidate cpu.mmu }
    else cpu

unfoldable pub csr_write : ℕ → Cpu → ℕ → ℕ → ℕ → Result Trap (Unit {0}) × Cpu
csr_write inst cpu csr_addr old_val new_val =
    if csr_addr == 0x001
    then (ok tt, dirty cpu (record (cpu.fpu) { fflags = Fpu.from_bits (bit_and new_val 0x1F) }))
    else if csr_addr == 0x002
    then (ok tt, dirty cpu (record (cpu.fpu) { frm = Fpu.mode_from new_val }))
    else if csr_addr == 0x003
    then (ok tt, dirty cpu (Fpu.write_fcsr cpu.fpu new_val))
    else written inst (satp_flush cpu csr_addr old_val new_val)
        (Csr.write cpu.csr csr_addr new_val cpu.priv_level)

abbrev pub finish_csr : {S : Type 0} → ℕ → ℕ → S → Result Trap (Unit {0}) × Cpu → Outcome S
finish_csr rd old_val s (ok _, cpu) = (ok tt, next_pc (write_reg cpu rd old_val), s)
finish_csr rd old_val s (err t, cpu) = (err t, cpu, s)

abbrev pub csr_update : {S : Type 0} → ℕ → DecodedInst → Cpu → S → ℕ → ℕ → Option ℕ → Outcome S
csr_update inst d cpu s csr_addr rs1_val none = illegal inst cpu s
csr_update inst d cpu s csr_addr rs1_val (some old_val) = finish_csr d.rd old_val s (
    if (bit_and d.funct3 3 == 0b01) || (rs1_val != 0)
    then csr_write inst cpu csr_addr old_val (csr_new d.funct3 old_val rs1_val)
    else (ok tt, cpu))

-- `FUNCT3_CSRRW` to `FUNCT3_CSRRCI`.
unfoldable pub execute_csr : {S : Type 0} → ℕ → DecodedInst → Cpu → S → Outcome S
unfolding csr_old csr_new csr_write
execute_csr inst d cpu s =
    let csr_addr = bit_and (inst >>> 20) 0xFFF in
    let rs1_val = if leb 5 d.funct3 then d.rs1 else read_reg cpu d.rs1 in
    csr_update inst d cpu s csr_addr rs1_val (csr_old cpu csr_addr)

abbrev pub is_csr_funct3 : ℕ → Bool
is_csr_funct3 f = (f == 1) || (f == 2) || (f == 3) || (f == 5) || (f == 6) || (f == 7)

unfoldable pub execute_system : {S : Type 0} → ℕ → DecodedInst → Cpu → S → Outcome S
unfolding execute_priv execute_csr
execute_system inst d cpu s =
    if d.funct3 == 0
    then execute_priv inst cpu s
    else if is_csr_funct3 d.funct3
    then execute_csr inst d cpu s
    else illegal inst cpu s
