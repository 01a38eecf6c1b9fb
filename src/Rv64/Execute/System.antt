-- ===== src/Rv64/Execute/System.antt =====
-- The SYSTEM instructions of the 64-bit hart (src/cpu/rv64/execute.rs).
use otorisc_v.Base.{
  ℕ, Bool, true, false, ◌&&◌, ◌||◌, ◌==◌, ◌!=◌, if◌then◌else◌, not64, shl64, u32, ◌>>>◌, ◌&&&◌,
  ◌|||◌, leb, ltb, Option, none, some, Result, ok, err,
}
use otorisc_v.Privilege.{supervisor, machine, lt_priv}
use otorisc_v.Fpu
use otorisc_v.Trap.{breakpoint, illegal_instruction}
use otorisc_v.Execute.System.{call_trap, is_csr_funct3}
use otorisc_v.Rv64.Csr
use otorisc_v.Rv64.Csr.Bits
use otorisc_v.Rv64.Mmu
use otorisc_v.Rv64.Cpu.{Cpu64, read_reg, write_reg}
use otorisc_v.Rv64.Trap.{Trap64, sret, mret}
use otorisc_v.Rv64.Decode.{DecodedInst}
use otorisc_v.Rv64.Execute.Integer.{Outcome, next_pc, illegal}

-- What the environment variable RISCV_SATP_MODE says: nothing known, or one of the modes.
pub data SatpSetting : Type 0 where
  bare sv39 sv48 sv57 unset : SatpSetting

abbrev pub satp_mode_limit : SatpSetting → ℕ
satp_mode_limit bare = 0
satp_mode_limit sv39 = 8
satp_mode_limit sv48 = 9
satp_mode_limit sv57 = 10
satp_mode_limit unset = 10

unfoldable pub sanitize_satp : SatpSetting → ℕ → ℕ
sanitize_satp setting value =
    let mode = value >>> 60 &&& 0xF in
    let max_mode = satp_mode_limit setting in
    let legal_mode =
      if mode == 0
      then 0
      else if (mode == 8) || (mode == 9) || (mode == 10)
      then if ltb max_mode mode then 0 else mode
      else 0 in
    (value &&& not64 (shl64 0xF 60)) ||| shl64 legal_mode 60

abbrev pub sfence : Cpu64 → Cpu64
sfence cpu = record cpu { mmu = Mmu.invalidate cpu.mmu; cache_invalidation_pending = true }

-- `FUNCT3_PRIV`.
unfoldable pub execute_priv : {S : Type 0} → ℕ → Cpu64 → S → Outcome S
execute_priv inst cpu s =
    if inst == 0x00000073
    then (err (call_trap cpu.priv_level), cpu, s)
    else if inst == 0x00100073
    then (err (breakpoint cpu.pc), cpu, s)
    else if inst == 0x10200073
    then if lt_priv cpu.priv_level supervisor then illegal inst cpu s else (ok tt, sret cpu, s)
    else if inst == 0x30200073
    then if lt_priv cpu.priv_level machine then illegal inst cpu s else (ok tt, mret cpu, s)
    else if inst == 0x10500073
    then (ok tt, next_pc (record cpu { wfi = true }), s)
    else if inst >>> 25 == 0b0001001
    then (ok tt, next_pc (sfence cpu), s)
    else illegal inst cpu s

-- The register's value before; the floating-point registers live in the FPU.
unfoldable pub csr_old : Cpu64 → ℕ → Option ℕ
csr_old cpu csr_addr =
    if csr_addr == 0x001
    then some (Fpu.to_bits cpu.fpu.fflags)
    else if csr_addr == 0x002
    then some (Fpu.mode_bits cpu.fpu.frm)
    else if csr_addr == 0x003
    then some (Fpu.read_fcsr cpu.fpu)
    else Csr.read cpu.csr csr_addr cpu.priv_level

unfoldable pub csr_new : SatpSetting → ℕ → ℕ → ℕ → ℕ → ℕ
unfolding sanitize_satp
csr_new setting csr_addr funct3 old_val rs1_val =
    let operation = funct3 &&& 3 in
    let new_val =
      if operation == 0b01
      then rs1_val
      else if operation == 0b10
      then old_val ||| rs1_val
      else if operation == 0b11
      then old_val &&& not64 rs1_val
      else old_val in
    if csr_addr == 0x180 then sanitize_satp setting new_val else new_val

-- The FS field of mstatus is set to dirty.
abbrev pub dirty : Cpu64 → Fpu.Fpu → Cpu64
dirty cpu f = record cpu {
  fpu = f;
  csr = record (cpu.csr) { mstatus = cpu.csr.mstatus ||| Bits.fs };
}

abbrev pub written : ℕ → Cpu64 → Csr.Csr64 × Bool → Result Trap64 (Unit {0}) × Cpu64
written inst cpu (c, true) = (ok tt, record cpu { csr = c })
written inst cpu (c, false) = (err (illegal_instruction inst), record cpu { csr = c })

-- A new satp empties the translation buffer.
abbrev pub satp_flush : Cpu64 → ℕ → ℕ → ℕ → Cpu64
satp_flush cpu csr_addr old_val new_val =
    if (csr_addr == 0x180) && (new_val != old_val)
    then record cpu { mmu = Mmu.invalidate cpu.mmu }
    else cpu

unfoldable pub csr_write : ℕ → Cpu64 → ℕ → ℕ → ℕ → Result Trap64 (Unit {0}) × Cpu64
csr_write inst cpu csr_addr old_val new_val =
    if csr_addr == 0x001
    then (ok tt, dirty cpu (record (cpu.fpu) { fflags = Fpu.from_bits (new_val &&& 0x1F) }))
    else if csr_addr == 0x002
    then (ok tt, dirty cpu (record (cpu.fpu) { frm = Fpu.mode_from (u32 new_val) }))
    else if csr_addr == 0x003
    then (ok tt, dirty cpu (Fpu.write_fcsr cpu.fpu (u32 new_val)))
    else written inst (satp_flush cpu csr_addr old_val new_val)
        (Csr.write cpu.csr csr_addr new_val cpu.priv_level)

abbrev pub finish_csr : {S : Type 0} → ℕ → ℕ → S → Result Trap64 (Unit {0}) × Cpu64 → Outcome S
finish_csr rd old_val s (ok _, cpu) = (ok tt, next_pc (write_reg cpu rd old_val), s)
finish_csr rd old_val s (err t, cpu) = (err t, cpu, s)

abbrev pub csr_update :
    {S : Type 0} → SatpSetting → ℕ → DecodedInst → Cpu64 → S → ℕ → ℕ → Option ℕ → Outcome S
csr_update setting inst d cpu s csr_addr rs1_val none = illegal inst cpu s
csr_update setting inst d cpu s csr_addr rs1_val (some old_val) = finish_csr d.rd old_val s (
    if ((d.funct3 &&& 3) == 0b01) || (rs1_val != 0)
    then csr_write inst cpu csr_addr old_val (csr_new setting csr_addr d.funct3 old_val rs1_val)
    else (ok tt, cpu))

-- `FUNCT3_CSRRW` to `FUNCT3_CSRRCI`.
unfoldable pub execute_csr : {S : Type 0} → SatpSetting → ℕ → DecodedInst → Cpu64 → S → Outcome S
unfolding csr_old csr_new csr_write
execute_csr setting inst d cpu s =
    let csr_addr = inst >>> 20 &&& 0xFFF in
    let rs1_val = if leb 5 d.funct3 then d.rs1 else read_reg cpu d.rs1 in
    csr_update setting inst d cpu s csr_addr rs1_val (csr_old cpu csr_addr)

unfoldable pub execute_system : {S : Type 0} → SatpSetting → ℕ → DecodedInst → Cpu64 → S → Outcome S
unfolding execute_priv execute_csr
execute_system setting inst d cpu s =
    if d.funct3 == 0
    then execute_priv inst cpu s
    else if is_csr_funct3 d.funct3
    then execute_csr setting inst d cpu s
    else illegal inst cpu s
