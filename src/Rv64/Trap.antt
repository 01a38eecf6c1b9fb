-- ===== src/Rv64/Trap.antt =====
-- Exceptions and interrupts of the 64-bit hart (src/cpu/rv64/trap.rs). The enum `Trap64` has the
-- constructors of `Trap`, each with a u64.
pub mod Status
pub mod Return
use otorisc_v.Base.{
  ℕ, Bool, ◌&&◌, ◌||◌, ◌==◌, ◌!=◌, ltb, ◌&&&◌, ◌|||◌, if◌then◌else◌, ◌>>>◌, shl64, not64, Option,
  none,
}
use otorisc_v.Privilege.{
  PrivilegeLevel, user, supervisor, machine, as_u8, lt_priv, le_priv, is_priv, from_u8,
}
use otorisc_v.Trap.{
  Trap, has, or_else, machine_interrupt, check_supervisor, instruction_address_misaligned,
  instruction_access_fault, illegal_instruction, breakpoint, load_address_misaligned,
  load_access_fault, store_address_misaligned, store_access_fault, environment_call_from_u,
  environment_call_from_s, environment_call_from_m, instruction_page_fault, load_page_fault,
  store_page_fault, user_software_interrupt, supervisor_software_interrupt,
  machine_software_interrupt, user_timer_interrupt, supervisor_timer_interrupt,
  machine_timer_interrupt, user_external_interrupt, supervisor_external_interrupt,
  machine_external_interrupt,
}
use otorisc_v.Trap
use otorisc_v.Rv64.Csr.Bits
use otorisc_v.Rv64.Cpu.{Cpu64}

abbrev pub Trap64 : Type 0
Trap64 = Trap

abbrev pub interrupt_code : ℕ → ℕ
interrupt_code n = shl64 1 63 ||| n

abbrev pub code : Trap64 → ℕ
code (instruction_address_misaligned _) = 0
code (instruction_access_fault _) = 1
code (illegal_instruction _) = 2
code (breakpoint _) = 3
code (load_address_misaligned _) = 4
code (load_access_fault _) = 5
code (store_address_misaligned _) = 6
code (store_access_fault _) = 7
code environment_call_from_u = 8
code environment_call_from_s = 9
code environment_call_from_m = 11
code (instruction_page_fault _) = 12
code (load_page_fault _) = 13
code (store_page_fault _) = 15
code user_software_interrupt = interrupt_code 0
code supervisor_software_interrupt = interrupt_code 1
code machine_software_interrupt = interrupt_code 3
code user_timer_interrupt = interrupt_code 4
code supervisor_timer_interrupt = interrupt_code 5
code machine_timer_interrupt = interrupt_code 7
code user_external_interrupt = interrupt_code 8
code supervisor_external_interrupt = interrupt_code 9
code machine_external_interrupt = interrupt_code 11

-- The same text as in src/cpu/trap.rs.
abbrev pub value : Trap64 → ℕ
value = Trap.value

abbrev pub from_cause : ℕ → ℕ → Trap64
from_cause = Trap.from_cause

abbrev pub is_interrupt : Trap64 → Bool
is_interrupt trap = (code trap &&& shl64 1 63) != 0

unfoldable pub check_pending_interrupts : Cpu64 → Option Trap64
check_pending_interrupts cpu =
    let pending = cpu.csr.mip &&& cpu.csr.mie in
    let mie_enabled = has cpu.csr.mstatus Bits.mie in
    let sie_enabled = has cpu.csr.mstatus Bits.sie in
    let m_enabled =
      lt_priv cpu.priv_level machine || (is_priv cpu.priv_level machine && mie_enabled) in
    let s_enabled =
      lt_priv cpu.priv_level supervisor || (is_priv cpu.priv_level supervisor && sie_enabled) in
    let m_interrupts = pending &&& not64 cpu.csr.mideleg in
    let s_interrupts = pending &&& cpu.csr.mideleg in
    if pending == 0
    then none
    else or_else (if m_enabled && (m_interrupts != 0) then machine_interrupt m_interrupts else none)
        (check_supervisor s_enabled s_interrupts)

-- `if status & from != 0 { status |= to } else { status &= !to }`.
unfoldable pub copy_flag : ℕ → ℕ → ℕ → ℕ
copy_flag status from to = if has status from then status ||| to else status &&& not64 to

unfoldable pub enter_s_status : ℕ → PrivilegeLevel → ℕ
enter_s_status mstatus priv =
    let status = copy_flag mstatus Bits.sie Bits.spie in
    let status' =
      if is_priv priv supervisor then status ||| Bits.spp else status &&& not64 Bits.spp in
    status' &&& not64 Bits.sie

unfoldable pub enter_m_status : ℕ → PrivilegeLevel → ℕ
enter_m_status mstatus priv =
    let status = copy_flag mstatus Bits.mie Bits.mpie in
    let status' = (status &&& not64 Bits.mpp) ||| shl64 (as_u8 priv) 11 in
    status' &&& not64 Bits.mie

unfoldable pub is_delegated : Cpu64 → Trap64 → Bool
is_delegated cpu trap =
    let deleg = if is_interrupt trap then cpu.csr.mideleg else cpu.csr.medeleg in
    let b = code trap &&& 0x7FFFFFFFFFFFFFFF in
    le_priv cpu.priv_level supervisor && (ltb b 64 && has deleg (shl64 1 b))

unfoldable pub enter_s : Cpu64 → Trap64 → Cpu64
enter_s cpu trap = record cpu {
  csr = record (cpu.csr) {
    sepc = cpu.pc;
    scause = code trap;
    stval = value trap;
    mstatus = enter_s_status cpu.csr.mstatus cpu.priv_level;
  };
  priv_level = supervisor;
  pc = cpu.csr.stvec;
}

unfoldable pub enter_m : Cpu64 → Trap64 → Cpu64
enter_m cpu trap = record cpu {
  csr = record (cpu.csr) {
    mepc = cpu.pc;
    mcause = code trap;
    mtval = value trap;
    mstatus = enter_m_status cpu.csr.mstatus cpu.priv_level;
  };
  priv_level = machine;
  pc = cpu.csr.mtvec;
}

unfoldable pub handle_trap : Cpu64 → Trap64 → Cpu64
handle_trap cpu trap = if is_delegated cpu trap then enter_s cpu trap else enter_m cpu trap

unfoldable pub mret : Cpu64 → Cpu64
mret cpu =
    let status = copy_flag cpu.csr.mstatus Bits.mpie Bits.mie ||| Bits.mpie in
    record cpu {
      priv_level = from_u8 (cpu.csr.mstatus >>> 11 &&& 3);
      csr = record (cpu.csr) { mstatus = status &&& not64 Bits.mpp };
      pc = cpu.csr.mepc;
    }

unfoldable pub sret : Cpu64 → Cpu64
sret cpu =
    let status = copy_flag cpu.csr.mstatus Bits.spie Bits.sie ||| Bits.spie in
    record cpu {
      priv_level = if (cpu.csr.mstatus >>> 8 &&& 1) == 1 then supervisor else user;
      csr = record (cpu.csr) { mstatus = status &&& not64 Bits.spp };
      pc = cpu.csr.sepc;
    }
