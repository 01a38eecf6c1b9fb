-- ===== src/Trap.antt =====
-- Exceptions and interrupts: causes, pending interrupts, entry and return (src/cpu/trap.rs).
pub mod Causes
pub mod Status
pub mod Entry
pub mod Return
pub mod Pending
use otorisc_v.Base.{
  ℕ, ◌+◌, ◌*◌, ◌/◌, ◌%◌, ◌^◌, Bool, true, false, ◌&&◌, ◌||◌, ◌==◌, ◌!=◌, ltb, bit_and, bit_or,
  if◌then◌else◌, ◌>>>◌, ◌<<<◌, not32, Option, none, some,
}
use otorisc_v.Privilege.{
  PrivilegeLevel, user, supervisor, machine, as_u8, lt_priv, le_priv, is_priv, from_u8,
}
use otorisc_v.Csr.Mstatus
use otorisc_v.Csr.Mip
use otorisc_v.Cpu.{Cpu}

pub data Trap : Type 0 where
  instruction_address_misaligned instruction_access_fault illegal_instruction breakpoint : ℕ → Trap
  load_address_misaligned load_access_fault store_address_misaligned store_access_fault : ℕ → Trap
  environment_call_from_u environment_call_from_s environment_call_from_m : Trap
  instruction_page_fault load_page_fault store_page_fault : ℕ → Trap
  user_software_interrupt supervisor_software_interrupt machine_software_interrupt : Trap
  user_timer_interrupt supervisor_timer_interrupt machine_timer_interrupt : Trap
  user_external_interrupt supervisor_external_interrupt machine_external_interrupt : Trap

abbrev pub interrupt_code : ℕ → ℕ
interrupt_code n = bit_or 0x80000000 n

abbrev pub code : Trap → ℕ
code (instruction_address_misaligned _) = 0
code (instruction_access_fault _) = 1
code (illegal_instruction _) = 2
code (breakpoint _) = 3
code (load_address_misaligned _) = 4
code (load_access_fault _) = 5
code (store_address_misaligned _) = 6
code (store_access_fault _) = 7
code environment_call_from_u = 8
code environment_call_from_s = 9
code environment_call_from_m = 11
code (instruction_page_fault _) = 12
code (load_page_fault _) = 13
code (store_page_fault _) = 15
code user_software_interrupt = interrupt_code 0
code supervisor_software_interrupt = interrupt_code 1
code machine_software_interrupt = interrupt_code 3
code user_timer_interrupt = interrupt_code 4
code supervisor_timer_interrupt = interrupt_code 5
code machine_timer_interrupt = interrupt_code 7
code user_external_interrupt = interrupt_code 8
code supervisor_external_interrupt = interrupt_code 9
code machine_external_interrupt = interrupt_code 11

abbrev pub value : Trap → ℕ
value (instruction_address_misaligned v) = v
value (instruction_access_fault v) = v
value (illegal_instruction v) = v
value (breakpoint v) = v
value (load_address_misaligned v) = v
value (load_access_fault v) = v
value (store_address_misaligned v) = v
value (store_access_fault v) = v
value (instruction_page_fault v) = v
value (load_page_fault v) = v
value (store_page_fault v) = v
value _ = 0

abbrev pub is_interrupt : Trap → Bool
is_interrupt trap = bit_and (code trap) 0x80000000 != 0

unfoldable pub from_cause : ℕ → ℕ → Trap
from_cause cause tval =
    if cause == 0
    then instruction_address_misaligned tval
    else if cause == 1
    then instruction_access_fault tval
    else if cause == 2
    then illegal_instruction tval
    else if cause == 3
    then breakpoint tval
    else if cause == 4
    then load_address_misaligned tval
    else if cause == 5
    then load_access_fault tval
    else if cause == 6
    then store_address_misaligned tval
    else if cause == 7
    then store_access_fault tval
    else if cause == 12
    then instruction_page_fault tval
    else if cause == 13
    then load_page_fault tval
    else if cause == 15
    then store_page_fault tval
    else illegal_instruction tval

abbrev pub has : ℕ → ℕ → Bool
has word mask = bit_and word mask != 0

-- The interrupts of one level, in order of priority.
unfoldable pub machine_interrupt : ℕ → Option Trap
machine_interrupt m =
    if has m Mip.meip
    then some machine_external_interrupt
    else if has m Mip.msip
    then some machine_software_interrupt
    else if has m Mip.mtip
    then some machine_timer_interrupt
    else none

unfoldable pub supervisor_interrupt : ℕ → Option Trap
supervisor_interrupt s =
    if has s Mip.seip
    then some supervisor_external_interrupt
    else if has s Mip.ssip
    then some supervisor_software_interrupt
    else if has s Mip.stip
    then some supervisor_timer_interrupt
    else none

-- What `check_pending_interrupts` returns if the block for machine mode does not.
unfoldable pub check_supervisor : Bool → ℕ → Option Trap
check_supervisor s_enabled s_interrupts =
    if s_enabled && (s_interrupts != 0) then supervisor_interrupt s_interrupts else none

abbrev pub or_else : Option Trap → Option Trap → Option Trap
or_else none other = other
or_else (some t) other = some t

unfoldable pub check_pending_interrupts : Cpu → Option Trap
check_pending_interrupts cpu =
    let pending = bit_and cpu.csr.mip cpu.csr.mie in
    let mie_enabled = has cpu.csr.mstatus Mstatus.mie in
    let sie_enabled = has cpu.csr.mstatus Mstatus.sie in
    let m_enabled =
      lt_priv cpu.priv_level machine || (is_priv cpu.priv_level machine && mie_enabled) in
    let s_enabled =
      lt_priv cpu.priv_level supervisor || (is_priv cpu.priv_level supervisor && sie_enabled) in
    let m_interrupts = bit_and pending (not32 cpu.csr.mideleg) in
    let s_interrupts = bit_and pending cpu.csr.mideleg in
    if pending == 0
    then none
    else or_else (if m_enabled && (m_interrupts != 0) then machine_interrupt m_interrupts else none)
        (check_supervisor s_enabled s_interrupts)

-- `if status & from != 0 { status |= to } else { status &= !to }`.
unfoldable pub copy_flag : ℕ → ℕ → ℕ → ℕ
copy_flag status from to = if has status from then bit_or status to else bit_and status (not32 to)

unfoldable pub enter_s_status : ℕ → PrivilegeLevel → ℕ
enter_s_status mstatus priv =
    let status = copy_flag mstatus Mstatus.sie Mstatus.spie in
    let status' =
      if is_priv priv supervisor
      then bit_or status Mstatus.spp
      else bit_and status (not32 Mstatus.spp) in
    bit_and status' (not32 Mstatus.sie)

unfoldable pub enter_m_status : ℕ → PrivilegeLevel → ℕ
enter_m_status mstatus priv =
    let status = copy_flag mstatus Mstatus.mie Mstatus.mpie in
    let status' = bit_or (bit_and status (not32 Mstatus.mpp)) (as_u8 priv <<< 11) in
    bit_and status' (not32 Mstatus.mie)

-- The address of the handler; the sum is a u32 and cannot reach 2 ^ 32 for the causes that exist
-- unless the vector table ends at the top of the address space, where debug builds panic.
abbrev pub vector : ℕ → Bool → ℕ → ℕ
vector tvec interrupt b =
    if interrupt && (bit_and tvec 1 != 0)
    then (bit_and tvec (not32 1) + b * 4) % 4294967296
    else bit_and tvec (not32 1)

unfoldable pub is_delegated : Cpu → Trap → Bool
is_delegated cpu trap =
    let deleg = if is_interrupt trap then cpu.csr.mideleg else cpu.csr.medeleg in
    let b = bit_and (code trap) 0x7FFFFFFF in
    le_priv cpu.priv_level supervisor && (ltb b 32 && has deleg (1 <<< b))

unfoldable pub enter_s : Cpu → Trap → Cpu
enter_s cpu trap = record cpu {
  csr = record (cpu.csr) {
    sepc = cpu.pc;
    scause = code trap;
    stval = value trap;
    mstatus = enter_s_status cpu.csr.mstatus cpu.priv_level;
  };
  priv_level = supervisor;
  pc = vector cpu.csr.stvec (is_interrupt trap) (bit_and (code trap) 0x7FFFFFFF);
  wfi = false;
}

unfoldable pub enter_m : Cpu → Trap → Cpu
enter_m cpu trap = record cpu {
  csr = record (cpu.csr) {
    mepc = cpu.pc;
    mcause = code trap;
    mtval = value trap;
    mstatus = enter_m_status cpu.csr.mstatus cpu.priv_level;
  };
  priv_level = machine;
  pc = vector cpu.csr.mtvec (is_interrupt trap) (bit_and (code trap) 0x7FFFFFFF);
  wfi = false;
}

unfoldable pub handle_trap : Cpu → Trap → Cpu
handle_trap cpu trap = if is_delegated cpu trap then enter_s cpu trap else enter_m cpu trap

unfoldable pub mret : Cpu → Cpu
mret cpu =
    let status = bit_or (copy_flag cpu.csr.mstatus Mstatus.mpie Mstatus.mie) Mstatus.mpie in
    record cpu {
      priv_level = from_u8 (bit_and (cpu.csr.mstatus >>> 11) 3);
      csr = record (cpu.csr) { mstatus = bit_and status (not32 Mstatus.mpp) };
      pc = cpu.csr.mepc;
    }

unfoldable pub sret : Cpu → Cpu
sret cpu =
    let status = bit_or (copy_flag cpu.csr.mstatus Mstatus.spie Mstatus.sie) Mstatus.spie in
    record cpu {
      priv_level = if bit_and (cpu.csr.mstatus >>> 8) 1 == 1 then supervisor else user;
      csr = record (cpu.csr) { mstatus = bit_and status (not32 Mstatus.spp) };
      pc = cpu.csr.sepc;
    }
