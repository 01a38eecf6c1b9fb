-- ===== src/Trap/Causes.antt =====
-- About cause codes and delegation (src/cpu/trap.rs).
use otorisc_v.Base.{ℕ, Bool, true, false, ◌&&◌, ◌≡◌, arith, bit, bit_and-pow, if◌then◌else◌}
use otorisc_v.Privilege.{supervisor, le_priv}
use otorisc_v.Cpu.{Cpu}
use otorisc_v.Trap.{Trap, code, value, from_cause, is_interrupt, is_delegated}

-- Whether a trap is an environment call, which carries no value.
abbrev pub is_call : Trap → Bool
is_call Trap.environment_call_from_u = true
is_call Trap.environment_call_from_s = true
is_call Trap.environment_call_from_m = true
is_call _ = false

-- The number of a cause without the interrupt bit, as the architecture lists them.
abbrev pub number : Trap → ℕ
number (Trap.instruction_address_misaligned _) = 0
number (Trap.instruction_access_fault _) = 1
number (Trap.illegal_instruction _) = 2
number (Trap.breakpoint _) = 3
number (Trap.load_address_misaligned _) = 4
number (Trap.load_access_fault _) = 5
number (Trap.store_address_misaligned _) = 6
number (Trap.store_access_fault _) = 7
number Trap.environment_call_from_u = 8
number Trap.environment_call_from_s = 9
number Trap.environment_call_from_m = 11
number (Trap.instruction_page_fault _) = 12
number (Trap.load_page_fault _) = 13
number (Trap.store_page_fault _) = 15
number Trap.user_software_interrupt = 0
number Trap.supervisor_software_interrupt = 1
number Trap.machine_software_interrupt = 3
number Trap.user_timer_interrupt = 4
number Trap.supervisor_timer_interrupt = 5
number Trap.machine_timer_interrupt = 7
number Trap.user_external_interrupt = 8
number Trap.supervisor_external_interrupt = 9
number Trap.machine_external_interrupt = 11

-- An exception that is no environment call is rebuilt from its cause code and its value.
pub from_cause-code :
    (t : Trap) → is_interrupt t ≡ false → is_call t ≡ false → from_cause (code t) (value t) ≡ t
unfolding from_cause
from_cause-code t i c = ground arith

-- A trap is delegated exactly when the hart is not in machine mode and the bit of its cause is set
-- in mideleg, for an interrupt, or in medeleg, for an exception.
pub is_delegated-bit :
    (cpu : Cpu) (t : Trap)
    → is_delegated cpu t ≡ (
        le_priv cpu.priv_level supervisor
        && bit (if is_interrupt t then cpu.csr.mideleg else cpu.csr.medeleg) (number t))
unfolding is_delegated
is_delegated-bit cpu Trap.environment_call_from_u = ground (arith, bit_and-pow 8 cpu.csr.medeleg)
is_delegated-bit cpu t =
    ground (arith, bit_and-pow (number t) cpu.csr.medeleg, bit_and-pow (number t) cpu.csr.mideleg)
