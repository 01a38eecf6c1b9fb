-- ===== src/Examples/Traps.antt =====
-- Traps at concrete inputs (src/cpu/trap.rs).
use otorisc_v.Base.{true, false, ◌≡◌, refl, arith, bit, if◌then◌else◌, none, ◌⊎◌, ◌==◌, ◌||◌}
use otorisc_v.Privilege.{user}
use otorisc_v.Csr
use otorisc_v.Cpu.{Cpu}
use otorisc_v.Cpu
use otorisc_v.Trap
use otorisc_v.Trap.{
  code, value, from_cause, is_interrupt, is_delegated, handle_trap, mret, sret, or_else,
  check_pending_interrupts,
}
use otorisc_v.Trap.Entry.{goes_to_s, EnteredS, EnteredM, handle_trap-entered}
use otorisc_v.Trap.Return.{mret-handle_trap}
use otorisc_v.Trap.Pending.{takes_m, takes_s, first_m, first_s, check_pending_interrupts-first}

-- A hart in user mode that has delegated page faults of loads and the supervisor timer, with that
-- interrupt pending and enabled.
abbrev in_user : Cpu
in_user = record (Cpu.new) {
  priv_level = user;
  csr = record (Csr.new) { medeleg = 0x2000; mideleg = 0x20; mip = 0x20; mie = 0x20 };
}

abbrev fault : Trap.Trap
fault = Trap.load_page_fault 64

handle_trap-entered_example :
    ((goes_to_s in_user fault ≡ true) × EnteredS in_user (handle_trap in_user fault) fault 8)
    ⊎ ((goes_to_s in_user fault ≡ false) × EnteredM in_user (handle_trap in_user fault) fault 8)
handle_trap-entered_example = handle_trap-entered in_user fault 8 (omega arith)

mret-handle_trap_example :
    let resumed = mret (handle_trap Cpu.new fault) in
    (resumed.pc ≡ Cpu.new.pc)
    × (resumed.priv_level ≡ Cpu.new.priv_level)
    × (bit resumed.csr.mstatus 3 ≡ (
        if 7 == 3
        then true
        else if (11 == 3) || (12 == 3)
        then false
        else bit Cpu.new.csr.mstatus 3))
unfolding Cpu.new Csr.new is_delegated
mret-handle_trap_example = mret-handle_trap Cpu.new fault 3 (omega arith) refl

check_pending_interrupts-first_example :
    check_pending_interrupts in_user
    ≡ or_else
        (if takes_m in_user.priv_level in_user.csr.mstatus then first_m in_user else none)
        (if takes_s in_user.priv_level in_user.csr.mstatus then first_s in_user else none)
unfolding bit
check_pending_interrupts-first_example =
    check_pending_interrupts-first in_user (omega arith) refl refl refl
