-- ===== src/Trap/Pending.antt =====
-- About the choice of a pending interrupt (`check_pending_interrupts`, src/cpu/trap.rs).
use otorisc_v.Base.{
  ℕ, ◌<◌, ◌^◌, Bool, true, false, not, ◌&&◌, ◌||◌, ◌==◌, ◌!=◌, ◌≡◌, refl, arith, bit, bit_and,
  bit-bit_and, bit-not32, bit_and-pow, zero-bit_and, if◌then◌else◌, not32, two32, Option, none,
  some,
}
use otorisc_v.Privilege.{PrivilegeLevel, user, supervisor, machine, lt_priv, is_priv}
use otorisc_v.Cpu.{Cpu}
use otorisc_v.Trap.{
  Trap, has, check_pending_interrupts, machine_interrupt, supervisor_interrupt, check_supervisor,
  or_else,
}

-- Whether the level takes interrupts at the current privilege.
abbrev pub takes_m : PrivilegeLevel → ℕ → Bool
takes_m machine mstatus = bit mstatus 3
takes_m _ mstatus = true

abbrev pub takes_s : PrivilegeLevel → ℕ → Bool
takes_s user mstatus = true
takes_s supervisor mstatus = bit mstatus 1
takes_s machine mstatus = false

-- Interrupt `i` is pending and enabled, and belongs to the level.
abbrev pub waits_m : Cpu → ℕ → Bool
waits_m cpu i = (bit cpu.csr.mip i && bit cpu.csr.mie i) && not (bit cpu.csr.mideleg i)

abbrev pub waits_s : Cpu → ℕ → Bool
waits_s cpu i = (bit cpu.csr.mip i && bit cpu.csr.mie i) && bit cpu.csr.mideleg i

abbrev first_of_three : Cpu → Option Trap
first_of_three cpu =
    if waits_m cpu 11
    then some Trap.machine_external_interrupt
    else if waits_m cpu 3
    then some Trap.machine_software_interrupt
    else if waits_m cpu 7
    then some Trap.machine_timer_interrupt
    else none

-- MEI > MSI > MTI > SEI > SSI > STI.
abbrev pub first_m : Cpu → Option Trap
first_m cpu =
    if waits_m cpu 11
    then some Trap.machine_external_interrupt
    else if waits_m cpu 3
    then some Trap.machine_software_interrupt
    else if waits_m cpu 7
    then some Trap.machine_timer_interrupt
    else if waits_m cpu 9
    then some Trap.supervisor_external_interrupt
    else if waits_m cpu 1
    then some Trap.supervisor_software_interrupt
    else if waits_m cpu 5
    then some Trap.supervisor_timer_interrupt
    else none

abbrev pub first_s : Cpu → Option Trap
first_s cpu =
    if waits_s cpu 9
    then some Trap.supervisor_external_interrupt
    else if waits_s cpu 1
    then some Trap.supervisor_software_interrupt
    else if waits_s cpu 5
    then some Trap.supervisor_timer_interrupt
    else none

-- The interrupts of the levels, as the code's words test them.
module _ (cpu : Cpu) (hd : cpu.csr.mideleg < two32) where
  abbrev pending : ℕ
  pending = bit_and cpu.csr.mip cpu.csr.mie

  abbrev word_m : ℕ
  word_m = bit_and pending (not32 cpu.csr.mideleg)

  abbrev word_s : ℕ
  word_s = bit_and pending cpu.csr.mideleg

  has-word_m : (i : ℕ) → i < 32 → has word_m (2 ^ i) ≡ waits_m cpu i
  has-word_m i hi = ground (
    arith,
    bit_and-pow i word_m,
    bit-bit_and i pending (not32 cpu.csr.mideleg),
    bit-bit_and i cpu.csr.mip cpu.csr.mie,
    bit-not32 i cpu.csr.mideleg hd hi,
  )

  has-word_s : (i : ℕ) → has word_s (2 ^ i) ≡ waits_s cpu i
  has-word_s i = ground (
    arith,
    bit_and-pow i word_s,
    bit-bit_and i pending cpu.csr.mideleg,
    bit-bit_and i cpu.csr.mip cpu.csr.mie,
  )

  machine_interrupt-first_of_three : machine_interrupt word_m ≡ first_of_three cpu
  unfolding machine_interrupt
  machine_interrupt-first_of_three =
      rw (has-word_m 11 (omega arith), has-word_m 3 (omega arith), has-word_m 7 (omega arith))

  supervisor_interrupt-first_s : supervisor_interrupt word_s ≡ first_s cpu
  unfolding supervisor_interrupt
  supervisor_interrupt-first_s = rw (has-word_s 9, has-word_s 1, has-word_s 5)

machine_interrupt-zero : machine_interrupt 0 ≡ none
unfolding machine_interrupt
machine_interrupt-zero = refl

supervisor_interrupt-zero : supervisor_interrupt 0 ≡ none
unfolding supervisor_interrupt
supervisor_interrupt-zero = refl

-- The guards on a word that is not zero change nothing.
guard_m :
    (enabled : Bool) (w : ℕ)
    → (if enabled && (w != 0) then machine_interrupt w else none)
      ≡ (if enabled then machine_interrupt w else none)
guard_m enabled w = ground (arith, machine_interrupt-zero)

guard_s :
    (enabled : Bool) (w : ℕ)
    → check_supervisor enabled w ≡ (if enabled then supervisor_interrupt w else none)
unfolding check_supervisor
guard_s enabled w = ground (arith, supervisor_interrupt-zero)

guard_pending :
    (m s : Bool) (p a b : ℕ)
    → bit_and 0 a ≡ 0
    → bit_and 0 b ≡ 0
    → (if p == 0
        then none
        else or_else
            (if m then machine_interrupt (bit_and p a) else none)
            (if s then supervisor_interrupt (bit_and p b) else none))
      ≡ or_else
          (if m then machine_interrupt (bit_and p a) else none)
          (if s then supervisor_interrupt (bit_and p b) else none)
guard_pending m s p a b ha hb = ground (arith, machine_interrupt-zero, supervisor_interrupt-zero)

enabled_m :
    (p : PrivilegeLevel) (mstatus : ℕ)
    → (lt_priv p machine || (is_priv p machine && has mstatus 8)) ≡ takes_m p mstatus
enabled_m p mstatus = ground (arith, bit_and-pow 3 mstatus)

enabled_s :
    (p : PrivilegeLevel) (mstatus : ℕ)
    → (lt_priv p supervisor || (is_priv p supervisor && has mstatus 2)) ≡ takes_s p mstatus
enabled_s p mstatus = ground (arith, bit_and-pow 1 mstatus)

check_pending_interrupts-first_of_three :
    (cpu : Cpu)
    → cpu.csr.mideleg < two32
    → check_pending_interrupts cpu
      ≡ or_else
          (if takes_m cpu.priv_level cpu.csr.mstatus then first_of_three cpu else none)
          (if takes_s cpu.priv_level cpu.csr.mstatus then first_s cpu else none)
unfolding check_pending_interrupts
check_pending_interrupts-first_of_three cpu hd =
    rw
      (
        enabled_m cpu.priv_level cpu.csr.mstatus,
        enabled_s cpu.priv_level cpu.csr.mstatus,
        guard_m (takes_m cpu.priv_level cpu.csr.mstatus) (word_m cpu hd),
        guard_s (takes_s cpu.priv_level cpu.csr.mstatus) (word_s cpu hd),
        guard_pending (takes_m cpu.priv_level cpu.csr.mstatus)
            (takes_s cpu.priv_level cpu.csr.mstatus) (pending cpu hd) (not32 cpu.csr.mideleg)
            cpu.csr.mideleg (zero-bit_and (not32 cpu.csr.mideleg)) (zero-bit_and cpu.csr.mideleg),
        machine_interrupt-first_of_three cpu hd,
        supervisor_interrupt-first_s cpu hd,
      )
      refl

-- With a mideleg below 2 ^ 32, and every supervisor interrupt that is pending and enabled
-- delegated, the interrupt that is taken is the first one waiting, in the order MEI, MSI, MTI, SEI,
-- SSI, STI of those that are not delegated if machine mode takes interrupts, then SEI, SSI, STI of
-- those that are if supervisor mode does; there is none if none waits.
pub check_pending_interrupts-first :
    (cpu : Cpu)
    → cpu.csr.mideleg < two32
    → waits_m cpu 9 ≡ false
    → waits_m cpu 1 ≡ false
    → waits_m cpu 5 ≡ false
    → check_pending_interrupts cpu
      ≡ or_else
          (if takes_m cpu.priv_level cpu.csr.mstatus then first_m cpu else none)
          (if takes_s cpu.priv_level cpu.csr.mstatus then first_s cpu else none)
check_pending_interrupts-first cpu hd h9 h1 h5 =
    rw (check_pending_interrupts-first_of_three cpu hd, h9, h1, h5)
