-- ===== src/Trap/Entry.antt =====
-- About the entry to a trap handler (`handle_trap`, src/cpu/trap.rs).
use otorisc_v.Base.{
  ℕ, ◌+◌, ◌*◌, ◌/◌, ◌%◌, ◌<◌, ◌≤◌, ◌⊎◌, inl, inr, Bool, true, false, ◌&&◌, ◌≡◌, refl, sym, arith,
  bit, bit_and, bit_and_high, bit_and_mask, bit_and-pow, two32, if◌then◌else◌, Bool-cases,
}
use otorisc_v.Privilege.{supervisor, machine, le_priv, as_u8}
use otorisc_v.Cpu.{Cpu}
use otorisc_v.Trap.{
  Trap, code, value, is_interrupt, vector, handle_trap, enter_s, enter_m, is_delegated,
}
use otorisc_v.Trap.Causes.{number, is_delegated-bit}
use otorisc_v.Trap.Status.{bit-enter_s_status, bit-enter_m_status, entered_s, entered_m}

-- Where the handler of a trap starts: at the base of the vector table without its lowest bit, and
-- for an interrupt of a table with that bit set, as many words further as the number of the cause.
abbrev pub handler_of : ℕ → Trap → ℕ
handler_of tvec t =
    let base = tvec / 2 % 2147483648 * 2 in
    if is_interrupt t && bit tvec 0 then (base + number t * 4) % two32 else base

code-number : (t : Trap) → bit_and (code t) 0x7FFFFFFF ≡ number t
code-number t = ground arith

vector-handler_of :
    (tvec : ℕ) (t : Trap)
    → vector tvec (is_interrupt t) (bit_and (code t) 0x7FFFFFFF) ≡ handler_of tvec t
vector-handler_of tvec t =
    rw (bit_and_high 1 tvec 0x7FFFFFFF, bit_and_mask 31 (tvec / 2), code-number t)
      (ground (arith, bit_and-pow 0 tvec))

-- The hart is not in machine mode, and the bit of the trap's cause is set in mideleg, for an
-- interrupt, or in medeleg, for an exception.
abbrev pub goes_to_s : Cpu → Trap → Bool
goes_to_s cpu t =
    le_priv cpu.priv_level supervisor
    && bit (if is_interrupt t then cpu.csr.mideleg else cpu.csr.medeleg) (number t)

-- A trap taken in supervisor mode: where it came from is recorded in the supervisor's registers,
-- the bits of mstatus are as listed, and every other control register is as it was.
pub record EnteredS (cpu cpu' : Cpu) (t : Trap) (k : ℕ) : Type 0 where
  pub priv : cpu'.priv_level ≡ supervisor
  pub handler : cpu'.pc ≡ handler_of cpu.csr.stvec t
  pub epc : cpu'.csr.sepc ≡ cpu.pc
  pub cause : cpu'.csr.scause ≡ code t
  pub tval : cpu'.csr.stval ≡ value t
  pub status : bit cpu'.csr.mstatus k ≡ entered_s cpu.csr.mstatus cpu.priv_level k
  pub same_csrs :
      record (cpu'.csr) {
        sepc = cpu.csr.sepc;
        scause = cpu.csr.scause;
        stval = cpu.csr.stval;
        mstatus = cpu.csr.mstatus;
      }
      ≡ cpu.csr
  pub same_regs : cpu'.regs ≡ cpu.regs
  pub same_fpu : cpu'.fpu ≡ cpu.fpu
  pub same_reservation : cpu'.reservation ≡ cpu.reservation
  pub awake : cpu'.wfi ≡ false

pub record EnteredM (cpu cpu' : Cpu) (t : Trap) (k : ℕ) : Type 0 where
  pub priv : cpu'.priv_level ≡ machine
  pub handler : cpu'.pc ≡ handler_of cpu.csr.mtvec t
  pub epc : cpu'.csr.mepc ≡ cpu.pc
  pub cause : cpu'.csr.mcause ≡ code t
  pub tval : cpu'.csr.mtval ≡ value t
  pub status : bit cpu'.csr.mstatus k ≡ entered_m cpu.csr.mstatus cpu.priv_level k
  pub same_csrs :
      record (cpu'.csr) {
        mepc = cpu.csr.mepc;
        mcause = cpu.csr.mcause;
        mtval = cpu.csr.mtval;
        mstatus = cpu.csr.mstatus;
      }
      ≡ cpu.csr
  pub same_regs : cpu'.regs ≡ cpu.regs
  pub same_fpu : cpu'.fpu ≡ cpu.fpu
  pub same_reservation : cpu'.reservation ≡ cpu.reservation
  pub awake : cpu'.wfi ≡ false

enter_s-EnteredS : (cpu : Cpu) (t : Trap) (k : ℕ) → k < 32 → EnteredS cpu (enter_s cpu t) t k
unfolding enter_s
enter_s-EnteredS cpu t k hk = record {
  priv = refl;
  handler = vector-handler_of cpu.csr.stvec t;
  epc = refl;
  cause = refl;
  tval = refl;
  status = bit-enter_s_status cpu.csr.mstatus cpu.priv_level k hk;
  same_csrs = refl;
  same_regs = refl;
  same_fpu = refl;
  same_reservation = refl;
  awake = refl;
}

enter_m-EnteredM : (cpu : Cpu) (t : Trap) (k : ℕ) → k < 32 → EnteredM cpu (enter_m cpu t) t k
unfolding enter_m
enter_m-EnteredM cpu t k hk = record {
  priv = refl;
  handler = vector-handler_of cpu.csr.mtvec t;
  epc = refl;
  cause = refl;
  tval = refl;
  status = bit-enter_m_status cpu.csr.mstatus cpu.priv_level k hk;
  same_csrs = refl;
  same_regs = refl;
  same_fpu = refl;
  same_reservation = refl;
  awake = refl;
}

-- A trap enters supervisor mode if the hart is not in machine mode and the cause's bit of mideleg
-- or medeleg is set, and machine mode otherwise. Each entry goes on at the handler that the level's
-- vector register gives, records the interrupted address, the cause and its value, saves and clears
-- the interrupt enable of the level entered together with the interrupted privilege, keeps the other
-- bits of mstatus, every other control register, the general and floating-point registers and the
-- reservation, and ends a wait for interrupts.
pub handle_trap-entered :
    (cpu : Cpu) (t : Trap) (k : ℕ)
    → k < 32
    → ((goes_to_s cpu t ≡ true) × EnteredS cpu (handle_trap cpu t) t k)
      ⊎ ((goes_to_s cpu t ≡ false) × EnteredM cpu (handle_trap cpu t) t k)
unfolding handle_trap
handle_trap-entered cpu t k hk =
    rw (sym (is_delegated-bit cpu t)) (elim (Bool-cases (is_delegated cpu t)) [
      | inl d ↦ inl (d, rw (d, handle_trap) (enter_s-EnteredS cpu t k hk))
      | inr d ↦ inr (d, rw (d, handle_trap) (enter_m-EnteredM cpu t k hk))
    ])

-- A trap never lowers the privilege.
pub as_u8-handle_trap :
    (cpu : Cpu) (t : Trap) → as_u8 cpu.priv_level ≤ as_u8 (handle_trap cpu t).priv_level
unfolding handle_trap enter_s enter_m
as_u8-handle_trap cpu t = ground (arith, is_delegated-bit cpu t)
