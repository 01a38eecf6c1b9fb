-- ===== src/Rv64/Trap/Return.antt =====
-- About cause codes, delegation, entries and returns at 64 bits (src/cpu/rv64/trap.rs).
use otorisc_v.Base.{
  ℕ, ◌<◌, Bool, true, false, ◌&&◌, ◌||◌, ◌==◌, ◌≡◌, refl, arith, bit, bit_and-pow, one_bit_field,
  two_bit_field, if◌then◌else◌, Bool-cases, inl, inr,
}
use otorisc_v.Privilege.{supervisor, le_priv}
use otorisc_v.Trap.{Trap}
use otorisc_v.Trap.Causes.{number}
use otorisc_v.Trap.Return.{from_u8-as_u8}
use otorisc_v.Rv64.Cpu.{Cpu64}
use otorisc_v.Rv64.Trap.{
  Trap64, is_interrupt, handle_trap, enter_s, enter_m, enter_m_status, enter_s_status, is_delegated,
  mret, sret,
}
use otorisc_v.Rv64.Trap.Status.{bit-enter_s_status, bit-enter_m_status, bit-mret, bit-sret}

-- A trap is delegated exactly when the hart is not in machine mode and the bit of its cause is set
-- in mideleg, for an interrupt, or in medeleg, for an exception.
pub is_delegated-bit :
    (cpu : Cpu64) (t : Trap64)
    → is_delegated cpu t ≡ (
        le_priv cpu.priv_level supervisor
        && bit (if is_interrupt t then cpu.csr.mideleg else cpu.csr.medeleg) (number t))
unfolding is_delegated
is_delegated-bit cpu Trap.environment_call_from_u = ground (arith, bit_and-pow 8 cpu.csr.medeleg)
is_delegated-bit cpu t =
    ground (arith, bit_and-pow (number t) cpu.csr.medeleg, bit_and-pow (number t) cpu.csr.mideleg)

-- The return instruction of the mode that a trap enters.
abbrev pub resume : Cpu64 → Trap64 → Cpu64
resume cpu t = if is_delegated cpu t then sret (handle_trap cpu t) else mret (handle_trap cpu t)

-- The bits of mstatus after it: the previous-state fields of the mode are reset.
abbrev pub resumed_status : Bool → ℕ → ℕ → Bool
resumed_status true mstatus k = if 5 == k then true else if 8 == k then false else bit mstatus k
resumed_status false mstatus k =
    if 7 == k then true else if (11 == k) || (12 == k) then false else bit mstatus k

abbrev Resumes : Cpu64 → Cpu64 → Bool → ℕ → Type 0
Resumes cpu cpu' to_s k =
    (cpu'.pc ≡ cpu.pc)
    × (cpu'.priv_level ≡ cpu.priv_level)
    × (cpu'.regs ≡ cpu.regs)
    × (bit cpu'.csr.mstatus k ≡ resumed_status to_s cpu.csr.mstatus k)

mret-enter_m :
    (cpu : Cpu64) (t : Trap64) (k : ℕ) → k < 64 → Resumes cpu (mret (enter_m cpu t)) false k
mret-enter_m cpu t k hk =
    let mstatus = cpu.csr.mstatus in
    let p = cpu.priv_level in
    (
      unfold mret enter_m in refl,
      unfold mret enter_m in
          rw
            (
              two_bit_field 11 (enter_m_status mstatus p),
              bit-enter_m_status mstatus p 11 (omega arith),
              bit-enter_m_status mstatus p 12 (omega arith),
            )
            (from_u8-as_u8 p),
      unfold mret enter_m in refl,
      unfold enter_m in
          ground (
            arith,
            bit-mret (enter_m cpu t) k hk,
            bit-enter_m_status mstatus p k hk,
            bit-enter_m_status mstatus p 7 (omega arith),
          ),
    )

sret-enter_s :
    (cpu : Cpu64) (t : Trap64) (k : ℕ)
    → k < 64
    → le_priv cpu.priv_level supervisor ≡ true
    → Resumes cpu (sret (enter_s cpu t)) true k
sret-enter_s cpu t k hk le =
    let mstatus = cpu.csr.mstatus in
    let p = cpu.priv_level in
    (
      unfold sret enter_s in refl,
      unfold sret enter_s in
          ground (
            arith,
            one_bit_field 8 (enter_s_status mstatus p),
            bit-enter_s_status mstatus p 8 (omega arith),
          ),
      unfold sret enter_s in refl,
      unfold enter_s in
          ground (
            arith,
            bit-sret (enter_s cpu t) k hk,
            bit-enter_s_status mstatus p k hk,
            bit-enter_s_status mstatus p 5 (omega arith),
          ),
    )

-- After any trap, the return instruction of the mode that the trap entered resumes the interrupted
-- program: at its instruction, with its privilege, its registers and every bit of its mstatus, but
-- for the previous-state fields, SPIE set and SPP clear or MPIE set and MPP clear.
pub resume-handle_trap :
    (cpu : Cpu64) (t : Trap64) (k : ℕ)
    → k < 64
    → let to_s = is_delegated cpu t in
      ((resume cpu t).pc ≡ cpu.pc)
      × ((resume cpu t).priv_level ≡ cpu.priv_level)
      × ((resume cpu t).regs ≡ cpu.regs)
      × (bit (resume cpu t).csr.mstatus k ≡ resumed_status to_s cpu.csr.mstatus k)
unfolding handle_trap
resume-handle_trap cpu t k hk = elim (Bool-cases (is_delegated cpu t)) [
  | inl d ↦ rw (d, handle_trap) (sret-enter_s cpu t k hk (ground (arith, is_delegated-bit cpu t)))
  | inr d ↦ rw (d, handle_trap) (mret-enter_m cpu t k hk)
]
