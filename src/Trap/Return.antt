-- ===== src/Trap/Return.antt =====
-- About `mret` and `sret` after an entry (src/cpu/trap.rs).
use otorisc_v.Base.{
  ℕ, ◌+◌, ◌*◌, ◌<◌, true, false, ◌||◌, ◌==◌, ◌≡◌, refl, arith, bit, digit, one_bit_field,
  two_bit_field, if◌then◌else◌,
}
use otorisc_v.Privilege.{PrivilegeLevel, user, supervisor, machine, from_u8, as_u8, le_priv}
use otorisc_v.Cpu.{Cpu}
use otorisc_v.Trap.{
  Trap, handle_trap, enter_s, enter_m, enter_m_status, enter_s_status, is_delegated, mret, sret,
}
use otorisc_v.Trap.Causes.{is_delegated-bit}
use otorisc_v.Trap.Status.{bit-enter_s_status, bit-enter_m_status, bit-mret, bit-sret}

pub from_u8-as_u8 :
    (p : PrivilegeLevel) → from_u8 (digit (bit (as_u8 p) 0) + 2 * digit (bit (as_u8 p) 1)) ≡ p
unfolding from_u8 bit
from_u8-as_u8 user = refl
from_u8-as_u8 supervisor = refl
from_u8-as_u8 machine = refl

mret-enter_m :
    (cpu : Cpu) (t : Trap) (k : ℕ)
    → k < 32
    → let resumed = mret (enter_m cpu t) in
      (resumed.pc ≡ cpu.pc)
      × (resumed.priv_level ≡ cpu.priv_level)
      × (bit resumed.csr.mstatus k ≡ (
          if 7 == k then true else if (11 == k) || (12 == k) then false else bit cpu.csr.mstatus k))
mret-enter_m cpu t k hk =
    let mstatus = cpu.csr.mstatus in
    let p = cpu.priv_level in
    (
      unfold mret enter_m in refl,
      unfold mret enter_m in
          rw
            (
              two_bit_field 11 (enter_m_status mstatus p),
              bit-enter_m_status mstatus p 11 (omega arith),
              bit-enter_m_status mstatus p 12 (omega arith),
            )
            (from_u8-as_u8 p),
      unfold enter_m in
          ground (
            arith,
            bit-mret (enter_m cpu t) k hk,
            bit-enter_m_status mstatus p k hk,
            bit-enter_m_status mstatus p 7 (omega arith),
          ),
    )

-- `mret` after a trap to machine mode resumes at the interrupted instruction with the interrupted
-- privilege, and gives back every bit of mstatus, MIE included, but the previous-state fields:
-- MPIE is then set and MPP clear.
pub mret-handle_trap :
    (cpu : Cpu) (t : Trap) (k : ℕ)
    → k < 32
    → is_delegated cpu t ≡ false
    → let resumed = mret (handle_trap cpu t) in
      (resumed.pc ≡ cpu.pc)
      × (resumed.priv_level ≡ cpu.priv_level)
      × (bit resumed.csr.mstatus k ≡ (
          if 7 == k then true else if (11 == k) || (12 == k) then false else bit cpu.csr.mstatus k))
unfolding handle_trap
mret-handle_trap cpu t k hk d = rw (d, handle_trap) (mret-enter_m cpu t k hk)

sret-enter_s :
    (cpu : Cpu) (t : Trap) (k : ℕ)
    → k < 32
    → le_priv cpu.priv_level supervisor ≡ true
    → let resumed = sret (enter_s cpu t) in
      (resumed.pc ≡ cpu.pc)
      × (resumed.priv_level ≡ cpu.priv_level)
      × (bit resumed.csr.mstatus k
          ≡ (if 5 == k then true else if 8 == k then false else bit cpu.csr.mstatus k))
sret-enter_s cpu t k hk le =
    let mstatus = cpu.csr.mstatus in
    let p = cpu.priv_level in
    (
      unfold sret enter_s in refl,
      unfold sret enter_s in
          ground (
            arith,
            one_bit_field 8 (enter_s_status mstatus p),
            bit-enter_s_status mstatus p 8 (omega arith),
          ),
      unfold enter_s in
          ground (
            arith,
            bit-sret (enter_s cpu t) k hk,
            bit-enter_s_status mstatus p k hk,
            bit-enter_s_status mstatus p 5 (omega arith),
          ),
    )

-- `sret` after a trap that was delegated resumes at the interrupted instruction with the
-- interrupted privilege, and gives back every bit of mstatus, SIE included, but the previous-state
-- fields: SPIE is then set and SPP clear.
sret-handle_trap :
    (cpu : Cpu) (t : Trap) (k : ℕ)
    → k < 32
    → is_delegated cpu t ≡ true
    → let resumed = sret (handle_trap cpu t) in
      (resumed.pc ≡ cpu.pc)
      × (resumed.priv_level ≡ cpu.priv_level)
      × (bit resumed.csr.mstatus k
          ≡ (if 5 == k then true else if 8 == k then false else bit cpu.csr.mstatus k))
unfolding handle_trap
sret-handle_trap cpu t k hk d =
    rw (d, handle_trap) (sret-enter_s cpu t k hk (ground (arith, is_delegated-bit cpu t)))
