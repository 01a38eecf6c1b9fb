-- ===== src/System/Sbi/Timer.antt =====
-- About the calls that set the timer (`handle_sbi_call`, src/system.rs).
use otorisc_v.Base.{
  ℕ, ◌+◌, ◌*◌, ◌<◌, ◌≡◌, refl, ap, arith, ◌⊎◌, inl, inr, false, ◌==◌, leb, bit, bit-bit_and,
  bit-not32, bit-pow, two32,
}
use otorisc_v.Csr
use otorisc_v.Cpu.{read_reg, write_reg}
use otorisc_v.Devices.Clint
use otorisc_v.Devices.Clint.{Clint, with_low, with_high}
use otorisc_v.Devices.Clint.Registers.{with_low_halves, with_high_halves}
use otorisc_v.System.State.{System}
use otorisc_v.System.Sbi.{serve, resume, handle_sbi_call, set_timer, ext_time, success}

both_halves :
    (c : Clint) (lo hi : ℕ)
    → lo < two32
    → c.mtimecmp < 18446744073709551616
    → with_high (with_low c.mtimecmp lo) hi ≡ hi * two32 + lo
both_halves c lo hi hlo hc =
    let l = with_low_halves c.mtimecmp lo hc hlo in
    let h = with_high_halves (with_low c.mtimecmp lo) hi in omega (arith, l.0, h.0, h.1)

module _ {D F : Type 0} where
  -- What a system looks like after its timer was set by a call.
  pub record IsTimed (sys sys' : System D F) (time : ℕ) : Type 0 where
    pub compare : sys'.bus.clint.mtimecmp ≡ time
    pub raised : sys'.bus.clint.timer_interrupt ≡ leb time sys.bus.clint.mtime
    pub cleared : bit sys'.cpu.csr.mip 5 ≡ false
    pub others :
        (k : ℕ) → k < 32 → (k == 5) ≡ false → bit sys'.cpu.csr.mip k ≡ bit sys.cpu.csr.mip k
    pub result : (read_reg sys'.cpu 10 ≡ success) × (read_reg sys'.cpu 11 ≡ 0)

  set_timer-IsTimed :
      (sys : System D F) (a0 a1 : ℕ)
      → a0 < two32
      → sys.bus.clint.mtimecmp < 18446744073709551616
      → IsTimed sys (resume ((success, 0), set_timer sys a0 a1)) (a1 * two32 + a0)
  unfolding set_timer Csr.clear_interrupt_pending Clint.write32 write_reg read_reg
  set_timer-IsTimed sys a0 a1 h hc =
      let e = both_halves sys.bus.clint a0 a1 h hc in
      record {
        compare = e;
        raised = ap (λ t. leb t sys.bus.clint.mtime) e;
        cleared =
            ground (arith, bit-bit_and 5 sys.cpu.csr.mip 4294967263, bit-not32 5 32, bit-pow 5 5);
        others = λ k lt ne.
            ground (arith, bit-bit_and k sys.cpu.csr.mip 4294967263, bit-not32 k 32, bit-pow 5 k);
        result = (refl, refl);
      }

  -- The legacy call and the timer extension's call, with a 64-bit time in a0 and a1: mtimecmp is
  -- that time, the timer interrupt is raised exactly when the time has come, the supervisor's timer
  -- bit of mip is cleared and no other bit of it changes, and the call reports success.
  pub handle_sbi_call-timer :
      (sys : System D F)
      → (read_reg sys.cpu 17 ≡ 0) ⊎ ((read_reg sys.cpu 17 ≡ ext_time) × (read_reg sys.cpu 16 ≡ 0))
      → read_reg sys.cpu 10 < two32
      → sys.bus.clint.mtimecmp < 18446744073709551616
      → IsTimed sys (handle_sbi_call sys) (read_reg sys.cpu 11 * two32 + read_reg sys.cpu 10)
  unfolding handle_sbi_call serve
  handle_sbi_call-timer sys (inl e) h hc =
      let k = set_timer-IsTimed sys (read_reg sys.cpu 10) (read_reg sys.cpu 11) h hc in rw e k
  handle_sbi_call-timer sys (inr (e, f)) h hc =
      let k = set_timer-IsTimed sys (read_reg sys.cpu 10) (read_reg sys.cpu 11) h hc in rw (e, f) k
