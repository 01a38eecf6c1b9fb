-- ===== src/System/Interrupts/Lines.antt =====
-- About the bits of mip after the outputs of the devices have reached it (src/system.rs).
use otorisc_v.Base.{
  ℕ, ◌-◌, ◌^◌, ◌<◌, ◌≡◌, arith, Bool, true, false, ◌==◌, if◌then◌else◌, bit, bit-bit_and,
  bit-bit_or, bit-not32, bit-pow, pow_lt,
}
use otorisc_v.Csr
use otorisc_v.Csr.{Csr}
use otorisc_v.Csr.Mip
use otorisc_v.System.State.{System}
use otorisc_v.System.Interrupts.{drive, uart_to_plic, update_interrupts}

bit-drive :
    (line : Bool) (j k : ℕ) (c : Csr)
    → j < 32
    → k < 32
    → bit (drive line (2 ^ j) c).mip k ≡ (if j == k then line else bit c.mip k)
unfolding Csr.set_interrupt_pending Csr.clear_interrupt_pending
bit-drive true j k c hj hk = ground (arith, bit-bit_or k c.mip (2 ^ j), bit-pow j k)
bit-drive false j k c hj hk = ground (
  arith,
  bit-bit_and k c.mip (4294967295 - 2 ^ j),
  bit-not32 k (2 ^ j),
  pow_lt 32 j hj,
  bit-pow j k,
)

module _ {D F : Type 0} where
  -- What each bit of mip shows: the lines of the machine, and software's bits.
  abbrev pub wired : System D F → ℕ → Bool
  wired sys k =
      let plic = (uart_to_plic sys.bus).plic in
      if k == 3
      then sys.bus.clint.software_interrupt
      else if k == 5
      then sys.bus.clint.timer_interrupt
      else if k == 7
      then sys.bus.clint.timer_interrupt
      else if k == 9
      then plic.s_external_interrupt
      else if k == 11
      then plic.m_external_interrupt
      else bit sys.cpu.csr.mip k

  -- After the update, the software bit of machine mode shows the CLINT's software interrupt, the
  -- timer bits of both modes its timer interrupt, the external bits the PLIC's two outputs with the
  -- UART's line brought up to date, and every other bit of mip is as it was.
  pub update_interrupts-wired :
      (sys : System D F) (k : ℕ) → k < 32 → bit (update_interrupts sys).cpu.csr.mip k ≡ wired sys k
  unfolding update_interrupts
  update_interrupts-wired sys k h =
      let timer = sys.bus.clint.timer_interrupt in
      let plic = (uart_to_plic sys.bus).plic in
      let c0 = sys.cpu.csr in
      let c1 = drive timer Mip.mtip c0 in
      let c2 = drive timer Mip.stip c1 in
      let c3 = drive sys.bus.clint.software_interrupt Mip.msip c2 in
      let c4 = drive plic.m_external_interrupt Mip.meip c3 in
      ground (
        arith,
        bit-drive plic.s_external_interrupt 9 k c4,
        bit-drive plic.m_external_interrupt 11 k c3,
        bit-drive sys.bus.clint.software_interrupt 3 k c2,
        bit-drive timer 5 k c1,
        bit-drive timer 7 k c0,
      )
