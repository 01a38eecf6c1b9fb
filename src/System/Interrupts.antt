-- ===== src/System/Interrupts.antt =====
-- How the outputs of the devices reach mip (`update_interrupts`, src/system.rs).
pub mod Lines
use otorisc_v.Base.{ℕ, Bool, if◌then◌else◌}
use otorisc_v.Csr
use otorisc_v.Csr.{Csr}
use otorisc_v.Csr.Mip
use otorisc_v.Cpu.{Cpu}
use otorisc_v.Devices.Uart
use otorisc_v.Devices.Plic
use otorisc_v.System.Bus.{SystemBus}
use otorisc_v.System.State.{System, uart_irq}

-- `if line { set_interrupt_pending(bits) } else { clear_interrupt_pending(bits) }`.
abbrev pub drive : Bool → ℕ → Csr → Csr
drive line bits csr =
    if line then Csr.set_interrupt_pending csr bits else Csr.clear_interrupt_pending csr bits

module _ {D F : Type 0} where
  -- UART to PLIC.
  abbrev pub uart_to_plic : SystemBus D F → SystemBus D F
  uart_to_plic b = record b {
    plic =
        if Uart.has_interrupt b.uart
        then Plic.raise_interrupt b.plic uart_irq
        else Plic.clear_interrupt b.plic uart_irq;
  }

  unfoldable pub update_interrupts : System D F → System D F
  update_interrupts sys =
      let timer = sys.bus.clint.timer_interrupt in
      let csr1 = drive timer Mip.stip (drive timer Mip.mtip sys.cpu.csr) in
      let csr2 = drive sys.bus.clint.software_interrupt Mip.msip csr1 in
      let bus = uart_to_plic sys.bus in
      let csr3 = drive bus.plic.m_external_interrupt Mip.meip csr2 in
      let csr4 = drive bus.plic.s_external_interrupt Mip.seip csr3 in
      record sys { cpu = record (sys.cpu) { csr = csr4 }; bus = bus }
