-- ===== src/System/State.antt =====
-- The state of the system (`System`, src/system.rs). The state of the second compiler, which no
-- path of execution reads, is left out.
use otorisc_v.Base.{ℕ, Bool}
use otorisc_v.Cpu.{Cpu}
use otorisc_v.Jit.{BlockCache}
use otorisc_v.System.Bus.{SystemBus}

-- `bus` holds the fields memory, uart, clint, plic and virtio9p: `SystemBus` borrows them all for
-- each access.
pub record System (D F : Type 0) : Type 0 where
  pub cpu : Cpu
  pub bus : SystemBus D F
  pub block_cache : BlockCache
  pub use_jit_v2 : Bool

-- The line of the UART at the PLIC.
abbrev pub uart_irq : ℕ
uart_irq = 10
