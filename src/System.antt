-- ===== src/System.antt =====
-- The system: a hart, memory and devices (`System`, src/system.rs). The bus is in System/Bus, the
-- interrupt lines in System/Interrupts, the calls of the supervisor in System/Sbi, the loading of a
-- kernel in System/Boot, execution in System/Run.
pub mod Bus
pub mod State
pub mod Interrupts
pub mod Sbi
pub mod Boot
pub mod Run
pub mod Cycles
pub mod Outputs
pub mod Fresh
pub mod Ram
pub mod Bounds
use otorisc_v.Base.{
  ℕ, zero, suc, ◌+◌, ◌%◌, Bool, false, ◌==◌, ◌||◌, ltb, leb, add32, if◌then◌else◌, List, [], ◌∷◌,
  Result, ok, err,
}
use otorisc_v.Cpu
use otorisc_v.Jit
use otorisc_v.Memory
use otorisc_v.Memory.{Device, LoadError, dram_base}
use otorisc_v.Memory.Rom.{init_boot_rom}
use otorisc_v.Devices.Clint
use otorisc_v.Devices.Uart
use otorisc_v.Devices.Plic
use otorisc_v.Devices.Virtio9p
use otorisc_v.Devices.Virtio9p.{Virtio9p, P9}
use State.{System, uart_irq}

-- The error of `new`: the size in MB that was asked for.
pub data SizeError : Type 0 where
  invalid_ram_size : ℕ → SizeError

-- The 9P device with its file system is built outside.
unfoldable pub new : {D F : Type 0} → ℕ → Virtio9p F → Result SizeError (System D F)
new ram_size_mb virtio9p =
    if (ram_size_mb == 0) || ltb 2048 ram_size_mb
    then err (invalid_ram_size ram_size_mb)
    else ok (record {
      cpu = Cpu.new;
      bus = record {
        memory = init_boot_rom (Memory.new ram_size_mb);
        uart = Uart.new uart_irq;
        clint = Clint.new;
        plic = Plic.new;
        virtio9p = virtio9p;
      };
      block_cache = Jit.new;
      use_jit_v2 = false;
    })

module _ {D F : Type 0} where
  unfoldable pub with_memory :
      System D F → Result LoadError (Memory.Memory D) → Result LoadError (System D F)
  with_memory sys (ok m) = ok (record sys { bus = record (sys.bus) { memory = m } })
  with_memory sys (err e) = err e

  unfoldable pub load_binary : System D F → List ℕ → ℕ → Result LoadError (System D F)
  unfolding with_memory
  load_binary sys data' addr = with_memory sys (Memory.load_binary sys.bus.memory data' addr)

  unfoldable pub uart_receive : System D F → ℕ → System D F
  uart_receive sys c = record sys {
    bus = record (sys.bus) { uart = Uart.receive_char sys.bus.uart c };
  }

  unfoldable pub uart_get_output : System D F → List ℕ × System D F
  uart_get_output sys =
      let (output, uart) = Uart.get_output sys.bus.uart in
      (output, record sys { bus = record (sys.bus) { uart = uart } })

  -- The bytes at `size` addresses from `addr` on.
  unfoldable pub read_memory : Device D → System D F → ℕ → ℕ → List ℕ
  read_memory device sys addr zero = []
  read_memory device sys addr (suc size) =
      (if leb dram_base addr then Memory.read8 device sys.bus.memory addr else 0)
      ∷ read_memory device sys (add32 addr 1) size

  unfoldable pub reset : Device D → P9 F D → System D F → System D F
  reset device p9 sys = record sys {
    cpu = Cpu.reset sys.cpu;
    bus = record {
      memory = Memory.reset device sys.bus.memory;
      uart = Uart.reset sys.bus.uart;
      clint = Clint.reset sys.bus.clint;
      plic = Plic.reset sys.bus.plic;
      virtio9p = Virtio9p.reset p9 sys.bus.virtio9p;
    };
  }
