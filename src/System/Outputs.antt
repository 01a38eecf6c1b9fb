-- ===== src/System/Outputs.antt =====
-- About the outputs of the devices behind the bus, whatever the hart does (src/system.rs).
pub mod Parts
pub mod Always
use otorisc_v.Base.{
  ℕ, ◌+◌, ◌-◌, ◌*◌, ◌/◌, ◌%◌, ◌^◌, ◌≡◌, refl, arith, Bool, true, false, ◌&&◌, if◌then◌else◌, on_if,
  add32, u8, u32, bit_or, ◌>>>◌, ◌<<<◌, leb, ltb,
}
use otorisc_v.Bus.{Bus}
use otorisc_v.Memory
use otorisc_v.Memory.{Device}
use otorisc_v.Devices.Clint
use otorisc_v.Devices.Clint.Timer
use otorisc_v.Devices.Uart
use otorisc_v.Devices.Uart.Lines as UartLines
use otorisc_v.Devices.Plic
use otorisc_v.Devices.Plic.Lines as PlicLines
use otorisc_v.Devices.Virtio9p
use otorisc_v.Execute.Stable.{Keeps}
use otorisc_v.System.Bus.{
  SystemBus, in_ram, is_clint, is_uart, is_plic, is_virtio, clint_base, uart_base, plic_base, read8,
  write8, read16, write16, read32, write32, read64, write64, system_bus, ram_load, ram_store,
}

-- The CLINT's interrupts follow its registers, the PLIC's two lines what it has to offer, and the
-- UART's receive flag its queue.
pub record IsCurrent {D F : Type 0} (b : SystemBus D F) : Type 0 where
  pub clint : Timer.IsValid b.clint
  pub plic : PlicLines.IsCurrent b.plic
  pub uart : UartLines.IsValid b.uart

module _ {D F : Type 0} (device : Device D) where
  with_clint :
      (b : SystemBus D F) (e : Timer.Event)
      → IsCurrent b
      → IsCurrent (record b { clint = Timer.step b.clint e })
  with_clint b e h = record {
    clint = Timer.step-IsValid b.clint e h.clint;
    plic = h.plic;
    uart = h.uart;
  }

  with_uart_lem :
      (b : SystemBus D F) (e : UartLines.Event)
      → IsCurrent b
      → IsCurrent (record b { uart = UartLines.step b.uart e })
  with_uart_lem b e h = record {
    clint = h.clint;
    plic = h.plic;
    uart = UartLines.step-IsValid b.uart e h.uart;
  }

  with_plic_lem :
      (b : SystemBus D F) (e : PlicLines.Event)
      → IsCurrent b
      → IsCurrent (record b { plic = PlicLines.step b.plic e })
  with_plic_lem b e h = record {
    clint = h.clint;
    plic = PlicLines.step-IsCurrent b.plic e h.plic;
    uart = h.uart;
  }

  elsewhere :
      (b b' : SystemBus D F)
      → b'.clint ≡ b.clint
      → b'.plic ≡ b.plic
      → b'.uart ≡ b.uart
      → IsCurrent b
      → IsCurrent b'
  elsewhere b b' e f g h = record { clint = rw e h.clint; plic = rw f h.plic; uart = rw g h.uart }

  abbrev Read : ℕ × SystemBus D F → Type 0
  Read r = IsCurrent r.1

  read8-IsCurrent : (b : SystemBus D F) (a : ℕ) → IsCurrent b → IsCurrent (read8 device b a).1
  unfolding read8
  read8-IsCurrent b a h =
      on_if Read (in_ram b a 0) (λ _. h)
        λ _.
          on_if Read (is_clint a) (λ _. h)
            λ _.
              on_if Read (is_uart a) (λ _. with_uart_lem b (UartLines.was_read (a - uart_base)) h)
                λ _.
                  on_if Read (is_plic a)
                    (λ _. with_plic_lem b (PlicLines.was_read8 (a - plic_base)) h)
                    λ _. on_if Read (is_virtio a) (λ _. h) λ _. h

  write8-IsCurrent : (b : SystemBus D F) (a v : ℕ) → IsCurrent b → IsCurrent (write8 device b a v)
  unfolding write8
  write8-IsCurrent b a v h =
      on_if IsCurrent (in_ram b a 0) (λ _. elsewhere b _ refl refl refl h)
        λ _.
          on_if IsCurrent (is_clint a) (λ _. with_clint b (Timer.wrote8 (a - clint_base) v) h)
            λ _.
              on_if IsCurrent (is_uart a)
                (λ _. with_uart_lem b (UartLines.wrote (a - uart_base) v) h)
                λ _.
                  on_if IsCurrent (is_plic a)
                    (λ _. with_plic_lem b (PlicLines.wrote8 (a - plic_base) v) h)
                    λ _.
                      on_if IsCurrent (is_virtio a) (λ _. elsewhere b _ refl refl refl h)
                        λ _. elsewhere b _ refl refl refl h

  read32-IsCurrent : (b : SystemBus D F) (a : ℕ) → IsCurrent b → IsCurrent (read32 device b a).1
  unfolding read32 Uart.read32
  read32-IsCurrent b a h =
      on_if Read (in_ram b a 3) (λ _. h)
        λ _.
          on_if Read (is_clint a) (λ _. h)
            λ _.
              on_if Read (is_uart a) (λ _. with_uart_lem b (UartLines.was_read (a - uart_base)) h)
                λ _.
                  on_if Read (is_plic a)
                    (λ _. with_plic_lem b (PlicLines.was_read32 (a - plic_base)) h)
                    λ _. on_if Read (is_virtio a) (λ _. h) λ _. h

  write32-IsCurrent : (b : SystemBus D F) (a v : ℕ) → IsCurrent b → IsCurrent (write32 device b a v)
  unfolding write32 Uart.write32
  write32-IsCurrent b a v h =
      on_if IsCurrent (in_ram b a 3) (λ _. elsewhere b _ refl refl refl h)
        λ _.
          on_if IsCurrent (is_clint a) (λ _. with_clint b (Timer.wrote32 (a - clint_base) v) h)
            λ _.
              on_if IsCurrent (is_uart a)
                (λ _. with_uart_lem b (UartLines.wrote (a - uart_base) (u8 v)) h)
                λ _.
                  on_if IsCurrent (is_plic a)
                    (λ _. with_plic_lem b (PlicLines.wrote32 (a - plic_base) v) h)
                    λ _.
                      on_if IsCurrent (is_virtio a) (λ _. elsewhere b _ refl refl refl h)
                        λ _. elsewhere b _ refl refl refl h

  read16-IsCurrent : (b : SystemBus D F) (a : ℕ) → IsCurrent b → IsCurrent (read16 device b a).1
  unfolding read16
  read16-IsCurrent b a h =
      on_if Read (in_ram b a 1) (λ _. h)
        λ _. read8-IsCurrent (read8 device b a).1 (add32 a 1) (read8-IsCurrent b a h)

  write16-IsCurrent : (b : SystemBus D F) (a v : ℕ) → IsCurrent b → IsCurrent (write16 device b a v)
  unfolding write16
  write16-IsCurrent b a v h =
      on_if IsCurrent (in_ram b a 1) (λ _. elsewhere b _ refl refl refl h)
        λ _.
          write8-IsCurrent (write8 device b a (u8 v)) (add32 a 1) (u8 (v >>> 8))
            (write8-IsCurrent b a (u8 v) h)

  -- Every access through the bus keeps the outputs current.
  pub system_bus-Keeps : Keeps IsCurrent (system_bus {D = D} {F = F} device)
  unfolding system_bus
  system_bus-Keeps = record {
    on_read8 = read8-IsCurrent;
    on_write8 = write8-IsCurrent;
    on_read16 = read16-IsCurrent;
    on_write16 = write16-IsCurrent;
    on_read32 = read32-IsCurrent;
    on_write32 = write32-IsCurrent;
  }
