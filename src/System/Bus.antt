-- ===== src/System/Bus.antt =====
-- The bus of the system (`SystemBus`, src/system.rs): RAM, the four devices and the rest of memory.
use otorisc_v.Base.{
  ℕ, ◌+◌, ◌-◌, ◌*◌, ◌/◌, ◌^◌, Bool, ◌&&◌, leb, ltb, bit_or, if◌then◌else◌, ◌>>>◌, ◌<<<◌, add32, u8,
  u32,
}
use otorisc_v.Bus.{Bus}
use otorisc_v.Memory
use otorisc_v.Memory.{Memory, Device, dram_base, ram_read, ram_write}
use otorisc_v.Devices.Clint
use otorisc_v.Devices.Clint.{Clint}
use otorisc_v.Devices.Uart
use otorisc_v.Devices.Uart.{Uart}
use otorisc_v.Devices.Plic
use otorisc_v.Devices.Plic.{Plic}
use otorisc_v.Devices.Virtio9p
use otorisc_v.Devices.Virtio9p.{Virtio9p}

-- `ram_size` of the source is the length of RAM, which no operation changes.
pub record SystemBus (D F : Type 0) : Type 0 where
  pub memory : Memory D
  pub uart : Uart
  pub clint : Clint
  pub plic : Plic
  pub virtio9p : Virtio9p F

abbrev pub clint_base : ℕ
clint_base = 0x02000000

abbrev pub uart_base : ℕ
uart_base = 0x03000000

abbrev pub plic_base : ℕ
plic_base = 0x04000000

abbrev pub virtio_base : ℕ
virtio_base = 0x20000000

abbrev pub is_clint : ℕ → Bool
is_clint addr = leb clint_base addr && ltb addr (clint_base + 0x10000)

abbrev pub is_uart : ℕ → Bool
is_uart addr = leb uart_base addr && ltb addr (uart_base + 0x1000)

abbrev pub is_plic : ℕ → Bool
is_plic addr = leb plic_base addr && ltb addr (plic_base + 0x4000000)

abbrev pub is_virtio : ℕ → Bool
is_virtio addr = leb virtio_base addr && ltb addr (virtio_base + 0x1000)

module _ {D F : Type 0} where
  -- `ram_offset` gives an offset, and `last` further bytes fit behind it: the accesses to RAM that
  -- the source makes without a check of its own.
  abbrev pub in_ram : SystemBus D F → ℕ → ℕ → Bool
  in_ram b addr last = leb dram_base addr && ltb (addr - dram_base + last) b.memory.ram_len

  abbrev pub ram_load : SystemBus D F → ℕ → ℕ → ℕ
  ram_load b addr n = ram_read b.memory (addr - dram_base) n

  abbrev pub ram_store : SystemBus D F → ℕ → ℕ → ℕ → SystemBus D F
  ram_store b addr n value = record b { memory = ram_write b.memory (addr - dram_base) n value }

  abbrev pub with_uart : SystemBus D F → ℕ × Uart → ℕ × SystemBus D F
  with_uart b (v, uart) = (v, record b { uart = uart })

  abbrev pub with_plic : SystemBus D F → ℕ × Plic → ℕ × SystemBus D F
  with_plic b (v, plic) = (v, record b { plic = plic })

  -- Two readings in sequence, joined.
  abbrev pub join :
      (ℕ → ℕ → ℕ)
      → (SystemBus D F → ℕ → ℕ × SystemBus D F)
      → SystemBus D F
      → ℕ
      → ℕ
      → ℕ × SystemBus D F
  join f read b addr addr' =
      let (lo, b1) = read b addr in let (hi, b2) = read b1 addr' in (f lo hi, b2)

module _ {D F : Type 0} (device : Device D) where
  unfoldable pub read8 : SystemBus D F → ℕ → ℕ × SystemBus D F
  read8 b addr =
      if in_ram b addr 0
      then (ram_load b addr 1, b)
      else if is_clint addr
      then (Clint.read8 b.clint (addr - clint_base), b)
      else if is_uart addr
      then with_uart b (Uart.read8 b.uart (addr - uart_base))
      else if is_plic addr
      then with_plic b (Plic.read8 b.plic (addr - plic_base))
      else if is_virtio addr
      then (Virtio9p.read8 b.virtio9p (addr - virtio_base), b)
      else (Memory.read8 device b.memory addr, b)

  unfoldable pub write8 : SystemBus D F → ℕ → ℕ → SystemBus D F
  write8 b addr value =
      if in_ram b addr 0
      then ram_store b addr 1 value
      else if is_clint addr
      then record b { clint = Clint.write8 b.clint (addr - clint_base) value }
      else if is_uart addr
      then record b { uart = Uart.write8 b.uart (addr - uart_base) value }
      else if is_plic addr
      then record b { plic = Plic.write8 b.plic (addr - plic_base) value }
      else if is_virtio addr
      then record b { virtio9p = Virtio9p.write8 b.virtio9p (addr - virtio_base) value }
      else record b { memory = Memory.write8 device b.memory addr value }

  unfoldable pub read16 : SystemBus D F → ℕ → ℕ × SystemBus D F
  unfolding read8
  read16 b addr =
      if in_ram b addr 1
      then (ram_load b addr 2, b)
      else join (λ lo hi. bit_or lo (hi <<< 8)) read8 b addr (add32 addr 1)

  unfoldable pub write16 : SystemBus D F → ℕ → ℕ → SystemBus D F
  unfolding write8
  write16 b addr value =
      if in_ram b addr 1
      then ram_store b addr 2 value
      else write8 (write8 b addr (u8 value)) (add32 addr 1) (u8 (value >>> 8))

  unfoldable pub read32 : SystemBus D F → ℕ → ℕ × SystemBus D F
  read32 b addr =
      if in_ram b addr 3
      then (ram_load b addr 4, b)
      else if is_clint addr
      then (Clint.read32 b.clint (addr - clint_base), b)
      else if is_uart addr
      then with_uart b (Uart.read32 b.uart (addr - uart_base))
      else if is_plic addr
      then with_plic b (Plic.read32 b.plic (addr - plic_base))
      else if is_virtio addr
      then (Virtio9p.read32 b.virtio9p (addr - virtio_base), b)
      else (Memory.read32 device b.memory addr, b)

  unfoldable pub write32 : SystemBus D F → ℕ → ℕ → SystemBus D F
  write32 b addr value =
      if in_ram b addr 3
      then ram_store b addr 4 value
      else if is_clint addr
      then record b { clint = Clint.write32 b.clint (addr - clint_base) value }
      else if is_uart addr
      then record b { uart = Uart.write32 b.uart (addr - uart_base) value }
      else if is_plic addr
      then record b { plic = Plic.write32 b.plic (addr - plic_base) value }
      else if is_virtio addr
      then record b { virtio9p = Virtio9p.write32 b.virtio9p (addr - virtio_base) value }
      else record b { memory = Memory.write32 device b.memory addr value }

  unfoldable pub read64 : SystemBus D F → ℕ → ℕ × SystemBus D F
  unfolding read32
  read64 b addr =
      if in_ram b addr 7
      then (ram_load b addr 8, b)
      else if is_clint addr
      then (
        bit_or (Clint.read32 b.clint (addr - clint_base))
            (Clint.read32 b.clint (addr - clint_base + 4) * 2 ^ 32),
        b,
      )
      else join (λ lo hi. bit_or lo (hi * 2 ^ 32)) read32 b addr (add32 addr 4)

  unfoldable pub write64 : SystemBus D F → ℕ → ℕ → SystemBus D F
  unfolding write32
  write64 b addr value =
      if in_ram b addr 7
      then ram_store b addr 8 value
      else if is_clint addr
      then record b {
        clint =
            Clint.write32 (Clint.write32 b.clint (addr - clint_base) (u32 value))
              (addr - clint_base + 4) (value / 2 ^ 32);
      }
      else write32 (write32 b addr (u32 value)) (add32 addr 4) (value / 2 ^ 32)

  unfoldable pub system_bus : Bus (SystemBus D F)
  system_bus = record {
    read8 = read8;
    write8 = write8;
    read16 = read16;
    write16 = write16;
    read32 = read32;
    write32 = write32;
    read64 = read64;
    write64 = write64;
  }
