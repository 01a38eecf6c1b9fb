-- ===== src/Memory.antt =====
-- RAM, boot ROM and mapped devices (`Memory`, src/memory/mod.rs).
pub mod Bytes
pub mod Rom
pub mod Bounds
use otorisc_v.Base.{
  ℕ, zero, suc, ◌+◌, ◌-◌, ◌*◌, ◌/◌, ◌%◌, ◌^◌, Bool, true, false, ◌&&◌, leb, ltb, bit_or,
  if◌then◌else◌, ◌>>>◌, ◌<<<◌, add32, u8, u16, u32, u64, Option, none, some, List, [], ◌∷◌, ◌++◌,
  map, length, get_elem?, set, Result, ok, err, two32,
}
use otorisc_v.Bus.{Bus}
use Bytes.{put_byte, from_le_bytes, put_le_bytes}

-- The trait `Device`; the repository has no implementation of it.
pub record Device (D : Type 0) : Type 0 where
  pub read8 : D → ℕ → ℕ
  pub write8 : D → ℕ → ℕ → D
  pub read16 : D → ℕ → ℕ
  pub write16 : D → ℕ → ℕ → D
  pub read32 : D → ℕ → ℕ
  pub write32 : D → ℕ → ℕ → D
  pub reset : D → D

-- The trait's default methods, from the two that move a byte.
module _ {D : Type 0} (read8 : D → ℕ → ℕ) (write8 : D → ℕ → ℕ → D) where
  unfoldable pub default_read16 : D → ℕ → ℕ
  default_read16 d offset = bit_or (read8 d offset) (read8 d (add32 offset 1) <<< 8)

  unfoldable pub default_write16 : D → ℕ → ℕ → D
  default_write16 d offset value =
      write8 (write8 d offset (u8 value)) (add32 offset 1) (u8 (value >>> 8))

  unfoldable pub default_read32 : D → ℕ → ℕ
  unfolding default_read16
  default_read32 d offset =
      bit_or (default_read16 d offset) (default_read16 d (add32 offset 2) <<< 16)

  unfoldable pub default_write32 : D → ℕ → ℕ → D
  unfolding default_write16
  default_write32 d offset value =
      default_write16 (default_write16 d offset (u16 value)) (add32 offset 2) (u16 (value >>> 16))

pub record DeviceMapping : Type 0 where
  pub base : ℕ
  pub size : ℕ
  pub device_idx : ℕ

-- An array of bytes is a function and its length. An index past the end, at which the source
-- stops with a panic, reads whatever the function holds there.
pub record Memory (D : Type 0) : Type 0 where
  pub ram : ℕ → ℕ
  pub ram_len : ℕ
  pub ram_base : ℕ
  pub rom : ℕ → ℕ
  pub mappings : List DeviceMapping
  pub devices : List D

abbrev pub dram_base : ℕ
dram_base = 0x80000000

abbrev pub rom_base : ℕ
rom_base = 0x1000

abbrev pub rom_size : ℕ
rom_size = 0x2000

unfoldable pub new : {D : Type 0} → ℕ → Memory D
new ram_size_mb = record {
  ram = λ _. 0;
  ram_len = ram_size_mb * 1024 * 1024;
  ram_base = dram_base;
  rom = λ _. 0;
  mappings = [];
  devices = [];
}

-- The first mapping that holds the address, with the offset in it.
unfoldable pub find_mapping : List DeviceMapping → ℕ → Option (ℕ × ℕ)
find_mapping [] addr = none
find_mapping (m ∷ rest) addr =
    let later = find_mapping rest addr in
    if leb m.base addr && ltb addr (add32 m.base m.size)
    then some (m.device_idx, addr - m.base)
    else later

-- `addr >= ROM_BASE && addr + last < ROM_BASE + ROM_SIZE`.
abbrev pub in_rom : ℕ → ℕ → Bool
in_rom addr last = leb rom_base addr && ltb (add32 addr last) (rom_base + rom_size)

module _ {D : Type 0} where
  unfoldable pub add_device : Memory D → D → ℕ → ℕ → Memory D
  add_device m device base size = record m {
    devices = m.devices ++ (device ∷ []);
    mappings =
        m.mappings ++ (record { base = base; size = size; device_idx = length m.devices } ∷ []);
  }

  -- The device that `find_device` finds, its index and the offset. An index past the end, at which
  -- the source panics, finds nothing: `add_device` makes none.
  unfoldable pub find_device : Memory D → ℕ → Option (D × ℕ × ℕ)
  unfolding find_mapping
  find_device m addr = elim (find_mapping m.mappings addr) [
    | none ↦ none
    | some (idx, offset) ↦ elim (get_elem? m.devices idx) [
      | none ↦ none
      | some d ↦ some (d, idx, offset)
    ]
  ]

  -- `addr >= ram_base && addr + last < ram_base + ram.len() as u32`, sums of u32.
  abbrev pub in_ram : Memory D → ℕ → ℕ → Bool
  in_ram m addr last =
      leb m.ram_base addr && ltb (add32 addr last) (add32 m.ram_base (u32 m.ram_len))

  abbrev pub put_device : Memory D → ℕ → D → Memory D
  put_device m idx d = record m { devices = set m.devices idx d }

  abbrev pub ram_read : Memory D → ℕ → ℕ → ℕ
  ram_read m offset n = from_le_bytes m.ram offset n

  abbrev pub ram_write : Memory D → ℕ → ℕ → ℕ → Memory D
  ram_write m offset n value = record m { ram = put_le_bytes m.ram offset n value }

module _ {D : Type 0} (device : Device D) where
  unfoldable pub read8 : Memory D → ℕ → ℕ
  unfolding find_device
  read8 m addr =
      if in_rom addr 0
      then m.rom (addr - rom_base)
      else if in_ram m addr 0
      then m.ram (addr - m.ram_base)
      else elim (find_device m addr) [ some (d, _, offset) ↦ device.read8 d offset | none ↦ 0 ]

  unfoldable pub write8 : Memory D → ℕ → ℕ → Memory D
  unfolding find_device
  write8 m addr value =
      if in_ram m addr 0
      then record m { ram = put_byte m.ram (addr - m.ram_base) value }
      else elim (find_device m addr) [
        | some (d, idx, offset) ↦ put_device m idx (device.write8 d offset value)
        | none ↦ m
      ]

  unfoldable pub read16 : Memory D → ℕ → ℕ
  unfolding find_device read8
  read16 m addr =
      if in_ram m addr 1 then ram_read m (addr - m.ram_base) 2 else elim (find_device m addr) [
        | some (d, _, offset) ↦ device.read16 d offset
        | none ↦ bit_or (read8 m addr) (read8 m (add32 addr 1) <<< 8)
      ]

  unfoldable pub write16 : Memory D → ℕ → ℕ → Memory D
  unfolding find_device write8
  write16 m addr value =
      if in_ram m addr 1
      then ram_write m (addr - m.ram_base) 2 value
      else elim (find_device m addr) [
        | some (d, idx, offset) ↦ put_device m idx (device.write16 d offset value)
        | none ↦ write8 (write8 m addr (u8 value)) (add32 addr 1) (u8 (value >>> 8))
      ]

  unfoldable pub read32 : Memory D → ℕ → ℕ
  unfolding find_device read8
  read32 m addr =
      if in_rom addr 3
      then from_le_bytes m.rom (addr - rom_base) 4
      else if in_ram m addr 3
      then ram_read m (addr - m.ram_base) 4
      else elim (find_device m addr) [
        | some (d, _, offset) ↦ device.read32 d offset
        | none ↦
            bit_or
              (bit_or (bit_or (read8 m addr) (read8 m (add32 addr 1) <<< 8))
                (read8 m (add32 addr 2) <<< 16))
              (read8 m (add32 addr 3) <<< 24)
      ]

  unfoldable pub write32 : Memory D → ℕ → ℕ → Memory D
  unfolding find_device write8
  write32 m addr value =
      if in_ram m addr 3
      then ram_write m (addr - m.ram_base) 4 value
      else elim (find_device m addr) [
        | some (d, idx, offset) ↦ put_device m idx (device.write32 d offset value)
        | none ↦
            let m1 = write8 m addr (u8 value) in
            let m2 = write8 m1 (add32 addr 1) (u8 (value >>> 8)) in
            let m3 = write8 m2 (add32 addr 2) (u8 (value >>> 16)) in
            write8 m3 (add32 addr 3) (u8 (value >>> 24))
      ]

  unfoldable pub read64 : Memory D → ℕ → ℕ
  unfolding read32
  read64 m addr =
      if in_ram m addr 7
      then ram_read m (addr - m.ram_base) 8
      else bit_or (read32 m addr) (read32 m (add32 addr 4) * 2 ^ 32)

  unfoldable pub write64 : Memory D → ℕ → ℕ → Memory D
  unfolding write32
  write64 m addr value =
      if in_ram m addr 7
      then ram_write m (addr - m.ram_base) 8 value
      else write32 (write32 m addr (u32 value)) (add32 addr 4) (value / 2 ^ 32)

  -- `impl Bus for Memory`; a read leaves memory as it is.
  unfoldable pub memory_bus : Bus (Memory D)
  memory_bus = record {
    read8 = λ m addr. (read8 m addr, m);
    write8 = write8;
    read16 = λ m addr. (read16 m addr, m);
    write16 = write16;
    read32 = λ m addr. (read32 m addr, m);
    write32 = write32;
    read64 = λ m addr. (read64 m addr, m);
    write64 = write64;
  }

  unfoldable pub reset : Memory D → Memory D
  reset m = record m { ram = λ _. 0; devices = map device.reset m.devices }

-- Why a load is refused; the source's error is a text.
pub data LoadError : Type 0 where
  below_ram_base binary_too_large : LoadError

-- The bytes of a list stored from an offset on.
unfoldable pub copy_from_slice : (ℕ → ℕ) → ℕ → List ℕ → ℕ → ℕ
copy_from_slice bytes offset [] = bytes
copy_from_slice bytes offset (b ∷ data') =
    copy_from_slice (put_byte bytes offset b) (offset + 1) data'

unfoldable pub load_binary : {D : Type 0} → Memory D → List ℕ → ℕ → Result LoadError (Memory D)
load_binary m data' addr =
    if ltb addr m.ram_base
    then err below_ram_base
    else if ltb m.ram_len (addr - m.ram_base + length data')
    then err binary_too_large
    else ok (record m { ram = copy_from_slice m.ram (addr - m.ram_base) data' })
