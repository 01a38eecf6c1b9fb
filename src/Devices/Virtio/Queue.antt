-- ===== src/Devices/Virtio/Queue.antt =====
-- A queue of a VirtIO device and its rings in memory (`Virtqueue`, src/devices/virtio.rs).
use otorisc_v.Base.{ℕ, ◌+◌, ◌*◌, ◌%◌, ◌^◌, Bool, false, bit_or, u16, u32, add32}
use otorisc_v.Memory
use otorisc_v.Memory.{Memory, Device}

pub record Descriptor : Type 0 where
  pub addr : ℕ  -- u64
  pub len : ℕ
  pub flags : ℕ  -- u16
  pub next : ℕ  -- u16

pub record Virtqueue : Type 0 where
  pub num_max : ℕ
  pub num : ℕ
  pub ready : Bool
  pub desc_addr : ℕ  -- u64
  pub avail_addr : ℕ  -- u64
  pub used_addr : ℕ  -- u64
  pub last_avail_idx : ℕ  -- u16

abbrev pub desc_f_next : ℕ
desc_f_next = 1

abbrev pub desc_f_write : ℕ
desc_f_write = 2

unfoldable pub new : ℕ → Virtqueue
new num_max = record {
  num_max = num_max;
  num = 0;
  ready = false;
  desc_addr = 0;
  avail_addr = 0;
  used_addr = 0;
  last_avail_idx = 0;
}

unfoldable pub reset : Virtqueue → Virtqueue
reset q = record q {
  num = 0;
  ready = false;
  desc_addr = 0;
  avail_addr = 0;
  used_addr = 0;
  last_avail_idx = 0;
}

-- Sums of u64, cast to u32: what is cut off does not reach the low 32 bits.
abbrev pub address : ℕ → ℕ → ℕ
address base offset = u32 (base + offset)

-- `idx % num` on u64: with `num` 0 the source stops with a panic, where this gives `idx`; the caller
-- takes no slot of such a queue.
abbrev pub ring_slot : Virtqueue → ℕ → ℕ
ring_slot q idx = idx % q.num

module _ {D : Type 0} (device : Device D) where
  unfoldable pub read_desc : Virtqueue → Memory D → ℕ → Descriptor
  read_desc q m idx =
      let a = address q.desc_addr (idx * 16) in
      record {
        addr = bit_or (Memory.read32 device m a) (Memory.read32 device m (add32 a 4) * 2 ^ 32);
        len = Memory.read32 device m (add32 a 8);
        flags = Memory.read16 device m (add32 a 12);
        next = Memory.read16 device m (add32 a 14);
      }

  unfoldable pub avail_idx : Virtqueue → Memory D → ℕ
  avail_idx q m = Memory.read16 device m (address q.avail_addr 2)

  unfoldable pub get_avail_head : Virtqueue → Memory D → ℕ → ℕ
  get_avail_head q m idx = Memory.read16 device m (address q.avail_addr (4 + ring_slot q idx * 2))

  unfoldable pub push_used : Virtqueue → Memory D → ℕ → ℕ → Memory D
  push_used q m desc_idx len =
      let idx_addr = address q.used_addr 2 in
      let idx = Memory.read16 device m idx_addr in
      let offset = 4 + ring_slot q idx * 8 in
      let m1 = Memory.write32 device m (address q.used_addr offset) desc_idx in
      let m2 = Memory.write32 device m1 (address q.used_addr (offset + 4)) len in
      Memory.write16 device m2 idx_addr (u16 (idx + 1))
