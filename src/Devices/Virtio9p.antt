-- ===== src/Devices/Virtio9p.antt =====
-- The 9P device as the bus and the system see it (`Virtio9p`, src/devices/virtio_9p/mod.rs): the
-- transport, and a state `F` for the file system, the open fids and the requests.
pub mod Queues
pub mod Response
use otorisc_v.Base.{ℕ, Option}
use otorisc_v.Memory.{Memory}
use otorisc_v.Devices.Virtio
use otorisc_v.Devices.Virtio.{VirtioMmio}

pub record Virtio9p (F : Type 0) : Type 0 where
  pub virtio : VirtioMmio
  pub fs : F

-- The handling of the queues as the main loop calls it, which Devices/Virtio9p/Queues fills; `none`
-- is a call that does not return: the source follows a chain of descriptors without a bound, and
-- divides by the size of a queue, which may be 0.
-- `clear` drops the fids and the requests.
pub record P9 (F D : Type 0) : Type 0 where
  pub process_queues : Virtio9p F → Memory D → Option (Virtio9p F × Memory D)
  pub clear : F → F

module _ {F : Type 0} where
  abbrev pub read8 : Virtio9p F → ℕ → ℕ
  read8 v offset = Virtio.read8 v.virtio offset

  abbrev pub write8 : Virtio9p F → ℕ → ℕ → Virtio9p F
  write8 v offset value = record v { virtio = Virtio.write8 v.virtio offset value }

  abbrev pub read32 : Virtio9p F → ℕ → ℕ
  read32 v offset = Virtio.read32 v.virtio offset

  abbrev pub write32 : Virtio9p F → ℕ → ℕ → Virtio9p F
  write32 v offset value = record v { virtio = Virtio.write32 v.virtio offset value }

-- The transport keeps its state.
abbrev pub reset : {F D : Type 0} → P9 F D → Virtio9p F → Virtio9p F
reset p9 v = record v { fs = p9.clear v.fs }
