-- ===== src/Devices/Virtio.antt =====
-- The registers of a VirtIO device (`VirtioMmio`, src/devices/virtio.rs); the queues' rings in
-- memory are in Virtio/Queue.
pub mod Queue
pub mod Lines
use otorisc_v.Base.{
  ℕ, zero, suc, ◌+◌, ◌-◌, ◌*◌, ◌/◌, ◌%◌, ◌^◌, Bool, true, false, ◌&&◌, ◌==◌, ◌!=◌, leb, ltb,
  bit_and, bit_or, not32, if◌then◌else◌, ◌>>>◌, u8, u32, Option, none, some, List, [], ◌∷◌, ◌++◌,
  map, length, get_elem?, get_or, set,
}
use otorisc_v.Memory.Bytes.{from_le_bytes}
use Queue.{Virtqueue}

pub record VirtioMmio : Type 0 where
  pub device_id : ℕ
  pub vendor_id : ℕ
  pub device_features : ℕ  -- u64
  pub driver_features : ℕ  -- u64
  pub device_features_sel : ℕ
  pub driver_features_sel : ℕ
  pub queue_sel : ℕ
  pub queues : List Virtqueue
  pub interrupt_status : ℕ
  pub status : ℕ
  pub config : List ℕ  -- u8
  pub config_generation : ℕ
  pub interrupt_pending : Bool
  pub queue_notify_pending : List ℕ

unfoldable pub replicate_queues : ℕ → List Virtqueue
replicate_queues zero = []
replicate_queues (suc n) = Queue.new 256 ∷ replicate_queues n

unfoldable pub new : ℕ → ℕ → List ℕ → VirtioMmio
unfolding replicate_queues
new device_id num_queues config = record {
  device_id = device_id;
  vendor_id = 0x554D4551;
  device_features = 0;
  driver_features = 0;
  device_features_sel = 0;
  driver_features_sel = 0;
  queue_sel = 0;
  queues = replicate_queues num_queues;
  interrupt_status = 0;
  status = 0;
  config = config;
  config_generation = 0;
  interrupt_pending = false;
  queue_notify_pending = [];
}

-- What a register of the selected queue reads as; 0 if there is no such queue.
abbrev pub of_queue : (Virtqueue → ℕ) → Option Virtqueue → ℕ
of_queue f none = 0
of_queue f (some q) = f q

abbrev pub selected : VirtioMmio → Option Virtqueue
selected v = get_elem? v.queues v.queue_sel

abbrev pub config_base : ℕ
config_base = 0x100

-- The configuration bytes as an array; `config_word` is only read within its length.
abbrev pub config_word : VirtioMmio → ℕ → ℕ
config_word v config_offset =
    if leb (config_offset + 4) (length v.config)
    then from_le_bytes (λ i. get_or v.config i 0) config_offset 4
    else 0

unfoldable pub read32 : VirtioMmio → ℕ → ℕ
read32 v offset =
    if offset == 0x000
    then 0x74726976
    else if offset == 0x004
    then 2
    else if offset == 0x008
    then v.device_id
    else if offset == 0x00c
    then v.vendor_id
    else if offset == 0x010
    then if v.device_features_sel == 0
      then u32 v.device_features
      else u32 (v.device_features / 2 ^ 32)
    else if offset == 0x034
    then of_queue (λ q. q.num_max) (selected v)
    else if offset == 0x044
    then of_queue (λ q. if q.ready then 1 else 0) (selected v)
    else if offset == 0x060
    then v.interrupt_status
    else if offset == 0x070
    then v.status
    else if offset == 0x0fc
    then v.config_generation
    else if leb config_base offset
    then config_word v (offset - config_base)
    else 0

-- The low and the high half of a u64 replaced.
abbrev pub with_low : ℕ → ℕ → ℕ
with_low x value = bit_or (bit_and x 0xFFFFFFFF00000000) value

abbrev pub with_high : ℕ → ℕ → ℕ
with_high x value = bit_or (bit_and x 0xFFFFFFFF) (value * 2 ^ 32)

-- `if let Some(q) = self.queues.get_mut(self.queue_sel as usize)`.
abbrev pub on_selected : VirtioMmio → (Virtqueue → Virtqueue) → VirtioMmio
on_selected v f = elim (selected v) [
  | none ↦ v
  | some q ↦ record v { queues = set v.queues v.queue_sel (f q) }
]

unfoldable pub reset : VirtioMmio → VirtioMmio
reset v = record v {
  driver_features = 0;
  device_features_sel = 0;
  driver_features_sel = 0;
  queue_sel = 0;
  interrupt_status = 0;
  status = 0;
  queues = map Queue.reset v.queues;
  interrupt_pending = false;
  queue_notify_pending = [];
}

unfoldable pub acknowledge : VirtioMmio → ℕ → VirtioMmio
acknowledge v value =
    let status = bit_and v.interrupt_status (not32 value) in
    record v {
      interrupt_status = status;
      interrupt_pending = if status == 0 then false else v.interrupt_pending;
    }

unfoldable pub write_driver_features : VirtioMmio → ℕ → VirtioMmio
write_driver_features v value =
    if v.driver_features_sel == 0
    then record v { driver_features = with_low v.driver_features value }
    else record v { driver_features = with_high v.driver_features value }

unfoldable pub write32 : VirtioMmio → ℕ → ℕ → VirtioMmio
unfolding acknowledge write_driver_features reset
write32 v offset value =
    if offset == 0x014
    then record v { device_features_sel = value }
    else if offset == 0x020
    then write_driver_features v value
    else if offset == 0x024
    then record v { driver_features_sel = value }
    else if offset == 0x030
    then record v { queue_sel = value }
    else if offset == 0x038
    then on_selected v (λ q. record q { num = value })
    else if offset == 0x044
    then on_selected v (λ q. record q { ready = value != 0 })
    else if offset == 0x050
    then record v { queue_notify_pending = v.queue_notify_pending ++ (value ∷ []) }
    else if offset == 0x080
    then on_selected v (λ q. record q { desc_addr = with_low q.desc_addr value })
    else if offset == 0x084
    then on_selected v (λ q. record q { desc_addr = with_high q.desc_addr value })
    else if offset == 0x090
    then on_selected v (λ q. record q { avail_addr = with_low q.avail_addr value })
    else if offset == 0x094
    then on_selected v (λ q. record q { avail_addr = with_high q.avail_addr value })
    else if offset == 0x0a0
    then on_selected v (λ q. record q { used_addr = with_low q.used_addr value })
    else if offset == 0x0a4
    then on_selected v (λ q. record q { used_addr = with_high q.used_addr value })
    else if offset == 0x064
    then acknowledge v value
    else if offset == 0x070
    then if value == 0 then reset v else record v { status = value }
    else v

-- A byte of the configuration, or of the word that holds the offset.
unfoldable pub read8 : VirtioMmio → ℕ → ℕ
unfolding read32
read8 v offset =
    if leb config_base offset && ltb (offset - config_base) (length v.config)
    then get_or v.config (offset - config_base) 0
    else u8 (read32 v (bit_and offset (not32 3)) >>> (bit_and offset 3 * 8))

unfoldable pub write8 : VirtioMmio → ℕ → ℕ → VirtioMmio
write8 v offset value =
    if leb config_base offset && ltb (offset - config_base) (length v.config)
    then record v {
      config = set v.config (offset - config_base) value;
      config_generation = u32 (v.config_generation + 1);
    }
    else v

unfoldable pub raise_interrupt : VirtioMmio → Bool → VirtioMmio
raise_interrupt v ring_update = record v {
  interrupt_status = bit_or v.interrupt_status (if ring_update then 1 else 2);
  interrupt_pending = true;
}
