-- ===== src/Devices/Virtio9p/Queues.antt =====
-- The requests in the queues of the 9P device (`process_queues`, `process_queue`,
-- src/devices/virtio_9p/mod.rs).
use otorisc_v.Base.{
  ℕ, zero, suc, ◌+◌, ◌*◌, ◌%◌, ◌^◌, Bool, true, false, not, ◌==◌, ltb, leb, bit_and, min, u16,
  add32, if◌then◌else◌, Option, none, some, List, [], ◌∷◌, ◌++◌, length, get_elem?, get_or, set,
  take, drop,
}
use otorisc_v.Memory
use otorisc_v.Memory.{Memory, Device}
use otorisc_v.Devices.Virtio
use otorisc_v.Devices.Virtio.Queue
use otorisc_v.Devices.Virtio.Queue.{
  Descriptor, Virtqueue, read_desc, push_used, desc_f_next, desc_f_write,
}
use otorisc_v.Devices.Virtio9p.{Virtio9p, P9}

pub record SuspendedRequest : Type 0 where
  pub queue_idx : ℕ
  pub head_idx : ℕ
  pub output_descriptors : List Descriptor
  pub tag : ℕ
  pub input_buffer : List ℕ

-- The messages and the file system behind them, which are not modelled: the answer to a request,
-- if there is one now, and the list of requests that wait.
pub record Messages (F : Type 0) : Type 0 where
  pub process_message : F → List ℕ → Option (List ℕ) × F
  pub suspend : F → SuspendedRequest → F

-- `sort_unstable` and `dedup`: insertion into a list without repetitions, in ascending order.
unfoldable pub insert_queue : ℕ → List ℕ → List ℕ
insert_queue q [] = q ∷ []
insert_queue q (x ∷ xs) =
    let later = x ∷ insert_queue q xs in
    if ltb q x then q ∷ x ∷ xs else if q == x then x ∷ xs else later

unfoldable pub sort_dedup : List ℕ → List ℕ
unfolding insert_queue
sort_dedup [] = []
sort_dedup (q ∷ qs) = insert_queue q (sort_dedup qs)

-- The tag of a request that waits.
abbrev pub request_tag : List ℕ → ℕ
request_tag input =
    if leb 7 (length input) then get_or input 5 0 + 256 * get_or input 6 0 else 0xFFFF

module _ {D : Type 0} (device : Device D) where
  -- `len` bytes from an address on.
  unfoldable pub read_bytes : Memory D → ℕ → ℕ → List ℕ
  read_bytes m addr zero = []
  read_bytes m addr (suc len) = Memory.read8 device m addr ∷ read_bytes m (add32 addr 1) len

  abbrev pub and_input :
      List ℕ → Option (List ℕ × List Descriptor) → Option (List ℕ × List Descriptor)
  and_input bytes none = none
  and_input bytes (some (input, output)) = some (bytes ++ input, output)

  abbrev pub and_output :
      Descriptor → Option (List ℕ × List Descriptor) → Option (List ℕ × List Descriptor)
  and_output d none = none
  and_output d (some (input, output)) = some (input, d ∷ output)

  -- The chain of descriptors from one on: the bytes to read and the buffers to write, for a number
  -- of descriptors; `none` means that the chain is longer. The source follows it without a bound.
  unfoldable pub gather : ℕ → Virtqueue → Memory D → ℕ → Option (List ℕ × List Descriptor)
  unfolding read_bytes
  gather zero q m idx = none
  gather (suc fuel) q m idx =
      let d = read_desc device q m idx in
      let rest : Option (List ℕ × List Descriptor) =
        if bit_and d.flags desc_f_next == 0 then some ([], []) else gather fuel q m d.next in
      if bit_and d.flags desc_f_write == 0
      then and_input (read_bytes m (d.addr % 2 ^ 32) d.len) rest
      else and_output d rest

  -- The loop that writes bytes into a buffer: each as a word and then as a byte.
  unfoldable pub write_bytes : Memory D → ℕ → List ℕ → Memory D
  write_bytes m addr [] = m
  write_bytes m addr (b ∷ bs) =
      write_bytes (Memory.write8 device (Memory.write32 device m addr b) addr b) (add32 addr 1) bs

  -- A response spread over the buffers: the bytes written, and memory.
  unfoldable pub write_response : Memory D → List Descriptor → List ℕ → ℕ × Memory D
  unfolding write_bytes
  write_response m [] response = (0, m)
  write_response m (d ∷ ds) response =
      let to_write = min d.len (length response) in
      let later =
        write_response (write_bytes m (d.addr % 2 ^ 32) (take to_write response)) ds
          (drop to_write response) in
      elim response [ [] ↦ (0, m) | b ∷ bs ↦ (to_write + later.0, later.1) ]

-- What a queue leaves: the device and memory; `none` means that the fuel ran out, or that the queue has
-- no size, by which the source divides.
abbrev pub Progress : Type 0 → Type 0 → Type 0
Progress F D = Option (Virtio9p F × Memory D)

module _ {F D : Type 0} (device : Device D) (messages : Messages F) where
  abbrev pub advance : Virtqueue → Virtqueue
  advance q = record q { last_avail_idx = u16 (q.last_avail_idx + 1) }

  abbrev pub with_queue : Virtio9p F → ℕ → Virtqueue → Virtio9p F
  with_queue v queue_idx q = record v {
    virtio = record (v.virtio) { queues = set v.virtio.queues queue_idx q };
  }

  -- A request in hand: the response written, or the request put aside.
  abbrev pub answer :
      ℕ
      → Virtqueue
      → ℕ
      → List ℕ
      → List Descriptor
      → Virtio9p F
      → Memory D
      → Option (List ℕ) × F
      → Bool × Virtio9p F × Memory D
  answer queue_idx q head input output v m (some response, fs) =
      let (bytes_written, m') = write_response device m output response in
      (true, record v { fs = fs }, push_used device q m' head bytes_written)
  answer queue_idx q head input output v m (none, fs) = (
    false,
    record v {
      fs = messages.suspend fs (record {
        queue_idx = queue_idx;
        head_idx = head;
        output_descriptors = output;
        tag = request_tag input;
        input_buffer = input;
      });
    },
    m,
  )

  abbrev pub respond :
      ℕ
      → Virtqueue
      → ℕ
      → Virtio9p F
      → Memory D
      → List ℕ × List Descriptor
      → Bool × Virtio9p F × Memory D
  respond queue_idx q head v m (input, output) =
      answer queue_idx q head input output v m (messages.process_message v.fs input)

  -- The end of the loop: an interrupt if a response was written.
  abbrev pub finish : Bool → Virtio9p F → Memory D → Progress F D
  finish processed_any v m =
      some
        (if processed_any then record v { virtio = Virtio.raise_interrupt v.virtio true } else v, m)

  -- The loop of `process_queue`, with fuel for its turns and for each chain. A queue that is not
  -- there or not ready ends it without an interrupt.
  unfoldable pub queue_loop : ℕ → ℕ → ℕ → Bool → Virtio9p F → Memory D → Progress F D
  unfolding gather write_response
  queue_loop zero chain queue_idx processed_any v m = none
  queue_loop (suc turns) chain queue_idx processed_any v m =
      elim (get_elem? v.virtio.queues queue_idx) [
        | none ↦ some (v, m)
        | some q ↦
            let head = Queue.get_avail_head device q m q.last_avail_idx in
            let q' = advance q in
            let v' = with_queue v queue_idx q' in
            if not q.ready
            then some (v, m)
            else if q.last_avail_idx == Queue.avail_idx device q m
            then finish processed_any v m
            else if q.num == 0
            then none
            else elim (gather device chain q' m head) [
              | none ↦ none
              | some buffers ↦
                  let (written, v1, m1) = respond queue_idx q' head v' m buffers in
                  queue_loop turns chain queue_idx (if written then true else processed_any) v1 m1
            ]
      ]

  unfoldable pub process_each :
      ℕ → ℕ → List ℕ → Virtio9p F → Memory D → Option (Virtio9p F × Memory D)
  unfolding queue_loop
  process_each turns chain [] v m = some (v, m)
  process_each turns chain (q ∷ qs) v m = elim (queue_loop turns chain q false v m) [
    | none ↦ none
    | some (v', m') ↦ process_each turns chain qs v' m'
  ]

  unfoldable pub process_queues : ℕ → ℕ → Virtio9p F → Memory D → Option (Virtio9p F × Memory D)
  unfolding process_each sort_dedup
  process_queues turns chain v m =
      process_each turns chain (sort_dedup v.virtio.queue_notify_pending)
        (record v { virtio = record (v.virtio) { queue_notify_pending = [] } }) m

  -- The handling as the main loop calls it, with the fuel for each queue and chain; what the fuel does
  -- not suffice for counts as a call that does not return.
  abbrev pub handler : ℕ → ℕ → (F → F) → P9 F D
  handler turns chain clear = record { process_queues = process_queues turns chain; clear = clear }
