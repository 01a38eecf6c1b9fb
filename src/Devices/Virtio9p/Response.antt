-- ===== src/Devices/Virtio9p/Response.antt =====
-- About the bytes of a response in memory (`process_queue`, src/devices/virtio_9p/mod.rs).
use otorisc_v.Base.{
  ℕ, zero, suc, ◌+◌, ◌-◌, ◌/◌, ◌%◌, ◌^◌, ◌≤◌, ◌<◌, ◌≡◌, ◌∙◌, refl, ap, ap₂, arith, ◌&&◌, leb, ltb,
  if◌then◌else◌, add32, min, List, [], ◌∷◌, length, get_or, take, drop, length-drop, two31,
}
use otorisc_v.Memory
use otorisc_v.Memory.{Memory, Device, dram_base, in_ram, ram_write}
use otorisc_v.Memory.Bytes.{put_le_bytes, put_le_bytes-overlay, byte, put_byte}
use otorisc_v.Devices.Virtio.Queue.{Descriptor}
use otorisc_v.Devices.Virtio9p.Queues.{write_bytes, write_response}

-- The numbers of a list are bytes.
abbrev pub AllBytes : List ℕ → Type 0
AllBytes [] = Unit {0}
AllBytes (b ∷ l) = (b < 256) × AllBytes l

byte_zero : (i : ℕ) → byte 0 i ≡ 0
unfolding byte
byte_zero zero = refl
byte_zero (suc i) = byte_zero i

-- A byte has no higher bytes.
byte-high : (b i : ℕ) → b < 256 → byte b (suc i) ≡ 0
unfolding byte
byte-high b i h = let e : b / 256 ≡ 0 = omega arith in rw e (byte_zero i)

-- How many bytes fit into the buffers.
unfoldable pub capacity : List Descriptor → ℕ
capacity [] = 0
capacity (d ∷ ds) = d.len + capacity ds

-- The bytes of a list stored in RAM, then three zeros.
abbrev pub stored : (ℕ → ℕ) → ℕ → List ℕ → ℕ → ℕ
stored f o l j =
    if leb o j && ltb j (o + length l)
    then get_or l (j - o) 0
    else if leb (o + length l) j && ltb j (o + length l + 3)
    then 0
    else f j

module _ {D : Type 0} (device : Device D) where
  -- The bytes that are reported as written are as many as the response has or the buffers hold,
  -- whichever is less.
  pub write_response-min :
      (m : Memory D) (ds : List Descriptor) (response : List ℕ)
      → (write_response device m ds response).0 ≡ min (capacity ds) (length response)
  unfolding write_response capacity
  write_response-min m [] response = omega arith
  write_response-min m (d ∷ ds) [] = omega arith
  write_response-min m (d ∷ ds) (b ∷ bs) =
      let n = min d.len (length (b ∷ bs)) in
      let m' = write_bytes device m (d.addr % 2 ^ 32) (take n (b ∷ bs)) in
      omega (arith, write_response-min m' ds (drop n (b ∷ bs)), length-drop n (b ∷ bs))

  -- Memory with RAM at its base, and short enough for its own tests.
  pub record IsBased (m : Memory D) : Type 0 where
    pub base : m.ram_base ≡ dram_base
    pub below : m.ram_len < two31

  write32-ram :
      (m : Memory D) (addr v : ℕ)
      → IsBased m
      → dram_base ≤ addr
      → addr - dram_base + 4 ≤ m.ram_len
      → Memory.write32 device m addr v ≡ ram_write m (addr - dram_base) 4 v
  unfolding Memory.write32
  write32-ram m addr v h lo hi = ground (arith, h.base, h.below)

  write8-ram :
      (m : Memory D) (addr v : ℕ)
      → IsBased m
      → dram_base ≤ addr
      → addr - dram_base + 1 ≤ m.ram_len
      → Memory.write8 device m addr v ≡ record m { ram = put_byte m.ram (addr - dram_base) v }
  unfolding Memory.write8
  write8-ram m addr v h lo hi = ground (arith, h.base, h.below)

  -- A byte as the source writes it: a word, and the byte again.
  abbrev written : Memory D → ℕ → ℕ → Memory D
  written m addr b = record m {
    ram = put_byte (put_le_bytes m.ram (addr - dram_base) 4 b) (addr - dram_base) b;
  }

  write_one :
      (m : Memory D) (addr b : ℕ)
      → IsBased m
      → dram_base ≤ addr
      → addr - dram_base + 4 ≤ m.ram_len
      → Memory.write8 device (Memory.write32 device m addr b) addr b ≡ written m addr b
  write_one m addr b h lo hi =
      let m1 = ram_write m (addr - dram_base) 4 b in
      rw (write32-ram m addr b h lo hi)
        (write8-ram m1 addr b (record { base = h.base; below = h.below }) lo (omega arith))

  write_bytes-step :
      (m : Memory D) (addr b : ℕ) (l : List ℕ)
      → IsBased m
      → dram_base ≤ addr
      → addr - dram_base + 4 ≤ m.ram_len
      → write_bytes device m addr (b ∷ l) ≡ write_bytes device (written m addr b) (addr + 1) l
  unfolding write_bytes
  write_bytes-step m addr b l h lo hi =
      let e : add32 addr 1 ≡ addr + 1 = omega (arith, h.below) in
      ap₂ (λ (m' : Memory D) (a : ℕ). write_bytes device m' a l) (write_one m addr b h lo hi) e

  bridge :
      (f : ℕ → ℕ) (addr b c : ℕ) (l : List ℕ) (j : ℕ)
      → dram_base ≤ addr
      → b < 256
      → stored
          (put_byte (put_le_bytes f (addr - dram_base) 4 b) (addr - dram_base) b)
          (addr + 1 - dram_base)
          (c ∷ l)
          j
        ≡ stored f (addr - dram_base) (b ∷ c ∷ l) j
  bridge f addr b c l j lo hb =
      let o = addr - dram_base in
      let e : addr + 1 - dram_base ≡ o + 1 = omega arith in
      let g : o < j → j - o ≡ suc (j - (o + 1)) = λ p. omega arith in
      rw e (
        ground (
          arith,
          put_le_bytes-overlay f o 4 b j,
          byte-high b (j - o - 1),
          g,
          ap (λ (i : ℕ). get_or (b ∷ c ∷ l) i 0),
        ))

  -- A list that is not empty and lies in RAM, three bytes before its end at least, is stored in
  -- order; the three bytes behind it become zero, and the rest of RAM stays as it was.
  pub write_bytes-stored :
      (m : Memory D) (addr b : ℕ) (l : List ℕ) (j : ℕ)
      → IsBased m
      → dram_base ≤ addr
      → addr - dram_base + length l + 4 ≤ m.ram_len
      → AllBytes (b ∷ l)
      → (write_bytes device m addr (b ∷ l)).ram j ≡ stored m.ram (addr - dram_base) (b ∷ l) j
  unfolding write_bytes
  write_bytes-stored m addr b [] j h lo hi (hb, _) =
      let o = addr - dram_base in
      rw (write_one m addr b h lo (omega arith))
        (ground (arith, put_le_bytes-overlay m.ram o 4 b j, byte-high b (j - o - 1)))
  write_bytes-stored m addr b (c ∷ l) j h lo hi (hb, hl) =
      let o = addr - dram_base in
      let m1 = written m addr b in
      let first = write_bytes-step m addr b (c ∷ l) h lo (omega arith) in
      let k =
        write_bytes-stored m1 (addr + 1) c l j (record { base = h.base; below = h.below })
          (omega arith) (omega arith) hl in
      rw first (k ∙ bridge m.ram addr b c l j lo hb)
