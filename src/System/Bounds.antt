-- ===== src/System/Bounds.antt =====
-- About what a write through the system's bus can reach (`impl Bus for SystemBus`, src/system.rs).
use otorisc_v.Base.{
  ℕ, ◌+◌, ◌-◌, ◌/◌, ◌^◌, ◌≤◌, ◌<◌, ◌≡◌, arith, true, inr, two32, add32, u8, u32, ◌>>>◌,
  if◌then◌else◌, on_if,
}
use otorisc_v.Memory.{Device, dram_base, ram_write}
use otorisc_v.Memory.Bounds.{
  IsPlaced, IsKept, IsKept-refl, IsKept-trans, IsKept-IsPlaced, ram_write-IsKept, write8-IsKept,
  write32-IsKept,
}
use otorisc_v.System.Bus.{
  SystemBus, in_ram, is_clint, is_uart, is_plic, is_virtio, write8, write16, write32, write64,
}
use otorisc_v.System.Ram.{Width, byte, half, word, double, bytes, write}

module _ {D F : Type 0} where
  -- A store that passes the test of the bus.
  store-IsKept :
      (b : SystemBus D F) (a last v i : ℕ)
      → in_ram b a last ≡ true
      → b.memory.ram_len ≤ i
      → IsKept b.memory (ram_write b.memory (a - dram_base) (last + 1) v) i
  store-IsKept b a last v i e h =
      ram_write-IsKept b.memory (a - dram_base) (last + 1) v i (inr (ground arith))

module _ {D F : Type 0} (device : Device D) where
  -- The memory of the second bus is that of the first but for RAM below its length.
  abbrev Keeps : SystemBus D F → ℕ → SystemBus D F → Type 0
  Keeps b i b' = IsKept b.memory b'.memory i

  -- An access to a device of the system leaves memory alone.
  at_devices :
      (b : SystemBus D F) (a i : ℕ) (b1 b2 b3 b4 b5 : SystemBus D F)
      → Keeps b i b1
      → Keeps b i b2
      → Keeps b i b3
      → Keeps b i b4
      → Keeps b i b5
      → Keeps b i (
          if is_clint a
          then b1
          else if is_uart a
          then b2
          else if is_plic a
          then b3
          else if is_virtio a
          then b4
          else b5)
  at_devices b a i b1 b2 b3 b4 b5 h1 h2 h3 h4 h5 =
      on_if (Keeps b i) (is_clint a) (λ _. h1)
        λ _.
          on_if (Keeps b i) (is_uart a) (λ _. h2)
            λ _.
              on_if (Keeps b i) (is_plic a) (λ _. h3)
                λ _. on_if (Keeps b i) (is_virtio a) (λ _. h4) λ _. h5

  write8-kept :
      (b : SystemBus D F) (a v i : ℕ)
      → IsPlaced b.memory
      → a < two32
      → b.memory.ram_len ≤ i
      → Keeps b i (write8 device b a v)
  unfolding write8
  write8-kept b a v i p h hi =
      let same = IsKept-refl b.memory i in
      on_if (Keeps b i) (in_ram b a 0) (λ e. store-IsKept b a 0 v i e hi)
        (λ _.
          at_devices b a i _ _ _ _ _ same same same same
            (write8-IsKept device b.memory a v i p h hi))

  write32-kept :
      (b : SystemBus D F) (a v i : ℕ)
      → IsPlaced b.memory
      → a + 3 < two32
      → b.memory.ram_len ≤ i
      → Keeps b i (write32 device b a v)
  unfolding write32
  write32-kept b a v i p h hi =
      let same = IsKept-refl b.memory i in
      on_if (Keeps b i) (in_ram b a 3) (λ e. store-IsKept b a 3 v i e hi)
        (λ _.
          at_devices b a i _ _ _ _ _ same same same same
            (write32-IsKept device b.memory a v i p h hi))

  write16-kept :
      (b : SystemBus D F) (a v i : ℕ)
      → IsPlaced b.memory
      → a + 1 < two32
      → b.memory.ram_len ≤ i
      → Keeps b i (write16 device b a v)
  unfolding write16
  write16-kept b a v i p h hi =
      let b1 = write8 device b a (u8 v) in
      let k = write8-kept b a (u8 v) i p (omega arith) hi in
      on_if (Keeps b i) (in_ram b a 1) (λ e. store-IsKept b a 1 v i e hi)
        λ _.
          IsKept-trans b.memory b1.memory (write8 device b1 (add32 a 1) (u8 (v >>> 8))).memory i k (
            write8-kept b1 (add32 a 1) (u8 (v >>> 8)) i (IsKept-IsPlaced b.memory b1.memory i k p)
              (omega arith) (omega (arith, k.same_len, hi)))

  write64-kept :
      (b : SystemBus D F) (a v i : ℕ)
      → IsPlaced b.memory
      → a + 7 < two32
      → b.memory.ram_len ≤ i
      → Keeps b i (write64 device b a v)
  unfolding write64
  write64-kept b a v i p h hi =
      let b1 = write32 device b a (u32 v) in
      let k = write32-kept b a (u32 v) i p (omega arith) hi in
      on_if (Keeps b i) (in_ram b a 7) (λ e. store-IsKept b a 7 v i e hi)
        λ _.
          on_if (Keeps b i) (is_clint a) (λ _. IsKept-refl b.memory i)
            λ _.
              IsKept-trans b.memory b1.memory (write32 device b1 (add32 a 4) (v / 2 ^ 32)).memory i
                k
                (write32-kept b1 (add32 a 4) (v / 2 ^ 32) i
                  (IsKept-IsPlaced b.memory b1.memory i k p) (omega arith)
                  (omega (arith, k.same_len, hi)))

  -- A write of any width, at any address from which it does not wrap around the address space,
  -- leaves the boot ROM, the place and length of RAM, and every byte behind the end of RAM as they
  -- were, given that RAM begins at its base and is at most 2 GB long.
  pub write-IsKept :
      (w : Width) (b : SystemBus D F) (a v i : ℕ)
      → IsPlaced b.memory
      → a + bytes w ≤ two32
      → b.memory.ram_len ≤ i
      → IsKept b.memory (write device w b a v).memory i
  write-IsKept byte b a v i p h hi = write8-kept b a v i p (omega arith) hi
  write-IsKept half b a v i p h hi = write16-kept b a v i p (omega arith) hi
  write-IsKept word b a v i p h hi = write32-kept b a v i p (omega arith) hi
  write-IsKept double b a v i p h hi = write64-kept b a v i p (omega arith) hi
