-- ===== src/System/Ram.antt =====
-- About RAM as a client of the system's bus sees it (`impl Bus for SystemBus`, src/system.rs).
use otorisc_v.Base.{ℕ, zero, suc, ◌+◌, ◌-◌, ◌≤◌, ◌≡◌, refl, ◌∙◌, ap₂, sym, arith, List, [], ◌∷◌}
use otorisc_v.Memory.{Device, dram_base}
use otorisc_v.Memory.Bytes.{from_le_bytes, overlay, put_le_bytes-overlay, from_le_bytes-ext}
use otorisc_v.System.Bus.{
  SystemBus, ram_store, read8, write8, read16, write16, read32, write32, read64, write64,
}

-- The widths of an access, and the accesses of a client.
pub data Width : Type 0 where
  byte half word double : Width

abbrev pub bytes : Width → ℕ
bytes byte = 1
bytes half = 2
bytes word = 4
bytes double = 8

pub data Access : Type 0 where
  load : Width → ℕ → Access
  store : Width → ℕ → ℕ → Access

-- All accesses lie within a RAM of a given length.
abbrev pub Within : ℕ → List Access → Type 0
Within len [] = Unit {0}
Within len (load w a ∷ l) = (dram_base ≤ a) × (a - dram_base + bytes w ≤ len) × Within len l
Within len (store w a v ∷ l) = (dram_base ≤ a) × (a - dram_base + bytes w ≤ len) × Within len l

-- What the accesses mean: an array of bytes by address. A load gives its number.
unfoldable pub run_bytes : (ℕ → ℕ) → List Access → List ℕ
run_bytes f [] = []
run_bytes f (load w a ∷ l) = from_le_bytes f a (bytes w) ∷ run_bytes f l
run_bytes f (store w a v ∷ l) = run_bytes (overlay f a (bytes w) v) l

-- The contents of RAM by address.
abbrev pub view : {D F : Type 0} → SystemBus D F → ℕ → ℕ
view b j = b.memory.ram (j - dram_base)

from_le_bytes-view :
    (f : ℕ → ℕ) (a n : ℕ)
    → dram_base ≤ a
    → from_le_bytes (λ j. f (j - dram_base)) a n ≡ from_le_bytes f (a - dram_base) n
unfolding from_le_bytes
from_le_bytes-view f a zero h = refl
from_le_bytes-view f a (suc n) h =
    let e : a + 1 - dram_base ≡ a - dram_base + 1 = omega arith in
    rw (from_le_bytes-view f (a + 1) n (omega arith), e)

module _ {D F : Type 0} (device : Device D) where
  abbrev pub read : Width → SystemBus D F → ℕ → ℕ × SystemBus D F
  read byte b a = read8 device b a
  read half b a = read16 device b a
  read word b a = read32 device b a
  read double b a = read64 device b a

  abbrev pub write : Width → SystemBus D F → ℕ → ℕ → SystemBus D F
  write byte b a v = write8 device b a v
  write half b a v = write16 device b a v
  write word b a v = write32 device b a v
  write double b a v = write64 device b a v

  unfoldable pub run_bus : SystemBus D F → List Access → List ℕ
  run_bus b [] = []
  run_bus b (load w a ∷ l) = let (x, b') = read w b a in x ∷ run_bus b' l
  run_bus b (store w a v ∷ l) = run_bus (write w b a v) l

  read-ram :
      (w : Width) (b : SystemBus D F) (a : ℕ)
      → dram_base ≤ a
      → a - dram_base + bytes w ≤ b.memory.ram_len
      → read w b a ≡ (from_le_bytes b.memory.ram (a - dram_base) (bytes w), b)
  unfolding read8 read16 read32 read64
  read-ram byte b a h k = ground arith
  read-ram half b a h k = ground arith
  read-ram word b a h k = ground arith
  read-ram double b a h k = ground arith

  write-ram :
      (w : Width) (b : SystemBus D F) (a v : ℕ)
      → dram_base ≤ a
      → a - dram_base + bytes w ≤ b.memory.ram_len
      → write w b a v ≡ ram_store b a (bytes w) v
  unfolding write8 write16 write32 write64
  write-ram byte b a v h k = ground arith
  write-ram half b a v h k = ground arith
  write-ram word b a v h k = ground arith
  write-ram double b a v h k = ground arith

  run_bus-view :
      (b : SystemBus D F) (f : ℕ → ℕ) (l : List Access)
      → Within b.memory.ram_len l
      → ((j : ℕ) → dram_base ≤ j → view b j ≡ f j)
      → run_bus b l ≡ run_bytes f l
  unfolding run_bus run_bytes
  run_bus-view b f [] h e = refl
  run_bus-view b f (load w a ∷ l) (lo, hi, rest) e =
      let same = from_le_bytes-ext (view b) f a (bytes w) (λ j p _. e j (omega arith)) in
      let at_eq = sym (from_le_bytes-view b.memory.ram a (bytes w) lo) ∙ same in
      rw (read-ram w b a lo hi) (ap₂ ◌∷◌ (at_eq) (run_bus-view b f l rest e))
  run_bus-view b f (store w a v ∷ l) (lo, hi, rest) e = rw (write-ram w b a v lo hi) (
      run_bus-view (ram_store b a (bytes w) v) (overlay f a (bytes w) v) l rest (λ j p. ground (
        arith,
        put_le_bytes-overlay b.memory.ram (a - dram_base) (bytes w) v (j - dram_base),
        e j p,
      )))

  -- A client that stays within RAM and loads and stores bytes, halves, words and doubles there in
  -- any order and at any alignment reads what it would from an array of bytes by address, lowest
  -- byte first, that begins as the contents of RAM.
  pub run_bus-run_bytes :
      (b : SystemBus D F) (l : List Access)
      → Within b.memory.ram_len l
      → run_bus b l ≡ run_bytes (view b) l
  run_bus-run_bytes b l h = run_bus-view b (view b) l h (λ j p. refl)
