-- ===== src/Memory/Bounds.antt =====
-- About the part of RAM that a write can reach (src/memory/mod.rs).
use otorisc_v.Base.{
  ℕ, ◌+◌, ◌-◌, ◌/◌, ◌^◌, ◌≤◌, ◌<◌, ◌≡◌, refl, ◌∙◌, arith, true, Bool-cases, Option-cases, inl, inr,
  two31, two32, add32, u8, u32, ◌>>>◌, ◌⊎◌,
}
use otorisc_v.Memory.{
  Memory, Device, dram_base, in_ram, find_device, ram_write, write8, write16, write32, write64,
}
use otorisc_v.Memory.Bytes.{put_le_bytes-overlay}

-- RAM begins where the bus has it, and ends within the address space.
pub record IsPlaced {D : Type 0} (m : Memory D) : Type 0 where
  pub at_base : m.ram_base ≡ dram_base
  pub fits : m.ram_len ≤ two31

-- Byte `i` of RAM, the ROM and the place of RAM are as they were.
pub record IsKept {D : Type 0} (m m' : Memory D) (i : ℕ) : Type 0 where
  pub same_byte : m'.ram i ≡ m.ram i
  pub same_rom : m'.rom ≡ m.rom
  pub same_len : m'.ram_len ≡ m.ram_len
  pub same_base : m'.ram_base ≡ m.ram_base

module _ {D : Type 0} where
  pub IsKept-refl : (m : Memory D) (i : ℕ) → IsKept m m i
  IsKept-refl m i = record { same_byte = refl; same_rom = refl; same_len = refl; same_base = refl }

  pub IsKept-trans : (m m1 m2 : Memory D) (i : ℕ) → IsKept m m1 i → IsKept m1 m2 i → IsKept m m2 i
  IsKept-trans m m1 m2 i h k = record {
    same_byte = k.same_byte ∙ h.same_byte;
    same_rom = k.same_rom ∙ h.same_rom;
    same_len = k.same_len ∙ h.same_len;
    same_base = k.same_base ∙ h.same_base;
  }

  pub IsKept-IsPlaced : (m m' : Memory D) (i : ℕ) → IsKept m m' i → IsPlaced m → IsPlaced m'
  IsKept-IsPlaced m m' i h p = record {
    at_base = h.same_base ∙ p.at_base;
    fits = omega (arith, h.same_len, p.fits);
  }

  pub ram_write-IsKept :
      (m : Memory D) (offset n v i : ℕ)
      → (i < offset) ⊎ (offset + n ≤ i)
      → IsKept m (ram_write m offset n v) i
  ram_write-IsKept m offset n v i h = record {
    same_byte = ground (arith, put_le_bytes-overlay m.ram offset n v i);
    same_rom = refl;
    same_len = refl;
    same_base = refl;
  }

  -- An access that passes the test lies within RAM.
  in_ram-lt :
      (m : Memory D) (addr last : ℕ)
      → IsPlaced m
      → addr + last < two32
      → in_ram m addr last ≡ true
      → addr - m.ram_base + last < m.ram_len
  in_ram-lt m addr last p ha h = ground (arith, p.at_base, p.fits)

module _ {D : Type 0} (device : Device D) where
  pub write8-IsKept :
      (m : Memory D) (addr v i : ℕ)
      → IsPlaced m
      → addr < two32
      → m.ram_len ≤ i
      → IsKept m (write8 device m addr v) i
  unfolding write8
  write8-IsKept m addr v i p ha hi = elim (Bool-cases (in_ram m addr 0)) [
    | inl e ↦
        let inside = in_ram-lt m addr 0 p (omega (arith, ha)) e in
        record {
          same_byte = ground arith;
          same_rom = ground arith;
          same_len = ground arith;
          same_base = ground arith;
        }
    | inr e ↦ record {
      same_byte = ground arith;
      same_rom = ground arith;
      same_len = ground arith;
      same_base = ground arith;
    }
  ]

  -- Two writes of one byte each, then four.
  write8_then :
      (m m1 : Memory D) (addr v i : ℕ)
      → IsPlaced m
      → addr < two32
      → m.ram_len ≤ i
      → IsKept m m1 i
      → IsKept m (write8 device m1 addr v) i
  write8_then m m1 addr v i p ha hi k =
      IsKept-trans m m1 (write8 device m1 addr v) i k
        (write8-IsKept m1 addr v i (IsKept-IsPlaced m m1 i k p) ha (omega (arith, k.same_len, hi)))

  pub write16-IsKept :
      (m : Memory D) (addr v i : ℕ)
      → IsPlaced m
      → addr + 1 < two32
      → m.ram_len ≤ i
      → IsKept m (write16 device m addr v) i
  unfolding write16
  write16-IsKept m addr v i p ha hi = elim (Bool-cases (in_ram m addr 1)) [
    | inl e ↦
        let inside = in_ram-lt m addr 1 p ha e in
        rw e (ram_write-IsKept m (addr - m.ram_base) 2 v i (inr (omega arith)))
    | inr e ↦ elim (Option-cases (find_device m addr)) [
      | inl f ↦
          rw (e, f)
            (write8_then m (write8 device m addr (u8 v)) (add32 addr 1) (u8 (v >>> 8)) i p
              (omega arith) hi (write8-IsKept m addr (u8 v) i p (omega arith) hi))
      | inr (x, f) ↦
          rw (e, f)
            (record { same_byte = refl; same_rom = refl; same_len = refl; same_base = refl })
    ]
  ]

  pub write32-IsKept :
      (m : Memory D) (addr v i : ℕ)
      → IsPlaced m
      → addr + 3 < two32
      → m.ram_len ≤ i
      → IsKept m (write32 device m addr v) i
  unfolding write32
  write32-IsKept m addr v i p ha hi = elim (Bool-cases (in_ram m addr 3)) [
    | inl e ↦
        let inside = in_ram-lt m addr 3 p ha e in
        rw e (ram_write-IsKept m (addr - m.ram_base) 4 v i (inr (omega arith)))
    | inr e ↦ elim (Option-cases (find_device m addr)) [
      | inl f ↦
          let m1 = write8 device m addr (u8 v) in
          let m2 = write8 device m1 (add32 addr 1) (u8 (v >>> 8)) in
          let m3 = write8 device m2 (add32 addr 2) (u8 (v >>> 16)) in
          let k1 = write8-IsKept m addr (u8 v) i p (omega arith) hi in
          let k2 = write8_then m m1 (add32 addr 1) (u8 (v >>> 8)) i p (omega arith) hi k1 in
          let k3 = write8_then m m2 (add32 addr 2) (u8 (v >>> 16)) i p (omega arith) hi k2 in
          rw (e, f) (write8_then m m3 (add32 addr 3) (u8 (v >>> 24)) i p (omega arith) hi k3)
      | inr (x, f) ↦
          rw (e, f)
            (record { same_byte = refl; same_rom = refl; same_len = refl; same_base = refl })
    ]
  ]

  pub write64-IsKept :
      (m : Memory D) (addr v i : ℕ)
      → IsPlaced m
      → addr + 7 < two32
      → m.ram_len ≤ i
      → IsKept m (write64 device m addr v) i
  unfolding write64
  write64-IsKept m addr v i p ha hi = elim (Bool-cases (in_ram m addr 7)) [
    | inl e ↦
        let inside = in_ram-lt m addr 7 p ha e in
        rw e (ram_write-IsKept m (addr - m.ram_base) 8 v i (inr (omega arith)))
    | inr e ↦
        let m1 = write32 device m addr (u32 v) in
        let k1 = write32-IsKept m addr (u32 v) i p (omega arith) hi in
        let k2 =
          write32-IsKept m1 (add32 addr 4) (v / 2 ^ 32) i (IsKept-IsPlaced m m1 i k1 p)
            (omega arith) (omega (arith, k1.same_len, hi)) in
        rw e (IsKept-trans m m1 (write32 device m1 (add32 addr 4) (v / 2 ^ 32)) i k1 k2)
  ]
