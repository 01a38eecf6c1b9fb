-- ===== src/Mmu/Tlb.antt =====
-- About a filled entry of the translation buffer (src/cpu/rv32/mmu.rs).
use otorisc_v.Base.{
  ℕ, ◌+◌, ◌<◌, Bool, true, false, xor, ◌&&◌, ◌≡◌, ◌≢◌, refl, arith, bit_and, bit_xor, bit, bit_ext,
  bit-zero, bit-bit_and, bit-bit_xor, bit_and-lt, bit_xor-lt, if◌then◌else◌, two32, ok, u64, ◌>>>◌,
}
use otorisc_v.Privilege.{PrivilegeLevel, machine, is_priv}
use otorisc_v.Bus.{Bus}
use otorisc_v.Mmu.{Mmu, AccessType, fill_xor_tlb, is_hit, translate, same_access}

-- Two addresses agree on the bits of a mask.
abbrev pub AgreeOn : ℕ → ℕ → ℕ → Type 0
AgreeOn mask a b = (k : ℕ) → k < 32 → bit mask k ≡ true → bit a k ≡ bit b k

xor_self_masked : (a b m : Bool) → (m ≡ true → a ≡ b) → (xor a b && m) ≡ false
unfolding xor
xor_self_masked a b m h = ground arith

xor_twice : (p v w m : Bool) → (m ≡ true → v ≡ w) → xor (xor p v && m) w ≡ (if m then p else w)
unfolding xor
xor_twice p v w m h = ground arith

-- `(check ^ vaddr) & page_mask == 0` holds where the addresses agree on the mask.
pub check_zero :
    (v w mask : ℕ) → v < two32 → w < two32 → AgreeOn mask v w → bit_and (bit_xor v w) mask ≡ 0
check_zero v w mask hv hw h =
    bit_ext 32 (bit_and (bit_xor v w) mask) 0
      (bit_and-lt 32 (bit_xor v w) mask (bit_xor-lt 32 v w hv hw)) (omega arith)
      (λ k hk.
        rw (bit-bit_and k (bit_xor v w) mask, bit-bit_xor k v w, bit-zero k)
          (xor_self_masked (bit v k) (bit w k) (bit mask k) (h k hk)))

-- One XOR gives the page of the stored translation with the offset of the new address.
pub bit-lookup :
    (p v w mask k : ℕ)
    → k < 32
    → AgreeOn mask v w
    → bit (bit_xor (bit_and (bit_xor p v) mask) w) k ≡ (if bit mask k then bit p k else bit w k)
bit-lookup p v w mask k hk h =
    rw
      (
        bit-bit_xor k (bit_and (bit_xor p v) mask) w,
        bit-bit_and k (bit_xor p v) mask,
        bit-bit_xor k p v,
      )
      (xor_twice (bit p k) (bit v k) (bit w k) (bit mask k) (h k hk))

same_access_refl : (a : AccessType) → same_access a a ≡ true
same_access_refl AccessType.instruction = refl
same_access_refl AccessType.load = refl
same_access_refl AccessType.store = refl

module _ {S : Type 0} (bus : Bus S) (m : Mmu) (access : AccessType) (v p mask : ℕ) where
  abbrev filled : Mmu
  filled = fill_xor_tlb m access v p mask

  fill_xor_tlb-is_hit :
      (w : ℕ) → v < two32 → w < two32 → AgreeOn mask v w → is_hit bus filled w access ≡ true
  unfolding fill_xor_tlb
  fill_xor_tlb-is_hit w hv hw h =
      ground (arith, same_access_refl access, check_zero v w mask hv hw h)

  -- After a walk has filled the buffer with the pair of `v` and `p`, a translation of the same
  -- kind of any address `w` of the page answers without touching the bus, and each bit of the
  -- answer is that of `p` on the page mask and that of `w` below it. This holds at every
  -- privilege but machine mode, and for whatever permissions the page has.
  pub translate-fill_xor_tlb :
      (s : S) (w : ℕ) (priv : PrivilegeLevel) (satp mstatus k : ℕ)
      → v < two32
      → w < two32
      → AgreeOn mask v w
      → is_priv priv machine ≡ false
      → (satp >>> 31) ≢ 0
      → k < 32
      → (q : ℕ) × (translate bus filled s w access priv satp mstatus
          ≡ (ok q, record filled { tlb_hits = u64 (m.tlb_hits + 1) }, s))
        × (bit q k ≡ (if bit mask k then bit p k else bit w k))
  unfolding translate fill_xor_tlb
  translate-fill_xor_tlb s w priv satp mstatus k hv hw h np on hk = (
    bit_xor (bit_and (bit_xor p v) mask) w,
    ground (arith, fill_xor_tlb-is_hit w hv hw h),
    bit-lookup p v w mask k hk h,
  )
