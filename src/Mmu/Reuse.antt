-- ===== src/Mmu/Reuse.antt =====
-- About a walk and the accesses that its buffer entry answers (src/cpu/rv32/mmu.rs).
use otorisc_v.Base.{
  ℕ, ◌+◌, ◌*◌, ◌/◌, ◌%◌, ◌<◌, true, false, not, ◌||◌, ◌≡◌, ◌≢◌, ◌⊎◌, inl, inr, refl, ap, ◌∙◌, ◌<<<◌,
  arith, bit_and, bit, bit-mod, if◌then◌else◌, two32, ok, u64, ◌>>>◌, all_below, all_below_sound,
  ltb,
}
use otorisc_v.Privilege.{PrivilegeLevel, machine, is_priv}
use otorisc_v.Bus.{Bus}
use otorisc_v.Mmu.{Mmu, AccessType, fill_xor_tlb, translate, translate_slow, megapage, level0}
use otorisc_v.Mmu.Tlb.{AgreeOn, translate-fill_xor_tlb}
use otorisc_v.Mmu.Walk.{megapage_address}

-- The bits from 12 to 21 belong to the offset of a megapage and to the number of a page.
mask_table : all_below 32 (λ k. not (bit 0xFFC00000 k) || bit 0xFFFFF000 k) ≡ true
unfolding all_below bit
mask_table = refl

offset_table : all_below 32 (λ k. bit 0xFFC00000 k || not (bit 0xFFFFF000 k) || ltb k 22) ≡ true
unfolding all_below bit
offset_table = refl

AgreeOn-megapage : (v w : ℕ) → AgreeOn 0xFFFFF000 v w → AgreeOn 0xFFC00000 v w
AgreeOn-megapage v w h k hk b = h k hk (
    ground
      (arith, all_below_sound 32 (λ k. not (bit 0xFFC00000 k) || bit 0xFFFFF000 k) k mask_table hk))

megapage_bit :
    (p v w k : ℕ)
    → k < 32
    → AgreeOn 0xFFFFF000 v w
    → p % 4194304 ≡ v % 4194304
    → (if bit 0xFFC00000 k then bit p k else bit w k)
      ≡ (if bit 0xFFFFF000 k then bit p k else bit w k)
megapage_bit p v w k hk h e = ground (
  arith,
  h k hk,
  ap (λ x. bit x k) e,
  bit-mod 22 k p,
  bit-mod 22 k v,
  all_below_sound 32 (λ k. bit 0xFFC00000 k || not (bit 0xFFFFF000 k) || ltb k 22) k offset_table
      hk,
  all_below_sound 32 (λ k. not (bit 0xFFC00000 k) || bit 0xFFFFF000 k) k mask_table hk,
)

module _ {S : Type 0} (bus : Bus S) where
  -- A walk that succeeds stores its pair with the mask of the page's size.
  translate_slow-fill :
      (m m' : Mmu) (s s' : S) (v p : ℕ) (access : AccessType) (priv : PrivilegeLevel)
      (satp mstatus : ℕ)
      → translate_slow bus m s v access priv satp mstatus ≡ (ok p, m', s')
      → (m' ≡ fill_xor_tlb m access v p 0xFFFFF000)
        ⊎ ((m' ≡ fill_xor_tlb m access v p 0xFFC00000) × (p % 4194304 ≡ v % 4194304))
  unfolding translate_slow megapage level0
  translate_slow-fill m m' s s' v p access priv satp mstatus h =
      let addr : ℕ = (bit_and satp 0x3FFFFF <<< 12) + bit_and (v >>> 22) 0x3FF * 4 in
      let pte : ℕ = (bus.read32 s addr).0 in
      ground (arith, megapage_address (bit_and (pte / 1048576) 0xFFF) v)

  -- After a walk has translated the word `v` to `p`, a later access of the same kind to any word
  -- `w` of the same 4 KiB page, at any privilege but machine mode and under any satp with paging
  -- on, is answered without touching the bus: by the page of `p` and the offset of `w`, bit by bit.
  pub translate-translate_slow :
      (m m' : Mmu) (s s' t : S) (v w p : ℕ) (access : AccessType) (priv priv' : PrivilegeLevel)
      (satp satp' mstatus mstatus' k : ℕ)
      → translate_slow bus m s v access priv satp mstatus ≡ (ok p, m', s')
      → v < two32
      → w < two32
      → AgreeOn 0xFFFFF000 v w
      → is_priv priv' machine ≡ false
      → (satp' >>> 31) ≢ 0
      → k < 32
      → (q : ℕ) × (translate bus m' t w access priv' satp' mstatus'
          ≡ (ok q, record m' { tlb_hits = u64 (m'.tlb_hits + 1) }, t))
        × (bit q k ≡ (if bit 0xFFFFF000 k then bit p k else bit w k))
  unfolding fill_xor_tlb
  translate-translate_slow m m' s s' t v w p access priv priv' satp satp' mstatus mstatus' k e hv hw
        h np on hk =
      elim (translate_slow-fill m m' s s' v p access priv satp mstatus e) [
        | inl f ↦ rw f (
            translate-fill_xor_tlb bus m access v p 0xFFFFF000 t w priv' satp' mstatus' k hv hw h np
              on hk)
        | inr f ↦
            let (q, a, b) =
              translate-fill_xor_tlb bus m access v p 0xFFC00000 t w priv' satp' mstatus' k hv hw
                (AgreeOn-megapage v w h) np on hk in
            (q, rw f.0 a, b ∙ megapage_bit p v w k hk h f.1)
      ]
