-- ===== src/Rv64/Mmu/Reuse.antt =====
-- About the entry that a walk leaves in the translation buffer and the lookup that finds it
-- (src/cpu/rv64/mmu.rs).
use otorisc_v.Base.{
  ℕ, ◌+◌, ◌*◌, ◌/◌, ◌%◌, ◌^◌, ◌<◌, ◌≡◌, sym, arith, bit_and_mask, if◌then◌else◌, some, none, ok,
}
use otorisc_v.Privilege.{PrivilegeLevel}
use otorisc_v.Bus.{Bus}
use otorisc_v.Mmu.{AccessType}
use otorisc_v.Mmu.Walk.{allowed}
use otorisc_v.Rv64.Mmu.{Mmu64, leaf, filled, fill_tlb, perm_of, lookup_from}
use otorisc_v.Rv64.Mmu.Walk.{page_number, page_or, aligned_mask}
use otorisc_v.Rv64.Mmu.Permissions.{tlb_match-fill_tlb}

module _ {S : Type 0} (bus : Bus S) (access : AccessType) (priv : PrivilegeLevel)
    (mstatus v : ℕ) where
  -- The buffer after an entry that maps a page, where the page is aligned.
  abbrev Filled : Mmu64 → ℕ → ℕ → Mmu64 → Type 0
  Filled m level pte m' =
      (m' ≡ fill_tlb m (v / 2 ^ (12 + level * 9)) (page_number pte) (perm_of pte) (12 + level * 9))
      × (page_number pte % 2 ^ (9 * level) ≡ 0)

  leaf-Filled :
      (m : Mmu64) (s : S) (level a pte paddr : ℕ)
      → level < 5
      → (leaf bus m s level a pte v access priv mstatus).0 ≡ ok paddr
      → Filled m level pte (leaf bus m s level a pte v access priv mstatus).1
  unfolding leaf
  leaf-Filled m s level a pte paddr hl h = (
    ground (arith, bit_and_mask 44 (pte / 1024)),
    ground (arith, bit_and_mask 44 (pte / 1024), aligned_mask level (page_number pte) hl),
  )

  -- Once the walk has answered with the page of an entry, the step of the buffer's lookup at that
  -- level answers any address of the page, for every access that the entry allows, at whatever
  -- privilege and status the lookup is made, with the page and the offset of the address, and no
  -- other access.
  pub lookup_from-leaf :
      (m : Mmu64) (s : S) (level a pte paddr w : ℕ) (access' : AccessType) (priv' : PrivilegeLevel)
      (mstatus' : ℕ)
      → level < 5
      → (leaf bus m s level a pte v access priv mstatus).0 ≡ ok paddr
      → w / 2 ^ (12 + level * 9) ≡ v / 2 ^ (12 + level * 9)
      → lookup_from
          (leaf bus m s level a pte v access priv mstatus).1
          w
          access'
          priv'
          mstatus'
          1
          level
        ≡ (if allowed pte access' priv' mstatus'
            then some (page_number pte * 4096 + w % 2 ^ (12 + level * 9))
            else none)
  unfolding lookup_from
  lookup_from-leaf m s level a pte paddr w access' priv' mstatus' hl h same =
      let (filled, aligned) = leaf-Filled m s level a pte paddr hl h in
      rw (filled, sym same)
        (ground (
          arith,
          tlb_match-fill_tlb m pte (page_number pte) (12 + level * 9) w access' priv' mstatus',
          page_or level (page_number pte) w hl (omega arith) aligned,
        ))
