-- ===== src/Rv64/Mmu/Walk.antt =====
-- About the page table walk (src/cpu/rv64/mmu.rs) and a lookup in tables of several levels written
-- without the bus, the buffer or masks.
use otorisc_v.Base.{
  ℕ, zero, suc, ◌+◌, ◌-◌, ◌*◌, ◌/◌, ◌%◌, ◌^◌, ◌<◌, true, false, not, ◌&&◌, ◌||◌, ◌==◌, ◌≡◌, ◌⊎◌,
  arith, bit_and, bit_or, bit, ltb, bit_and_mask, one_bit_field, bit_or_fields, if◌then◌else◌,
  Result, ok, err,
}
use otorisc_v.Privilege.{PrivilegeLevel}
use otorisc_v.Bus.{Bus}
use otorisc_v.Mmu.{AccessType}
use otorisc_v.Mmu.Walk.{allowed, check_permissions-allowed, bit_zero}
use otorisc_v.Rv64.Mmu.{Mmu64, page_fault_cause, update_ad_bits, write_pte, read_pte, leaf, walk}

-- The entry of a table that translates `v` at a level, and the page number in an entry.
abbrev pub entry_address : ℕ → ℕ → ℕ → ℕ
entry_address level table v = table + v / 2 ^ (12 + level * 9) % 512 * 8

abbrev pub page_number : ℕ → ℕ
page_number pte = pte / 1024 % 17592186044416

-- What an entry that maps a page gives.
abbrev pub page : AccessType → PrivilegeLevel → ℕ → ℕ → ℕ → ℕ → Result ℕ ℕ
page access priv mstatus v level pte =
    if allowed pte access priv mstatus && (page_number pte % 2 ^ (9 * level) == 0)
    then ok (page_number pte * 4096 + v % 2 ^ (12 + level * 9))
    else err (page_fault_cause access)

-- The translation of an address: the tables in `mem`, each with 512 entries of eight bytes. As in the
-- code, and not in the architecture, a table outside the 32-bit address space is a load page fault
-- whatever the access is, an entry with W alone is a pointer, and SUM extends to fetches.
module _ (mem : ℕ → ℕ) (access : AccessType) (priv : PrivilegeLevel) (mstatus v : ℕ) where
  unfoldable pub lookup : ℕ → ℕ → Result ℕ ℕ
  lookup zero table =
      let addr = entry_address 0 table v in
      let pte = mem addr in
      if ltb 0xFFFFFFFF addr
      then err 13
      else if bit pte 0 && (bit pte 1 || bit pte 3)
      then page access priv mstatus v 0 pte
      else err (page_fault_cause access)
  lookup (suc level) table =
      let addr = entry_address (suc level) table v in
      let pte = mem addr in
      let below = lookup level (page_number pte * 4096) in
      if ltb 0xFFFFFFFF addr
      then err 13
      else if not (bit pte 0)
      then err (page_fault_cause access)
      else if bit pte 1 || bit pte 3
      then page access priv mstatus v (suc level) pte
      else below

-- The lowest bits of the address below an aligned page number.
pub page_or :
    (level ppn v : ℕ)
    → level < 5
    → ppn < 17592186044416
    → ppn % 2 ^ (9 * level) ≡ 0
    → bit_or
        (ppn * 2 ^ 12 % 18446744073709551616)
        (bit_and v (1 * 2 ^ (12 + level * 9) % 18446744073709551616 - 1))
      ≡ ppn * 4096 + v % 2 ^ (12 + level * 9)
page_or zero ppn v h small aligned =
    let e : ppn * 2 ^ 12 % 18446744073709551616 ≡ ppn * 2 ^ 12 = omega arith in
    rw (e, bit_and_mask 12 v) (bit_or_fields 12 ppn (v % 4096) (omega arith))
page_or (suc zero) ppn v h small aligned =
    let e : ppn * 2 ^ 12 % 18446744073709551616 ≡ ppn / 512 * 2 ^ 21 = omega arith in
    rw (e, bit_and_mask 21 v, bit_or_fields 21 (ppn / 512) (v % 2 ^ 21) (omega arith)) (omega arith)
page_or (suc (suc zero)) ppn v h small aligned =
    let e : ppn * 2 ^ 12 % 18446744073709551616 ≡ ppn / 2 ^ 18 * 2 ^ 30 = omega arith in
    rw (e, bit_and_mask 30 v, bit_or_fields 30 (ppn / 2 ^ 18) (v % 2 ^ 30) (omega arith))
      (omega arith)
page_or (suc (suc (suc zero))) ppn v h small aligned =
    let e : ppn * 2 ^ 12 % 18446744073709551616 ≡ ppn / 2 ^ 27 * 2 ^ 39 = omega arith in
    rw (e, bit_and_mask 39 v, bit_or_fields 39 (ppn / 2 ^ 27) (v % 2 ^ 39) (omega arith))
      (omega arith)
page_or (suc (suc (suc (suc zero)))) ppn v h small aligned =
    let e : ppn * 2 ^ 12 % 18446744073709551616 ≡ ppn / 2 ^ 36 * 2 ^ 48 = omega arith in
    rw (e, bit_and_mask 48 v, bit_or_fields 48 (ppn / 2 ^ 36) (v % 2 ^ 48) (omega arith))
      (omega arith)
page_or (suc (suc (suc (suc (suc level))))) ppn v h small aligned = absurd (omega arith)

-- The alignment test, at each level.
pub aligned_mask :
    (level ppn : ℕ)
    → level < 5
    → bit_and ppn (1 * 2 ^ (9 * level) % 18446744073709551616 - 1) ≡ ppn % 2 ^ (9 * level)
aligned_mask zero ppn h = bit_and_mask 0 ppn
aligned_mask (suc zero) ppn h = bit_and_mask 9 ppn
aligned_mask (suc (suc zero)) ppn h = bit_and_mask 18 ppn
aligned_mask (suc (suc (suc zero))) ppn h = bit_and_mask 27 ppn
aligned_mask (suc (suc (suc (suc zero)))) ppn h = bit_and_mask 36 ppn
aligned_mask (suc (suc (suc (suc (suc level))))) ppn h = absurd (omega arith)

-- An entry at an address that could be read can be written.
update_ad_bits-ok :
    {S : Type 0} (bus : Bus S) (s : S) (a pte : ℕ) (access : AccessType)
    → ltb 0xFFFFFFFF a ≡ false
    → ((update_ad_bits bus s a pte access).0 ≡ ok true)
      ⊎ ((update_ad_bits bus s a pte access).0 ≡ ok false)
unfolding update_ad_bits write_pte
update_ad_bits-ok bus s a pte access h = ground arith

module _ {S : Type 0} (bus : Bus S) (access : AccessType) (priv : PrivilegeLevel)
    (mstatus v : ℕ) where
  leaf-page :
      (level : ℕ) (m : Mmu64) (s : S) (a pte : ℕ)
      → level < 5
      → ltb 0xFFFFFFFF a ≡ false
      → (leaf bus m s level a pte v access priv mstatus).0 ≡ page access priv mstatus v level pte
  unfolding leaf
  leaf-page level m s a pte hl h = ground (
    arith,
    update_ad_bits-ok bus s a pte access h,
    check_permissions-allowed pte access priv mstatus,
    bit_and_mask 44 (pte / 1024),
    aligned_mask level (page_number pte) hl,
    page_or level (page_number pte) v hl (omega arith),
  )

  module _ (mem : S → ℕ → ℕ) (pure : (s : S) (a : ℕ) → bus.read64 s a ≡ (mem s a, s)) where
    -- Over memory that a read leaves unchanged, the walk from a level on gives the address that the
    -- lookup in the tables of memory gives, and fails with the cause that the lookup fails with.
    pub walk-lookup :
        (level : ℕ) (m : Mmu64) (s : S) (table : ℕ)
        → level < 5
        → (walk bus level m s table v access priv mstatus).0
          ≡ lookup (mem s) access priv mstatus v level table
    unfolding walk lookup read_pte
    walk-lookup zero m s table hl =
        let a = entry_address 0 table v in
        let pte = mem s a in
        ground (
          arith,
          pure s a,
          bit_and_mask 9 (v / 4096),
          one_bit_field 1 pte,
          one_bit_field 3 pte,
          bit_zero pte,
          leaf-page 0 m s a pte hl,
        )
    walk-lookup (suc level) m s table hl =
        let a = entry_address (suc level) table v in
        let pte = mem s a in
        let next : page_number pte * 2 ^ 12 % 18446744073709551616 ≡ page_number pte * 4096 =
          omega arith in
        ground (
          arith,
          pure s a,
          bit_and_mask 9 (v / 2 ^ (12 + suc level * 9)),
          bit_and_mask 44 (pte / 1024),
          one_bit_field 1 pte,
          one_bit_field 3 pte,
          bit_zero pte,
          leaf-page (suc level) m s a pte hl,
          next,
          walk-lookup level m s (page_number pte * 4096) (omega arith),
        )
