-- ===== src/Mmu.antt =====
-- Sv32 translation with a one-entry translation buffer for each kind of access
-- (src/cpu/rv32/mmu.rs).
pub mod Tlb
pub mod Walk
pub mod Reuse
use otorisc_v.Base.{
  ℕ, ◌+◌, ◌-◌, ◌*◌, ◌/◌, ◌%◌, ◌^◌, Bool, true, false, ◌&&◌, ◌||◌, ◌==◌, ◌!=◌, bit_and, bit_or,
  bit_xor, if◌then◌else◌, ◌>>>◌, ◌<<<◌, u32, u64, Result, ok, err,
}
use otorisc_v.Privilege.{PrivilegeLevel, user, supervisor, machine, is_priv}
use otorisc_v.Bus.{Bus}

pub data AccessType : Type 0 where
  instruction load store : AccessType

abbrev pub same_access : AccessType → AccessType → Bool
same_access instruction instruction = true
same_access load load = true
same_access store store = true
same_access _ _ = false

pub record XorTlbEntry : Type 0 where
  pub check : ℕ
  pub lookup : ℕ
  pub page_mask : ℕ

abbrev pub empty_entry : XorTlbEntry
empty_entry = record { check = 0xFFFFFFFF; lookup = 0; page_mask = 0xFFFFF000 }

-- The arrays of three entries are indexed by the kind of access, so they are functions of it.
pub record Mmu : Type 0 where
  pub tlb : AccessType → XorTlbEntry
  pub generation : ℕ
  pub tlb_gen : AccessType → ℕ
  pub tlb_hits : ℕ
  pub tlb_misses : ℕ

abbrev pub put {ℓ} : {A : Type ℓ} → (AccessType → A) → AccessType → A → AccessType → A
put t i v j = if same_access i j then v else t j

unfoldable pub new : Mmu
new = record {
  tlb = λ _. empty_entry;
  generation = 1;
  tlb_gen = λ _. 0;
  tlb_hits = 0;
  tlb_misses = 0;
}

-- `*self = Mmu::new()`.
unfoldable pub reset : Mmu → Mmu
unfolding new
reset m = new

unfoldable pub invalidate : Mmu → Mmu
invalidate m = record m { generation = u32 (m.generation + 1) }

abbrev pub page_fault_cause : AccessType → ℕ
page_fault_cause instruction = 12
page_fault_cause load = 13
page_fault_cause store = 15

abbrev pub flag : ℕ → ℕ → ℕ
flag pte k = bit_and (pte >>> k) 1

-- The `match access_type` at the end of `check_permissions`.
abbrev pub check_kind : ℕ → AccessType → ℕ → Result ℕ (Unit {0})
check_kind pte instruction mstatus = if flag pte 3 == 0 then err 12 else ok tt
check_kind pte load mstatus =
    if flag pte 1 == 1
    then ok tt
    else if (flag pte 3 == 1) && (flag mstatus 19 == 1)
    then ok tt
    else err 13
check_kind pte store mstatus = if flag pte 2 == 0 then err 15 else ok tt

unfoldable pub check_permissions : ℕ → AccessType → PrivilegeLevel → ℕ → Result ℕ (Unit {0})
check_permissions pte access priv mstatus =
    let u = flag pte 4 in
    if is_priv priv supervisor && (u == 1) && (flag mstatus 18 == 0)
    then err (page_fault_cause access)
    else if is_priv priv user && (u == 0)
    then err (page_fault_cause access)
    else check_kind pte access mstatus

abbrev pub is_store : AccessType → Bool
is_store access = same_access access store

-- The entry with its accessed and dirty bits raised, as `update_ad_bits` computes it.
unfoldable pub raised : ℕ → AccessType → ℕ
raised pte access =
    let with_a = if flag pte 6 == 0 then bit_or pte 0x40 else pte in
    if is_store access && (flag pte 7 == 0) then bit_or with_a 0x80 else with_a

unfoldable pub fill_xor_tlb : Mmu → AccessType → ℕ → ℕ → ℕ → Mmu
fill_xor_tlb m access vaddr paddr page_mask = record m {
  tlb = put m.tlb access (record {
    check = vaddr;
    lookup = bit_and (bit_xor paddr vaddr) page_mask;
    page_mask = page_mask;
  });
  tlb_gen = put m.tlb_gen access m.generation;
}

module _ {S : Type 0} (bus : Bus S) where
  unfoldable pub update_ad_bits : S → ℕ → ℕ → AccessType → S
  update_ad_bits s pte_addr pte access =
      let new_pte = raised pte access in
      if new_pte != pte then bus.write32 s pte_addr new_pte else s

  -- The part of the walk behind a megapage entry.
  unfoldable pub megapage :
      Mmu → S → ℕ → ℕ → ℕ → AccessType → PrivilegeLevel → ℕ → Result ℕ ℕ × Mmu × S
  megapage m s pte1_addr pte1 vaddr access priv mstatus =
      elim (check_permissions pte1 access priv mstatus) [
        | err cause ↦ (err cause, m, s)
        | ok _ ↦
            let vpn0 = bit_and (vaddr >>> 12) 0x3FF in
            let page_offset = bit_and vaddr 0xFFF in
            let pa_base = bit_and (pte1 >>> 20) 0xFFF <<< 22 in
            let paddr = bit_or (bit_or pa_base (vpn0 <<< 12)) page_offset in
            if bit_and (pte1 >>> 10) 0x3FF != 0 then (err (page_fault_cause access), m, s) else (
              ok paddr,
              fill_xor_tlb m access vaddr paddr 0xFFC00000,
              update_ad_bits s pte1_addr pte1 access,
            )
      ]

  -- The level 0 walk.
  unfoldable pub level0 : Mmu → S → ℕ → ℕ → AccessType → PrivilegeLevel → ℕ → Result ℕ ℕ × Mmu × S
  level0 m s pte1 vaddr access priv mstatus =
      let vpn0 = bit_and (vaddr >>> 12) 0x3FF in
      let next_table_ppn = bit_and (pte1 >>> 10) 0x3FFFFF in
      let pte0_addr = (next_table_ppn <<< 12) + vpn0 * 4 in
      let (pte0, s') = bus.read32 s pte0_addr in
      if bit_and pte0 1 == 0
      then (err (page_fault_cause access), m, s')
      else if (flag pte0 1 == 0) && (flag pte0 3 == 0)
      then (err (page_fault_cause access), m, s')
      else elim (check_permissions pte0 access priv mstatus) [
        | err cause ↦ (err cause, m, s')
        | ok _ ↦
            let pa_base = bit_and (pte0 >>> 10) 0x3FFFFF <<< 12 in
            let paddr = bit_or pa_base (bit_and vaddr 0xFFF) in
            (
              ok paddr,
              fill_xor_tlb m access vaddr paddr 0xFFFFF000,
              update_ad_bits s' pte0_addr pte0 access,
            )
      ]

  unfoldable pub translate_slow :
      Mmu → S → ℕ → AccessType → PrivilegeLevel → ℕ → ℕ → Result ℕ ℕ × Mmu × S
  translate_slow m s vaddr access priv satp mstatus =
      let root_page_table = bit_and satp 0x3FFFFF <<< 12 in
      let vpn1 = bit_and (vaddr >>> 22) 0x3FF in
      let pte1_addr = root_page_table + vpn1 * 4 in
      let (pte1, s') = bus.read32 s pte1_addr in
      if bit_and pte1 1 == 0
      then (err (page_fault_cause access), m, s')
      else if (flag pte1 1 == 1) || (flag pte1 3 == 1)
      then megapage m s' pte1_addr pte1 vaddr access priv mstatus
      else level0 m s' pte1 vaddr access priv mstatus

  abbrev pub is_hit : Mmu → ℕ → AccessType → Bool
  is_hit m vaddr access =
      let entry = m.tlb access in
      (m.tlb_gen access == m.generation)
      && (bit_and (bit_xor entry.check vaddr) entry.page_mask == 0)

  unfoldable pub translate :
      Mmu → S → ℕ → AccessType → PrivilegeLevel → ℕ → ℕ → Result ℕ ℕ × Mmu × S
  translate m s vaddr access priv satp mstatus =
      if is_priv priv machine || ((satp >>> 31) == 0)
      then (ok vaddr, m, s)
      else if is_hit m vaddr access
      then (
        ok (bit_xor (m.tlb access).lookup vaddr),
        record m { tlb_hits = u64 (m.tlb_hits + 1) },
        s,
      )
      else translate_slow (record m { tlb_misses = u64 (m.tlb_misses + 1) }) s vaddr access priv
          satp mstatus
