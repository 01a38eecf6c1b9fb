-- ===== src/Rv64/Mmu.antt =====
-- Sv39, Sv48 and Sv57 translation with a translation buffer of 16 entries (src/cpu/rv64/mmu.rs).
pub mod Walk
pub mod Permissions
pub mod Modes
pub mod Reuse
use otorisc_v.Base.{
  ℕ, zero, suc, ◌+◌, ◌-◌, ◌*◌, Bool, true, false, not, ◌&&◌, ◌||◌, ◌==◌, ◌!=◌, ltb, if◌then◌else◌,
  ◌>>>◌, ◌<<<◌, ◌&&&◌, ◌|||◌, shl64, u32, u64, Option, none, some, Result, ok, err,
}
use otorisc_v.Privilege.{PrivilegeLevel, user, supervisor, machine, is_priv}
use otorisc_v.Bus.{Bus}
use otorisc_v.Mmu.{AccessType, instruction, load, store, is_store, flag}
use otorisc_v.Mmu

abbrev pub tlb_size : ℕ
tlb_size = 16

abbrev pub ppn_mask : ℕ
ppn_mask = shl64 1 44 - 1

pub record AddressMode : Type 0 where
  pub levels : ℕ
  pub va_bits : ℕ

unfoldable pub from_satp_mode : ℕ → Option AddressMode
from_satp_mode mode =
    if mode == 8
    then some (record { levels = 3; va_bits = 39 })
    else if mode == 9
    then some (record { levels = 4; va_bits = 48 })
    else if mode == 10
    then some (record { levels = 5; va_bits = 57 })
    else none

abbrev pub page_shift_for_level : ℕ → ℕ
page_shift_for_level level = 12 + level * 9

pub record TlbEntry : Type 0 where
  pub tag : ℕ
  pub ppn : ℕ
  pub perm : ℕ
  pub valid : Bool
  pub generation : ℕ
  pub page_shift : ℕ

abbrev pub empty : TlbEntry
empty = record { tag = 0; ppn = 0; perm = 0; valid = false; generation = 0; page_shift = 12 }

-- The array of 16 entries is a function: every index is masked to four bits.
pub record Mmu64 : Type 0 where
  pub tlb : ℕ → TlbEntry
  pub tlb_generation : ℕ
  pub tlb_hits : ℕ
  pub tlb_misses : ℕ
  pub last_satp_mode : ℕ

unfoldable pub new : Mmu64
new = record {
  tlb = λ _. empty;
  tlb_generation = 1;
  tlb_hits = 0;
  tlb_misses = 0;
  last_satp_mode = 0;
}

unfoldable pub reset : Mmu64 → Mmu64
reset m = record {
  tlb = λ _. empty;
  tlb_generation = 1;
  tlb_hits = 0;
  tlb_misses = 0;
  last_satp_mode = 0;
}

unfoldable pub invalidate : Mmu64 → Mmu64
invalidate m = record m { tlb_generation = u32 (m.tlb_generation + 1) }

unfoldable pub tlb_stats : Mmu64 → ℕ × ℕ
tlb_stats m = (m.tlb_hits, m.tlb_misses)

-- The same text as in src/cpu/rv32/mmu.rs.
abbrev pub page_fault_cause : AccessType → ℕ
page_fault_cause = Mmu.page_fault_cause

abbrev pub check_permissions : ℕ → AccessType → PrivilegeLevel → ℕ → Result ℕ (Unit {0})
check_permissions = Mmu.check_permissions

unfoldable pub is_canonical : ℕ → ℕ → Bool
is_canonical vaddr va_bits =
    let sign = vaddr >>> (va_bits - 1) &&& 1 in
    let upper = vaddr >>> va_bits in
    if sign == 0 then upper == 0 else upper == shl64 1 (64 - va_bits) - 1

-- The `match access_type` at the end of `check_perm_fast`.
abbrev pub perm_kind : ℕ → AccessType → ℕ → Bool
perm_kind perm instruction mstatus = (perm &&& 0x04) != 0
perm_kind perm load mstatus =
    ((perm &&& 0x01) != 0) || (((perm &&& 0x04) != 0) && (flag mstatus 19 == 1))
perm_kind perm store mstatus = (perm &&& 0x02) != 0

unfoldable pub check_perm_fast : ℕ → AccessType → PrivilegeLevel → ℕ → Bool
check_perm_fast perm access priv mstatus =
    let u = (perm &&& 0x08) != 0 in
    if is_priv priv supervisor && u && (flag mstatus 18 == 0)
    then false
    else if is_priv priv user && not u
    then false
    else perm_kind perm access mstatus

unfoldable pub tlb_match : Mmu64 → ℕ → ℕ → ℕ → ℕ → AccessType → PrivilegeLevel → ℕ → Option ℕ
tlb_match m idx tag page_shift vaddr access priv mstatus =
    let entry = m.tlb idx in
    if not entry.valid || (entry.generation != m.tlb_generation)
    then none
    else if (entry.tag != tag) || (entry.page_shift != page_shift)
    then none
    else if not (check_perm_fast entry.perm access priv mstatus)
    then none
    else some (shl64 entry.ppn 12 ||| (vaddr &&& (shl64 1 page_shift - 1)))

-- The loop of `tlb_lookup`, with `rest` levels from `level` on to go.
unfoldable pub lookup_from : Mmu64 → ℕ → AccessType → PrivilegeLevel → ℕ → ℕ → ℕ → Option ℕ
lookup_from m vaddr access priv mstatus zero level = none
lookup_from m vaddr access priv mstatus (suc rest) level =
    let page_shift = page_shift_for_level level in
    let tag = vaddr >>> page_shift in
    let idx = tag &&& (tlb_size - 1) in
    elim (tlb_match m idx tag page_shift vaddr access priv mstatus) [
      | some paddr ↦ some paddr
      | none ↦ lookup_from m vaddr access priv mstatus rest (suc level)
    ]

abbrev pub counted : Mmu64 → Option ℕ → Option ℕ × Mmu64
counted m (some paddr) = (some paddr, record m { tlb_hits = u64 (m.tlb_hits + 1) })
counted m none = (none, record m { tlb_misses = u64 (m.tlb_misses + 1) })

unfoldable pub tlb_lookup : Mmu64 → ℕ → AccessType → PrivilegeLevel → ℕ → ℕ → Option ℕ × Mmu64
tlb_lookup m vaddr access priv mstatus levels =
    counted m (lookup_from m vaddr access priv mstatus levels 0)

unfoldable pub fill_tlb : Mmu64 → ℕ → ℕ → ℕ → ℕ → Mmu64
fill_tlb m tag ppn perm page_shift = record m {
  tlb = λ j.
      if (tag &&& (tlb_size - 1)) == j
      then record {
        tag = tag;
        ppn = ppn;
        perm = perm;
        valid = true;
        generation = m.tlb_generation;
        page_shift = page_shift;
      }
      else m.tlb j;
}

-- The permission bits that an entry keeps of a page-table entry.
abbrev pub perm_of : ℕ → ℕ
perm_of pte = flag pte 1 ||| flag pte 2 <<< 1 ||| flag pte 3 <<< 2 ||| flag pte 4 <<< 3

-- `vpn[level]`.
abbrev pub vpn : ℕ → ℕ → ℕ
vpn vaddr level = vaddr >>> (12 + level * 9) &&& 0x1FF

-- The answer, the buffer, and what is behind the bus.
abbrev pub Answer : Type 0 → Type 0
Answer S = Result ℕ ℕ × Mmu64 × S

module _ {S : Type 0} (bus : Bus S) where
  unfoldable pub read_pte : S → ℕ → Result ℕ ℕ × S
  read_pte s addr =
      if ltb 0xFFFFFFFF addr
      then (err (page_fault_cause load), s)
      else let (value, s') = bus.read64 s addr in (ok value, s')

  unfoldable pub write_pte : S → ℕ → ℕ → Result ℕ (Unit {0}) × S
  write_pte s addr value =
      if ltb 0xFFFFFFFF addr
      then (err (page_fault_cause store), s)
      else (ok tt, bus.write64 s addr value)

  abbrev pub updated : Result ℕ (Unit {0}) × S → Result ℕ Bool × S
  updated (ok _, s) = (ok true, s)
  updated (err cause, s) = (err cause, s)

  unfoldable pub update_ad_bits : S → ℕ → ℕ → AccessType → Result ℕ Bool × S
  unfolding write_pte
  update_ad_bits s pte_addr pte access =
      let with_a = if flag pte 6 == 0 then pte ||| shl64 1 6 else pte in
      let new_pte = if is_store access && (flag pte 7 == 0) then with_a ||| shl64 1 7 else with_a in
      if new_pte != pte then updated (write_pte s pte_addr new_pte) else (ok false, s)

  abbrev pub filled : Mmu64 → ℕ → ℕ → ℕ → ℕ → Result ℕ Bool × S → Answer S
  filled m vaddr pte page_shift paddr (ok _, s) = (
    ok paddr,
    fill_tlb m (vaddr >>> page_shift) (pte >>> 10 &&& ppn_mask) (perm_of pte) page_shift,
    s,
  )
  filled m vaddr pte page_shift paddr (err cause, s) = (err cause, m, s)

  -- The part of the walk behind an entry that maps a page.
  unfoldable pub leaf : Mmu64 → S → ℕ → ℕ → ℕ → ℕ → AccessType → PrivilegeLevel → ℕ → Answer S
  unfolding update_ad_bits
  leaf m s level pte_addr pte vaddr access priv mstatus =
      let ppn_all = pte >>> 10 &&& ppn_mask in
      let page_shift = page_shift_for_level level in
      let lower_ppn_bits = 9 * level in
      let paddr = shl64 ppn_all 12 ||| (vaddr &&& (shl64 1 page_shift - 1)) in
      elim (check_permissions pte access priv mstatus) [
        | err cause ↦ (err cause, m, s)
        | ok _ ↦
            if ltb 0 lower_ppn_bits && ((ppn_all &&& (shl64 1 lower_ppn_bits - 1)) != 0)
            then (err (page_fault_cause access), m, s)
            else filled m vaddr pte page_shift paddr (update_ad_bits s pte_addr pte access)
      ]

  -- The loop of the walk: the table at `table`, of the level given.
  unfoldable pub walk : ℕ → Mmu64 → S → ℕ → ℕ → AccessType → PrivilegeLevel → ℕ → Answer S
  unfolding read_pte leaf
  walk zero m s table vaddr access priv mstatus =
      let pte_addr = table + vpn vaddr 0 * 8 in
      let (answer, s') = read_pte s pte_addr in
      elim answer [
        | err cause ↦ (err cause, m, s')
        | ok pte ↦
            if (pte &&& 1) == 0
            then (err (page_fault_cause access), m, s')
            else if (flag pte 1 == 1) || (flag pte 3 == 1)
            then leaf m s' 0 pte_addr pte vaddr access priv mstatus
            else (err (page_fault_cause access), m, s')
      ]
  walk (suc level) m s table vaddr access priv mstatus =
      let pte_addr = table + vpn vaddr (suc level) * 8 in
      let (answer, s') = read_pte s pte_addr in
      elim answer [
        | err cause ↦ (err cause, m, s')
        | ok pte ↦
            let below =
              walk level m s' (shl64 (pte >>> 10 &&& ppn_mask) 12) vaddr access priv mstatus in
            if (pte &&& 1) == 0
            then (err (page_fault_cause access), m, s')
            else if (flag pte 1 == 1) || (flag pte 3 == 1)
            then leaf m s' (suc level) pte_addr pte vaddr access priv mstatus
            else below
      ]

  abbrev pub walk_on_miss :
      ℕ → S → ℕ → AccessType → PrivilegeLevel → ℕ → ℕ → Option ℕ × Mmu64 → Answer S
  walk_on_miss levels s vaddr access priv satp mstatus (some paddr, m) = (ok paddr, m, s)
  walk_on_miss levels s vaddr access priv satp mstatus (none, m) =
      walk (levels - 1) m s (shl64 (satp &&& ppn_mask) 12) vaddr access priv mstatus

  abbrev pub translate_in :
      Option AddressMode → Mmu64 → S → ℕ → AccessType → PrivilegeLevel → ℕ → ℕ → Answer S
  translate_in none m s vaddr access priv satp mstatus = (err (page_fault_cause access), m, s)
  translate_in (some mode) m s vaddr access priv satp mstatus =
      if not (is_canonical vaddr mode.va_bits)
      then (err (page_fault_cause access), m, s)
      else walk_on_miss mode.levels s vaddr access priv satp mstatus
          (tlb_lookup m vaddr access priv mstatus mode.levels)

  -- `debug` is whether the environment variable RISCV_DEBUG is set; messages are left out.
  unfoldable pub translate : Bool → Mmu64 → S → ℕ → AccessType → PrivilegeLevel → ℕ → ℕ → Answer S
  unfolding from_satp_mode is_canonical tlb_lookup walk
  translate debug m s vaddr access priv satp mstatus =
      let mode = satp >>> 60 &&& 0xF in
      let m' =
        if debug && (mode != m.last_satp_mode) then record m { last_satp_mode = mode } else m in
      if is_priv priv machine || (mode == 0)
      then (ok vaddr, m', s)
      else translate_in (from_satp_mode mode) m' s vaddr access priv satp mstatus
