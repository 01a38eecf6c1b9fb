-- ===== src/Mmu/Walk.antt =====
-- About the page table walk (`translate_slow`, src/cpu/rv32/mmu.rs) and a two-level lookup written
-- without the bus, the buffer or masks.
use otorisc_v.Base.{
  ℕ, ◌+◌, ◌*◌, ◌/◌, ◌%◌, ◌^◌, Bool, true, not, ◌&&◌, ◌||◌, ◌==◌, ◌≡◌, arith, bit_and, bit_or, bit,
  digit, bit_and_mask, one_bit_field, bit_or_fields, if◌then◌else◌, two32, Option, none, some,
  Result, ok, err,
}
use otorisc_v.Privilege.{PrivilegeLevel, user, supervisor, machine}
use otorisc_v.Bus.{Bus}
use otorisc_v.Mmu.{
  Mmu, AccessType, instruction, load, store, check_permissions, page_fault_cause, megapage, level0,
  translate_slow,
}

-- Bits of an entry: V 0, R 1, W 2, X 3, U 4; of mstatus: SUM 18, MXR 19.
abbrev pub may_enter : ℕ → PrivilegeLevel → ℕ → Bool
may_enter pte user mstatus = bit pte 4
may_enter pte supervisor mstatus = not (bit pte 4) || bit mstatus 18
may_enter pte machine mstatus = true

abbrev pub may_do : ℕ → AccessType → ℕ → Bool
may_do pte instruction mstatus = bit pte 3
may_do pte load mstatus = bit pte 1 || (bit pte 3 && bit mstatus 19)
may_do pte store mstatus = bit pte 2

unfoldable pub allowed : ℕ → AccessType → PrivilegeLevel → ℕ → Bool
allowed pte access priv mstatus = may_enter pte priv mstatus && may_do pte access mstatus

-- The translation of an address: the page tables in `mem`, two levels of 1024 entries. As in the
-- source, an entry of the first level that has W alone set points to a table, and SUM lets
-- supervisor mode execute user pages too.
module _ (mem : ℕ → ℕ) (access : AccessType) (priv : PrivilegeLevel) (mstatus : ℕ) where
  abbrev pub leaf0 : ℕ → ℕ → Option ℕ
  leaf0 pte v =
      if bit pte 0 && (bit pte 1 || bit pte 3) && allowed pte access priv mstatus
      then some (pte / 1024 % 4194304 * 4096 % two32 + v % 4096)
      else none

  abbrev pub leaf1 : ℕ → ℕ → Option ℕ
  leaf1 pte v =
      if allowed pte access priv mstatus && (pte / 1024 % 1024 == 0)
      then some (pte / 1048576 % 4096 * 4194304 % two32 + v % 4194304)
      else none

  abbrev pub sv32 : ℕ → ℕ → Option ℕ
  sv32 satp v =
      let pte1 = mem (satp % 4194304 * 4096 % two32 + v / 4194304 % 1024 * 4) in
      if not (bit pte1 0)
      then none
      else if bit pte1 1 || bit pte1 3
      then leaf1 pte1 v
      else leaf0 (mem (pte1 / 1024 % 4194304 * 4096 % two32 + v / 4096 % 1024 * 4)) v

abbrev pub faulting : AccessType → Option ℕ → Result ℕ ℕ
faulting access none = err (page_fault_cause access)
faulting access (some p) = ok p

pub check_permissions-allowed :
    (pte : ℕ) (access : AccessType) (priv : PrivilegeLevel) (mstatus : ℕ)
    → check_permissions pte access priv mstatus
      ≡ (if allowed pte access priv mstatus then ok tt else err (page_fault_cause access))
unfolding check_permissions allowed
check_permissions-allowed pte access priv mstatus = ground (
  arith,
  one_bit_field 1 pte,
  one_bit_field 2 pte,
  one_bit_field 3 pte,
  one_bit_field 4 pte,
  one_bit_field 18 mstatus,
  one_bit_field 19 mstatus,
)

pub megapage_address :
    (b v : ℕ)
    → bit_or
        (bit_or (b * 4194304 % two32) (bit_and (v / 4096) 0x3FF * 4096 % two32))
        (bit_and v 0xFFF)
      ≡ b * 4194304 % two32 + v % 4194304
megapage_address b v =
    let e : b * 4194304 % two32 ≡ b % 1024 * 2 ^ 22 = omega arith in
    let f : v / 4096 % 1024 * 4096 % two32 ≡ v / 4096 % 1024 * 2 ^ 12 = omega arith in
    let g : b % 1024 * 2 ^ 22 + v / 4096 % 1024 * 2 ^ 12
        ≡ (b % 1024 * 1024 + v / 4096 % 1024) * 2 ^ 12 =
      omega arith in
    rw
      (
        e,
        bit_and_mask 10 (v / 4096),
        bit_and_mask 12 v,
        f,
        bit_or_fields 22 (b % 1024) (v / 4096 % 1024 * 2 ^ 12) (omega arith),
        g,
        bit_or_fields 12 (b % 1024 * 1024 + v / 4096 % 1024) (v % 4096) (omega arith),
      )
      (omega arith)

page_address : (b v : ℕ) → bit_or (b * 4096 % two32) (bit_and v 0xFFF) ≡ b * 4096 % two32 + v % 4096
page_address b v =
    let e : b * 4096 % two32 ≡ b % 1048576 * 2 ^ 12 = omega arith in
    rw (e, bit_and_mask 12 v) (bit_or_fields 12 (b % 1048576) (v % 4096) (omega arith))

pub bit_zero : (x : ℕ) → bit_and x 1 ≡ digit (bit x 0)
unfolding bit
bit_zero x = ground (arith, bit_and_mask 1 x)

module _ {S : Type 0} (bus : Bus S) (mem : S → ℕ → ℕ)
    (pure : (s : S) (a : ℕ) → bus.read32 s a ≡ (mem s a, s)) where
  megapage-leaf1 :
      (m : Mmu) (s : S) (a pte v : ℕ) (access : AccessType) (priv : PrivilegeLevel) (mstatus : ℕ)
      → (megapage bus m s a pte v access priv mstatus).0
        ≡ faulting access (leaf1 (mem s) access priv mstatus pte v)
  unfolding megapage
  megapage-leaf1 m s a pte v access priv mstatus = ground (
    arith,
    check_permissions-allowed pte access priv mstatus,
    megapage_address (bit_and (pte / 1048576) 0xFFF) v,
    bit_and_mask 12 (pte / 1048576),
    bit_and_mask 10 (pte / 1024),
  )

  level0-leaf0 :
      (m : Mmu) (s : S) (pte1 v : ℕ) (access : AccessType) (priv : PrivilegeLevel) (mstatus : ℕ)
      → (level0 bus m s pte1 v access priv mstatus).0
        ≡ faulting access (
            leaf0
              (mem s)
              access
              priv
              mstatus
              (mem s (pte1 / 1024 % 4194304 * 4096 % two32 + v / 4096 % 1024 * 4))
              v)
  unfolding level0
  level0-leaf0 m s pte1 v access priv mstatus =
      let addr : ℕ = pte1 / 1024 % 4194304 * 4096 % two32 + v / 4096 % 1024 * 4 in
      let pte : ℕ = mem s addr in
      ground (
        arith,
        bit_and_mask 22 (pte1 / 1024),
        bit_and_mask 10 (v / 4096),
        pure s addr,
        bit_and_mask 1 pte,
        one_bit_field 1 pte,
        one_bit_field 3 pte,
        bit_zero pte,
        check_permissions-allowed pte access priv mstatus,
        page_address (bit_and (pte / 1024) 0x3FFFFF) v,
        bit_and_mask 22 (pte / 1024),
      )

  -- Over memory that a read leaves unchanged, the walk gives the address that the two-level lookup
  -- `sv32` gives in the tables that memory holds, and where that gives none it fails with the page
  -- fault of the kind of access.
  pub translate_slow-sv32 :
      (m : Mmu) (s : S) (v : ℕ) (access : AccessType) (priv : PrivilegeLevel) (satp mstatus : ℕ)
      → (translate_slow bus m s v access priv satp mstatus).0
        ≡ faulting access (sv32 (mem s) access priv mstatus satp v)
  unfolding translate_slow
  translate_slow-sv32 m s v access priv satp mstatus =
      let addr : ℕ = satp % 4194304 * 4096 % two32 + v / 4194304 % 1024 * 4 in
      let pte : ℕ = mem s addr in
      ground (
        arith,
        bit_and_mask 22 satp,
        bit_and_mask 10 (v / 4194304),
        pure s addr,
        one_bit_field 1 pte,
        one_bit_field 3 pte,
        bit_zero pte,
        megapage-leaf1 m s addr pte v access priv mstatus,
        level0-leaf0 m s pte v access priv mstatus,
      )
