-- ===== src/Rv64/Mmu/Permissions.antt =====
-- About the permissions that an entry of the translation buffer keeps (src/cpu/rv64/mmu.rs).
use otorisc_v.Base.{
  ℕ, ◌-◌, ◌/◌, ◌^◌, Bool, true, false, ◌!=◌, ◌≡◌, refl, arith, bit_and, bit_or, bit, digit, ◌<<<◌,
  one_bit_field, if◌then◌else◌, shl64, none, some,
}
use otorisc_v.Privilege.{PrivilegeLevel}
use otorisc_v.Mmu.{AccessType}
use otorisc_v.Mmu.Walk.{allowed}
use otorisc_v.Rv64.Mmu.{Mmu64, perm_of, check_perm_fast, fill_tlb, tlb_match, tlb_size}

-- Four flags as a number, and each flag read off it.
abbrev packed : Bool → Bool → Bool → Bool → ℕ
packed r w x u = bit_or (bit_or (bit_or (digit r) (digit w <<< 1)) (digit x <<< 2)) (digit u <<< 3)

abbrev IsPacked : Bool → Bool → Bool → Bool → Type 0
IsPacked r w x u =
    ((bit_and (packed r w x u) 0x01 != 0) ≡ r)
    × ((bit_and (packed r w x u) 0x02 != 0) ≡ w)
    × ((bit_and (packed r w x u) 0x04 != 0) ≡ x)
    × ((bit_and (packed r w x u) 0x08 != 0) ≡ u)

flag_fields : (r w x u : Bool) → IsPacked r w x u
flag_fields true true true true = (refl, refl, refl, refl)
flag_fields true true true false = (refl, refl, refl, refl)
flag_fields true true false true = (refl, refl, refl, refl)
flag_fields true true false false = (refl, refl, refl, refl)
flag_fields true false true true = (refl, refl, refl, refl)
flag_fields true false true false = (refl, refl, refl, refl)
flag_fields true false false true = (refl, refl, refl, refl)
flag_fields true false false false = (refl, refl, refl, refl)
flag_fields false true true true = (refl, refl, refl, refl)
flag_fields false true true false = (refl, refl, refl, refl)
flag_fields false true false true = (refl, refl, refl, refl)
flag_fields false true false false = (refl, refl, refl, refl)
flag_fields false false true true = (refl, refl, refl, refl)
flag_fields false false true false = (refl, refl, refl, refl)
flag_fields false false false true = (refl, refl, refl, refl)
flag_fields false false false false = (refl, refl, refl, refl)

perm_of-packed : (pte : ℕ) → perm_of pte ≡ packed (bit pte 1) (bit pte 2) (bit pte 3) (bit pte 4)
perm_of-packed pte =
    rw (one_bit_field 1 pte, one_bit_field 2 pte, one_bit_field 3 pte, one_bit_field 4 pte)

pub check_perm_fast-allowed :
    (pte : ℕ) (access : AccessType) (priv : PrivilegeLevel) (mstatus : ℕ)
    → check_perm_fast (perm_of pte) access priv mstatus ≡ allowed pte access priv mstatus
unfolding check_perm_fast allowed
check_perm_fast-allowed pte access priv mstatus = rw (perm_of-packed pte) (
    ground (
      arith,
      flag_fields (bit pte 1) (bit pte 2) (bit pte 3) (bit pte 4),
      one_bit_field 18 mstatus,
      one_bit_field 19 mstatus,
    ))

-- Once a walk has put the page of an entry into the buffer, a lookup of an address of the same page
-- answers every access that the entry allows, at whatever privilege and status the lookup is made,
-- with the page and the offset of the address, and no other access.
pub tlb_match-fill_tlb :
    (m : Mmu64) (pte ppn shift w : ℕ) (access : AccessType) (priv : PrivilegeLevel) (mstatus : ℕ)
    → let tag = w / 2 ^ shift in
      tlb_match
        (fill_tlb m tag ppn (perm_of pte) shift)
        (bit_and tag (tlb_size - 1))
        tag
        shift
        w
        access
        priv
        mstatus
      ≡ (if allowed pte access priv mstatus
          then some (bit_or (shl64 ppn 12) (bit_and w (shl64 1 shift - 1)))
          else none)
unfolding tlb_match fill_tlb
tlb_match-fill_tlb m pte ppn shift w access priv mstatus =
    ground (arith, check_perm_fast-allowed pte access priv mstatus)
