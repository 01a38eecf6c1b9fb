-- ===== src/Rv64/Mmu/Modes.antt =====
-- About a translation that the buffer does not answer (`translate`, src/cpu/rv64/mmu.rs): the modes
-- of satp, and the addresses that they admit.
use otorisc_v.Base.{
  ℕ, zero, suc, refl, u64, true, ◌!=◌, ◌+◌, ◌-◌, ◌*◌, ◌/◌, ◌%◌, ◌^◌, ◌<◌, Bool, not, ◌||◌, ◌==◌,
  ◌≡◌, arith, bit_and, bit_and_mask, ltb, leb, if◌then◌else◌, none, some, Result, ok, err,
}
use otorisc_v.Privilege.{PrivilegeLevel, machine, is_priv}
use otorisc_v.Bus.{Bus}
use otorisc_v.Mmu.{AccessType}
use otorisc_v.Rv64.Mmu.{
  Mmu64, page_fault_cause, is_canonical, lookup_from, tlb_lookup, from_satp_mode, translate,
  translate_in, tlb_match,
}
use otorisc_v.Rv64.Mmu.Walk.{lookup, walk-lookup}

-- The address is the sign extension of its lowest `n` bits.
abbrev pub is_extension : ℕ → ℕ → Bool
is_extension n v = ltb v (2 ^ (n - 1)) || leb (2 ^ 64 - 2 ^ (n - 1)) v

-- The translation over the tables in `mem`, by the rules of `lookup`: none in machine mode and with
-- mode 0; 3, 4 and 5 levels for the modes 8, 9 and 10; a page fault in every other mode.
module _ (mem : ℕ → ℕ) (access : AccessType) (priv : PrivilegeLevel) (mstatus satp v : ℕ) where
  abbrev pub in_tables : ℕ → ℕ → Result ℕ ℕ
  in_tables top va_bits =
      if is_extension va_bits v
      then lookup mem access priv mstatus v top (satp % 17592186044416 * 4096)
      else err (page_fault_cause access)

  abbrev pub tables : Result ℕ ℕ
  tables =
      let mode = satp / 1152921504606846976 % 16 in
      if mode == 8
      then in_tables 2 39
      else if mode == 9
      then in_tables 3 48
      else if mode == 10
      then in_tables 4 57
      else err (page_fault_cause access)

  abbrev pub translated : Result ℕ ℕ
  translated =
      if is_priv priv machine || (satp / 1152921504606846976 % 16 == 0) then ok v else tables

is_canonical-39 : (v : ℕ) → v < 2 ^ 64 → is_canonical v 39 ≡ is_extension 39 v
unfolding is_canonical
is_canonical-39 v h = ground (arith, bit_and_mask 1 (v / 2 ^ 38))

is_canonical-48 : (v : ℕ) → v < 2 ^ 64 → is_canonical v 48 ≡ is_extension 48 v
unfolding is_canonical
is_canonical-48 v h = ground (arith, bit_and_mask 1 (v / 2 ^ 47))

is_canonical-57 : (v : ℕ) → v < 2 ^ 64 → is_canonical v 57 ≡ is_extension 57 v
unfolding is_canonical
is_canonical-57 v h = ground (arith, bit_and_mask 1 (v / 2 ^ 56))

-- The mode that the debug output remembers is not looked at.
lookup_from-mode :
    (m : Mmu64) (v : ℕ) (access : AccessType) (priv : PrivilegeLevel) (mstatus mode rest level : ℕ)
    → lookup_from (record m { last_satp_mode = mode }) v access priv mstatus rest level
      ≡ lookup_from m v access priv mstatus rest level
unfolding lookup_from tlb_match
lookup_from-mode m v access priv mstatus mode zero level = refl
lookup_from-mode m v access priv mstatus mode (suc rest) level =
    ground (arith, lookup_from-mode m v access priv mstatus mode rest (suc level))

-- A buffer with no live entry answers nothing.
abbrev pub IsCold : Mmu64 → Type 0
IsCold m = (j : ℕ) → (not (m.tlb j).valid || ((m.tlb j).generation != m.tlb_generation)) ≡ true

pub lookup_from-IsCold :
    (m : Mmu64) (v : ℕ) (access : AccessType) (priv : PrivilegeLevel) (mstatus rest level : ℕ)
    → IsCold m
    → lookup_from m v access priv mstatus rest level ≡ none
unfolding lookup_from tlb_match
lookup_from-IsCold m v access priv mstatus zero level cold = refl
lookup_from-IsCold m v access priv mstatus (suc rest) level cold =
    let tag = v / 2 ^ (12 + level * 9) in
    ground (
      arith,
      cold (bit_and tag 15),
      lookup_from-IsCold m v access priv mstatus rest (suc level) cold,
    )

module _ {S : Type 0} (bus : Bus S) (mem : S → ℕ → ℕ) (s : S) (access : AccessType)
    (priv : PrivilegeLevel) (mstatus satp v : ℕ)
    (pure : (s : S) (a : ℕ) → bus.read64 s a ≡ (mem s a, s)) (hv : v < 2 ^ 64) where
  -- In one mode, behind the test of the address.
  in_mode :
      (m : Mmu64) (top va_bits : ℕ)
      → top < 5
      → is_canonical v va_bits ≡ is_extension va_bits v
      → lookup_from m v access priv mstatus (suc top) 0 ≡ none
      → (translate_in bus
          (some (record { levels = suc top; va_bits = va_bits }))
          m
          s
          v
          access
          priv
          satp
          mstatus).0
        ≡ in_tables (mem s) access priv mstatus satp v top va_bits
  unfolding tlb_lookup
  in_mode m top va_bits ht e miss =
      let root : satp % 17592186044416 * 2 ^ 12 % 18446744073709551616
          ≡ satp % 17592186044416 * 4096 =
        omega arith in
      let m' = record m { tlb_misses = u64 (m.tlb_misses + 1) } in
      ground (
        arith,
        e,
        miss,
        root,
        bit_and_mask 44 satp,
        walk-lookup bus access priv mstatus v mem pure top m' s (satp % 17592186044416 * 4096) ht,
      )

  in_some_mode :
      (m : Mmu64)
      → ((levels : ℕ) → lookup_from m v access priv mstatus levels 0 ≡ none)
      → (translate_in bus
          (from_satp_mode (satp / 1152921504606846976 % 16))
          m
          s
          v
          access
          priv
          satp
          mstatus).0
        ≡ tables (mem s) access priv mstatus satp v
  unfolding from_satp_mode
  in_some_mode m miss = ground (
    arith,
    in_mode m 2 39 (omega arith) (is_canonical-39 v hv) (miss 3),
    in_mode m 3 48 (omega arith) (is_canonical-48 v hv) (miss 4),
    in_mode m 4 57 (omega arith) (is_canonical-57 v hv) (miss 5),
  )

  -- Over memory that a read leaves unchanged, where the buffer holds no entry that answers, a
  -- 64-bit address translates as a lookup in the tables, for each kind of access, privilege, mode
  -- and status: the same address, or the same cause of a fault. The lookup has the rules of the
  -- code where it departs from the architecture: an entry outside the 32-bit address space is a load
  -- page fault whatever the access is, a valid entry without R and X is a pointer even with W set,
  -- and SUM lets supervisor mode fetch from user pages.
  pub translate-translated :
      (m : Mmu64) (debug : Bool)
      → ((levels : ℕ) → lookup_from m v access priv mstatus levels 0 ≡ none)
      → (translate bus debug m s v access priv satp mstatus).0
        ≡ translated (mem s) access priv mstatus satp v
  unfolding translate
  translate-translated m debug miss =
      let mode = satp / 1152921504606846976 % 16 in
      let m' = record m { last_satp_mode = mode } in
      ground (
        arith,
        bit_and_mask 4 (satp / 1152921504606846976),
        in_some_mode m miss,
        in_some_mode m' (λ (levels : ℕ).
            rw (lookup_from-mode m v access priv mstatus mode levels 0) (miss levels)),
      )
