-- ===== src/Trap/Status.antt =====
-- About the bits of mstatus at entries and returns (src/cpu/trap.rs).
use otorisc_v.Base.{
  ℕ, ◌<◌, Bool, true, false, ◌||◌, ◌==◌, ◌≡◌, refl, arith, bit_and, bit_or, bit, bit-bit_or,
  bit-set, bit-clear, bit-pow, bit_and-pow, if◌then◌else◌, ◌*◌, ◌%◌, not32, two32, all_below,
  all_below_sound, same, same→eq,
}
use otorisc_v.Privilege.{PrivilegeLevel, user, supervisor, machine, is_priv, as_u8}
use otorisc_v.Cpu.{Cpu}
use otorisc_v.Trap.{has, copy_flag, enter_s_status, enter_m_status, mret, sret}

-- The flag `from` is copied to the place of `to`.
bit-copy_flag :
    (k status from to : ℕ)
    → k < 32
    → to < two32
    → bit (copy_flag status from to) k ≡ (if bit to k then has status from else bit status k)
unfolding copy_flag
bit-copy_flag k status from to hk ht =
    ground (arith, bit-set k status to, bit-clear 32 k status to hk ht)

mpp_table : all_below 32 (λ k. same (bit 0x1800 k) ((11 == k) || (12 == k))) ≡ true
unfolding all_below bit
mpp_table = refl

pub bit-mpp : (k : ℕ) → k < 32 → bit 0x1800 k ≡ ((11 == k) || (12 == k))
bit-mpp k hk =
    same→eq _ _
      (all_below_sound 32 (λ k. same (bit 0x1800 k) ((11 == k) || (12 == k))) k mpp_table hk)

-- The bits of mstatus after an entry to supervisor mode.
abbrev pub entered_s : ℕ → PrivilegeLevel → ℕ → Bool
entered_s mstatus priv k =
    if 1 == k
    then false
    else if 5 == k
    then bit mstatus 1
    else if 8 == k
    then is_priv priv supervisor
    else bit mstatus k

pub bit-enter_s_status :
    (mstatus : ℕ) (priv : PrivilegeLevel) (k : ℕ)
    → k < 32
    → bit (enter_s_status mstatus priv) k ≡ entered_s mstatus priv k
unfolding enter_s_status
bit-enter_s_status mstatus priv k hk =
    let status = copy_flag mstatus 0x2 0x20 in
    let status' =
      if is_priv priv supervisor then bit_or status 0x100 else bit_and status (not32 0x100) in
    ground (
      arith,
      bit-clear 32 k status' 0x2 hk (omega arith),
      bit-set k status 0x100,
      bit-clear 32 k status 0x100 hk (omega arith),
      bit-copy_flag k mstatus 0x2 0x20 hk (omega arith),
      bit-pow 1 k,
      bit-pow 5 k,
      bit-pow 8 k,
      bit_and-pow 1 mstatus,
    )

-- The bits of mstatus after an entry to machine mode.
abbrev pub entered_m : ℕ → PrivilegeLevel → ℕ → Bool
entered_m mstatus priv k =
    if 3 == k
    then false
    else if 7 == k
    then bit mstatus 3
    else if 11 == k
    then bit (as_u8 priv) 0
    else if 12 == k
    then bit (as_u8 priv) 1
    else bit mstatus k

abbrev priv_field : PrivilegeLevel → ℕ
priv_field priv = as_u8 priv * 2048 % two32

abbrev pub priv_bit : PrivilegeLevel → ℕ → Bool
priv_bit priv k =
    if 11 == k then bit (as_u8 priv) 0 else if 12 == k then bit (as_u8 priv) 1 else false

priv_table :
    (priv : PrivilegeLevel)
    → all_below 32 (λ k. same (bit (priv_field priv) k) (priv_bit priv k)) ≡ true
unfolding all_below bit
priv_table user = refl
priv_table supervisor = refl
priv_table machine = refl

pub bit-priv_field :
    (priv : PrivilegeLevel) (k : ℕ) → k < 32 → bit (priv_field priv) k ≡ priv_bit priv k
bit-priv_field priv k hk = same→eq _ _ (
    all_below_sound 32 (λ k. same (bit (priv_field priv) k) (priv_bit priv k)) k (priv_table priv)
      hk)

pub bit-enter_m_status :
    (mstatus : ℕ) (priv : PrivilegeLevel) (k : ℕ)
    → k < 32
    → bit (enter_m_status mstatus priv) k ≡ entered_m mstatus priv k
unfolding enter_m_status
bit-enter_m_status mstatus priv k hk =
    let status = copy_flag mstatus 0x8 0x80 in
    let cleared = bit_and status (not32 0x1800) in
    ground (
      arith,
      bit-clear 32 k (bit_or cleared (priv_field priv)) 0x8 hk (omega arith),
      bit-bit_or k cleared (priv_field priv),
      bit-priv_field priv k hk,
      bit-clear 32 k status 0x1800 hk (omega arith),
      bit-copy_flag k mstatus 0x8 0x80 hk (omega arith),
      bit-pow 3 k,
      bit-pow 7 k,
      bit-mpp k hk,
      bit_and-pow 3 mstatus,
    )

-- The bits of mstatus after a return from machine mode and from supervisor mode.
abbrev pub returned_m : ℕ → ℕ → Bool
returned_m mstatus k =
    if 3 == k
    then bit mstatus 7
    else if 7 == k
    then true
    else if (11 == k) || (12 == k)
    then false
    else bit mstatus k

abbrev pub returned_s : ℕ → ℕ → Bool
returned_s mstatus k =
    if 1 == k
    then bit mstatus 5
    else if 5 == k
    then true
    else if 8 == k
    then false
    else bit mstatus k

pub bit-mret :
    (cpu : Cpu) (k : ℕ) → k < 32 → bit (mret cpu).csr.mstatus k ≡ returned_m cpu.csr.mstatus k
unfolding mret
bit-mret cpu k hk =
    let mstatus = cpu.csr.mstatus in
    let status = copy_flag mstatus 0x80 0x8 in
    ground (
      arith,
      bit-clear 32 k (bit_or status 0x80) 0x1800 hk (omega arith),
      bit-set k status 0x80,
      bit-copy_flag k mstatus 0x80 0x8 hk (omega arith),
      bit-pow 3 k,
      bit-pow 7 k,
      bit-mpp k hk,
      bit_and-pow 7 mstatus,
    )

pub bit-sret :
    (cpu : Cpu) (k : ℕ) → k < 32 → bit (sret cpu).csr.mstatus k ≡ returned_s cpu.csr.mstatus k
unfolding sret
bit-sret cpu k hk =
    let mstatus = cpu.csr.mstatus in
    let status = copy_flag mstatus 0x20 0x2 in
    ground (
      arith,
      bit-clear 32 k (bit_or status 0x20) 0x100 hk (omega arith),
      bit-set k status 0x20,
      bit-copy_flag k mstatus 0x20 0x2 hk (omega arith),
      bit-pow 1 k,
      bit-pow 5 k,
      bit-pow 8 k,
      bit_and-pow 5 mstatus,
    )
