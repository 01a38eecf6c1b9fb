-- ===== src/Decode/Immediates.antt =====
-- About the bits of the immediates (src/cpu/rv32/decode.rs).
use otorisc_v.Base.{
  ℕ, ◌+◌, ◌-◌, ◌*◌, ◌/◌, ◌%◌, ◌^◌, ◌<◌, Bool, true, false, ◌&&◌, ◌==◌, ◌≡◌, refl, arith, ltb, leb,
  bit, bit_and, bit_or, bit-bit_and, bit-bit_or, bit-mask, bit-shl32, bit-shr, bit-sar, bit-pow,
  bit_and-lt, if◌then◌else◌, two32, sar, all_below, all_below_sound, same, same→eq,
}
use otorisc_v.Decode.{imm_i, imm_s, imm_b, imm_u, imm_j}

-- The sign, shifted down by `n`.
sign_fill :
    (n k inst : ℕ)
    → inst < two32
    → k < 32
    → bit (sar (bit_and inst 0x80000000) n) k ≡ (if ltb (n + k) 31 then false else bit inst 31)
sign_fill n k inst hi hk = ground (
  arith,
  bit-sar n k (bit_and inst 0x80000000) (bit_and-lt 32 inst 0x80000000 hi) hk,
  bit-bit_and (n + k) inst 0x80000000,
  bit-bit_and 31 inst 0x80000000,
  bit-pow 31 (n + k),
  bit-pow 31 31,
)

-- A field of `w` bits from bit `a` on.
field :
    (a w k inst : ℕ)
    → bit (bit_and (inst / 2 ^ a) (2 ^ w - 1)) k ≡ (if ltb k w then bit inst (a + k) else false)
field a w k inst =
    ground (arith, bit-bit_and k (inst / 2 ^ a) (2 ^ w - 1), bit-mask w k, bit-shr a k inst)

-- The same, shifted up by `b`.
placed :
    (a w b k inst : ℕ)
    → k < 32
    → bit (bit_and (inst / 2 ^ a) (2 ^ w - 1) * 2 ^ b % 4294967296) k
      ≡ (if ltb k b then false else if ltb (k - b) w then bit inst (a + (k - b)) else false)
placed a w b k inst hk =
    ground (arith, bit-shl32 b k (bit_and (inst / 2 ^ a) (2 ^ w - 1)) hk, field a w (k - b) inst)

abbrev pub bit_of_i : ℕ → ℕ → Bool
bit_of_i inst k = if ltb k 11 then bit inst (k + 20) else bit inst 31

abbrev pub bit_of_s : ℕ → ℕ → Bool
bit_of_s inst k =
    if ltb k 5 then bit inst (k + 7) else if ltb k 11 then bit inst (k + 20) else bit inst 31

abbrev pub bit_of_b : ℕ → ℕ → Bool
bit_of_b inst k =
    if 0 == k
    then false
    else if ltb k 5
    then bit inst (k + 7)
    else if ltb k 11
    then bit inst (k + 20)
    else if 11 == k
    then bit inst 7
    else bit inst 31

abbrev pub bit_of_u : ℕ → ℕ → Bool
bit_of_u inst k = if ltb k 12 then false else bit inst k

abbrev pub bit_of_j : ℕ → ℕ → Bool
bit_of_j inst k =
    if 0 == k
    then false
    else if ltb k 11
    then bit inst (k + 20)
    else if 11 == k
    then bit inst 20
    else if ltb k 20
    then bit inst k
    else bit inst 31

bit-imm_i : (inst k : ℕ) → inst < two32 → k < 32 → bit (imm_i inst) k ≡ bit_of_i inst k
unfolding imm_i
bit-imm_i inst k hi hk = ground (arith, bit-sar 20 k inst hi hk)

high_table : all_below 64 (λ k. same (bit 0xFE000000 k) (leb 25 k && ltb k 32)) ≡ true
unfolding all_below bit
high_table = refl

high_mask : (k : ℕ) → k < 64 → bit 0xFE000000 k ≡ (leb 25 k && ltb k 32)
high_mask k h =
    same→eq _ _
      (all_below_sound 64 (λ k. same (bit 0xFE000000 k) (leb 25 k && ltb k 32)) k high_table h)

bit-imm_s : (inst k : ℕ) → inst < two32 → k < 32 → bit (imm_s inst) k ≡ bit_of_s inst k
unfolding imm_s
bit-imm_s inst k hi hk = ground (
  arith,
  bit-bit_or k (sar (bit_and inst 0xFE000000) 20) (bit_and (inst / 2 ^ 7) 0x1F),
  bit-sar 20 k (bit_and inst 0xFE000000) (bit_and-lt 32 inst 0xFE000000 hi) hk,
  bit-bit_and (20 + k) inst 0xFE000000,
  bit-bit_and 31 inst 0xFE000000,
  high_mask (20 + k) (omega arith),
  high_mask 31 (omega arith),
  field 7 5 k inst,
)

bit-imm_b : (inst k : ℕ) → inst < two32 → k < 32 → bit (imm_b inst) k ≡ bit_of_b inst k
unfolding imm_b
bit-imm_b inst k hi hk =
    let a = sar (bit_and inst 0x80000000) 19 in
    let b = bit_and (inst / 2 ^ 7) 1 * 2 ^ 11 % 4294967296 in
    let c = bit_and (inst / 2 ^ 25) 0x3F * 2 ^ 5 % 4294967296 in
    let d = bit_and (inst / 2 ^ 8) 0xF * 2 ^ 1 % 4294967296 in
    ground (
      arith,
      bit-bit_or k (bit_or (bit_or a b) c) d,
      bit-bit_or k (bit_or a b) c,
      bit-bit_or k a b,
      sign_fill 19 k inst hi hk,
      placed 7 1 11 k inst hk,
      placed 25 6 5 k inst hk,
      placed 8 4 1 k inst hk,
    )

upper_table : all_below 32 (λ k. same (bit 0xFFFFF000 k) (leb 12 k)) ≡ true
unfolding all_below bit
upper_table = refl

bit-imm_u : (inst k : ℕ) → k < 32 → bit (imm_u inst) k ≡ bit_of_u inst k
unfolding imm_u
bit-imm_u inst k hk = ground (
  arith,
  bit-bit_and k inst 0xFFFFF000,
  same→eq (bit 0xFFFFF000 k) (leb 12 k)
      (all_below_sound 32 (λ k. same (bit 0xFFFFF000 k) (leb 12 k)) k upper_table hk),
)

middle_table : all_below 32 (λ k. same (bit 0xFF000 k) (leb 12 k && ltb k 20)) ≡ true
unfolding all_below bit
middle_table = refl

bit-imm_j : (inst k : ℕ) → inst < two32 → k < 32 → bit (imm_j inst) k ≡ bit_of_j inst k
unfolding imm_j
bit-imm_j inst k hi hk =
    let a = sar (bit_and inst 0x80000000) 11 in
    let b = bit_and inst 0xFF000 in
    let c = bit_and (inst / 2 ^ 20) 1 * 2 ^ 11 % 4294967296 in
    let d = bit_and (inst / 2 ^ 21) 0x3FF * 2 ^ 1 % 4294967296 in
    ground (
      arith,
      bit-bit_or k (bit_or (bit_or a b) c) d,
      bit-bit_or k (bit_or a b) c,
      bit-bit_or k a b,
      sign_fill 11 k inst hi hk,
      bit-bit_and k inst 0xFF000,
      same→eq (bit 0xFF000 k) (leb 12 k && ltb k 20)
          (all_below_sound 32 (λ k. same (bit 0xFF000 k) (leb 12 k && ltb k 20)) k middle_table hk),
      placed 20 1 11 k inst hk,
      placed 21 10 1 k inst hk,
    )

-- Each bit of each of the five immediates is the bit of the instruction that the format of the
-- instruction set puts there: sign bits above, scattered fields in the branch and jump formats, and
-- zeros below.
pub bit-immediates :
    (inst k : ℕ)
    → inst < two32
    → k < 32
    → (bit (imm_i inst) k ≡ bit_of_i inst k)
      × (bit (imm_s inst) k ≡ bit_of_s inst k)
      × (bit (imm_b inst) k ≡ bit_of_b inst k)
      × (bit (imm_u inst) k ≡ bit_of_u inst k)
      × (bit (imm_j inst) k ≡ bit_of_j inst k)
bit-immediates inst k hi hk = (
  bit-imm_i inst k hi hk,
  bit-imm_s inst k hi hk,
  bit-imm_b inst k hi hk,
  bit-imm_u inst k hk,
  bit-imm_j inst k hi hk,
)
