-- ===== src/Rv64/Compressed/Immediates.antt =====
-- About the immediates of the compressed instructions as sums of fields
-- (src/cpu/rv64/execute_c.rs).
use otorisc_v.Base.{
  ℕ, ◌+◌, ◌-◌, ◌*◌, ◌/◌, ◌%◌, ◌^◌, ◌<◌, ◌≡◌, arith, bit_and, bit_and_mask, ◌<<<◌, ◌>>>◌, ◌&&&◌,
  ◌|||◌, two32,
}
use otorisc_v.Rv64.Compressed.Encode.{sign_extend}
use otorisc_v.Rv64.Compressed.Arithmetic.{word_offset, double_offset, imm6, shamt6}
use otorisc_v.Rv64.Compressed.Control.{decode_cj_imm, decode_cb_imm}
use otorisc_v.Rv64.Compressed.Fields.{or_low, or_middle, or_high}
use otorisc_v.Rv64.Compressed.Meaning.{
  signed, uimm_lw, uimm_ld, uimm_lwsp, uimm_ldsp, uimm_swsp, uimm_sdsp, nzuimm_addi4spn,
  nzimm_addi16sp, shamt, imm_ci, imm_cj, imm_cb,
}

-- A field that is cut out and placed.
placed :
    (a w b x : ℕ)
    → x / 2 ^ a % 2 ^ w * 2 ^ b < 65536
    → bit_and (x / 2 ^ a) (2 ^ w - 1) * 2 ^ b % two32 ≡ x / 2 ^ a % 2 ^ w * 2 ^ b
placed a w b x h = rw (bit_and_mask w (x / 2 ^ a)) (omega arith)

-- Sign extension of a short immediate.
signs :
    (x : ℕ)
    → (x < 2 ^ 6 → sign_extend x 6 ≡ signed 6 x)
      × (x < 2 ^ 9 → sign_extend x 9 ≡ signed 9 x)
      × (x < 2 ^ 10 → sign_extend x 10 ≡ signed 10 x)
      × (x < 2 ^ 12 → sign_extend x 12 ≡ signed 12 x)
unfolding sign_extend
signs x = (λ h. ground arith, λ h. ground arith, λ h. ground arith, λ h. ground arith)

pub word_offset-sum : (inst : ℕ) → word_offset inst ≡ uimm_lw inst
word_offset-sum inst =
    let a = inst / 1024 % 8 * 8 in
    let b = inst / 64 % 2 * 4 in
    let c = inst / 32 % 2 * 64 in
    rw
      (
        placed 10 3 3 inst (omega arith),
        placed 6 1 2 inst (omega arith),
        placed 5 1 6 inst (omega arith),
        or_low 3 a b (omega arith) (omega arith),
        or_high 6 (a + b) c (omega arith) (omega arith),
      )
      (omega arith)

pub double_offset-sum : (inst : ℕ) → double_offset inst ≡ uimm_ld inst
double_offset-sum inst =
    let a = inst / 1024 % 8 * 8 in
    let b = inst / 32 % 4 * 64 in
    rw
      (
        placed 10 3 3 inst (omega arith),
        placed 5 2 6 inst (omega arith),
        or_high 6 a b (omega arith) (omega arith),
      )
      (omega arith)

pub lwsp-sum :
    (inst : ℕ)
    → ((inst >>> 12 &&& 0x1) <<< 5 ||| (inst >>> 4 &&& 0x7) <<< 2 ||| (inst >>> 2 &&& 0x3) <<< 6)
      ≡ uimm_lwsp inst
lwsp-sum inst =
    let a = inst / 4096 % 2 * 32 in
    let b = inst / 16 % 8 * 4 in
    let c = inst / 4 % 4 * 64 in
    rw
      (
        placed 12 1 5 inst (omega arith),
        placed 4 3 2 inst (omega arith),
        placed 2 2 6 inst (omega arith),
        or_low 5 a b (omega arith) (omega arith),
        or_high 6 (a + b) c (omega arith) (omega arith),
      )
      (omega arith)

pub ldsp-sum :
    (inst : ℕ)
    → ((inst >>> 12 &&& 0x1) <<< 5 ||| (inst >>> 5 &&& 0x3) <<< 3 ||| (inst >>> 2 &&& 0x7) <<< 6)
      ≡ uimm_ldsp inst
ldsp-sum inst =
    let a = inst / 4096 % 2 * 32 in
    let b = inst / 32 % 4 * 8 in
    let c = inst / 4 % 8 * 64 in
    rw
      (
        placed 12 1 5 inst (omega arith),
        placed 5 2 3 inst (omega arith),
        placed 2 3 6 inst (omega arith),
        or_low 5 a b (omega arith) (omega arith),
        or_high 6 (a + b) c (omega arith) (omega arith),
      )
      (omega arith)

pub swsp-sum :
    (inst : ℕ) → ((inst >>> 9 &&& 0xF) <<< 2 ||| (inst >>> 7 &&& 0x3) <<< 6) ≡ uimm_swsp inst
swsp-sum inst =
    let a = inst / 512 % 16 * 4 in
    let b = inst / 128 % 4 * 64 in
    rw
      (
        placed 9 4 2 inst (omega arith),
        placed 7 2 6 inst (omega arith),
        or_high 6 a b (omega arith) (omega arith),
      )
      (omega arith)

pub sdsp-sum :
    (inst : ℕ) → ((inst >>> 10 &&& 0x7) <<< 3 ||| (inst >>> 7 &&& 0x7) <<< 6) ≡ uimm_sdsp inst
sdsp-sum inst =
    let a = inst / 1024 % 8 * 8 in
    let b = inst / 128 % 8 * 64 in
    rw
      (
        placed 10 3 3 inst (omega arith),
        placed 7 3 6 inst (omega arith),
        or_high 6 a b (omega arith) (omega arith),
      )
      (omega arith)

pub addi4spn-sum :
    (inst : ℕ)
    → ((inst >>> 12 &&& 0x1) <<< 5
        ||| (inst >>> 11 &&& 0x1) <<< 4
        ||| (inst >>> 7 &&& 0xF) <<< 6
        ||| (inst >>> 6 &&& 0x1) <<< 2
        ||| (inst >>> 5 &&& 0x1) <<< 3)
      ≡ nzuimm_addi4spn inst
addi4spn-sum inst =
    let a = inst / 4096 % 2 * 32 in
    let b = inst / 2048 % 2 * 16 in
    let c = inst / 128 % 16 * 64 in
    let d = inst / 64 % 2 * 4 in
    let e = inst / 32 % 2 * 8 in
    rw
      (
        placed 12 1 5 inst (omega arith),
        placed 11 1 4 inst (omega arith),
        placed 7 4 6 inst (omega arith),
        placed 6 1 2 inst (omega arith),
        placed 5 1 3 inst (omega arith),
        or_low 5 a b (omega arith) (omega arith),
        or_high 6 (a + b) c (omega arith) (omega arith),
        or_low 4 (c + (a + b)) d (omega arith) (omega arith),
        or_middle 3 4 (c + (a + b)) d e (omega arith) (omega arith) (omega arith) (omega arith)
            (omega arith) (omega arith),
      )
      (omega arith)

pub addi16sp-sum :
    (inst : ℕ)
    → sign_extend
        ((inst >>> 12 &&& 0x1) <<< 9
          ||| (inst >>> 3 &&& 0x3) <<< 7
          ||| (inst >>> 5 &&& 0x1) <<< 6
          ||| (inst >>> 2 &&& 0x1) <<< 5
          ||| (inst >>> 6 &&& 0x1) <<< 4)
        10
      ≡ nzimm_addi16sp inst
addi16sp-sum inst =
    let a = inst / 4096 % 2 * 512 in
    let b = inst / 8 % 4 * 128 in
    let c = inst / 32 % 2 * 64 in
    let d = inst / 4 % 2 * 32 in
    let e = inst / 64 % 2 * 16 in
    rw
      (
        placed 12 1 9 inst (omega arith),
        placed 3 2 7 inst (omega arith),
        placed 5 1 6 inst (omega arith),
        placed 2 1 5 inst (omega arith),
        placed 6 1 4 inst (omega arith),
        or_low 9 a b (omega arith) (omega arith),
        or_low 7 (a + b) c (omega arith) (omega arith),
        or_low 6 (a + b + c) d (omega arith) (omega arith),
        or_low 5 (a + b + c + d) e (omega arith) (omega arith),
      )
      (rw ((signs (a + b + c + d + e)).2 (omega arith)) (ground arith))

pub decode_cj_imm-sum : (inst : ℕ) → decode_cj_imm inst ≡ imm_cj inst
unfolding decode_cj_imm
decode_cj_imm-sum inst =
    let a = inst / 4096 % 2 * 2048 in
    let b = inst / 256 % 2 * 1024 in
    let c = inst / 512 % 4 * 256 in
    let d = inst / 64 % 2 * 128 in
    let e = inst / 128 % 2 * 64 in
    let f = inst / 4 % 2 * 32 in
    let g = inst / 2048 % 2 * 16 in
    let h = inst / 8 % 8 * 2 in
    rw
      (
        placed 12 1 11 inst (omega arith),
        placed 8 1 10 inst (omega arith),
        placed 9 2 8 inst (omega arith),
        placed 6 1 7 inst (omega arith),
        placed 7 1 6 inst (omega arith),
        placed 2 1 5 inst (omega arith),
        placed 11 1 4 inst (omega arith),
        placed 3 3 1 inst (omega arith),
        or_low 11 a b (omega arith) (omega arith),
        or_low 10 (a + b) c (omega arith) (omega arith),
        or_low 8 (a + b + c) d (omega arith) (omega arith),
        or_low 7 (a + b + c + d) e (omega arith) (omega arith),
        or_low 6 (a + b + c + d + e) f (omega arith) (omega arith),
        or_low 5 (a + b + c + d + e + f) g (omega arith) (omega arith),
        or_low 4 (a + b + c + d + e + f + g) h (omega arith) (omega arith),
      )
      (rw ((signs (a + b + c + d + e + f + g + h)).3 (omega arith)) (ground arith))

pub decode_cb_imm-sum : (inst : ℕ) → decode_cb_imm inst ≡ imm_cb inst
unfolding decode_cb_imm
decode_cb_imm-sum inst =
    let a = inst / 4096 % 2 * 256 in
    let b = inst / 32 % 4 * 64 in
    let c = inst / 4 % 2 * 32 in
    let d = inst / 1024 % 4 * 8 in
    let e = inst / 8 % 4 * 2 in
    rw
      (
        placed 12 1 8 inst (omega arith),
        placed 5 2 6 inst (omega arith),
        placed 2 1 5 inst (omega arith),
        placed 10 2 3 inst (omega arith),
        placed 3 2 1 inst (omega arith),
        or_low 8 a b (omega arith) (omega arith),
        or_low 6 (a + b) c (omega arith) (omega arith),
        or_low 5 (a + b + c) d (omega arith) (omega arith),
        or_low 3 (a + b + c + d) e (omega arith) (omega arith),
      )
      (rw ((signs (a + b + c + d + e)).1 (omega arith)) (ground arith))

pub shamt6-sum : (inst : ℕ) → shamt6 inst ≡ shamt inst
shamt6-sum inst =
    rw (bit_and_mask 5 (inst / 4), placed 12 1 5 inst (omega arith))
      (or_high 5 (inst / 4 % 32) (inst / 4096 % 2 * 32) (omega arith) (omega arith))

pub imm6-sum : (inst : ℕ) → imm6 inst ≡ imm_ci inst
imm6-sum inst = rw (shamt6-sum inst) ((signs (shamt inst)).0 (omega arith))

-- The same with the fields the other way round, as in C.LUI.
pub imm6_swapped-sum :
    (inst : ℕ) → sign_extend ((inst >>> 12 &&& 1) <<< 5 ||| (inst >>> 2 &&& 0x1F)) 6 ≡ imm_ci inst
imm6_swapped-sum inst =
    rw
      (
        bit_and_mask 5 (inst / 4),
        placed 12 1 5 inst (omega arith),
        or_low 5 (inst / 4096 % 2 * 32) (inst / 4 % 32) (omega arith) (omega arith),
      )
      ((signs (shamt inst)).0 (omega arith))
