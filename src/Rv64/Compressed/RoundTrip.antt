-- ===== src/Rv64/Compressed/RoundTrip.antt =====
-- About decoding what the encoders encode (src/cpu/rv64/execute_c.rs, src/cpu/rv64/decode.rs).
use otorisc_v.Base.{
  ℕ, ◌+◌, ◌-◌, ◌*◌, ◌/◌, ◌%◌, ◌^◌, ◌<◌, ◌≤◌, ◌≡◌, ◌⊎◌, arith, bit_and_mask, bit_and_high, sar,
  two32,
}
use otorisc_v.Rv64.Compressed.Encode.{encode_i, encode_u, encode_r, encode_s, encode_b, encode_j}
use otorisc_v.Rv64.Compressed.Fields.{
  or_low, encode_i-sum, encode_u-sum, encode_r-sum, encode_s-sum, encode_b-sum, encode_j-sum,
}
use otorisc_v.Rv64.Decode.{decode, imm_i, imm_s, imm_b, imm_u, imm_j}
use otorisc_v.Decode

-- The immediates as numbers.
imm_i-value : (e : ℕ) → e < two32 → imm_i e ≡ e / 1048576 + e / 2147483648 * 4294963200
unfolding Decode.imm_i
imm_i-value e h = ground arith

imm_s-value :
    (e : ℕ) → e < two32 → imm_s e ≡ e / 2147483648 * 4294963200 + e / 33554432 * 32 + e / 128 % 32
unfolding Decode.imm_s
imm_s-value e h =
    let a : sar (e / 33554432 % 128 * 33554432) 20
        ≡ e / 2147483648 * 4294963200 + e / 33554432 * 32 =
      ground arith in
    rw (bit_and_high 25 e 127, bit_and_mask 7 (e / 33554432), bit_and_mask 5 (e / 128), a)
      (or_low 5 (e / 2147483648 * 4294963200 + e / 33554432 * 32) (e / 128 % 32) (omega arith)
        (omega arith))

-- The sign at bit 31, shifted down arithmetically.
sign_at :
    (s : ℕ)
    → s < 2
    → (sar (s * 2147483648) 19 ≡ s * 4294963200) × (sar (s * 2147483648) 11 ≡ s * 4293918720)
sign_at s h = (ground arith, ground arith)

imm_b-value :
    (e : ℕ)
    → e < two32
    → imm_b e
      ≡ e / 2147483648 * 4294963200 + e / 128 % 2 * 2048 + e / 33554432 % 64 * 32 + e / 256 % 16 * 2
unfolding Decode.imm_b
imm_b-value e h =
    let s = e / 2147483648 in
    let a : s % 2 ≡ s = omega arith in
    let b : e / 128 % 2 * 2048 % two32 ≡ e / 128 % 2 * 2048 = omega arith in
    let c : e / 33554432 % 64 * 32 % two32 ≡ e / 33554432 % 64 * 32 = omega arith in
    let d : e / 256 % 16 * 2 % two32 ≡ e / 256 % 16 * 2 = omega arith in
    rw
      (
        bit_and_high 31 e 1,
        bit_and_mask 1 s,
        a,
        (sign_at s (omega arith)).0,
        bit_and_mask 1 (e / 128),
        bit_and_mask 6 (e / 33554432),
        bit_and_mask 4 (e / 256),
        b,
        c,
        d,
        or_low 12 (s * 4294963200) (e / 128 % 2 * 2048) (omega arith) (omega arith),
        or_low 11 (s * 4294963200 + e / 128 % 2 * 2048) (e / 33554432 % 64 * 32) (omega arith)
            (omega arith),
      )
      (or_low 5 (s * 4294963200 + e / 128 % 2 * 2048 + e / 33554432 % 64 * 32) (e / 256 % 16 * 2)
        (omega arith) (omega arith))

imm_j-value :
    (e : ℕ)
    → e < two32
    → imm_j e
      ≡ e / 2147483648 * 4293918720
        + e / 4096 % 256 * 4096
        + e / 1048576 % 2 * 2048
        + e / 2097152 % 1024 * 2
unfolding Decode.imm_j
imm_j-value e h =
    let s = e / 2147483648 in
    let a : s % 2 ≡ s = omega arith in
    let c : e / 1048576 % 2 * 2048 % two32 ≡ e / 1048576 % 2 * 2048 = omega arith in
    let d : e / 2097152 % 1024 * 2 % two32 ≡ e / 2097152 % 1024 * 2 = omega arith in
    rw
      (
        bit_and_high 31 e 1,
        bit_and_mask 1 s,
        a,
        (sign_at s (omega arith)).1,
        bit_and_high 12 e 255,
        bit_and_mask 8 (e / 4096),
        bit_and_mask 1 (e / 1048576),
        bit_and_mask 10 (e / 2097152),
        c,
        d,
        or_low 20 (s * 4293918720) (e / 4096 % 256 * 4096) (omega arith) (omega arith),
        or_low 12 (s * 4293918720 + e / 4096 % 256 * 4096) (e / 1048576 % 2 * 2048) (omega arith)
            (omega arith),
      )
      (or_low 11 (s * 4293918720 + e / 4096 % 256 * 4096 + e / 1048576 % 2 * 2048)
        (e / 2097152 % 1024 * 2) (omega arith) (omega arith))

imm_u-value : (e : ℕ) → e < two32 → imm_u e ≡ e / 4096 * 4096
unfolding Decode.imm_u
imm_u-value e h = omega (arith, bit_and_high 12 e 1048575, bit_and_mask 20 (e / 4096))

-- The word of an immediate of `n` bits, sign extended to 32.
abbrev pub Fits : ℕ → ℕ → Type 0
Fits n x = (x < 2 ^ (n - 1)) ⊎ ((2 ^ 32 - 2 ^ (n - 1) ≤ x) × (x < 2 ^ 32))

-- What the decoder reads from a word: the opcode, the destination and the operands.
abbrev pub DecodesI : ℕ → ℕ → ℕ → ℕ → ℕ → ℕ → Type 0
DecodesI e op rd rs1 funct3 imm =
    ((decode e).opcode ≡ op)
    × ((decode e).rd ≡ rd)
    × ((decode e).rs1 ≡ rs1)
    × ((decode e).funct3 ≡ funct3)
    × (imm_i e ≡ imm)

abbrev pub DecodesR : ℕ → ℕ → ℕ → ℕ → ℕ → ℕ → ℕ → Type 0
DecodesR e op rd rs1 rs2 funct3 funct7 =
    ((decode e).opcode ≡ op)
    × ((decode e).rd ≡ rd)
    × ((decode e).rs1 ≡ rs1)
    × ((decode e).rs2 ≡ rs2)
    × ((decode e).funct3 ≡ funct3)
    × ((decode e).funct7 ≡ funct7)

-- Stores and branches have two sources; `read` gives the immediate.
abbrev pub DecodesS : (ℕ → ℕ) → ℕ → ℕ → ℕ → ℕ → ℕ → ℕ → Type 0
DecodesS read e op rs1 rs2 funct3 imm =
    ((decode e).opcode ≡ op)
    × ((decode e).rs1 ≡ rs1)
    × ((decode e).rs2 ≡ rs2)
    × ((decode e).funct3 ≡ funct3)
    × (read e ≡ imm)

abbrev pub DecodesU : (ℕ → ℕ) → ℕ → ℕ → ℕ → ℕ → Type 0
DecodesU read e op rd imm = ((decode e).opcode ≡ op) × ((decode e).rd ≡ rd) × (read e ≡ imm)

-- The fields by division.
fields :
    (e : ℕ)
    → let d = decode e in
      (d.opcode ≡ e % 128)
      × (d.rd ≡ e / 128 % 32)
      × (d.rs1 ≡ e / 32768 % 32)
      × (d.rs2 ≡ e / 1048576 % 32)
      × (d.funct3 ≡ e / 4096 % 8)
      × (d.funct7 ≡ e / 33554432 % 128)
unfolding Decode.decode
fields e = (
  bit_and_mask 7 e,
  bit_and_mask 5 (e / 128),
  bit_and_mask 5 (e / 32768),
  bit_and_mask 5 (e / 1048576),
  bit_and_mask 3 (e / 4096),
  bit_and_mask 7 (e / 33554432),
)

module _ (op : ℕ) (hop : op < 128) where
  pub encode_i-DecodesI :
      (rd rs1 funct3 imm : ℕ)
      → rd < 32
      → rs1 < 32
      → funct3 < 8
      → Fits 12 imm
      → DecodesI (encode_i op rd rs1 funct3 imm) op rd rs1 funct3 imm
  encode_i-DecodesI rd rs1 funct3 imm hd h1 h3 hi =
      let e = encode_i op rd rs1 funct3 imm in
      let sum = encode_i-sum op rd rs1 0 funct3 hop hd h1 (omega arith) h3 imm in
      let (a, b, c, d, f, g) = fields e in
      let v = imm_i-value e (omega (arith, sum)) in
      (
        omega (arith, sum, a),
        omega (arith, sum, b),
        omega (arith, sum, c),
        omega (arith, sum, f),
        omega (arith, sum, v, hi),
      )

  pub encode_r-DecodesR :
      (rd rs1 rs2 funct3 funct7 : ℕ)
      → rd < 32
      → rs1 < 32
      → rs2 < 32
      → funct3 < 8
      → funct7 < 128
      → DecodesR (encode_r op rd rs1 rs2 funct3 funct7) op rd rs1 rs2 funct3 funct7
  encode_r-DecodesR rd rs1 rs2 funct3 funct7 hd h1 h2 h3 h7 =
      let e = encode_r op rd rs1 rs2 funct3 funct7 in
      let sum = encode_r-sum op rd rs1 rs2 funct3 hop hd h1 h2 h3 funct7 h7 in
      let (a, b, c, d, f, g) = fields e in
      (
        omega (arith, sum, a),
        omega (arith, sum, b),
        omega (arith, sum, c),
        omega (arith, sum, d),
        omega (arith, sum, f),
        omega (arith, sum, g),
      )

  pub encode_s-DecodesS :
      (rs1 rs2 funct3 imm : ℕ)
      → rs1 < 32
      → rs2 < 32
      → funct3 < 8
      → Fits 12 imm
      → DecodesS imm_s (encode_s op rs1 rs2 funct3 imm) op rs1 rs2 funct3 imm
  encode_s-DecodesS rs1 rs2 funct3 imm h1 h2 h3 hi =
      let e = encode_s op rs1 rs2 funct3 imm in
      let sum = encode_s-sum op rs1 rs2 funct3 imm hop h1 h2 h3 in
      let (a, b, c, d, f, g) = fields e in
      let v = imm_s-value e (omega (arith, sum)) in
      (
        omega (arith, sum, a),
        omega (arith, sum, c),
        omega (arith, sum, d),
        omega (arith, sum, f),
        omega (arith, sum, v, hi),
      )

  pub encode_b-DecodesS :
      (rs1 rs2 funct3 imm : ℕ)
      → rs1 < 32
      → rs2 < 32
      → funct3 < 8
      → Fits 13 imm
      → imm % 2 ≡ 0
      → DecodesS imm_b (encode_b op rs1 rs2 funct3 imm) op rs1 rs2 funct3 imm
  encode_b-DecodesS rs1 rs2 funct3 imm h1 h2 h3 hi even =
      let e = encode_b op rs1 rs2 funct3 imm in
      let sum = encode_b-sum op rs1 rs2 funct3 imm hop h1 h2 h3 in
      let (a, b, c, d, f, g) = fields e in
      let v = imm_b-value e (omega (arith, sum)) in
      (
        omega (arith, sum, a),
        omega (arith, sum, c),
        omega (arith, sum, d),
        omega (arith, sum, f),
        omega (arith, sum, v, hi),
      )

  pub encode_u-DecodesU :
      (rd imm : ℕ)
      → rd < 32
      → imm < two32
      → imm % 4096 ≡ 0
      → DecodesU imm_u (encode_u op rd imm) op rd imm
  encode_u-DecodesU rd imm hd hi low =
      let e = encode_u op rd imm in
      let sum = encode_u-sum op rd imm hop hd hi in
      let (a, b, c, d, f, g) = fields e in
      let v = imm_u-value e (omega (arith, sum)) in
      (omega (arith, sum, a), omega (arith, sum, b), omega (arith, sum, v))

  pub encode_j-DecodesU :
      (rd imm : ℕ)
      → rd < 32
      → Fits 21 imm
      → imm % 2 ≡ 0
      → DecodesU imm_j (encode_j op rd imm) op rd imm
  encode_j-DecodesU rd imm hd hi even =
      let e = encode_j op rd imm in
      let sum = encode_j-sum op rd imm hop hd in
      let (a, b, c, d, f, g) = fields e in
      let v = imm_j-value e (omega (arith, sum)) in
      (omega (arith, sum, a), omega (arith, sum, b), omega (arith, sum, v, hi))
