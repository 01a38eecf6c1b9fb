-- ===== src/Rv64/Compressed/Fields.antt =====
-- About the encoders as sums of fields, and what the decoder reads from them
-- (src/cpu/rv64/execute_c.rs, src/cpu/rv64/decode.rs).
use otorisc_v.Base.{
  ℕ, ◌+◌, ◌*◌, ◌/◌, ◌%◌, ◌^◌, ◌<◌, ◌≡◌, arith, bit_or, bit_and_mask, bit_or_fields, bit_and_high,
  bit_or_comm, bit_or-lt, bit-bit_or, bit_ext, sym, ◌<<<◌, ◌|||◌, two32,
}
use native.Mathlib.Nat.{div-add-mod}
use otorisc_v.Rv64.Compressed.Encode.{encode_i, encode_u, encode_r, encode_s, encode_b, encode_j}

-- A field below what is there already.
pub or_low : (k x y : ℕ) → x % 2 ^ k ≡ 0 → y < 2 ^ k → bit_or x y ≡ x + y
or_low k x y hx hy =
    let e : x ≡ x / 2 ^ k * 2 ^ k = omega (arith, div-add-mod x (2 ^ k)) in
    rw e (bit_or_fields k (x / 2 ^ k) y hy)

-- A field above what is there already.
pub or_high : (k x y : ℕ) → x < 2 ^ k → y % 2 ^ k ≡ 0 → bit_or x y ≡ y + x
or_high k x y hx hy = rw (bit_or_comm x y) (or_low k y x hy hx)

or_assoc :
    (a b c : ℕ) → a < two32 → b < two32 → c < two32 → bit_or (bit_or a b) c ≡ bit_or a (bit_or b c)
or_assoc a b c ha hb hc =
    bit_ext 32 (bit_or (bit_or a b) c) (bit_or a (bit_or b c))
      (bit_or-lt 32 (bit_or a b) c (bit_or-lt 32 a b ha hb) hc)
      (bit_or-lt 32 a (bit_or b c) ha (bit_or-lt 32 b c hb hc))
      (λ k hk. ground (
        arith,
        bit-bit_or k (bit_or a b) c,
        bit-bit_or k a b,
        bit-bit_or k a (bit_or b c),
        bit-bit_or k b c,
      ))

-- A field between two that are there already.
pub or_middle :
    (i j a b y : ℕ)
    → a % 2 ^ j ≡ 0
    → b < 2 ^ i
    → y % 2 ^ i ≡ 0
    → y + b < 2 ^ j
    → a < two32
    → y + b < two32
    → bit_or (a + b) y ≡ a + (y + b)
or_middle i j a b y ha hb hy hyb wa wyb =
    let e : a + b ≡ bit_or a b = sym (or_low j a b ha (omega arith)) in
    rw (e, or_assoc a b y wa (omega arith) (omega arith), bit_or_comm b y, or_low i y b hy hb)
      (or_low j a (y + b) ha hyb)

module _ (op rd rs1 rs2 funct3 : ℕ) (hop : op < 128) (hrd : rd < 32) (h1 : rs1 < 32) (h2 : rs2 < 32)
    (h3 : funct3 < 8) where
  -- The fields below bit 20.
  low_fields :
      (top : ℕ)
      → top % 1048576 ≡ 0
      → top < two32
      → (top ||| rs1 <<< 15 ||| funct3 <<< 12 ||| rd <<< 7 ||| op)
        ≡ top + rs1 * 32768 + funct3 * 4096 + rd * 128 + op
  low_fields top e h =
      let a : rs1 * 32768 % two32 ≡ rs1 * 32768 = omega arith in
      let b : funct3 * 4096 % two32 ≡ funct3 * 4096 = omega arith in
      let c : rd * 128 % two32 ≡ rd * 128 = omega arith in
      rw
        (
          a,
          b,
          c,
          or_low 20 top (rs1 * 32768) (omega arith) (omega arith),
          or_low 15 (top + rs1 * 32768) (funct3 * 4096) (omega arith) (omega arith),
          or_low 12 (top + rs1 * 32768 + funct3 * 4096) (rd * 128) (omega arith) (omega arith),
        )
        (or_low 7 (top + rs1 * 32768 + funct3 * 4096 + rd * 128) op (omega arith) (omega arith))

  pub encode_i-sum :
      (imm : ℕ)
      → encode_i op rd rs1 funct3 imm
        ≡ imm % 4096 * 1048576 + rs1 * 32768 + funct3 * 4096 + rd * 128 + op
  unfolding encode_i
  encode_i-sum imm =
      let e : imm % 4096 * 1048576 % two32 ≡ imm % 4096 * 1048576 = omega arith in
      rw (bit_and_mask 12 imm, e) (low_fields (imm % 4096 * 1048576) (omega arith) (omega arith))

  pub encode_r-sum :
      (funct7 : ℕ)
      → funct7 < 128
      → encode_r op rd rs1 rs2 funct3 funct7
        ≡ (funct7 * 33554432 + rs2 * 1048576) + rs1 * 32768 + funct3 * 4096 + rd * 128 + op
  unfolding encode_r
  encode_r-sum funct7 h7 =
      let e : funct7 * 33554432 % two32 ≡ funct7 * 33554432 = omega arith in
      let f : rs2 * 1048576 % two32 ≡ rs2 * 1048576 = omega arith in
      rw (e, f, or_low 25 (funct7 * 33554432) (rs2 * 1048576) (omega arith) (omega arith))
        (low_fields (funct7 * 33554432 + rs2 * 1048576) (omega arith) (omega arith))

pub encode_s-sum :
    (op rs1 rs2 funct3 imm : ℕ)
    → op < 128
    → rs1 < 32
    → rs2 < 32
    → funct3 < 8
    → encode_s op rs1 rs2 funct3 imm
      ≡ (imm / 32 % 128 * 33554432 + rs2 * 1048576)
        + rs1 * 32768
        + funct3 * 4096
        + imm % 32 * 128
        + op
unfolding encode_s
encode_s-sum op rs1 rs2 funct3 imm hop h1 h2 h3 =
    let e : imm / 32 % 128 * 33554432 % two32 ≡ imm / 32 % 128 * 33554432 = omega arith in
    let f : rs2 * 1048576 % two32 ≡ rs2 * 1048576 = omega arith in
    rw
      (
        bit_and_mask 7 (imm / 32),
        bit_and_mask 5 imm,
        e,
        f,
        or_low 25 (imm / 32 % 128 * 33554432) (rs2 * 1048576) (omega arith) (omega arith),
      )
      (low_fields op (imm % 32) rs1 rs2 funct3 hop (omega arith) h1 h2 h3
        (imm / 32 % 128 * 33554432 + rs2 * 1048576) (omega arith) (omega arith))

pub encode_b-sum :
    (op rs1 rs2 funct3 imm : ℕ)
    → op < 128
    → rs1 < 32
    → rs2 < 32
    → funct3 < 8
    → encode_b op rs1 rs2 funct3 imm
      ≡ (imm / 4096 % 2 * 2147483648 + imm / 32 % 64 * 33554432 + rs2 * 1048576)
        + rs1 * 32768
        + funct3 * 4096
        + (imm / 2 % 16 * 256 + imm / 2048 % 2 * 128)
        + op
unfolding encode_b
encode_b-sum op rs1 rs2 funct3 imm hop h1 h2 h3 =
    let a : imm / 4096 % 2 * 2147483648 % two32 ≡ imm / 4096 % 2 * 2147483648 = omega arith in
    let b : imm / 32 % 64 * 33554432 % two32 ≡ imm / 32 % 64 * 33554432 = omega arith in
    let c : rs2 * 1048576 % two32 ≡ rs2 * 1048576 = omega arith in
    let d : rs1 * 32768 % two32 ≡ rs1 * 32768 = omega arith in
    let e : funct3 * 4096 % two32 ≡ funct3 * 4096 = omega arith in
    let f : imm / 2 % 16 * 256 % two32 ≡ imm / 2 % 16 * 256 = omega arith in
    let g : imm / 2048 % 2 * 128 % two32 ≡ imm / 2048 % 2 * 128 = omega arith in
    let x = imm / 4096 % 2 * 2147483648 in
    let y = imm / 32 % 64 * 33554432 in
    let z = rs2 * 1048576 in
    rw
      (
        bit_and_mask 1 (imm / 4096),
        bit_and_mask 6 (imm / 32),
        bit_and_mask 4 (imm / 2),
        bit_and_mask 1 (imm / 2048),
        a,
        b,
        c,
        d,
        e,
        f,
        g,
        or_low 31 x y (omega arith) (omega arith),
        or_low 25 (x + y) z (omega arith) (omega arith),
        or_low 20 (x + y + z) (rs1 * 32768) (omega arith) (omega arith),
        or_low 15 (x + y + z + rs1 * 32768) (funct3 * 4096) (omega arith) (omega arith),
        or_low 12 (x + y + z + rs1 * 32768 + funct3 * 4096) (imm / 2 % 16 * 256) (omega arith)
            (omega arith),
        or_low 8 (x + y + z + rs1 * 32768 + funct3 * 4096 + imm / 2 % 16 * 256)
            (imm / 2048 % 2 * 128) (omega arith) (omega arith),
        or_low 7
            (x + y + z + rs1 * 32768 + funct3 * 4096 + imm / 2 % 16 * 256 + imm / 2048 % 2 * 128) op
            (omega arith) (omega arith),
      )
      (omega arith)

pub encode_u-sum :
    (op rd imm : ℕ)
    → op < 128
    → rd < 32
    → imm < two32
    → encode_u op rd imm ≡ imm / 4096 * 4096 + rd * 128 + op
unfolding encode_u
encode_u-sum op rd imm hop hrd hi =
    let a : rd * 128 % two32 ≡ rd * 128 = omega arith in
    let b : imm / 4096 % 1048576 ≡ imm / 4096 = omega arith in
    rw
      (
        bit_and_high 12 imm 1048575,
        bit_and_mask 20 (imm / 4096),
        a,
        b,
        or_low 12 (imm / 4096 * 4096) (rd * 128) (omega arith) (omega arith),
      )
      (or_low 7 (imm / 4096 * 4096 + rd * 128) op (omega arith) (omega arith))

pub encode_j-sum :
    (op rd imm : ℕ)
    → op < 128
    → rd < 32
    → encode_j op rd imm
      ≡ imm / 1048576 % 2 * 2147483648
        + (imm / 2 % 1024 * 2097152 + (imm / 2048 % 2 * 1048576 + imm / 4096 % 256 * 4096))
        + rd * 128
        + op
unfolding encode_j
encode_j-sum op rd imm hop hrd =
    let a : imm / 1048576 % 2 * 2147483648 % two32 ≡ imm / 1048576 % 2 * 2147483648 = omega arith in
    let b : imm / 4096 % 256 * 4096 % two32 ≡ imm / 4096 % 256 * 4096 = omega arith in
    let c : imm / 2048 % 2 * 1048576 % two32 ≡ imm / 2048 % 2 * 1048576 = omega arith in
    let d : imm / 2 % 1024 * 2097152 % two32 ≡ imm / 2 % 1024 * 2097152 = omega arith in
    let e : rd * 128 % two32 ≡ rd * 128 = omega arith in
    let x = imm / 1048576 % 2 * 2147483648 in
    let y = imm / 4096 % 256 * 4096 in
    let z = imm / 2048 % 2 * 1048576 in
    let w = imm / 2 % 1024 * 2097152 in
    rw
      (
        bit_and_mask 1 (imm / 1048576),
        bit_and_mask 8 (imm / 4096),
        bit_and_mask 1 (imm / 2048),
        bit_and_mask 10 (imm / 2),
        a,
        b,
        c,
        d,
        e,
        or_low 31 x y (omega arith) (omega arith),
        or_middle 20 31 x y z (omega arith) (omega arith) (omega arith) (omega arith) (omega arith)
            (omega arith),
        or_middle 21 31 x (z + y) w (omega arith) (omega arith) (omega arith) (omega arith)
            (omega arith) (omega arith),
        or_low 12 (x + (w + (z + y))) (rd * 128) (omega arith) (omega arith),
      )
      (or_low 7 (x + (w + (z + y)) + rd * 128) op (omega arith) (omega arith))
