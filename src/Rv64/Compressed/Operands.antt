-- ===== src/Rv64/Compressed/Operands.antt =====
-- About the expansion of the compressed instructions that have one form each
-- (src/cpu/rv64/execute_c.rs).
use otorisc_v.Base.{
  ℕ, ◌/◌, ◌%◌, ◌<◌, ◌≡◌, refl, arith, Bool, true, false, bit_and_mask, if◌then◌else◌, some, ◌<<<◌,
  ◌>>>◌, ◌&&&◌, ◌|||◌,
}
use otorisc_v.Rv64.Op
use otorisc_v.Rv64.Compressed.Encode.{encode_i, encode_r, encode_s}
use otorisc_v.Rv64.Compressed.Arithmetic.{
  c_lw, c_ld, c_sw, c_sd, c_fld, c_fsd, c_addiw, c_li, wide_rd, wide_rs2, low_reg, high_reg,
  word_offset, double_offset, imm6, shamt6,
}
use otorisc_v.Rv64.Compressed.Control.{c_slli, c_swsp, c_sdsp, c_fldsp, c_fsdsp}
use otorisc_v.Rv64.Compressed.RoundTrip.{
  Fits, encode_i-DecodesI, encode_r-DecodesR, encode_s-DecodesS,
}
use otorisc_v.Rv64.Compressed.Immediates.{
  word_offset-sum, double_offset-sum, ldsp-sum, swsp-sum, sdsp-sum, shamt6-sum, imm6-sum,
}
use otorisc_v.Rv64.Compressed.Meaning.{
  Expands, i_type, r_type, s_type, rd, rs2, rd', rs1', imm_ci, shamt, uimm_lw, uimm_ld, uimm_ldsp,
  uimm_swsp, uimm_sdsp,
}

-- A test in front of two related pairs.
pub both {ℓ κ μ} :
    {A : Type ℓ} {B : Type κ} (R : A → B → Type μ) (test : Bool) {x y : A} {u v : B}
    → R x u
    → R y v
    → R (if test then x else y) (if test then u else v)
both R true h k = h
both R false h k = k

pub i_type-Expands :
    (op f d s i d' s' i' : ℕ)
    → d ≡ d'
    → s ≡ s'
    → i ≡ i'
    → op < 128
    → f < 8
    → d' < 32
    → s' < 32
    → Fits 12 i'
    → Expands (i_type op f d' s' i') (some (encode_i op d s f i))
i_type-Expands op f d s i d' s' i' ed es ei hop hf hd hs hi =
    (encode_i op d s f i, refl, rw (ed, es, ei) (encode_i-DecodesI op hop d' s' f i' hd hs hf hi))

pub r_type-Expands :
    (op f g d a b d' a' b' : ℕ)
    → d ≡ d'
    → a ≡ a'
    → b ≡ b'
    → op < 128
    → f < 8
    → g < 128
    → d' < 32
    → a' < 32
    → b' < 32
    → Expands (r_type op f g d' a' b') (some (encode_r op d a b f g))
r_type-Expands op f g d a b d' a' b' ed ea eb hop hf hg hd ha hb = (
  encode_r op d a b f g,
  refl,
  rw (ed, ea, eb) (encode_r-DecodesR op hop d' a' b' f g hd ha hb hf hg),
)

pub s_type-Expands :
    (op f a b i a' b' i' : ℕ)
    → a ≡ a'
    → b ≡ b'
    → i ≡ i'
    → op < 128
    → f < 8
    → a' < 32
    → b' < 32
    → Fits 12 i'
    → Expands (s_type op f a' b' i') (some (encode_s op a b f i))
s_type-Expands op f a b i a' b' i' ea eb ei hop hf ha hb hi =
    (encode_s op a b f i, refl, rw (ea, eb, ei) (encode_s-DecodesS op hop a' b' f i' ha hb hf hi))

-- The register fields.
pub low_reg-eq : (inst : ℕ) → low_reg inst ≡ rd' inst
low_reg-eq inst = rw (bit_and_mask 3 (inst / 4), bit_and_mask 3 (inst / 4 % 8)) (omega arith)

pub high_reg-eq : (inst : ℕ) → high_reg inst ≡ rs1' inst
high_reg-eq inst = rw (bit_and_mask 3 (inst / 128), bit_and_mask 3 (inst / 128 % 8)) (omega arith)

pub wide_rd-eq : (inst : ℕ) → wide_rd inst ≡ rd inst
wide_rd-eq inst = bit_and_mask 5 (inst / 128)

pub wide_rs2-eq : (inst : ℕ) → wide_rs2 inst ≡ rs2 inst
wide_rs2-eq inst = bit_and_mask 5 (inst / 4)

module _ (inst : ℕ) where
  pub imm_ci-Fits : Fits 12 (imm_ci inst)
  imm_ci-Fits = ground arith

  -- Loads and stores of the first quadrant.

  pub c_lw-Expands : Expands (i_type Op.load 2 (rd' inst) (rs1' inst) (uimm_lw inst)) (c_lw inst)
  unfolding c_lw
  c_lw-Expands =
      i_type-Expands Op.load 2 (low_reg inst) (high_reg inst) (word_offset inst) (rd' inst)
        (rs1' inst) (uimm_lw inst) (low_reg-eq inst) (high_reg-eq inst) (word_offset-sum inst)
        (omega arith) (omega arith) (omega arith) (omega arith) (omega arith)

  pub c_ld-Expands : Expands (i_type Op.load 3 (rd' inst) (rs1' inst) (uimm_ld inst)) (c_ld inst)
  unfolding c_ld
  c_ld-Expands =
      i_type-Expands Op.load 3 (low_reg inst) (high_reg inst) (double_offset inst) (rd' inst)
        (rs1' inst) (uimm_ld inst) (low_reg-eq inst) (high_reg-eq inst) (double_offset-sum inst)
        (omega arith) (omega arith) (omega arith) (omega arith) (omega arith)

  pub c_fld-Expands :
      Expands (i_type Op.load_fp 3 (rd' inst) (rs1' inst) (uimm_ld inst)) (c_fld inst)
  unfolding c_fld
  c_fld-Expands =
      i_type-Expands Op.load_fp 3 (low_reg inst) (high_reg inst) (double_offset inst) (rd' inst)
        (rs1' inst) (uimm_ld inst) (low_reg-eq inst) (high_reg-eq inst) (double_offset-sum inst)
        (omega arith) (omega arith) (omega arith) (omega arith) (omega arith)

  pub c_sw-Expands : Expands (s_type Op.store 2 (rs1' inst) (rd' inst) (uimm_lw inst)) (c_sw inst)
  unfolding c_sw
  c_sw-Expands =
      s_type-Expands Op.store 2 (high_reg inst) (low_reg inst) (word_offset inst) (rs1' inst)
        (rd' inst) (uimm_lw inst) (high_reg-eq inst) (low_reg-eq inst) (word_offset-sum inst)
        (omega arith) (omega arith) (omega arith) (omega arith) (omega arith)

  pub c_sd-Expands : Expands (s_type Op.store 3 (rs1' inst) (rd' inst) (uimm_ld inst)) (c_sd inst)
  unfolding c_sd
  c_sd-Expands =
      s_type-Expands Op.store 3 (high_reg inst) (low_reg inst) (double_offset inst) (rs1' inst)
        (rd' inst) (uimm_ld inst) (high_reg-eq inst) (low_reg-eq inst) (double_offset-sum inst)
        (omega arith) (omega arith) (omega arith) (omega arith) (omega arith)

  pub c_fsd-Expands :
      Expands (s_type Op.store_fp 3 (rs1' inst) (rd' inst) (uimm_ld inst)) (c_fsd inst)
  unfolding c_fsd
  c_fsd-Expands =
      s_type-Expands Op.store_fp 3 (high_reg inst) (low_reg inst) (double_offset inst) (rs1' inst)
        (rd' inst) (uimm_ld inst) (high_reg-eq inst) (low_reg-eq inst) (double_offset-sum inst)
        (omega arith) (omega arith) (omega arith) (omega arith) (omega arith)

  pub c_addiw-Expands :
      Expands (i_type Op.op_imm_32 0 (rd inst) (rd inst) (imm_ci inst)) (c_addiw inst)
  unfolding c_addiw
  c_addiw-Expands =
      i_type-Expands Op.op_imm_32 0 (wide_rd inst) (wide_rd inst) (imm6 inst) (rd inst) (rd inst)
        (imm_ci inst) (wide_rd-eq inst) (wide_rd-eq inst) (imm6-sum inst) (omega arith)
        (omega arith) (omega arith) (omega arith) imm_ci-Fits

  pub c_li-Expands : Expands (i_type Op.op_imm 0 (rd inst) (0) (imm_ci inst)) (c_li inst)
  unfolding c_li
  c_li-Expands =
      i_type-Expands Op.op_imm 0 (wide_rd inst) (0) (imm6 inst) (rd inst) (0) (imm_ci inst)
        (wide_rd-eq inst) refl (imm6-sum inst) (omega arith) (omega arith) (omega arith)
        (omega arith) imm_ci-Fits

  pub c_slli-Expands : Expands (i_type Op.op_imm 1 (rd inst) (rd inst) (shamt inst)) (c_slli inst)
  unfolding c_slli
  c_slli-Expands =
      i_type-Expands Op.op_imm 1 (wide_rd inst) (wide_rd inst) (shamt6 inst) (rd inst) (rd inst)
        (shamt inst) (wide_rd-eq inst) (wide_rd-eq inst) (shamt6-sum inst) (omega arith)
        (omega arith) (omega arith) (omega arith) (omega arith)

  pub c_fldsp-Expands : Expands (i_type Op.load_fp 3 (rd inst) (2) (uimm_ldsp inst)) (c_fldsp inst)
  unfolding c_fldsp
  c_fldsp-Expands =
      i_type-Expands Op.load_fp 3 (wide_rd inst) (2)
        ((inst >>> 12 &&& 0x1) <<< 5 ||| (inst >>> 5 &&& 0x3) <<< 3 ||| (inst >>> 2 &&& 0x7) <<< 6)
        (rd inst) (2) (uimm_ldsp inst) (wide_rd-eq inst) refl (ldsp-sum inst) (omega arith)
        (omega arith) (omega arith) (omega arith) (omega arith)

  pub c_swsp-Expands : Expands (s_type Op.store 2 (2) (rs2 inst) (uimm_swsp inst)) (c_swsp inst)
  unfolding c_swsp
  c_swsp-Expands =
      s_type-Expands Op.store 2 (2) (wide_rs2 inst)
        ((inst >>> 9 &&& 0xF) <<< 2 ||| (inst >>> 7 &&& 0x3) <<< 6) (2) (rs2 inst) (uimm_swsp inst)
        refl (wide_rs2-eq inst) (swsp-sum inst) (omega arith) (omega arith) (omega arith)
        (omega arith) (omega arith)

  pub c_sdsp-Expands : Expands (s_type Op.store 3 (2) (rs2 inst) (uimm_sdsp inst)) (c_sdsp inst)
  unfolding c_sdsp
  c_sdsp-Expands =
      s_type-Expands Op.store 3 (2) (wide_rs2 inst)
        ((inst >>> 10 &&& 0x7) <<< 3 ||| (inst >>> 7 &&& 0x7) <<< 6) (2) (rs2 inst) (uimm_sdsp inst)
        refl (wide_rs2-eq inst) (sdsp-sum inst) (omega arith) (omega arith) (omega arith)
        (omega arith) (omega arith)

  pub c_fsdsp-Expands :
      Expands (s_type Op.store_fp 3 (2) (rs2 inst) (uimm_sdsp inst)) (c_fsdsp inst)
  unfolding c_fsdsp
  c_fsdsp-Expands =
      s_type-Expands Op.store_fp 3 (2) (wide_rs2 inst)
        ((inst >>> 10 &&& 0x7) <<< 3 ||| (inst >>> 7 &&& 0x7) <<< 6) (2) (rs2 inst) (uimm_sdsp inst)
        refl (wide_rs2-eq inst) (sdsp-sum inst) (omega arith) (omega arith) (omega arith)
        (omega arith) (omega arith)
