-- ===== src/Rv64/Compressed/Expansion.antt =====
-- About the expansion of every compressed instruction (`expand_compressed`,
-- src/cpu/rv64/execute_c.rs).
use otorisc_v.Base.{
  ℕ, ◌+◌, ◌*◌, ◌/◌, ◌%◌, ◌<◌, ◌≡◌, refl, arith, ◌&&◌, ◌==◌, bit_and_mask, if◌then◌else◌, some,
  on_if, bit_or,
}
use otorisc_v.Rv64.Op
use otorisc_v.Rv64.Compressed.Encode.{encode_i, encode_u, encode_r, encode_b, encode_j}
use otorisc_v.Rv64.Compressed.Arithmetic.{
  c_addi4spn, c_addi, c_addi16sp_lui, c_alu_imm, c_alu_reg, low_reg, high_reg, imm6, shamt6,
}
use otorisc_v.Rv64.Compressed.Control.{
  c_j, c_beqz, c_bnez, c_lwsp, c_ldsp, c_misc_alu, decode_cb_imm,
}
use otorisc_v.Rv64.Compressed.RoundTrip.{
  Fits, encode_b-DecodesS, encode_u-DecodesU, encode_j-DecodesU,
}
use otorisc_v.Rv64.Compressed.Immediates.{
  lwsp-sum, ldsp-sum, addi4spn-sum, addi16sp-sum, decode_cj_imm-sum, decode_cb_imm-sum, shamt6-sum,
  imm6-sum, imm6_swapped-sum,
}
use otorisc_v.Rv64.Compressed.Fields.{or_low}
use otorisc_v.Rv64.Compressed.Meaning.{
  Expands, i_type, r_type, b_type, j_type, reserved, meaning, bits, rd, rs2, rd', rs1', imm_ci,
  shamt, uimm_lwsp, uimm_ldsp, nzuimm_addi4spn, nzimm_addi16sp, imm_cj, imm_cb, addi16sp_lui, alu,
  alu_reg, jr_mv_add,
}
use otorisc_v.Rv64.Compressed.{expand_compressed}
use otorisc_v.Rv64.Compressed.Operands.{
  both, i_type-Expands, r_type-Expands, low_reg-eq, high_reg-eq, wide_rd-eq, wide_rs2-eq,
  imm_ci-Fits, c_lw-Expands, c_ld-Expands, c_fld-Expands, c_sw-Expands, c_sd-Expands, c_fsd-Expands,
  c_addiw-Expands, c_li-Expands, c_slli-Expands, c_fldsp-Expands, c_swsp-Expands, c_sdsp-Expands,
  c_fsdsp-Expands,
}

module _ (inst : ℕ) where
  c_addi4spn-Expands :
      Expands
        (if nzuimm_addi4spn inst == 0
          then reserved
          else i_type Op.op_imm 0 (rd' inst) 2 (nzuimm_addi4spn inst))
        (c_addi4spn inst)
  unfolding c_addi4spn
  c_addi4spn-Expands =
      let u = nzuimm_addi4spn inst in
      rw (addi4spn-sum inst) (
        both Expands (u == 0) refl (
          i_type-Expands Op.op_imm 0 (low_reg inst) 2 u (rd' inst) 2 u (low_reg-eq inst) refl refl
            (omega arith) (omega arith) (omega arith) (omega arith) (omega arith)))

  c_lwsp-Expands :
      Expands
        (if rd inst == 0 then reserved else i_type Op.load 2 (rd inst) 2 (uimm_lwsp inst))
        (c_lwsp inst)
  unfolding c_lwsp
  c_lwsp-Expands =
      let u = uimm_lwsp inst in
      rw (lwsp-sum inst, wide_rd-eq inst)
        (both Expands (rd inst == 0) refl (
          i_type-Expands Op.load 2 (rd inst) 2 u (rd inst) 2 u refl refl refl (omega arith)
            (omega arith) (omega arith) (omega arith) (omega arith)))

  c_ldsp-Expands :
      Expands
        (if rd inst == 0 then reserved else i_type Op.load 3 (rd inst) 2 (uimm_ldsp inst))
        (c_ldsp inst)
  unfolding c_ldsp
  c_ldsp-Expands =
      let u = uimm_ldsp inst in
      rw (ldsp-sum inst, wide_rd-eq inst)
        (both Expands (rd inst == 0) refl (
          i_type-Expands Op.load 3 (rd inst) 2 u (rd inst) 2 u refl refl refl (omega arith)
            (omega arith) (omega arith) (omega arith) (omega arith)))

  c_addi-Expands : Expands (i_type Op.op_imm 0 (rd inst) (rd inst) (imm_ci inst)) (c_addi inst)
  unfolding c_addi
  c_addi-Expands =
      rw (imm6-sum inst, wide_rd-eq inst)
        (on_if (Expands (i_type Op.op_imm 0 (rd inst) (rd inst) (imm_ci inst)))
          ((rd inst == 0) && (imm_ci inst == 0))
          (λ e.
            i_type-Expands Op.op_imm 0 0 0 0 (rd inst) (rd inst) (imm_ci inst) (ground (arith, e))
              (ground (arith, e)) (ground (arith, e)) (omega arith) (omega arith) (omega arith)
              (omega arith) (imm_ci-Fits inst))
          (λ e.
            i_type-Expands Op.op_imm 0 (rd inst) (rd inst) (imm_ci inst) (rd inst) (rd inst)
              (imm_ci inst) refl refl refl (omega arith) (omega arith) (omega arith) (omega arith)
              (imm_ci-Fits inst)))

  c_addi16sp_lui-Expands : Expands (addi16sp_lui inst) (c_addi16sp_lui inst)
  unfolding c_addi16sp_lui
  c_addi16sp_lui-Expands =
      let i = nzimm_addi16sp inst in
      let u = imm_ci inst * 4096 % 4294967296 in
      rw (imm6_swapped-sum inst, addi16sp-sum inst, wide_rd-eq inst)
        (both Expands (rd inst == 2)
          (i_type-Expands Op.op_imm 0 2 2 i 2 2 i refl refl refl (omega arith) (omega arith)
            (omega arith) (omega arith) (ground arith))
          (both Expands (imm_ci inst == 0) refl (
            encode_u Op.lui (rd inst) u,
            refl,
            encode_u-DecodesU Op.lui (omega arith) (rd inst) u (omega arith) (omega arith)
                (omega arith),
          )))

  c_j-Expands : Expands (j_type 0 (imm_cj inst)) (c_j inst)
  unfolding c_j
  c_j-Expands =
      let i = imm_cj inst in
      rw (decode_cj_imm-sum inst) (
        encode_j Op.jal 0 i,
        refl,
        encode_j-DecodesU Op.jal (omega arith) 0 i (omega arith) (ground arith) (ground arith),
      )

  branch-Expands :
      (f : ℕ)
      → f < 8
      → Expands
          (b_type f (rs1' inst) 0 (imm_cb inst))
          (some (encode_b Op.branch (high_reg inst) 0 f (decode_cb_imm inst)))
  branch-Expands f hf =
      let i = imm_cb inst in
      rw (decode_cb_imm-sum inst, high_reg-eq inst)
        (
          encode_b Op.branch (rs1' inst) 0 f i,
          refl,
          encode_b-DecodesS Op.branch (omega arith) (rs1' inst) 0 f i (omega arith) (omega arith) hf
              (ground arith) (ground arith),
        )

  -- A register operation on the three-bit registers.
  pair-Expands :
      (op f g : ℕ)
      → op < 128
      → f < 8
      → g < 128
      → Expands
          (r_type op f g (rs1' inst) (rs1' inst) (rd' inst))
          (some (encode_r op (high_reg inst) (high_reg inst) (low_reg inst) f g))
  pair-Expands op f g hop hf hg =
      r_type-Expands op f g (high_reg inst) (high_reg inst) (low_reg inst) (rs1' inst) (rs1' inst)
        (rd' inst) (high_reg-eq inst) (high_reg-eq inst) (low_reg-eq inst) hop hf hg (omega arith)
        (omega arith) (omega arith)

  c_alu_reg-Expands : Expands (alu_reg inst) (c_alu_reg inst)
  unfolding c_alu_reg
  c_alu_reg-Expands =
      let o = bits inst 6 5 in
      rw (bit_and_mask 1 (inst / 4096), bit_and_mask 2 (inst / 32))
        (both Expands (bits inst 12 12 == 0)
          (both Expands (o == 0)
            (pair-Expands Op.op 0 0x20 (omega arith) (omega arith) (omega arith))
            (both Expands (o == 1)
              (pair-Expands Op.op 4 0 (omega arith) (omega arith) (omega arith))
              (both Expands (o == 2)
                (pair-Expands Op.op 6 0 (omega arith) (omega arith) (omega arith))
                (pair-Expands Op.op 7 0 (omega arith) (omega arith) (omega arith)))))
          (both Expands (o == 0)
            (pair-Expands Op.op_32 0 0x20 (omega arith) (omega arith) (omega arith))
            (both Expands (o == 1)
              (pair-Expands Op.op_32 0 0 (omega arith) (omega arith) (omega arith)) refl)))

  -- An immediate operation on a three-bit register.
  single-Expands :
      (f i i' : ℕ)
      → f < 8
      → i ≡ i'
      → Fits 12 i'
      → Expands
          (i_type Op.op_imm f (rs1' inst) (rs1' inst) i')
          (some (encode_i Op.op_imm (high_reg inst) (high_reg inst) f i))
  single-Expands f i i' hf e hi =
      i_type-Expands Op.op_imm f (high_reg inst) (high_reg inst) i (rs1' inst) (rs1' inst) i'
        (high_reg-eq inst) (high_reg-eq inst) e (omega arith) hf (omega arith) (omega arith) hi

  c_alu_imm-Expands : Expands (alu inst) (c_alu_imm inst)
  unfolding c_alu_imm
  c_alu_imm-Expands =
      let o = bits inst 11 10 in
      let right = or_low 10 1024 (shamt inst) (omega arith) (omega arith) in
      rw (bit_and_mask 2 (inst / 1024)) (
        both Expands (o == 0)
          (single-Expands 5 (shamt6 inst) (shamt inst) (omega arith) (shamt6-sum inst)
            (omega arith))
          (both Expands (o == 1)
            (single-Expands 5 (bit_or 1024 (shamt6 inst)) (1024 + shamt inst) (omega arith)
              (rw (shamt6-sum inst) right) (omega arith))
            (both Expands (o == 2)
              (single-Expands 7 (imm6 inst) (imm_ci inst) (omega arith) (imm6-sum inst)
                (imm_ci-Fits inst))
              c_alu_reg-Expands)))

  c_misc_alu-Expands : Expands (jr_mv_add inst) (c_misc_alu inst)
  unfolding c_misc_alu
  c_misc_alu-Expands =
      let d = rd inst in
      let b = rs2 inst in
      let jump = λ (link : ℕ) (h : link < 32).
        i_type-Expands Op.jalr 0 link d 0 link d 0 refl refl refl (omega arith) (omega arith) h
          (omega arith) (omega arith) in
      let sum = λ (a : ℕ) (h : a < 32).
        r_type-Expands Op.op 0 0 d a b d a b refl refl refl (omega arith) (omega arith)
          (omega arith) (omega arith) h (omega arith) in
      rw (bit_and_mask 1 (inst / 4096), wide_rs2-eq inst, wide_rd-eq inst)
        (both Expands (bits inst 12 12 == 0)
          (both Expands (b == 0) (both Expands (d == 0) refl (jump 0 (omega arith)))
            (sum 0 (omega arith)))
          (both Expands (b == 0) (both Expands (d == 0) refl (jump 1 (omega arith)))
            (sum d (omega arith))))

  -- Each 16-bit instruction expands to a word that the decoder reads as the operation, registers
  -- and immediate that the tables of the extension list for it, and the reserved encodings,
  -- C.ADDIW to x0 and C.ADDI16SP with a zero immediate excepted, to none.
  pub expand_compressed-meaning : Expands (meaning inst) (expand_compressed inst)
  unfolding expand_compressed meaning c_beqz c_bnez
  expand_compressed-meaning =
      let f = bits inst 15 13 in
      let q = inst % 4 in
      let whole : inst / 1 ≡ inst = omega arith in
      rw (bit_and_mask 3 (inst / 8192), bit_and_mask 2 inst, whole)
        (both Expands ((f == 0) && (q == 0)) (c_addi4spn-Expands) (
          both Expands ((f == 1) && (q == 0)) (c_fld-Expands inst) (
            both Expands ((f == 2) && (q == 0)) (c_lw-Expands inst) (
              both Expands ((f == 3) && (q == 0)) (c_ld-Expands inst) (
                both Expands ((f == 5) && (q == 0)) (c_fsd-Expands inst) (
                  both Expands ((f == 6) && (q == 0)) (c_sw-Expands inst) (
                    both Expands ((f == 7) && (q == 0)) (c_sd-Expands inst) (
                      both Expands ((f == 0) && (q == 1)) (c_addi-Expands) (
                        both Expands ((f == 1) && (q == 1)) (c_addiw-Expands inst) (
                          both Expands ((f == 2) && (q == 1)) (c_li-Expands inst) (
                            both Expands ((f == 3) && (q == 1)) (c_addi16sp_lui-Expands) (
                              both Expands ((f == 4) && (q == 1)) (c_alu_imm-Expands) (
                                both Expands ((f == 5) && (q == 1)) (c_j-Expands) (
                                  both Expands ((f == 6) && (q == 1))
                                    (branch-Expands 0 (omega arith))
                                    (both Expands ((f == 7) && (q == 1))
                                      (branch-Expands 1 (omega arith))
                                      (both Expands ((f == 0) && (q == 2)) (c_slli-Expands inst) (
                                        both Expands ((f == 1) && (q == 2)) (c_fldsp-Expands inst) (
                                          both Expands ((f == 2) && (q == 2)) (c_lwsp-Expands) (
                                            both Expands ((f == 3) && (q == 2)) (c_ldsp-Expands) (
                                              both Expands ((f == 4) && (q == 2))
                                                (c_misc_alu-Expands)
                                                (both Expands ((f == 5) && (q == 2))
                                                  (c_fsdsp-Expands inst)
                                                  (both Expands ((f == 6) && (q == 2))
                                                    (c_swsp-Expands inst)
                                                    (both Expands ((f == 7) && (q == 2))
                                                      (c_sdsp-Expands inst)
                                                      (refl))))))))))))))))))))))))
