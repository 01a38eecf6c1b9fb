-- ===== src/Rv64/Execute/Amo.antt =====
-- Load-reserved, store-conditional and the atomic read-modify-writes of the 64-bit hart
-- (src/cpu/rv64/execute.rs).
use otorisc_v.Base.{
  ℕ, Bool, ◌==◌, ◌!=◌, if◌then◌else◌, add32, add64, bit_xor, u32, ◌>>>◌, ◌&&&◌, ◌|||◌, lt_signed,
  ltb, Option, none, some, Result, ok, err,
}
use otorisc_v.Bus.{Bus}
use otorisc_v.Mmu.{load, store}
use otorisc_v.Trap.{illegal_instruction, store_address_misaligned}
use otorisc_v.Execute.Amo.{is_reserved}
use otorisc_v.Rv64.Op
use otorisc_v.Rv64.Cpu.{Cpu64, read_reg, write_reg}
use otorisc_v.Rv64.Trap.{Trap64}
use otorisc_v.Rv64.Decode.{DecodedInst}
use otorisc_v.Rv64.Execute.Integer.{Outcome, next_pc, illegal, sext32, lt_signed64}
use otorisc_v.Rv64.Execute.Access.{translate_at}

-- The new value of the location; `add` and `less` are the sum and the signed order of its width.
abbrev pub amo_value : (ℕ → ℕ → ℕ) → (ℕ → ℕ → Bool) → ℕ → ℕ → ℕ → Option ℕ
amo_value add less funct5 old rs2 =
    if funct5 == Op.funct5_amoswap
    then some rs2
    else if funct5 == Op.funct5_amoadd
    then some (add old rs2)
    else if funct5 == Op.funct5_amoxor
    then some (bit_xor old rs2)
    else if funct5 == Op.funct5_amoand
    then some (old &&& rs2)
    else if funct5 == Op.funct5_amoor
    then some (old ||| rs2)
    else if funct5 == Op.funct5_amomin
    then some (if less old rs2 then old else rs2)
    else if funct5 == Op.funct5_amomax
    then some (if less rs2 old then old else rs2)
    else if funct5 == Op.funct5_amominu
    then some (if ltb old rs2 then old else rs2)
    else if funct5 == Op.funct5_amomaxu
    then some (if ltb rs2 old then old else rs2)
    else none

unfoldable pub amo_word_value : ℕ → ℕ → ℕ → Option ℕ
amo_word_value = amo_value add32 lt_signed

unfoldable pub amo_double_value : ℕ → ℕ → ℕ → Option ℕ
amo_double_value = amo_value add64 lt_signed64

module _ {S : Type 0} (bus : Bus S) where
  -- The arm of the read-modify-writes, with the write of the width and the value that rd gets.
  abbrev pub modified : (S → ℕ → S) → ℕ → Cpu64 → ℕ → S → Option ℕ → Outcome S
  modified write rd cpu value s none = (err (illegal_instruction 0), cpu, s)
  modified write rd cpu value s (some new) = (ok tt, write_reg cpu rd value, write s new)

  unfoldable pub execute_amo_word : ℕ → DecodedInst → ℕ → ℕ → Cpu64 → S → Outcome S
  unfolding amo_word_value
  execute_amo_word funct5 d addr vaddr cpu s =
      let (old, s') = bus.read32 s addr in
      if (vaddr &&& 3) != 0
      then (err (store_address_misaligned vaddr), cpu, s)
      else if funct5 == Op.funct5_lr
      then (ok tt, write_reg (record cpu { reservation = some vaddr }) d.rd (sext32 old), s')
      else if funct5 == Op.funct5_sc
      then if is_reserved cpu.reservation vaddr
        then (
          ok tt,
          record (write_reg cpu d.rd 0) { reservation = none },
          bus.write32 s addr (u32 (read_reg cpu d.rs2)),
        )
        else (ok tt, record (write_reg cpu d.rd 1) { reservation = none }, s)
      else modified (λ t new. bus.write32 t addr new) d.rd cpu (sext32 old) s'
          (amo_word_value funct5 old (u32 (read_reg cpu d.rs2)))

  unfoldable pub execute_amo_double : ℕ → DecodedInst → ℕ → ℕ → Cpu64 → S → Outcome S
  unfolding amo_double_value
  execute_amo_double funct5 d addr vaddr cpu s =
      let (old, s') = bus.read64 s addr in
      if (vaddr &&& 7) != 0
      then (err (store_address_misaligned vaddr), cpu, s)
      else if funct5 == Op.funct5_lr
      then (ok tt, write_reg (record cpu { reservation = some vaddr }) d.rd old, s')
      else if funct5 == Op.funct5_sc
      then if is_reserved cpu.reservation vaddr
        then (
          ok tt,
          record (write_reg cpu d.rd 0) { reservation = none },
          bus.write64 s addr (read_reg cpu d.rs2),
        )
        else (ok tt, record (write_reg cpu d.rd 1) { reservation = none }, s)
      else modified (λ t new. bus.write64 t addr new) d.rd cpu old s'
          (amo_double_value funct5 old (read_reg cpu d.rs2))

  abbrev pub advanced : Outcome S → Outcome S
  advanced (ok _, cpu, s) = (ok tt, next_pc cpu, s)
  advanced (err t, cpu, s) = (err t, cpu, s)

  abbrev pub amo_at : ℕ → DecodedInst → ℕ → ℕ → Result Trap64 ℕ × Cpu64 × S → Outcome S
  amo_at inst d funct5 vaddr (ok addr, cpu, s) =
      if d.funct3 == 0b010
      then advanced (execute_amo_word funct5 d addr vaddr cpu s)
      else if d.funct3 == 0b011
      then advanced (execute_amo_double funct5 d addr vaddr cpu s)
      else illegal inst cpu s
  amo_at inst d funct5 vaddr (err t, cpu, s) = (err t, cpu, s)

  -- The translation comes before the test of the alignment, and MPRV plays no part.
  unfoldable pub execute_amo : Bool → ℕ → DecodedInst → Cpu64 → S → Outcome S
  unfolding translate_at execute_amo_word execute_amo_double
  execute_amo debug inst d cpu s =
      let funct5 = inst >>> 27 &&& 0x1F in
      let vaddr = read_reg cpu d.rs1 in
      let access = if funct5 == Op.funct5_lr then load else store in
      amo_at inst d funct5 vaddr (translate_at bus debug cpu.priv_level cpu s vaddr access)
