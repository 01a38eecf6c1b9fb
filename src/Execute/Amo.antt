-- ===== src/Execute/Amo.antt =====
-- Load-reserved, store-conditional and the atomic read-modify-writes (src/cpu/rv32/execute.rs).
use otorisc_v.Base.{
  ℕ, Bool, false, ◌==◌, ◌!=◌, if◌then◌else◌, add32, bit_and, bit_or, bit_xor, ◌>>>◌, lt_signed, ltb,
  Option, none, some, Result, ok, err,
}
use otorisc_v.Bus.{Bus}
use otorisc_v.Mmu.{load, store}
use otorisc_v.Cpu.{Cpu, read_reg, write_reg}
use otorisc_v.Trap.{Trap, store_address_misaligned}
use otorisc_v.Decode.{DecodedInst}
use otorisc_v.Execute.Alu.{Outcome, next_pc, illegal}
use otorisc_v.Execute.Access.{translate_data}

-- The new value of the word.
unfoldable pub amo_value : ℕ → ℕ → ℕ → Option ℕ
amo_value funct5 old rs2 =
    if funct5 == 0b00001
    then some rs2
    else if funct5 == 0b00000
    then some (add32 old rs2)
    else if funct5 == 0b00100
    then some (bit_xor old rs2)
    else if funct5 == 0b01100
    then some (bit_and old rs2)
    else if funct5 == 0b01000
    then some (bit_or old rs2)
    else if funct5 == 0b10000
    then some (if lt_signed rs2 old then rs2 else old)
    else if funct5 == 0b10100
    then some (if lt_signed rs2 old then old else rs2)
    else if funct5 == 0b11000
    then some (if ltb rs2 old then rs2 else old)
    else if funct5 == 0b11100
    then some (if ltb rs2 old then old else rs2)
    else none

abbrev pub is_reserved : Option ℕ → ℕ → Bool
is_reserved none vaddr = false
is_reserved (some a) vaddr = a == vaddr

module _ {S : Type 0} (bus : Bus S) where
  abbrev pub load_reserved : DecodedInst → ℕ → Result Trap ℕ × Cpu × S → Outcome S
  load_reserved d vaddr (err t, cpu, s) = (err t, cpu, s)
  load_reserved d vaddr (ok paddr, cpu, s) =
      let (value, s') = bus.read32 s paddr in
      (ok tt, next_pc (record (write_reg cpu d.rd value) { reservation = some vaddr }), s')

  abbrev pub store_conditional : DecodedInst → Result Trap ℕ × Cpu × S → Outcome S
  store_conditional d (err t, cpu, s) = (err t, cpu, s)
  store_conditional d (ok paddr, cpu, s) = (
    ok tt,
    next_pc (record (write_reg cpu d.rd 0) { reservation = none }),
    bus.write32 s paddr (read_reg cpu d.rs2),
  )

  abbrev pub modify : ℕ → DecodedInst → Cpu → S → ℕ → ℕ → Option ℕ → Outcome S
  modify inst d cpu s paddr old none = illegal inst cpu s
  modify inst d cpu s paddr old (some new) =
      (ok tt, next_pc (write_reg cpu d.rd old), bus.write32 s paddr new)

  abbrev pub read_modify : ℕ → DecodedInst → ℕ → Result Trap ℕ × Cpu × S → Outcome S
  read_modify inst d funct5 (err t, cpu, s) = (err t, cpu, s)
  read_modify inst d funct5 (ok paddr, cpu, s) =
      let (old, s') = bus.read32 s paddr in
      modify inst d cpu s' paddr old (amo_value funct5 old (read_reg cpu d.rs2))

  unfoldable pub execute_amo : ℕ → DecodedInst → Cpu → S → Outcome S
  unfolding translate_data amo_value
  execute_amo inst d cpu s =
      let vaddr = read_reg cpu d.rs1 in
      let funct5 = d.funct7 >>> 2 in
      if bit_and vaddr 3 != 0
      then (err (store_address_misaligned vaddr), cpu, s)
      else if funct5 == 0b00010
      then load_reserved d vaddr (translate_data bus cpu s vaddr load)
      else if funct5 == 0b00011
      then if is_reserved cpu.reservation vaddr
        then store_conditional d (translate_data bus cpu s vaddr store)
        else (ok tt, next_pc (record (write_reg cpu d.rd 1) { reservation = none }), s)
      else read_modify inst d funct5 (translate_data bus cpu s vaddr store)
