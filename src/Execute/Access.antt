-- ===== src/Execute/Access.antt =====
-- Loads and stores (src/cpu/rv32/execute.rs).
use otorisc_v.Base.{
  ℕ, ◌&&◌, ◌==◌, ◌!=◌, if◌then◌else◌, add32, bit_and, bit_or, u8, u16, ◌>>>◌, ◌<<<◌, sext8, sext16,
  Result, ok, err,
}
use otorisc_v.Privilege.{PrivilegeLevel, machine, is_priv, from_u8}
use otorisc_v.Bus.{Bus}
use otorisc_v.Csr.Mstatus
use otorisc_v.Mmu.{AccessType, load, store, translate, Mmu}
use otorisc_v.Cpu.{Cpu, read_reg, write_reg}
use otorisc_v.Trap.{Trap, from_cause, illegal_instruction, has}
use otorisc_v.Decode.{DecodedInst, imm_i, imm_s}
use otorisc_v.Execute.Alu.{Outcome, next_pc, illegal}

-- The privilege of a load or store: with MPRV set, machine mode acts as its previous level.
unfoldable pub data_priv : Cpu → PrivilegeLevel
data_priv cpu =
    if has cpu.csr.mstatus Mstatus.mprv && is_priv cpu.priv_level machine
    then from_u8 (bit_and (cpu.csr.mstatus >>> 11) 3)
    else cpu.priv_level

abbrev pub with_mmu : Cpu → Mmu → Cpu
with_mmu cpu m = record cpu { mmu = m }

module _ {S : Type 0} (bus : Bus S) where
  -- `self.mmu.translate(..)` for data, its error turned into a trap.
  unfoldable pub translate_data : Cpu → S → ℕ → AccessType → Result Trap ℕ × Cpu × S
  unfolding data_priv
  translate_data cpu s vaddr access =
      let (answer, m, s') =
        translate bus cpu.mmu s vaddr access (data_priv cpu) cpu.csr.satp cpu.csr.mstatus in
      (
        elim answer [ ok paddr ↦ ok paddr | err cause ↦ err (from_cause cause vaddr) ],
        with_mmu cpu m,
        s',
      )

  -- Two and four bytes read one by one, lowest first.
  unfoldable pub read_bytes2 : S → ℕ → ℕ × S
  read_bytes2 s paddr =
      let (b0, s1) = bus.read8 s paddr in
      let (b1, s2) = bus.read8 s1 (add32 paddr 1) in (bit_or (b1 <<< 8) b0, s2)

  unfoldable pub read_bytes4 : S → ℕ → ℕ × S
  read_bytes4 s paddr =
      let (b0, s1) = bus.read8 s paddr in
      let (b1, s2) = bus.read8 s1 (add32 paddr 1) in
      let (b2, s3) = bus.read8 s2 (add32 paddr 2) in
      let (b3, s4) = bus.read8 s3 (add32 paddr 3) in
      (bit_or (bit_or (bit_or (b3 <<< 24) (b2 <<< 16)) (b1 <<< 8)) b0, s4)

  abbrev pub read_half : S → ℕ → ℕ → ℕ × S
  read_half s vaddr paddr = if bit_and vaddr 1 != 0 then read_bytes2 s paddr else bus.read16 s paddr

  abbrev pub read_word : S → ℕ → ℕ → ℕ × S
  read_word s vaddr paddr = if bit_and vaddr 3 != 0 then read_bytes4 s paddr else bus.read32 s paddr

  abbrev pub mapped : (ℕ → ℕ) → ℕ × S → Result Trap ℕ × S
  mapped f (v, s) = (ok (f v), s)

  unfoldable pub load_value : ℕ → ℕ → S → ℕ → ℕ → Result Trap ℕ × S
  unfolding read_bytes2 read_bytes4
  load_value inst funct3 s vaddr paddr =
      if funct3 == 0
      then mapped sext8 (bus.read8 s paddr)
      else if funct3 == 1
      then mapped sext16 (read_half s vaddr paddr)
      else if funct3 == 2
      then mapped (λ v. v) (read_word s vaddr paddr)
      else if funct3 == 4
      then mapped (λ v. v) (bus.read8 s paddr)
      else if funct3 == 5
      then mapped (λ v. v) (read_half s vaddr paddr)
      else (err (illegal_instruction inst), s)

  abbrev pub finish_load : ℕ → Cpu → Result Trap ℕ × S → Outcome S
  finish_load rd cpu (ok value, s) = (ok tt, next_pc (write_reg cpu rd value), s)
  finish_load rd cpu (err t, s) = (err t, cpu, s)

  abbrev pub load_from : ℕ → DecodedInst → ℕ → Result Trap ℕ × Cpu × S → Outcome S
  load_from inst d vaddr (ok paddr, cpu, s) =
      finish_load d.rd cpu (load_value inst d.funct3 s vaddr paddr)
  load_from inst d vaddr (err t, cpu, s) = (err t, cpu, s)

  unfoldable pub execute_load : ℕ → DecodedInst → Cpu → S → Outcome S
  unfolding translate_data load_value
  execute_load inst d cpu s =
      let vaddr = add32 (read_reg cpu d.rs1) (imm_i inst) in
      load_from inst d vaddr (translate_data cpu s vaddr load)

  unfoldable pub write_bytes2 : S → ℕ → ℕ → S
  write_bytes2 s paddr value =
      let s1 = bus.write8 s paddr (u8 value) in bus.write8 s1 (add32 paddr 1) (u8 (value >>> 8))

  unfoldable pub write_bytes4 : S → ℕ → ℕ → S
  write_bytes4 s paddr value =
      let s1 = bus.write8 s paddr (u8 value) in
      let s2 = bus.write8 s1 (add32 paddr 1) (u8 (value >>> 8)) in
      let s3 = bus.write8 s2 (add32 paddr 2) (u8 (value >>> 16)) in
      bus.write8 s3 (add32 paddr 3) (u8 (value >>> 24))

  abbrev pub stored : Cpu → ℕ → ℕ → S → Outcome S
  stored cpu paddr value s =
      (ok tt, next_pc (record cpu { last_write_addr = paddr; last_write_val = value }), s)

  unfoldable pub store_value : ℕ → ℕ → Cpu → S → ℕ → ℕ → ℕ → Outcome S
  unfolding write_bytes2 write_bytes4
  store_value inst funct3 cpu s vaddr paddr value =
      if funct3 == 0
      then stored cpu paddr (u8 value) (bus.write8 s paddr (u8 value))
      else if funct3 == 1
      then stored cpu paddr (u16 value) (
          if bit_and vaddr 1 != 0
          then write_bytes2 s paddr value
          else bus.write16 s paddr (u16 value))
      else if funct3 == 2
      then stored cpu paddr value
          (if bit_and vaddr 3 != 0 then write_bytes4 s paddr value else bus.write32 s paddr value)
      else illegal inst cpu s

  abbrev pub store_to : ℕ → DecodedInst → ℕ → ℕ → Result Trap ℕ × Cpu × S → Outcome S
  store_to inst d vaddr value (ok paddr, cpu, s) = store_value inst d.funct3 cpu s vaddr paddr value
  store_to inst d vaddr value (err t, cpu, s) = (err t, cpu, s)

  unfoldable pub execute_store : ℕ → DecodedInst → Cpu → S → Outcome S
  unfolding translate_data store_value
  execute_store inst d cpu s =
      let vaddr = add32 (read_reg cpu d.rs1) (imm_s inst) in
      store_to inst d vaddr (read_reg cpu d.rs2) (translate_data cpu s vaddr store)
