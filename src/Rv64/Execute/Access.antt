-- ===== src/Rv64/Execute/Access.antt =====
-- Loads and stores of the 64-bit hart (src/cpu/rv64/execute.rs).
use otorisc_v.Base.{
  ℕ, zero, suc, ◌*◌, Bool, ◌&&◌, ◌==◌, ◌!=◌, if◌then◌else◌, add32, add64, shl64, u8, u16, u32,
  ◌>>>◌, ◌&&&◌, ◌|||◌, Result, ok, err,
}
use otorisc_v.Privilege.{PrivilegeLevel, machine, is_priv, from_u8}
use otorisc_v.Bus.{Bus}
use otorisc_v.Trap.{has, illegal_instruction}
use otorisc_v.Mmu.{AccessType, load, store}
use otorisc_v.Rv64.Op
use otorisc_v.Rv64.Csr.Bits
use otorisc_v.Rv64.Mmu.{translate}
use otorisc_v.Rv64.Cpu.{Cpu64, read_reg, write_reg, map_paddr}
use otorisc_v.Rv64.Trap.{Trap64, from_cause}
use otorisc_v.Rv64.Decode.{DecodedInst, imm_i, imm_s}
use otorisc_v.Rv64.Execute.Integer.{Outcome, next_pc, illegal, sext32}
use otorisc_v.Rv64.Execute.Bitmanip.{sext_byte, sext_half}

-- The privilege of a load or store: with MPRV set, machine mode acts as its previous level.
unfoldable pub data_priv : Cpu64 → PrivilegeLevel
data_priv cpu =
    if has cpu.csr.mstatus Bits.mprv && is_priv cpu.priv_level machine
    then from_u8 (cpu.csr.mstatus >>> 11 &&& 3)
    else cpu.priv_level

-- The answer of the translation as a bus address or a trap.
abbrev pub mapped : ℕ → Result ℕ ℕ → Result Trap64 ℕ
mapped vaddr (ok paddr) = map_paddr paddr
mapped vaddr (err cause) = err (from_cause cause vaddr)

module _ {S : Type 0} (bus : Bus S) (debug : Bool) where
  -- `self.mmu.translate(..)` at a privilege, then `map_paddr`.
  unfoldable pub translate_at :
      PrivilegeLevel → Cpu64 → S → ℕ → AccessType → Result Trap64 ℕ × Cpu64 × S
  translate_at priv cpu s vaddr access =
      let (answer, m, s') =
        translate bus debug cpu.mmu s vaddr access priv cpu.csr.satp cpu.csr.mstatus in
      (mapped vaddr answer, record cpu { mmu = m }, s')

  -- Bytes read one by one, lowest first, from byte `i` on.
  unfoldable pub read_bytes : ℕ → ℕ → S → ℕ → ℕ → ℕ × S
  read_bytes zero i s addr v = (v, s)
  read_bytes (suc n) i s addr v =
      let (b, s') = bus.read8 s (add32 addr i) in
      read_bytes n (suc i) s' addr (v ||| shl64 b (i * 8))

  abbrev pub read_half : S → ℕ → ℕ → ℕ × S
  read_half s vaddr addr = if (vaddr &&& 1) != 0 then read_bytes 2 0 s addr 0 else bus.read16 s addr

  abbrev pub read_word : S → ℕ → ℕ → ℕ × S
  read_word s vaddr addr = if (vaddr &&& 3) != 0 then read_bytes 4 0 s addr 0 else bus.read32 s addr

  abbrev pub read_double : S → ℕ → ℕ → ℕ × S
  read_double s vaddr addr =
      if (vaddr &&& 7) != 0 then read_bytes 8 0 s addr 0 else bus.read64 s addr

  abbrev pub loaded : (ℕ → ℕ) → ℕ × S → Result Trap64 ℕ × S
  loaded f (v, s) = (ok (f v), s)

  unfoldable pub load_value : ℕ → ℕ → S → ℕ → ℕ → Result Trap64 ℕ × S
  unfolding read_bytes
  load_value inst funct3 s vaddr addr =
      if funct3 == Op.funct3_lb
      then loaded sext_byte (bus.read8 s addr)
      else if funct3 == Op.funct3_lh
      then loaded sext_half (read_half s vaddr addr)
      else if funct3 == Op.funct3_lw
      then loaded sext32 (read_word s vaddr addr)
      else if funct3 == Op.funct3_lbu
      then loaded (λ v. v) (bus.read8 s addr)
      else if funct3 == Op.funct3_lhu
      then loaded (λ v. v) (read_half s vaddr addr)
      else if funct3 == Op.funct3_lwu
      then loaded (λ v. v) (read_word s vaddr addr)
      else if funct3 == Op.funct3_ld
      then loaded (λ v. v) (read_double s vaddr addr)
      else (err (illegal_instruction inst), s)

  abbrev pub finish_load : ℕ → Cpu64 → Result Trap64 ℕ × S → Outcome S
  finish_load rd cpu (ok value, s) = (ok tt, next_pc (write_reg cpu rd value), s)
  finish_load rd cpu (err t, s) = (err t, cpu, s)

  abbrev pub load_from : ℕ → DecodedInst → ℕ → Result Trap64 ℕ × Cpu64 × S → Outcome S
  load_from inst d vaddr (ok addr, cpu, s) =
      finish_load d.rd cpu (load_value inst d.funct3 s vaddr addr)
  load_from inst d vaddr (err t, cpu, s) = (err t, cpu, s)

  unfoldable pub execute_load : ℕ → DecodedInst → Cpu64 → S → Outcome S
  unfolding translate_at load_value data_priv
  execute_load inst d cpu s =
      let vaddr = add64 (read_reg cpu d.rs1) (sext32 (imm_i inst)) in
      load_from inst d vaddr (translate_at (data_priv cpu) cpu s vaddr load)

  -- Bytes written one by one, lowest first, from byte `i` on.
  unfoldable pub write_bytes : ℕ → ℕ → S → ℕ → ℕ → S
  write_bytes zero i s addr value = s
  write_bytes (suc n) i s addr value =
      write_bytes n (suc i) (bus.write8 s (add32 addr i) (u8 (value >>> (i * 8)))) addr value

  abbrev pub stored : Cpu64 → ℕ → ℕ → S → Outcome S
  stored cpu paddr value s =
      (ok tt, next_pc (record cpu { last_write_addr = paddr; last_write_val = value }), s)

  -- The bus address is the physical address, which fits.
  unfoldable pub store_value : ℕ → ℕ → Cpu64 → S → ℕ → ℕ → ℕ → Outcome S
  unfolding write_bytes
  store_value inst funct3 cpu s vaddr addr value =
      if funct3 == 0b000
      then stored cpu addr (u8 value) (bus.write8 s addr (u8 value))
      else if funct3 == 0b001
      then stored cpu addr (u16 value) (
          if (vaddr &&& 1) != 0
          then write_bytes 2 0 s addr value
          else bus.write16 s addr (u16 value))
      else if funct3 == 0b010
      then stored cpu addr (u32 value) (
          if (vaddr &&& 3) != 0
          then write_bytes 4 0 s addr value
          else bus.write32 s addr (u32 value))
      else if funct3 == 0b011
      then stored cpu addr value
          (if (vaddr &&& 7) != 0 then write_bytes 8 0 s addr value else bus.write64 s addr value)
      else illegal inst cpu s

  abbrev pub store_to : ℕ → DecodedInst → ℕ → ℕ → Result Trap64 ℕ × Cpu64 × S → Outcome S
  store_to inst d vaddr value (ok addr, cpu, s) = store_value inst d.funct3 cpu s vaddr addr value
  store_to inst d vaddr value (err t, cpu, s) = (err t, cpu, s)

  unfoldable pub execute_store : ℕ → DecodedInst → Cpu64 → S → Outcome S
  unfolding translate_at store_value data_priv
  execute_store inst d cpu s =
      let vaddr = add64 (read_reg cpu d.rs1) (sext32 (imm_s inst)) in
      store_to inst d vaddr (read_reg cpu d.rs2) (translate_at (data_priv cpu) cpu s vaddr store)
