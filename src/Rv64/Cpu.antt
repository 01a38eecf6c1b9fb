-- ===== src/Rv64/Cpu.antt =====
-- The state of the 64-bit hart (src/cpu/rv64/mod.rs), without the trackers that only print.
use otorisc_v.Base.{ℕ, ◌==◌, ◌&&&◌, ltb, Bool, false, Option, none, if◌then◌else◌, Result, ok, err}
use otorisc_v.Privilege.{PrivilegeLevel, machine}
use otorisc_v.Rv64.Csr.{Csr64}
use otorisc_v.Rv64.Csr
use otorisc_v.Rv64.Mmu.{Mmu64}
use otorisc_v.Rv64.Mmu
use otorisc_v.Fpu.{Fpu}
use otorisc_v.Fpu
use otorisc_v.Trap.{Trap, load_access_fault}

-- The array of 32 registers is a function: every index is masked to five bits.
pub record Cpu64 : Type 0 where
  pub pc : ℕ
  pub regs : ℕ → ℕ
  pub fpu : Fpu
  pub csr : Csr64
  pub priv_level : PrivilegeLevel
  pub wfi : Bool
  pub cache_invalidation_pending : Bool
  pub reservation : Option ℕ
  pub instruction_count : ℕ
  pub mmu : Mmu64
  pub last_write_addr : ℕ
  pub last_write_val : ℕ

unfoldable pub new : Cpu64
new = record {
  pc = 0x1000;
  regs = λ _. 0;
  fpu = Fpu.new;
  csr = Csr.new;
  priv_level = machine;
  wfi = false;
  cache_invalidation_pending = false;
  reservation = none;
  instruction_count = 0;
  mmu = Mmu.new;
  last_write_addr = 0;
  last_write_val = 0;
}

unfoldable pub read_reg : Cpu64 → ℕ → ℕ
read_reg cpu reg = if reg == 0 then 0 else cpu.regs (reg &&& 0x1F)

unfoldable pub write_reg : Cpu64 → ℕ → ℕ → Cpu64
write_reg cpu reg value =
    if reg == 0
    then cpu
    else record cpu { regs = λ j. if (reg &&& 0x1F) == j then value else cpu.regs j }

unfoldable pub reset : Cpu64 → Cpu64
reset cpu = record cpu {
  pc = 0x1000;
  regs = λ _. 0;
  fpu = Fpu.reset cpu.fpu;
  csr = Csr.reset cpu.csr;
  priv_level = machine;
  wfi = false;
  cache_invalidation_pending = false;
  reservation = none;
  mmu = Mmu.reset cpu.mmu;
}

-- The bus has 32-bit addresses; any other physical address is a load access fault.
unfoldable pub map_paddr : ℕ → Result Trap ℕ
map_paddr paddr = if ltb 0xFFFFFFFF paddr then err (load_access_fault paddr) else ok paddr
