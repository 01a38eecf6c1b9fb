-- ===== src/Cpu.antt =====
-- The state of the 32-bit hart (src/cpu/rv32/mod.rs).
pub mod Registers
use otorisc_v.Base.{ℕ, ◌%◌, ◌==◌, Bool, false, Option, none, bit_and, if◌then◌else◌}
use otorisc_v.Privilege.{PrivilegeLevel, machine}
use otorisc_v.Csr.{Csr}
use otorisc_v.Csr
use otorisc_v.Mmu.{Mmu}
use otorisc_v.Mmu
use otorisc_v.Icache.{Icache}
use otorisc_v.Icache
use otorisc_v.Fpu.{Fpu}
use otorisc_v.Fpu

-- The array of 32 registers is a function: every index is masked to five bits.
pub record Cpu : Type 0 where
  pub pc : ℕ
  pub regs : ℕ → ℕ
  pub fpu : Fpu
  pub csr : Csr
  pub priv_level : PrivilegeLevel
  pub wfi : Bool
  pub reservation : Option ℕ
  pub instruction_count : ℕ  -- u64
  pub mmu : Mmu
  pub icache : Icache
  pub cache_invalidation_pending : Bool
  pub last_write_addr : ℕ
  pub last_write_val : ℕ

unfoldable pub new : Cpu
new = record {
  pc = 0x1000;
  regs = λ _. 0;
  fpu = Fpu.new;
  csr = Csr.new;
  priv_level = machine;
  wfi = false;
  reservation = none;
  instruction_count = 0;
  mmu = Mmu.new;
  icache = Icache.new;
  cache_invalidation_pending = false;
  last_write_addr = 0;
  last_write_val = 0;
}

unfoldable pub read_reg : Cpu → ℕ → ℕ
read_reg cpu reg = if reg == 0 then 0 else cpu.regs (bit_and reg 0x1F)

unfoldable pub write_reg : Cpu → ℕ → ℕ → Cpu
write_reg cpu reg value =
    if reg == 0
    then cpu
    else record cpu { regs = λ j. if bit_and reg 0x1F == j then value else cpu.regs j }

unfoldable pub reset : Cpu → Cpu
reset cpu = record cpu {
  pc = 0x1000;
  regs = λ _. 0;
  fpu = Fpu.reset cpu.fpu;
  csr = Csr.reset cpu.csr;
  priv_level = machine;
  wfi = false;
  reservation = none;
  mmu = Mmu.reset cpu.mmu;
  cache_invalidation_pending = false;
}
