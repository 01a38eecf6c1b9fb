-- ===== src/Csr.antt =====
-- The control and status registers of the 32-bit hart (src/cpu/rv32/csr.rs).
pub mod Mstatus
pub mod Mip
pub mod Names
pub mod Masks
pub mod Access
pub mod Isolation
use otorisc_v.Base.{
  ℕ, zero, suc, ◌+◌, ◌-◌, ◌*◌, ◌/◌, ◌%◌, ◌^◌, Bool, true, false, Option, none, some, ltb, ◌==◌,
  bit_and, bit_or, if◌then◌else◌, ◌>>>◌, not32, u32,
}
use otorisc_v.Privilege.{PrivilegeLevel, as_u8}
use Mstatus
use Mip
use Names.{CsrName, csr_name}

pub record Csr : Type 0 where
  pub mstatus : ℕ
  pub misa : ℕ
  pub medeleg : ℕ
  pub mideleg : ℕ
  pub mie : ℕ
  pub mtvec : ℕ
  pub mcounteren : ℕ
  pub mscratch : ℕ
  pub mepc : ℕ
  pub mcause : ℕ
  pub mtval : ℕ
  pub mip : ℕ
  pub stvec : ℕ
  pub scounteren : ℕ
  pub sscratch : ℕ
  pub sepc : ℕ
  pub scause : ℕ
  pub stval : ℕ
  pub satp : ℕ
  pub cycle : ℕ  -- u64
  pub time : ℕ  -- u64

-- `Csr::new`: misa is (1 << 30) | (1 << 8) | (1 << 12) | (1 << 0) | (1 << 18) | (1 << 5) | (1 << 3).
unfoldable pub new : Csr
new = record {
  mstatus = Mstatus.fs;
  misa =
      bit_or 0x40000000
        (bit_or 0x100 (bit_or 0x1000 (bit_or 0x1 (bit_or 0x40000 (bit_or 0x20 0x8)))));
  medeleg = 0;
  mideleg = 0;
  mie = 0;
  mtvec = 0;
  mcounteren = 0;
  mscratch = 0;
  mepc = 0;
  mcause = 0;
  mtval = 0;
  mip = 0;
  stvec = 0;
  scounteren = 0;
  sscratch = 0;
  sepc = 0;
  scause = 0;
  stval = 0;
  satp = 0;
  cycle = 0;
  time = 0;
}

-- Bits 9 and 8 of an address are the least privilege that may use it.
abbrev pub min_priv : ℕ → ℕ
min_priv addr = bit_and (addr >>> 8) 3

-- The arms of `read`.
unfoldable pub read_register : CsrName → Csr → ℕ
read_register CsrName.mstatus c = c.mstatus
read_register CsrName.misa c = c.misa
read_register CsrName.medeleg c = c.medeleg
read_register CsrName.mideleg c = c.mideleg
read_register CsrName.mie c = c.mie
read_register CsrName.mtvec c = c.mtvec
read_register CsrName.mcounteren c = c.mcounteren
read_register CsrName.mscratch c = c.mscratch
read_register CsrName.mepc c = c.mepc
read_register CsrName.mcause c = c.mcause
read_register CsrName.mtval c = c.mtval
read_register CsrName.mip c = c.mip
read_register CsrName.mhartid c = 0
read_register CsrName.sstatus c = bit_and c.mstatus Mstatus.read_sstatus_mask
read_register CsrName.sie c = bit_and c.mie c.mideleg
read_register CsrName.stvec c = c.stvec
read_register CsrName.scounteren c = c.scounteren
read_register CsrName.sscratch c = c.sscratch
read_register CsrName.sepc c = c.sepc
read_register CsrName.scause c = c.scause
read_register CsrName.stval c = c.stval
read_register CsrName.sip c = bit_and c.mip c.mideleg
read_register CsrName.satp c = c.satp
read_register CsrName.cycle c = u32 c.cycle
read_register CsrName.instret c = u32 c.cycle
read_register CsrName.cycleh c = u32 (c.cycle / 2 ^ 32)
read_register CsrName.instreth c = u32 (c.cycle / 2 ^ 32)
read_register CsrName.time c = u32 c.time
read_register CsrName.timeh c = u32 (c.time / 2 ^ 32)
read_register CsrName.fcsr c = 0
read_register CsrName.fflags c = 0
read_register CsrName.frm c = 0
read_register CsrName.unknown c = 0

unfoldable pub read : Csr → ℕ → PrivilegeLevel → Option ℕ
read c addr priv =
    if ltb (as_u8 priv) (min_priv addr) then none else some (read_register (csr_name addr) c)

-- The arms of `write`; `none` is the arm that returns false.
unfoldable pub write_register : CsrName → ℕ → Csr → Option Csr
write_register CsrName.mstatus v c =
    some (record c { mstatus = bit_and v Mstatus.write_mstatus_mask })
write_register CsrName.medeleg v c = some (record c { medeleg = v })
write_register CsrName.mideleg v c = some (record c { mideleg = v })
write_register CsrName.mie v c = some (record c { mie = bit_and v Mip.write_mie_mask })
write_register CsrName.mtvec v c = some (record c { mtvec = bit_and v (not32 3) })
write_register CsrName.mcounteren v c = some (record c { mcounteren = v })
write_register CsrName.mscratch v c = some (record c { mscratch = v })
write_register CsrName.mepc v c = some (record c { mepc = bit_and v (not32 1) })
write_register CsrName.mcause v c = some (record c { mcause = v })
write_register CsrName.mtval v c = some (record c { mtval = v })
write_register CsrName.mip v c = some (record c {
  mip = bit_or (bit_and c.mip (not32 Mip.write_mip_mask)) (bit_and v Mip.write_mip_mask);
})
write_register CsrName.sstatus v c = some (record c {
  mstatus =
      bit_or (bit_and c.mstatus (not32 Mstatus.write_sstatus_mask))
        (bit_and v Mstatus.write_sstatus_mask);
})
write_register CsrName.sie v c =
    some (record c { mie = bit_or (bit_and c.mie (not32 c.mideleg)) (bit_and v c.mideleg) })
write_register CsrName.stvec v c = some (record c { stvec = bit_and v (not32 3) })
write_register CsrName.scounteren v c = some (record c { scounteren = v })
write_register CsrName.sscratch v c = some (record c { sscratch = v })
write_register CsrName.sepc v c = some (record c { sepc = bit_and v (not32 1) })
write_register CsrName.scause v c = some (record c { scause = v })
write_register CsrName.stval v c = some (record c { stval = v })
write_register CsrName.sip v c =
    let mask = bit_and Mip.ssip c.mideleg in
    some (record c { mip = bit_or (bit_and c.mip (not32 mask)) (bit_and v mask) })
write_register CsrName.satp v c = some (record c { satp = v })
write_register _ v c = none

-- Bits 11 and 10 both set mark a read-only register.
abbrev pub is_read_only : ℕ → Bool
is_read_only addr = bit_and (addr >>> 10) 3 == 3

abbrev pub accepted : Csr → Option Csr → Csr × Bool
accepted c none = (c, false)
accepted c (some c') = (c', true)

unfoldable pub write : Csr → ℕ → ℕ → PrivilegeLevel → Csr × Bool
write c addr value priv =
    if ltb (as_u8 priv) (min_priv addr)
    then (c, false)
    else if is_read_only addr
    then (c, false)
    else accepted c (write_register (csr_name addr) value c)

unfoldable pub set_interrupt_pending : Csr → ℕ → Csr
set_interrupt_pending c b = record c { mip = bit_or c.mip b }

unfoldable pub clear_interrupt_pending : Csr → ℕ → Csr
clear_interrupt_pending c b = record c { mip = bit_and c.mip (not32 b) }

unfoldable pub reset : Csr → Csr
reset c = record {
  mstatus = 0;
  misa = c.misa;
  medeleg = 0;
  mideleg = 0;
  mie = 0;
  mtvec = 0;
  mcounteren = 0;
  mscratch = 0;
  mepc = 0;
  mcause = 0;
  mtval = 0;
  mip = 0;
  stvec = 0;
  scounteren = 0;
  sscratch = 0;
  sepc = 0;
  scause = 0;
  stval = 0;
  satp = 0;
  cycle = 0;
  time = 0;
}
