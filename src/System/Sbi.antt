-- ===== src/System/Sbi.antt =====
-- The calls of the supervisor that the system answers itself (`handle_sbi_call`, src/system.rs).
pub mod Frame
pub mod Timer
use otorisc_v.Base.{ℕ, ◌%◌, Bool, true, ◌==◌, ◌||◌, add32, u8, if◌then◌else◌}
use otorisc_v.Csr
use otorisc_v.Csr.Mip
use otorisc_v.Cpu.{Cpu, read_reg, write_reg}
use otorisc_v.Devices.Clint
use otorisc_v.Devices.Uart
use otorisc_v.System.Bus.{SystemBus}
use otorisc_v.System.State.{System}

abbrev pub success : ℕ
success = 0

-- -2 and -1 as u32.
abbrev pub err_not_supported : ℕ
err_not_supported = 0xFFFFFFFE

abbrev pub no_character : ℕ
no_character = 0xFFFFFFFF

abbrev pub ext_base : ℕ
ext_base = 0x10

abbrev pub ext_time : ℕ
ext_time = 0x54494D45

abbrev pub ext_ipi : ℕ
ext_ipi = 0x735049

abbrev pub ext_rfence : ℕ
ext_rfence = 0x52464E43

abbrev pub ext_hsm : ℕ
ext_hsm = 0x48534D

abbrev pub ext_srst : ℕ
ext_srst = 0x53525354

-- `sbi_probe_extension`.
unfoldable pub probe : ℕ → ℕ
probe eid =
    if (eid == 0) || (eid == 1) || (eid == 2) || (eid == ext_base) || (eid == ext_time)
    then 1
    else 0

-- Error and value of a call of the base extension.
unfoldable pub base_call : ℕ → ℕ → ℕ × ℕ
unfolding probe
base_call fid a0 =
    if fid == 0
    then (success, 2)
    else if (fid == 1) || (fid == 2)
    then (success, 0)
    else if fid == 3
    then (success, probe a0)
    else if (fid == 4) || (fid == 5) || (fid == 6)
    then (success, 0)
    else (err_not_supported, 0)

module _ {D F : Type 0} where
  unfoldable pub set_timer : System D F → ℕ → ℕ → System D F
  set_timer sys a0 a1 = record sys {
    cpu = record (sys.cpu) { csr = Csr.clear_interrupt_pending sys.cpu.csr Mip.stip };
    bus = record (sys.bus) {
      clint = Clint.write32 (Clint.write32 sys.bus.clint 0x4000 a0) 0x4004 a1;
    };
  }

  unfoldable pub putchar : System D F → ℕ → System D F
  putchar sys a0 = record sys {
    bus = record (sys.bus) { uart = Uart.write8 sys.bus.uart 0 (u8 a0) };
  }

  abbrev pub halt : System D F → System D F
  halt sys = record sys { cpu = record (sys.cpu) { wfi = true } }

  -- The `match` on the extension: error and value, and what the call does.
  unfoldable pub serve : System D F → ℕ → ℕ → ℕ → ℕ → (ℕ × ℕ) × System D F
  unfolding base_call set_timer putchar
  serve sys eid fid a0 a1 =
      if eid == 0
      then ((success, 0), set_timer sys a0 a1)
      else if eid == 1
      then ((success, 0), putchar sys a0)
      else if eid == 2
      then ((no_character, 0), sys)
      else if eid == ext_base
      then (base_call fid a0, sys)
      else if eid == ext_time
      then if fid == 0 then ((success, 0), set_timer sys a0 a1) else ((err_not_supported, 0), sys)
      else if (eid == ext_ipi) || (eid == ext_rfence) || (eid == ext_hsm)
      then ((success, 0), sys)
      else if eid == ext_srst
      then if fid == 0 then ((success, 0), halt sys) else ((err_not_supported, 0), sys)
      else ((err_not_supported, 0), sys)

  -- The return values, and the step over the ecall.
  abbrev pub resume : (ℕ × ℕ) × System D F → System D F
  resume ((error, value), sys) =
      let cpu = write_reg (write_reg sys.cpu 10 error) 11 value in
      record sys { cpu = record cpu { pc = add32 cpu.pc 4 } }

  unfoldable pub handle_sbi_call : System D F → System D F
  unfolding serve
  handle_sbi_call sys = resume (
      serve sys (read_reg sys.cpu 17) (read_reg sys.cpu 16) (read_reg sys.cpu 10)
        (read_reg sys.cpu 11))
