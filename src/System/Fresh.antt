-- ===== src/System/Fresh.antt =====
-- About a new system (`System::new`, src/system.rs).
use otorisc_v.Base.{
  ℕ, ◌≤◌, ◌<◌, ◌≡◌, refl, arith, ◌⊎◌, inl, inr, Bool-cases, false, [], ◌||◌, ◌==◌, ltb, ok, err,
}
use otorisc_v.Cpu
use otorisc_v.Jit
use otorisc_v.Jit.Blocks.{new-IsFilled}
use otorisc_v.Memory
use otorisc_v.Memory.Rom.{init_boot_rom}
use otorisc_v.Memory.Bounds.{IsPlaced}
use otorisc_v.Devices.Clint
use otorisc_v.Devices.Clint.Timer.{clint_run-IsValid}
use otorisc_v.Devices.Uart
use otorisc_v.Devices.Uart.Lines.{uart_run-IsValid}
use otorisc_v.Devices.Plic
use otorisc_v.Devices.Plic.Lines.{run-IsCurrent}
use otorisc_v.Devices.Virtio9p.{Virtio9p}
use otorisc_v.System.State.{System, uart_irq}
use otorisc_v.System
use otorisc_v.System.{SizeError, invalid_ram_size}
use otorisc_v.System.Cycles.{HasBlocks}
use otorisc_v.System.Outputs.Parts.{AreCurrent}

-- What the theorems on the main loop and on the bus ask of a system.
pub record IsReady {D F : Type 0} (sys : System D F) : Type 0 where
  pub blocks : HasBlocks sys
  pub outputs : AreCurrent sys
  pub placed : IsPlaced sys.bus.memory

module _ {D F : Type 0} (mb : ℕ) (v : Virtio9p F) where
  abbrev fresh : System D F
  fresh = record {
    cpu = Cpu.new;
    bus = record {
      memory = init_boot_rom (Memory.new mb);
      uart = Uart.new uart_irq;
      clint = Clint.new;
      plic = Plic.new;
      virtio9p = v;
    };
    block_cache = Jit.new;
    use_jit_v2 = false;
  }

  fresh-IsReady : mb ≤ 2048 → IsReady fresh
  unfolding init_boot_rom Memory.new
  fresh-IsReady h = record {
    blocks = new-IsFilled;
    outputs = record {
      clint = clint_run-IsValid [];
      plic = run-IsCurrent [];
      uart = uart_run-IsValid uart_irq [];
    };
    placed = record { at_base = refl; fits = omega arith };
  }

  -- A new system is refused exactly for a size of 0 or of more than 2048 MB; any other has no
  -- blocks but such as the compiler makes, current outputs, and RAM at its base, of 2 GB at most.
  pub new-IsReady :
      ((System.new {D = D} mb v ≡ err (invalid_ram_size mb)) × ((mb ≡ 0) ⊎ (2048 < mb)))
      ⊎ ((sys : System D F) × (System.new mb v ≡ ok sys) × (1 ≤ mb) × (mb ≤ 2048) × IsReady sys)
  unfolding System.new
  new-IsReady = elim (Bool-cases ((mb == 0) || ltb 2048 mb)) [
    | inl e ↦ inl (rw e refl, ground arith)
    | inr e ↦ inr (fresh, rw e refl, ground arith, ground arith, fresh-IsReady (ground arith))
  ]
