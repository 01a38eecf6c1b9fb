-- ===== src/System/Outputs/Always.antt =====
-- About the outputs of the devices while the system runs (`run`, src/system.rs).
use otorisc_v.Base.{HoldsOr, Option, Result}
use otorisc_v.Mmu.{Mmu}
use otorisc_v.Cpu.{Cpu}
use otorisc_v.Execute.{FpUnit}
use otorisc_v.Execute.Stable.{FpKeeps}
use otorisc_v.Memory.{Device}
use otorisc_v.Devices.Virtio9p.{P9}
use otorisc_v.System.Bus.{SystemBus}
use otorisc_v.System.State.{System}
use otorisc_v.System.Run.{Answer, State, Ending, ended, stuck, unfinished}
use otorisc_v.System.Outputs.{IsCurrent}
use otorisc_v.System.Outputs.Parts.{AreCurrent}
use otorisc_v.Trap.{Trap}
use otorisc_v.System.Cycles.{Hangs}

module _ {D F : Type 0} (device : Device D) (p9 : P9 F D) (fp : FpUnit (SystemBus D F))
    (fp_keeps : FpKeeps IsCurrent fp) where
  -- An answer of a system whose outputs are current, if the handling of the queues returns.
  abbrev Current : {A : Type 0} → Result Trap A × System D F → Type 0
  Current r = AreCurrent r.1

  abbrev Answers : {A : Type 0} → Answer A D F → Type 0
  Answers = HoldsOr (Unit {0}) Current

  abbrev Goes : Option (State D F) → Type 0
  Goes = HoldsOr (Unit {0}) (λ (next : State D F). AreCurrent next.1)

  -- The outputs of the system that the loop ends with.
  abbrev Given : Ending D F → Type 0
  Given (ended n sys) = AreCurrent sys
  Given _ = Unit {0}

-- The loop ends with current outputs, or is stuck in a call of the 9P handling.
module _ {D F : Type 0} (device : Device D) (p9 : P9 F D) (fp : FpUnit (SystemBus D F)) where
  abbrev pub EndsCurrent : Ending D F → Type 0
  EndsCurrent (ended n sys) = AreCurrent sys
  EndsCurrent stuck = Hangs device p9 fp
  EndsCurrent unfinished = ⊥
