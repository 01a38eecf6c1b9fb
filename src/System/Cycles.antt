-- ===== src/System/Cycles.antt =====
-- About the cycles that the main loop counts, and its end (`run`, src/system.rs).
use otorisc_v.Base.{ℕ, ◌+◌, ◌≤◌, ◌<◌, ◌≡◌, HoldsOr, Option, none, Result, ok, err}
use mathlib.Core.Option
use otorisc_v.Mmu.{Mmu}
use otorisc_v.Cpu.{Cpu}
use otorisc_v.Trap.{Trap}
use otorisc_v.Execute.{FpUnit}
use otorisc_v.Memory.{Memory, Device}
use otorisc_v.Devices.Clint
use otorisc_v.Devices.Virtio9p.{Virtio9p, P9}
use otorisc_v.Jit.Blocks.{IsFilled}
use otorisc_v.System.Bus.{SystemBus}
use otorisc_v.System.State.{System}
use otorisc_v.System.Run.{Answer, State, Ending, ended, stuck, unfinished, process_queues}

module _ {D F : Type 0} where
  -- The blocks in the cache are as the compiler makes them.
  abbrev pub HasBlocks : System D F → Type 0
  HasBlocks sys = IsFilled sys.block_cache

  -- An answer that counts at least one instruction and at most 64.
  abbrev Counts : Result Trap ℕ × System D F → Type 0
  Counts (ok n, sys) = (1 ≤ n) × (n ≤ 64) × HasBlocks sys
  Counts (err t, sys) = HasBlocks sys

  -- A turn that moves the cycles on, by at most 64 or to the end.
  record Advances (max_cycles cycles : ℕ) (next : State D F) : Type 0 where
    grows : cycles < next.0
    stays : next.0 < max_cycles + 64
    blocks : HasBlocks next.1

module _ {D F : Type 0} (device : Device D) (p9 : P9 F D) (fp : FpUnit (SystemBus D F)) where
  -- There are a device and a memory for which the handling of the queues does not return.
  abbrev pub Hangs : Type 0
  Hangs = (v : Virtio9p F) × (m : Memory D) × (p9.process_queues v m ≡ none)

  abbrev AnswerCounts : Answer ℕ D F → Type 0
  AnswerCounts = HoldsOr Hangs Counts

  pub process_queues-Hangs : (b : SystemBus D F) → process_queues device p9 fp b ≡ none → Hangs
  process_queues-Hangs b e =
      (b.virtio9p, b.memory, (Option.map-eq-none_iff _ (p9.process_queues b.virtio9p b.memory)).0 e)

  abbrev Kept : Result Trap (Unit {0}) × System D F → Type 0
  Kept r = HasBlocks r.1

  -- The loop ends at its limit or a little past it with the blocks of the cache as they are made,
  -- or a call of the 9P handling does not return.
  abbrev pub Ends : ℕ → Ending D F → Type 0
  Ends max_cycles (ended n sys) = (max_cycles ≤ n) × (n < max_cycles + 64) × HasBlocks sys
  Ends max_cycles stuck = Hangs
  Ends max_cycles unfinished = ⊥
