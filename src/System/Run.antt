-- ===== src/System/Run.antt =====
-- Execution: by blocks, by single steps, and the main loop (`run`, src/system.rs).
use otorisc_v.Base.{
  ℕ, zero, suc, ◌+◌, ◌-◌, false, ◌==◌, ◌!=◌, ltb, bit_and, min, add32, u64, if◌then◌else◌, Option,
  none, some, Result, ok, err,
}
use mathlib.Core.Option
use otorisc_v.Mmu.{Mmu, translate, instruction}
use otorisc_v.Cpu.{Cpu}
use otorisc_v.Trap.{
  Trap, from_cause, check_pending_interrupts, handle_trap, environment_call_from_s,
}
use otorisc_v.Execute.{FpUnit, step}
use otorisc_v.Execute.Alu.{Outcome}
use otorisc_v.Memory.{Memory, Device}
use otorisc_v.Devices.Clint
use otorisc_v.Devices.Virtio9p.{Virtio9p, P9}
use otorisc_v.Jit
use otorisc_v.Jit.{BlockCache, CompiledBlock, BlockResult, get, compile_block, execute_block}
use otorisc_v.System.Bus.{SystemBus, system_bus}
use otorisc_v.System.State.{System}
use otorisc_v.System.Interrupts.{update_interrupts}
use otorisc_v.System.Sbi.{handle_sbi_call}

abbrev pub timer_batch : ℕ
timer_batch = 64

-- What a step answers, with the system after it; `none` is a step whose call of the 9P handling does
-- not return.
abbrev pub Answer : Type 0 → Type 0 → Type 0 → Type 0
Answer A D F = Option (Result Trap A × System D F)

-- What a turn of the loop leaves: the cycles and the system.
abbrev pub State : Type 0 → Type 0 → Type 0
State D F = ℕ × System D F

-- How the loop ends: at its limit, never, since a call of the 9P handling does not return, or with
-- more turns to go than it was given.
pub data Ending (D F : Type 0) : Type 0 where
  ended : (cycles : ℕ) (sys : System D F) → Ending D F
  stuck unfinished : Ending D F

module _ {D F : Type 0} where
  -- The timer moved on, with the time register after it.
  abbrev pub tick : System D F → ℕ → System D F
  tick sys ticks =
      let clint = Clint.tick sys.bus.clint ticks in
      record sys {
        cpu = record (sys.cpu) { csr = record (sys.cpu.csr) { time = clint.mtime } };
        bus = record (sys.bus) { clint = clint };
      }

  abbrev pub take : System D F → Option Trap → System D F
  take sys none = sys
  take sys (some t) = record sys { cpu = handle_trap sys.cpu t }

  -- The batched update of the timer and the interrupts.
  unfoldable pub batch : System D F → System D F
  batch sys =
      let sys1 = update_interrupts (tick sys timer_batch) in
      take sys1 (check_pending_interrupts sys1.cpu)

  -- A request of FENCE.I or SFENCE.VMA.
  unfoldable pub flush : System D F → System D F
  flush sys =
      if sys.cpu.cache_invalidation_pending
      then record sys {
        cpu = record (sys.cpu) { cache_invalidation_pending = false };
        block_cache = Jit.invalidate_all sys.block_cache;
      }
      else sys

  -- The cycles that a wait skips, and whether the timer moves with them.
  unfoldable pub skip : System D F → ℕ → ℕ
  skip sys left = min (Clint.ticks_until_interrupt sys.bus.clint) left

  unfoldable pub wait : ℕ → ℕ → System D F → ℕ × System D F
  unfolding skip
  wait max_cycles cycles sys =
      let n = skip sys (max_cycles - cycles) in
      if ltb 1 n then (add32 cycles n, tick sys n) else (add32 cycles 1, sys)

  abbrev pub count_cycles : System D F → ℕ → System D F
  count_cycles sys n = record sys {
    cpu = record (sys.cpu) { csr = record (sys.cpu.csr) { cycle = u64 (sys.cpu.csr.cycle + n) } };
  }

  abbrev pub on_trap : System D F → Trap → System D F
  on_trap sys environment_call_from_s = handle_sbi_call sys
  on_trap sys t = record sys { cpu = handle_trap sys.cpu t }

  abbrev pub after_result : ℕ → Result Trap ℕ × System D F → State D F
  after_result cycles (ok inst_count, sys) = (add32 cycles inst_count, count_cycles sys inst_count)
  after_result cycles (err t, sys) = (add32 cycles 1, count_cycles (on_trap sys t) 1)

  abbrev pub after_answer : ℕ → Answer ℕ D F → Option (State D F)
  after_answer cycles answer = Option.map (after_result cycles) answer

module _ {D F : Type 0} (device : Device D) (p9 : P9 F D) (fp : FpUnit (SystemBus D F)) where
  -- `self.virtio9p.process_queues(&mut self.memory)`.
  abbrev pub process_queues : SystemBus D F → Option (SystemBus D F)
  process_queues b =
      Option.map (λ (r : Virtio9p F × Memory D). record b { virtio9p = r.0; memory = r.1 })
        (p9.process_queues b.virtio9p b.memory)

  -- The system with its bus after the handling of the queues, and a result.
  abbrev pub handled : {A : Type 0} → Result Trap A → System D F → SystemBus D F → Answer A D F
  handled result sys bus =
      Option.map (λ (b : SystemBus D F). (result, record sys { bus = b })) (process_queues bus)

  abbrev pub after_step : System D F → Outcome (SystemBus D F) → Answer (Unit {0}) D F
  after_step sys (result, cpu, bus) = handled result (record sys { cpu = cpu }) bus

  unfoldable pub step_with_devices : System D F → Answer (Unit {0}) D F
  step_with_devices sys = after_step sys (step (system_bus device) fp sys.cpu sys.bus)

  abbrev pub one_counted : Result Trap (Unit {0}) × System D F → Result Trap ℕ × System D F
  one_counted (ok _, sys) = (ok 1, sys)
  one_counted (err t, sys) = (err t, sys)

  abbrev pub as_count : Answer (Unit {0}) D F → Answer ℕ D F
  as_count answer = Option.map one_counted answer

  abbrev pub after_block : System D F → ℕ → BlockResult × Cpu × SystemBus D F → Answer ℕ D F
  after_block sys inst_count (BlockResult.continue _, cpu, bus) =
      handled (ok inst_count)
        (record sys {
          cpu = record cpu { instruction_count = u64 (cpu.instruction_count + inst_count) };
        })
        bus
  after_block sys inst_count (BlockResult.trap t, cpu, bus) =
      handled (err t) (record sys { cpu = cpu }) bus
  after_block sys inst_count (BlockResult.interpret, cpu, bus) =
      as_count (step_with_devices (record sys { cpu = cpu; bus = bus }))

  unfoldable pub run_block : System D F → CompiledBlock → Answer ℕ D F
  run_block sys block =
      after_block sys block.inst_count (execute_block (system_bus device) fp sys.cpu block sys.bus)

  -- A block that was just compiled.
  abbrev pub run_new : System D F → CompiledBlock × BlockCache × SystemBus D F → Answer ℕ D F
  run_new sys (block, cache, bus) = run_block (record sys { block_cache = cache; bus = bus }) block

  abbrev pub run_found : System D F → ℕ → Option CompiledBlock × BlockCache → Answer ℕ D F
  run_found sys paddr (some block, cache) = run_block (record sys { block_cache = cache }) block
  run_found sys paddr (none, cache) =
      run_new sys (compile_block (system_bus device) cache sys.bus paddr)

  abbrev pub step_at : System D F → Result ℕ ℕ × Mmu × SystemBus D F → Answer ℕ D F
  step_at sys (ok paddr, m, bus) =
      run_found (record sys { cpu = record (sys.cpu) { mmu = m }; bus = bus }) paddr
        (get sys.block_cache paddr)
  step_at sys (err cause, m, bus) = some (
    err (from_cause cause sys.cpu.pc),
    record sys { cpu = record (sys.cpu) { mmu = m }; bus = bus },
  )

  unfoldable pub step_block_v1 : System D F → Answer ℕ D F
  step_block_v1 sys = step_at sys (
      translate (system_bus device) sys.cpu.mmu sys.bus sys.cpu.pc instruction sys.cpu.priv_level
        sys.cpu.csr.satp sys.cpu.csr.mstatus)

  unfoldable pub step_block_v2 : System D F → Answer ℕ D F
  step_block_v2 sys = step_block_v1 sys

  unfoldable pub step_block : System D F → Answer ℕ D F
  unfolding step_block_v2
  step_block sys = if sys.use_jit_v2 then step_block_v2 sys else step_block_v1 sys

  abbrev pub execute_next : ℕ → System D F → Option (State D F)
  execute_next cycles sys = after_answer cycles (step_block sys)

  -- A hart that waits goes on when an enabled interrupt is pending.
  unfoldable pub wait_or_execute : ℕ → ℕ → System D F → Option (State D F)
  unfolding wait
  wait_or_execute max_cycles cycles sys =
      if sys.cpu.wfi
      then if bit_and sys.cpu.csr.mip sys.cpu.csr.mie != 0
        then execute_next cycles (record sys { cpu = record (sys.cpu) { wfi = false } })
        else some (wait max_cycles cycles sys)
      else execute_next cycles sys

  -- The body of the loop of `run`.
  unfoldable pub turn : ℕ → State D F → Option (State D F)
  unfolding batch flush wait_or_execute
  turn max_cycles (cycles, sys) =
      let sys1 = if bit_and cycles (timer_batch - 1) == 0 then batch sys else sys in
      wait_or_execute max_cycles cycles (flush sys1)

  abbrev pub go_on : (State D F → Ending D F) → Option (State D F) → Ending D F
  go_on rest none = stuck
  go_on rest (some next) = rest next

  -- The loop, for a number of turns.
  unfoldable pub run_from : ℕ → ℕ → State D F → Ending D F
  run_from zero max_cycles state =
      if ltb state.0 max_cycles then unfinished else ended state.0 state.1
  run_from (suc fuel) max_cycles state =
      let rest = go_on (run_from fuel max_cycles) (turn max_cycles state) in
      if ltb state.0 max_cycles then rest else ended state.0 state.1

  -- `run`: as many turns as cycles.
  unfoldable pub run : ℕ → System D F → Ending D F
  unfolding run_from
  run max_cycles sys = run_from max_cycles max_cycles (0, sys)
