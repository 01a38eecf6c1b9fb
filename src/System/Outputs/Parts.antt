-- ===== src/System/Outputs/Parts.antt =====
-- About the outputs of the devices and the parts of the main loop (src/system.rs).
use otorisc_v.Base.{ℕ, ◌-◌, ◌||◌, ◌==◌, on_if, u8, ltb, Option, none, some, Result, ok, err}
use otorisc_v.Cpu.{read_reg}
use otorisc_v.Trap.{Trap, check_pending_interrupts, environment_call_from_s}
use otorisc_v.Devices.Clint
use otorisc_v.Devices.Clint.Timer
use otorisc_v.Devices.Uart
use otorisc_v.Devices.Uart.Lines as UartLines
use otorisc_v.Devices.Plic.Lines as PlicLines
use otorisc_v.System.Bus.{SystemBus}
use otorisc_v.System.State.{System, uart_irq}
use otorisc_v.System.Interrupts.{update_interrupts, uart_to_plic}
use otorisc_v.System.Sbi.{
  handle_sbi_call, serve, set_timer, putchar, ext_base, ext_time, ext_ipi, ext_rfence, ext_hsm,
  ext_srst,
}
use otorisc_v.System.Run.{tick, take, batch, flush, wait, skip, on_trap, after_result}
use otorisc_v.System.Outputs.{IsCurrent}

module _ {D F : Type 0} where
  -- The outputs of the devices of a system.
  abbrev pub AreCurrent : System D F → Type 0
  AreCurrent sys = IsCurrent sys.bus

  uart_to_plic-IsCurrent : (b : SystemBus D F) → IsCurrent b → IsCurrent (uart_to_plic b)
  uart_to_plic-IsCurrent b h = record {
    clint = h.clint;
    plic =
        on_if PlicLines.IsCurrent (Uart.has_interrupt b.uart)
          (λ _. PlicLines.step-IsCurrent b.plic (PlicLines.raised uart_irq) h.plic)
          (λ _. PlicLines.step-IsCurrent b.plic (PlicLines.lowered uart_irq) h.plic);
    uart = h.uart;
  }

  update_interrupts-AreCurrent :
      (sys : System D F) → AreCurrent sys → AreCurrent (update_interrupts sys)
  unfolding update_interrupts
  update_interrupts-AreCurrent sys h = uart_to_plic-IsCurrent sys.bus h

  tick-AreCurrent : (sys : System D F) (n : ℕ) → AreCurrent sys → AreCurrent (tick sys n)
  tick-AreCurrent sys n h = record {
    clint = Timer.step-IsValid sys.bus.clint (Timer.ticked n) h.clint;
    plic = h.plic;
    uart = h.uart;
  }

  take-AreCurrent : (sys : System D F) (t : Option Trap) → AreCurrent sys → AreCurrent (take sys t)
  take-AreCurrent sys none h = h
  take-AreCurrent sys (some t) h = h

  pub batch-AreCurrent : (sys : System D F) → AreCurrent sys → AreCurrent (batch sys)
  unfolding batch
  batch-AreCurrent sys h =
      let sys1 = update_interrupts (tick sys 64) in
      take-AreCurrent sys1 (check_pending_interrupts sys1.cpu)
        (update_interrupts-AreCurrent (tick sys 64) (tick-AreCurrent sys 64 h))

  pub flush-AreCurrent : (sys : System D F) → AreCurrent sys → AreCurrent (flush sys)
  unfolding flush
  flush-AreCurrent sys h = on_if AreCurrent sys.cpu.cache_invalidation_pending (λ _. h) (λ _. h)

  set_timer-AreCurrent :
      (sys : System D F) (a0 a1 : ℕ) → AreCurrent sys → AreCurrent (set_timer sys a0 a1)
  unfolding set_timer
  set_timer-AreCurrent sys a0 a1 h =
      let c1 = Timer.step-IsValid sys.bus.clint (Timer.wrote32 0x4000 a0) h.clint in
      record {
        clint =
            Timer.step-IsValid (Clint.write32 sys.bus.clint 0x4000 a0) (Timer.wrote32 0x4004 a1) c1;
        plic = h.plic;
        uart = h.uart;
      }

  putchar-AreCurrent : (sys : System D F) (a0 : ℕ) → AreCurrent sys → AreCurrent (putchar sys a0)
  unfolding putchar
  putchar-AreCurrent sys a0 h = record {
    clint = h.clint;
    plic = h.plic;
    uart = UartLines.step-IsValid sys.bus.uart (UartLines.wrote 0 (u8 a0)) h.uart;
  }

  serve-AreCurrent :
      (sys : System D F) (eid fid a0 a1 : ℕ)
      → AreCurrent sys
      → AreCurrent (serve sys eid fid a0 a1).1
  unfolding serve
  serve-AreCurrent sys eid fid a0 a1 h =
      let P = λ (r : (ℕ × ℕ) × System D F). AreCurrent r.1 in
      let timer_set = set_timer-AreCurrent sys a0 a1 h in
      on_if P (eid == 0) (λ _. timer_set)
        λ _.
          on_if P (eid == 1) (λ _. putchar-AreCurrent sys a0 h)
            λ _.
              on_if P (eid == 2) (λ _. h)
                λ _.
                  on_if P (eid == ext_base) (λ _. h)
                    λ _.
                      on_if P (eid == ext_time) (λ _. on_if P (fid == 0) (λ _. timer_set) (λ _. h))
                        λ _.
                          on_if P ((eid == ext_ipi) || (eid == ext_rfence) || (eid == ext_hsm))
                            (λ _. h)
                            λ _.
                              on_if P (eid == ext_srst) (λ _. on_if P (fid == 0) (λ _. h) (λ _. h))
                                (λ _. h)

  on_trap-AreCurrent : (sys : System D F) (t : Trap) → AreCurrent sys → AreCurrent (on_trap sys t)
  unfolding handle_sbi_call
  on_trap-AreCurrent sys environment_call_from_s h =
      serve-AreCurrent sys (read_reg sys.cpu 17) (read_reg sys.cpu 16) (read_reg sys.cpu 10)
        (read_reg sys.cpu 11) h
  on_trap-AreCurrent sys _ h = h

  pub after_result-AreCurrent :
      (cycles : ℕ) (r : Result Trap ℕ × System D F)
      → AreCurrent r.1
      → AreCurrent (after_result cycles r).1
  after_result-AreCurrent cycles (ok n, sys) h = h
  after_result-AreCurrent cycles (err t, sys) h = on_trap-AreCurrent sys t h

  pub wait-AreCurrent :
      (max_cycles cycles : ℕ) (sys : System D F)
      → AreCurrent sys
      → AreCurrent (wait max_cycles cycles sys).1
  unfolding wait
  wait-AreCurrent max_cycles cycles sys h =
      let n = skip sys (max_cycles - cycles) in
      on_if (λ (r : ℕ × System D F). AreCurrent r.1) (ltb 1 n) (λ _. tick-AreCurrent sys n h)
        (λ _. h)
