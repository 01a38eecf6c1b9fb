-- ===== src/System/Sbi/Frame.antt =====
-- About what a call of the supervisor leaves alone (`handle_sbi_call`, src/system.rs).
use otorisc_v.Base.{
  ℕ, ◌<◌, on_if, ◌≡◌, ◌≢◌, refl, ap, arith, ◌==◌, ◌&&◌, false, ◌||◌, add32, u8, bit_and,
  bit_and_mask,
}
use otorisc_v.Csr
use otorisc_v.Cpu.{Cpu, read_reg, write_reg}
use otorisc_v.Devices.Clint
use otorisc_v.Devices.Uart
use otorisc_v.System.State.{System}
use otorisc_v.System.Sbi.{
  serve, resume, handle_sbi_call, set_timer, putchar, ext_base, ext_time, ext_ipi, ext_rfence,
  ext_hsm, ext_srst,
}

-- The second system goes on behind the call of the first, with the parts that are listed as they
-- were.
pub record Returns {D F : Type 0} (sys sys' : System D F) : Type 0 where
  pub next : sys'.cpu.pc ≡ add32 sys.cpu.pc 4
  pub same_wait : sys'.cpu.wfi ≡ sys.cpu.wfi
  pub same_priv : sys'.cpu.priv_level ≡ sys.cpu.priv_level
  pub same_regs : (r : ℕ) → r < 32 → r ≢ 10 → r ≢ 11 → read_reg sys'.cpu r ≡ read_reg sys.cpu r
  pub same_satp : sys'.cpu.csr.satp ≡ sys.cpu.csr.satp
  pub same_status : sys'.cpu.csr.mstatus ≡ sys.cpu.csr.mstatus
  pub same_memory : sys'.bus.memory ≡ sys.bus.memory
  pub same_plic : sys'.bus.plic ≡ sys.bus.plic
  pub same_virtio : sys'.bus.virtio9p ≡ sys.bus.virtio9p
  pub same_time : sys'.bus.clint.mtime ≡ sys.bus.clint.mtime
  pub same_software : sys'.bus.clint.software_interrupt ≡ sys.bus.clint.software_interrupt
  pub same_input : sys'.bus.uart.rx_fifo ≡ sys.bus.uart.rx_fifo

write8-rx : (u : Uart.Uart) (v : ℕ) → (Uart.write8 u 0 v).rx_fifo ≡ u.rx_fifo
unfolding Uart.write8
write8-rx u v = ground arith

regs_after :
    (cpu cpu' : Cpu) (error value pc r : ℕ)
    → cpu'.regs ≡ cpu.regs
    → r < 32
    → r ≢ 10
    → r ≢ 11
    → read_reg (record (write_reg (write_reg cpu' 10 error) 11 value) { pc = pc }) r
      ≡ read_reg cpu r
unfolding read_reg write_reg
regs_after cpu cpu' error value pc r e lt n10 n11 =
    ground (arith, bit_and_mask 5 r, ap (λ (f : ℕ → ℕ). f (bit_and r 0x1F)) e)

module _ {D F : Type 0} where
  -- The same before the return values are stored.
  record Serves (sys sys' : System D F) : Type 0 where
    pc : sys'.cpu.pc ≡ sys.cpu.pc
    waiting : sys'.cpu.wfi ≡ sys.cpu.wfi
    priv : sys'.cpu.priv_level ≡ sys.cpu.priv_level
    regs : sys'.cpu.regs ≡ sys.cpu.regs
    satp : sys'.cpu.csr.satp ≡ sys.cpu.csr.satp
    status : sys'.cpu.csr.mstatus ≡ sys.cpu.csr.mstatus
    memory : sys'.bus.memory ≡ sys.bus.memory
    plic : sys'.bus.plic ≡ sys.bus.plic
    virtio : sys'.bus.virtio9p ≡ sys.bus.virtio9p
    time : sys'.bus.clint.mtime ≡ sys.bus.clint.mtime
    software : sys'.bus.clint.software_interrupt ≡ sys.bus.clint.software_interrupt
    input : sys'.bus.uart.rx_fifo ≡ sys.bus.uart.rx_fifo

  Serves-refl : (sys : System D F) → Serves sys sys
  Serves-refl sys = record {
    pc = refl;
    waiting = refl;
    priv = refl;
    regs = refl;
    satp = refl;
    status = refl;
    memory = refl;
    plic = refl;
    virtio = refl;
    time = refl;
    software = refl;
    input = refl;
  }

  set_timer-Serves : (sys : System D F) (a0 a1 : ℕ) → Serves sys (set_timer sys a0 a1)
  unfolding set_timer Csr.clear_interrupt_pending Clint.write32
  set_timer-Serves sys a0 a1 = record {
    pc = refl;
    waiting = refl;
    priv = refl;
    regs = refl;
    satp = refl;
    status = refl;
    memory = refl;
    plic = refl;
    virtio = refl;
    time = refl;
    software = refl;
    input = refl;
  }

  putchar-Serves : (sys : System D F) (a0 : ℕ) → Serves sys (putchar sys a0)
  unfolding putchar
  putchar-Serves sys a0 = record {
    pc = refl;
    waiting = refl;
    priv = refl;
    regs = refl;
    satp = refl;
    status = refl;
    memory = refl;
    plic = refl;
    virtio = refl;
    time = refl;
    software = refl;
    input = write8-rx sys.bus.uart (u8 a0);
  }

  serve-Serves :
      (sys : System D F) (eid fid a0 a1 : ℕ)
      → ((eid == ext_srst) && (fid == 0)) ≡ false
      → Serves sys (serve sys eid fid a0 a1).1
  unfolding serve
  serve-Serves sys eid fid a0 a1 no_reset =
      let P = λ (r : (ℕ × ℕ) × System D F). Serves sys r.1 in
      let none_done = Serves-refl sys in
      let timer_set = set_timer-Serves sys a0 a1 in
      on_if P (eid == 0) (λ _. timer_set)
        λ _.
          on_if P (eid == 1) (λ _. putchar-Serves sys a0)
            λ _.
              on_if P (eid == 2) (λ _. none_done)
                λ _.
                  on_if P (eid == ext_base) (λ _. none_done)
                    λ _.
                      on_if P (eid == ext_time)
                        (λ _. on_if P (fid == 0) (λ _. timer_set) (λ _. none_done))
                        λ _.
                          on_if P ((eid == ext_ipi) || (eid == ext_rfence) || (eid == ext_hsm))
                            (λ _. none_done)
                            λ _.
                              on_if P (eid == ext_srst)
                                (λ e.
                                  on_if P (fid == 0) (λ f. absurd (ground arith)) (λ _. none_done))
                                (λ _. none_done)

  resume-Returns :
      (sys sys' : System D F) (error value : ℕ)
      → Serves sys sys'
      → Returns sys (resume ((error, value), sys'))
  unfolding write_reg
  resume-Returns sys sys' error value h = record {
    next = ap (λ pc. add32 pc 4) h.pc;
    same_wait = h.waiting;
    same_priv = h.priv;
    same_regs = λ r. regs_after sys.cpu sys'.cpu error value (add32 sys'.cpu.pc 4) r h.regs;
    same_satp = h.satp;
    same_status = h.status;
    same_memory = h.memory;
    same_plic = h.plic;
    same_virtio = h.virtio;
    same_time = h.time;
    same_software = h.software;
    same_input = h.input;
  }

  -- Whatever the supervisor asks for, a system reset excepted, the call returns to the instruction
  -- behind it at the same privilege, waiting for interrupts or not as before, and leaves every register but a0 and a1, memory, the translation's root and the status, the PLIC,
  -- the 9P device, the time, the software interrupt and the received bytes as they were.
  pub handle_sbi_call-Returns :
      (sys : System D F)
      → ((read_reg sys.cpu 17 == ext_srst) && (read_reg sys.cpu 16 == 0)) ≡ false
      → Returns sys (handle_sbi_call sys)
  unfolding handle_sbi_call
  handle_sbi_call-Returns sys no_reset =
      let eid = read_reg sys.cpu 17 in
      let fid = read_reg sys.cpu 16 in
      let a0 = read_reg sys.cpu 10 in
      let a1 = read_reg sys.cpu 11 in
      let (answer, sys') = serve sys eid fid a0 a1 in
      resume-Returns sys sys' answer.0 answer.1 (serve-Serves sys eid fid a0 a1 no_reset)
