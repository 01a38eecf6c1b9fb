-- ===== src/Devices/Clint/Timer.antt =====
-- About the two interrupt outputs of the CLINT (src/devices/clint.rs).
use otorisc_v.Base.{
  ℕ, ◌<◌, ◌≤◌, true, false, ◌!=◌, ◌≡◌, ◌↔◌, refl, arith, leb, bit_and, not32, List, [], ◌∷◌,
}
use otorisc_v.Devices.Clint.{
  Clint, new, tick, set_mtime, write32, write8, reset, read32, ticks_until_interrupt, max64,
  with_byte,
}

-- The timer interrupt is raised exactly when mtime has reached mtimecmp, and the software
-- interrupt exactly when msip is not zero.
pub record IsValid (c : Clint) : Type 0 where
  pub timer : c.timer_interrupt ≡ leb c.mtimecmp c.mtime
  pub software : c.software_interrupt ≡ (c.msip != 0)

-- The events that reach the device.
pub data Event : Type 0 where
  ticked time_set : ℕ → Event
  wrote32 wrote8 : ℕ → ℕ → Event
  was_reset : Event

abbrev pub step : Clint → Event → Clint
step c (ticked n) = tick c n
step c (time_set v) = set_mtime c v
step c (wrote32 o v) = write32 c o v
step c (wrote8 o v) = write8 c o v
step c was_reset = reset c

write32-IsValid : (c : Clint) (o v : ℕ) → IsValid c → IsValid (write32 c o v)
unfolding write32
write32-IsValid c o v h = ground arith

pub step-IsValid : (c : Clint) (e : Event) → IsValid c → IsValid (step c e)
unfolding tick set_mtime write8 reset
step-IsValid c (ticked n) h = ground arith
step-IsValid c (time_set v) h = ground arith
step-IsValid c (wrote32 o v) h = write32-IsValid c o v h
step-IsValid c (wrote8 o v) h =
    write32-IsValid c (bit_and o (not32 3))
      (with_byte (read32 c (bit_and o (not32 3))) (bit_and o 3) v) h
step-IsValid c was_reset h = record { timer = refl; software = refl }

abbrev pub run : Clint → List Event → Clint
run c [] = c
run c (e ∷ es) = run (step c e) es

run_from-IsValid : (c : Clint) (es : List Event) → IsValid c → IsValid (run c es)
run_from-IsValid c [] h = h
run_from-IsValid c (e ∷ es) h = run_from-IsValid (step c e) es (step-IsValid c e h)

-- After any ticks, writes, time settings and resets, the timer interrupt is raised exactly when
-- mtime has reached mtimecmp, and the software interrupt exactly when msip is not zero.
pub clint_run-IsValid : (es : List Event) → IsValid (run new es)
unfolding new
clint_run-IsValid es = run_from-IsValid new es (record { timer = refl; software = refl })

-- In a state where the timer is armed and has not fired, no fewer ticks than
-- `ticks_until_interrupt` raise the interrupt, and that many do.
pub tick-ticks_until_interrupt :
    (c : Clint) (n : ℕ)
    → IsValid c
    → c.timer_interrupt ≡ false
    → c.mtimecmp < max64
    → n ≤ ticks_until_interrupt c
    → (0 < ticks_until_interrupt c)
      × ((tick c n).timer_interrupt ≡ true ↔ n ≡ ticks_until_interrupt c)
unfolding tick ticks_until_interrupt
tick-ticks_until_interrupt c n h off armed le = ground arith
