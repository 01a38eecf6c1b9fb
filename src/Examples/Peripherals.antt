-- ===== src/Examples/Peripherals.antt =====
-- The timer and the serial port at concrete inputs (src/devices/clint.rs and uart.rs).
use otorisc_v.Base.{◌<◌, true, false, ◌≡◌, refl, arith, ◌↔◌, List, [], ◌∷◌}
use otorisc_v.Devices.Clint
use otorisc_v.Devices.Clint.Timer
use otorisc_v.Devices.Clint.Timer.{clint_run-IsValid, tick-ticks_until_interrupt}
use otorisc_v.Devices.Uart
use otorisc_v.Devices.Uart.Lines
use otorisc_v.Devices.Uart.Lines.{uart_run-IsValid, has_interrupt-lines}

-- The timer is set to fire at 5.
abbrev armed : List Timer.Event
armed = Timer.wrote32 0x4000 5 ∷ Timer.wrote32 0x4004 0 ∷ Timer.ticked 3 ∷ []

clint_run-IsValid_example : Timer.IsValid (Timer.run Clint.new armed)
clint_run-IsValid_example = clint_run-IsValid armed

abbrev at_three : Clint.Clint
at_three = record (Clint.new) { mtimecmp = 5; mtime = 3; timer_interrupt = false }

at_three-IsValid : Timer.IsValid at_three
unfolding Clint.new
at_three-IsValid = record { timer = refl; software = refl }

tick-ticks_until_interrupt_example :
    (0 < Clint.ticks_until_interrupt at_three)
    × ((Clint.tick at_three 2).timer_interrupt ≡ true ↔ 2 ≡ Clint.ticks_until_interrupt at_three)
unfolding Clint.new Clint.ticks_until_interrupt
tick-ticks_until_interrupt_example =
    tick-ticks_until_interrupt at_three 2 at_three-IsValid refl (omega arith) (omega arith)

abbrev keyboard : List Lines.Event
keyboard = Lines.wrote 1 1 ∷ Lines.received 104 ∷ Lines.was_read 0 ∷ []

uart_run-IsValid_example : Lines.IsValid (Lines.run (Uart.new 10) keyboard)
uart_run-IsValid_example = uart_run-IsValid 10 keyboard
