-- ===== src/Devices/Uart/Lines.antt =====
-- About the interrupt flags, the line and the status register (src/devices/uart.rs).
use otorisc_v.Base.{
  ℕ, ◌≤◌, Bool, true, false, not, ◌&&◌, ◌||◌, ◌≡◌, ◌∙◌, refl, arith, bit, bit_and, bit_or,
  bit-bit_and, bit-bit_or, bit-pow, bit_and-pow, bit-not8, bit-zero, if◌then◌else◌, not8, List, [],
  ◌∷◌, ◌++◌, length, leb, ◌!=◌,
}
use otorisc_v.Devices.Uart.{
  Uart, new, receive_char, read8, write8, get_output, reset, has_interrupt, get_lsr, is_empty, rest,
  get_iir, read_rbr, write_thr, write_ier, write_fcr, clear_rx, clear_tx, max_fifo_size,
}
use otorisc_v.Devices.Uart.Fifo.{pushed-le}

-- The receive flag is up exactly when a byte waits, and no more than 256 bytes wait.
pub record IsValid (u : Uart) : Type 0 where
  pub bounded : length u.rx_fifo ≤ 256
  pub rx_flagged : bit u.interrupt_flags 2 ≡ not (is_empty u.rx_fifo)

-- The events that reach the device.
pub data Event : Type 0 where
  received : ℕ → Event
  was_read : ℕ → Event
  wrote : ℕ → ℕ → Event
  output_taken was_reset : Event

abbrev pub step : Uart → Event → Uart
step u (received c) = receive_char u c
step u (was_read o) = (read8 u o).1
step u (wrote o v) = write8 u o v
step u output_taken = (get_output u).1
step u was_reset = reset u

set_rx : (f : ℕ) → bit (bit_or f 4) 2 ≡ true
set_rx f = ground (arith, bit-bit_or 2 f 4, bit-pow 2 2)

set_tx : (f : ℕ) → bit (bit_or f 2) 2 ≡ bit f 2
set_tx f = ground (arith, bit-bit_or 2 f 2, bit-pow 1 2)

clear_rx_flag : (f : ℕ) → bit (bit_and f (not8 4)) 2 ≡ false
clear_rx_flag f =
    ground (arith, bit-bit_and 2 f (not8 4), bit-not8 2 4 (omega arith) (omega arith), bit-pow 2 2)

clear_tx_flag : (f : ℕ) → bit (bit_and f (not8 2)) 2 ≡ bit f 2
clear_tx_flag f =
    ground (arith, bit-bit_and 2 f (not8 2), bit-not8 2 2 (omega arith) (omega arith), bit-pow 1 2)

rest-le : (xs : List ℕ) → length (rest xs) ≤ length xs
rest-le [] = omega arith
rest-le (x ∷ xs) = omega arith

is_empty-append : (xs : List ℕ) (c : ℕ) → is_empty (xs ++ c ∷ []) ≡ false
is_empty-append [] c = refl
is_empty-append (x ∷ xs) c = refl

nonempty_rest : (xs : List ℕ) → is_empty (rest xs) ≡ false → is_empty xs ≡ false
nonempty_rest [] h = h
nonempty_rest (x ∷ xs) h = refl

receive_char-IsValid : (u : Uart) (c : ℕ) → IsValid u → IsValid (receive_char u c)
unfolding receive_char
receive_char-IsValid u c h = record {
  bounded = pushed-le u.rx_fifo c h.bounded;
  rx_flagged = rw (
    set_rx u.interrupt_flags,
    is_empty-append (if leb max_fifo_size (length u.rx_fifo) then rest u.rx_fifo else u.rx_fifo) c,
  );
}

read_rbr-IsValid : (u : Uart) → IsValid u → IsValid (read_rbr u).1
unfolding read_rbr
read_rbr-IsValid u h =
    ground (arith, rest-le u.rx_fifo, clear_rx_flag u.interrupt_flags, nonempty_rest u.rx_fifo)

get_iir-IsValid : (u : Uart) → IsValid u → IsValid (get_iir u).1
unfolding get_iir
get_iir-IsValid u h = ground (arith, clear_tx_flag u.interrupt_flags)

read8-IsValid : (u : Uart) (o : ℕ) → IsValid u → IsValid (read8 u o).1
unfolding read8
read8-IsValid u o h = ground (arith, read_rbr-IsValid u h, get_iir-IsValid u h)

write_thr-IsValid : (u : Uart) (v : ℕ) → IsValid u → IsValid (write_thr u v)
unfolding write_thr
write_thr-IsValid u v h = ground (arith, set_tx u.interrupt_flags)

write_ier-IsValid : (u : Uart) (v : ℕ) → IsValid u → IsValid (write_ier u v)
unfolding write_ier
write_ier-IsValid u v h = ground (arith, clear_tx_flag u.interrupt_flags)

clear_rx-IsValid : (b : Bool) (u : Uart) → IsValid u → IsValid (clear_rx b u)
clear_rx-IsValid true u h = record {
  bounded = omega arith;
  rx_flagged = clear_rx_flag u.interrupt_flags;
}
clear_rx-IsValid false u h = h

clear_tx-IsValid : (b : Bool) (u : Uart) → IsValid u → IsValid (clear_tx b u)
clear_tx-IsValid true u h = record {
  bounded = h.bounded;
  rx_flagged = clear_tx_flag u.interrupt_flags ∙ h.rx_flagged;
}
clear_tx-IsValid false u h = h

write_fcr-IsValid : (u : Uart) (v : ℕ) → IsValid u → IsValid (write_fcr u v)
unfolding write_fcr
write_fcr-IsValid u v h =
    let enabled = record u { fifo_enabled = bit_and v 1 != 0 } in
    clear_tx-IsValid (bit_and v 4 != 0) (clear_rx (bit_and v 2 != 0) enabled) (
      clear_rx-IsValid (bit_and v 2 != 0) enabled
        (record { bounded = h.bounded; rx_flagged = h.rx_flagged }))

write8-IsValid : (u : Uart) (o v : ℕ) → IsValid u → IsValid (write8 u o v)
unfolding write8
write8-IsValid u o v h =
    ground (arith, write_thr-IsValid u v h, write_ier-IsValid u v h, write_fcr-IsValid u v h)

pub step-IsValid : (u : Uart) (e : Event) → IsValid u → IsValid (step u e)
unfolding get_output reset
step-IsValid u (received c) h = receive_char-IsValid u c h
step-IsValid u (was_read o) h = read8-IsValid u o h
step-IsValid u (wrote o v) h = write8-IsValid u o v h
step-IsValid u output_taken h = record { bounded = h.bounded; rx_flagged = h.rx_flagged }
step-IsValid u was_reset h = record { bounded = omega arith; rx_flagged = bit-zero 2 }

abbrev pub run : Uart → List Event → Uart
run u [] = u
run u (e ∷ es) = run (step u e) es

run_from-IsValid : (u : Uart) (es : List Event) → IsValid u → IsValid (run u es)
run_from-IsValid u [] h = h
run_from-IsValid u (e ∷ es) h = run_from-IsValid (step u e) es (step-IsValid u e h)

-- After any bytes from the host, register reads and writes and resets, at most 256 bytes wait, and
-- the receive flag is up exactly when one does.
pub uart_run-IsValid : (line : ℕ) (es : List Event) → IsValid (run (new line) es)
unfolding new
uart_run-IsValid line es =
    run_from-IsValid (new line) es (record { bounded = omega arith; rx_flagged = bit-zero 2 })

-- In a valid state the interrupt line is up exactly when a byte waits and receive interrupts are
-- enabled, or the transmit flag is up and transmit interrupts are enabled; and the data-ready bit
-- of the line status register tells whether a byte waits.
pub has_interrupt-lines :
    (u : Uart)
    → IsValid u
    → (has_interrupt u
        ≡ ((not (is_empty u.rx_fifo) && bit u.ier 0) || (bit u.interrupt_flags 1 && bit u.ier 1)))
      × (bit (get_lsr u) 0 ≡ not (is_empty u.rx_fifo))
unfolding has_interrupt get_lsr bit
has_interrupt-lines u h = ground (
  arith,
  bit_and-pow 2 u.interrupt_flags,
  bit_and-pow 1 u.interrupt_flags,
  bit_and-pow 0 u.ier,
  bit_and-pow 1 u.ier,
)
