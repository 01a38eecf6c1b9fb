-- ===== src/Devices/Plic/Lines.antt =====
-- About the two interrupt lines to the hart (src/devices/plic.rs).
use otorisc_v.Base.{ℕ, ◌≡◌, refl, arith, bit_and, not32, List, [], ◌∷◌, Option-cases, inl, inr}
use otorisc_v.Devices.Plic.{
  Plic, new, reset, raise_interrupt, clear_interrupt, read32, read8, write32, write8, claim,
  find_pending, update_external_interrupts, is_some, with_byte, select, scan, is_candidate, cleared,
  claim_irq, context_of,
}

-- Each line is up exactly when its context has an interrupt to be offered.
pub record IsCurrent (p : Plic) : Type 0 where
  pub machine_line : p.m_external_interrupt ≡ is_some (find_pending p 0)
  pub supervisor_line : p.s_external_interrupt ≡ is_some (find_pending p 1)

-- The events that reach the device.
pub data Event : Type 0 where
  raised lowered was_read32 was_read8 : ℕ → Event
  wrote32 wrote8 : ℕ → ℕ → Event
  was_reset : Event

abbrev pub step : Plic → Event → Plic
step p (raised irq) = raise_interrupt p irq
step p (lowered irq) = clear_interrupt p irq
step p (was_read32 o) = (read32 p o).1
step p (was_read8 o) = (read8 p o).1
step p (wrote32 o v) = write32 p o v
step p (wrote8 o v) = write8 p o v
step p was_reset = reset p

update-IsCurrent : (p : Plic) → IsCurrent (update_external_interrupts p)
unfolding update_external_interrupts
update-IsCurrent p = record { machine_line = refl; supervisor_line = refl }

pub cleared-IsCurrent : IsCurrent cleared
unfolding find_pending select scan is_candidate
cleared-IsCurrent = record { machine_line = refl; supervisor_line = refl }

claim-IsCurrent : (p : Plic) (context : ℕ) → IsCurrent p → IsCurrent (claim p context).1
unfolding claim
claim-IsCurrent p context h = elim (Option-cases (find_pending p context)) [
  | inl e ↦ rw (e, claim) h
  | inr (irq, e) ↦ rw (e, claim) (update-IsCurrent (claim_irq p context irq))
]

read32-IsCurrent : (p : Plic) (o : ℕ) → IsCurrent p → IsCurrent (read32 p o).1
unfolding read32
read32-IsCurrent p o h = ground (arith, claim-IsCurrent p (context_of o) h)

write32-IsCurrent : (p : Plic) (o v : ℕ) → IsCurrent p → IsCurrent (write32 p o v)
unfolding write32
write32-IsCurrent p o v h = ground arith

pub step-IsCurrent : (p : Plic) (e : Event) → IsCurrent p → IsCurrent (step p e)
unfolding raise_interrupt clear_interrupt read8 write8 reset
step-IsCurrent p (raised irq) h = ground arith
step-IsCurrent p (lowered irq) h = ground arith
step-IsCurrent p (was_read32 o) h = read32-IsCurrent p o h
step-IsCurrent p (was_read8 o) h = read32-IsCurrent p (bit_and o (not32 3)) h
step-IsCurrent p (wrote32 o v) h = write32-IsCurrent p o v h
step-IsCurrent p (wrote8 o v) h =
    let word_offset = bit_and o (not32 3) in
    write32-IsCurrent (read32 p word_offset).1 word_offset
      (with_byte (read32 p word_offset).0 (bit_and o 3) v) (read32-IsCurrent p word_offset h)
step-IsCurrent p was_reset h = cleared-IsCurrent

abbrev pub run : Plic → List Event → Plic
run p [] = p
run p (e ∷ es) = run (step p e) es

run_from-IsCurrent : (p : Plic) (es : List Event) → IsCurrent p → IsCurrent (run p es)
run_from-IsCurrent p [] h = h
run_from-IsCurrent p (e ∷ es) h = run_from-IsCurrent (step p e) es (step-IsCurrent p e h)

-- After any interrupts raised and cleared, any register reads (which claim), writes (which
-- complete) and resets, each of the two lines is up exactly when its context has an interrupt to
-- be offered.
pub run-IsCurrent : (es : List Event) → IsCurrent (run new es)
unfolding new
run-IsCurrent es = run_from-IsCurrent new es cleared-IsCurrent
