-- ===== src/Devices/Virtio/Lines.antt =====
-- About the interrupt of a VirtIO device (`VirtioMmio`, src/devices/virtio.rs).
use otorisc_v.Base.{
  ℕ, ◌^◌, ◌≡◌, refl, ap, arith, Bool, Bool-cases, inl, inr, true, false, ◌!=◌, bit_or, bit-bit_or,
  bit-pow, bit-zero, bit, not32, zero-bit_and, List, [], ◌∷◌,
}
use otorisc_v.Devices.Virtio.{
  VirtioMmio, new, reset, acknowledge, write_driver_features, write32, write8, raise_interrupt,
}

-- The interrupt is pending exactly when a cause is recorded and not acknowledged.
pub record IsValid (v : VirtioMmio) : Type 0 where
  pub pending : v.interrupt_pending ≡ (v.interrupt_status != 0)

-- The events that change the device: writes of the driver, interrupts and resets of the device.
pub data Event : Type 0 where
  wrote32 wrote8 : ℕ → ℕ → Event
  raised : Bool → Event
  was_reset : Event

abbrev pub step : VirtioMmio → Event → VirtioMmio
step v (wrote32 o x) = write32 v o x
step v (wrote8 o x) = write8 v o x
step v (raised ring_update) = raise_interrupt v ring_update
step v was_reset = reset v

or_ne-zero : (x j : ℕ) → (bit_or x (2 ^ j) != 0) ≡ true
or_ne-zero x j = elim (Bool-cases (bit_or x (2 ^ j) != 0)) [
  | inl e ↦ e
  | inr e ↦
      let z : bit_or x (2 ^ j) ≡ 0 = ground arith in
      let b : bit 0 j ≡ true =
        ground (arith, ap (λ (y : ℕ). bit y j) z, bit-bit_or j x (2 ^ j), bit-pow j j) in
      cc (bit-zero j)
]

acknowledge-IsValid : (v : VirtioMmio) (x : ℕ) → IsValid v → IsValid (acknowledge v x)
unfolding acknowledge
acknowledge-IsValid v x h = ground (arith, zero-bit_and (not32 x))

write32-IsValid : (v : VirtioMmio) (o x : ℕ) → IsValid v → IsValid (write32 v o x)
unfolding write32 write_driver_features reset
write32-IsValid v o x h = ground (arith, acknowledge-IsValid v x h)

step-IsValid : (v : VirtioMmio) (e : Event) → IsValid v → IsValid (step v e)
unfolding write8 raise_interrupt reset
step-IsValid v (wrote32 o x) h = write32-IsValid v o x h
step-IsValid v (wrote8 o x) h = ground arith
step-IsValid v (raised true) h = record {
  pending = ground (arith, or_ne-zero v.interrupt_status 0);
}
step-IsValid v (raised false) h = record {
  pending = ground (arith, or_ne-zero v.interrupt_status 1);
}
step-IsValid v was_reset h = record { pending = refl }

abbrev pub run : VirtioMmio → List Event → VirtioMmio
run v [] = v
run v (e ∷ es) = run (step v e) es

run_from-IsValid : (v : VirtioMmio) (es : List Event) → IsValid v → IsValid (run v es)
run_from-IsValid v [] h = h
run_from-IsValid v (e ∷ es) h = run_from-IsValid (step v e) es (step-IsValid v e h)

-- After any writes of the driver, interrupts of the device and resets, the interrupt is pending
-- exactly when the interrupt status register is not zero.
pub virtio_run-IsValid :
    (device_id num_queues : ℕ) (config : List ℕ) (es : List Event)
    → IsValid (run (new device_id num_queues config) es)
unfolding new
virtio_run-IsValid device_id num_queues config es =
    run_from-IsValid (new device_id num_queues config) es (record { pending = refl })
