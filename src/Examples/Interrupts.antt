-- ===== src/Examples/Interrupts.antt =====
-- The interrupt controller at concrete inputs (src/devices/plic.rs).
use otorisc_v.Base.{ℕ, ◌≤◌, ◌<◌, ◌≡◌, some, none, ◌⊎◌, [], ◌∷◌}
use otorisc_v.Devices.Plic
use otorisc_v.Devices.Plic.{Plic, find_pending, claim, raise_interrupt, clear_interrupt, is_line}
use otorisc_v.Devices.Plic.Select.{IsBest, find_pending-IsBest}
use otorisc_v.Devices.Plic.Claim.{IsClaimed, claim-IsClaimed}
use otorisc_v.Devices.Plic.Lines
use otorisc_v.Devices.Plic.Lines.{IsCurrent, run-IsCurrent}

-- Interrupts 3 and 10 of each of the four words wait and are enabled; higher numbers have the
-- higher priority.
abbrev waiting : Plic
waiting = record (Plic.new) {
  priorities = λ irq. irq;
  pending = λ word. 1032;
  enable = λ context word. 1032;
}

find_pending-IsBest_example :
    IsBest waiting.priorities waiting.pending
      (waiting.enable 1)
      (waiting.threshold 1)
      128
      (find_pending waiting 1)
find_pending-IsBest_example = find_pending-IsBest waiting 1

claim-IsClaimed_example :
    ((find_pending waiting 1 ≡ none) × (claim waiting 1 ≡ (0, waiting)))
    ⊎ ((i : ℕ) × (find_pending waiting 1 ≡ some i)
        × (1 ≤ i)
        × (i < 128)
        × ((claim waiting 1).0 ≡ i)
        × IsClaimed waiting (claim waiting 1).1 1 i 3)
claim-IsClaimed_example = claim-IsClaimed waiting 1 3

run-IsCurrent_example : IsCurrent (
    Lines.run Plic.new (
      Lines.wrote32 40 1
      ∷ Lines.wrote32 0x2080 1024
      ∷ Lines.raised 10
      ∷ Lines.was_read32 0x201004
      ∷ []))
run-IsCurrent_example = run-IsCurrent (
    Lines.wrote32 40 1
    ∷ Lines.wrote32 0x2080 1024
    ∷ Lines.raised 10
    ∷ Lines.was_read32 0x201004
    ∷ [])
