-- ===== src/Devices/Plic/Claim.antt =====
-- About raising, clearing and claiming an interrupt (src/devices/plic.rs).
use otorisc_v.Base.{
  ℕ, ◌<◌, ◌≤◌, ◌/◌, ◌%◌, ◌^◌, Bool, not, ◌&&◌, ◌||◌, ◌==◌, ◌≡◌, ◌≢◌, refl, arith, bit, bit-bit_and,
  bit-bit_or, bit-not32, bit-pow, pow_lt, not32, Option-cases, inl, inr, ◌⊎◌, none, some,
}
use otorisc_v.Devices.Plic.{
  Plic, raise_interrupt, clear_interrupt, claim, find_pending, set_pending, unset_pending, is_line,
}
use otorisc_v.Devices.Plic.Select.{find_pending-IsBest}

-- Interrupt `j` is pending.
abbrev pub pends : Plic → ℕ → Bool
pends p j = bit (p.pending (j / 32)) (j % 32)

-- Word and place of an interrupt give its number.
same_number : (i j : ℕ) → ((i / 32 == j / 32) && (i % 32 == j % 32)) ≡ (i == j)
same_number i j = ground arith

pends-set_pending : (p : Plic) (i j : ℕ) → pends (set_pending p i) j ≡ ((i == j) || pends p j)
pends-set_pending p i j = ground (
  arith,
  bit-bit_or (j % 32) (p.pending (i / 32)) (2 ^ (i % 32)),
  bit-pow (i % 32) (j % 32),
  same_number i j,
)

pends-unset_pending :
    (p : Plic) (i j : ℕ) → pends (unset_pending p i) j ≡ (not (i == j) && pends p j)
pends-unset_pending p i j = ground (
  arith,
  bit-bit_and (j % 32) (p.pending (i / 32)) (not32 (2 ^ (i % 32))),
  bit-not32 (j % 32) (2 ^ (i % 32)) (pow_lt 32 (i % 32) (omega arith)) (omega arith),
  bit-pow (i % 32) (j % 32),
  same_number i j,
)

-- Raising an interrupt from 1 to 127 makes it pending, clearing it makes it not pending, and
-- neither changes another; the numbers 0 and from 128 on are ignored.
pub pends-raise-clear :
    (p : Plic) (i j : ℕ)
    → (pends (raise_interrupt p i) j ≡ ((is_line i && (i == j)) || pends p j))
      × (pends (clear_interrupt p i) j ≡ (not (is_line i && (i == j)) && pends p j))
unfolding raise_interrupt clear_interrupt
pends-raise-clear p i j = ground (arith, pends-set_pending p i j, pends-unset_pending p i j)

-- What a claim by `context` that answers `i` leaves behind: `i` is recorded and no longer pending,
-- every other interrupt is as it was, and the other registers are untouched.
pub record IsClaimed (p p' : Plic) (context i j : ℕ) : Type 0 where
  pub recorded : p'.claimed context ≡ i
  pub pending_bits : pends p' j ≡ (not (i == j) && pends p j)
  pub same_priorities : p'.priorities ≡ p.priorities
  pub same_enable : p'.enable ≡ p.enable
  pub same_threshold : p'.threshold ≡ p.threshold

claim-some :
    (p : Plic) (context i j : ℕ)
    → find_pending p context ≡ some i
    → ((claim p context).0 ≡ i) × IsClaimed p (claim p context).1 context i j
unfolding claim
claim-some p context i j e =
    rw (e, claim)
      (
        refl,
        record {
          recorded = ground arith;
          pending_bits = pends-unset_pending p i j;
          same_priorities = refl;
          same_enable = refl;
          same_threshold = refl;
        },
      )

-- A claim answers 0 and changes nothing if no interrupt is to be offered; otherwise it answers the
-- interrupt that is offered, which lies from 1 to 127, and takes it.
pub claim-IsClaimed :
    (p : Plic) (context j : ℕ)
    → ((find_pending p context ≡ none) × (claim p context ≡ (0, p)))
      ⊎ ((i : ℕ) × (find_pending p context ≡ some i)
          × (1 ≤ i)
          × (i < 128)
          × ((claim p context).0 ≡ i)
          × IsClaimed p (claim p context).1 context i j)
unfolding claim
claim-IsClaimed p context j = elim (Option-cases (find_pending p context)) [
  | inl e ↦ inl (e, rw (e, claim))
  | inr (i, e) ↦
      let best = rw e at (find_pending-IsBest p context) in
      let (answer, left) = claim-some p context i j e in inr (i, e, best.0, best.1, answer, left)
]

-- A claimed interrupt is not offered again, to either context, until it is raised again.
claim-exclusive :
    (p : Plic) (context other i : ℕ)
    → find_pending p context ≡ some i
    → find_pending (claim p context).1 other ≢ some i
claim-exclusive p context other i e again =
    let best = rw again at (find_pending-IsBest (claim p context).1 other) in
    let gone = (claim-some p context i i e).1.pending_bits in absurd (ground (arith, best.2, gone))
