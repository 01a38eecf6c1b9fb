-- ===== src/Devices/Plic/Select.antt =====
-- About the scan of `find_pending` (src/devices/plic.rs).
use otorisc_v.Base.{
  ℕ, zero, suc, ◌+◌, ◌<◌, ◌≤◌, ◌/◌, ◌%◌, true, false, ◌≡◌, ◌⊎◌, inl, inr, arith, ltb, bit,
  bit_and-pow, Option, none, some, Bool-cases,
}
use otorisc_v.Devices.Plic.{Plic, is_candidate, scan, select, find_pending}

module _ (priorities pending enable : ℕ → ℕ) (threshold : ℕ) where
  -- Pending, enabled, of a priority that is not zero and above the threshold.
  pub record IsEligible (irq : ℕ) : Type 0 where
    pub is_pending : bit (pending (irq / 32)) (irq % 32) ≡ true
    pub is_enabled : bit (enable (irq / 32)) (irq % 32) ≡ true
    pub above_zero : 0 < priorities irq
    pub above_threshold : threshold < priorities irq

  -- The best interrupt of those from 1 below `hi`: none is eligible, or `i` is, and no eligible
  -- one has a higher priority or the same priority and a higher number.
  abbrev pub IsBest : ℕ → Option ℕ → Type 0
  IsBest hi none = (j : ℕ) → 1 ≤ j → j < hi → ¬ IsEligible j
  IsBest hi (some i) =
      (1 ≤ i)
      × (i < hi)
      × IsEligible i
      × ((j : ℕ)
          → 1 ≤ j
          → j < hi
          → IsEligible j
          → (priorities j < priorities i) ⊎ ((priorities j ≡ priorities i) × (j ≤ i)))

  abbrev priority_of : Option ℕ → ℕ
  priority_of none = 0
  priority_of (some i) = priorities i

  candidate-IsEligible :
      (irq b : ℕ)
      → is_candidate priorities pending enable threshold irq b ≡ true
      → IsEligible irq × (b ≤ priorities irq)
  unfolding is_candidate
  candidate-IsEligible irq b h = ground (
    arith,
    bit_and-pow (irq % 32) (pending (irq / 32)),
    bit_and-pow (irq % 32) (enable (irq / 32)),
  )

  eligible_candidate :
      (irq b : ℕ)
      → IsEligible irq
      → b ≤ priorities irq
      → is_candidate priorities pending enable threshold irq b ≡ true
  unfolding is_candidate
  eligible_candidate irq b h le = ground (
    arith,
    bit_and-pow (irq % 32) (pending (irq / 32)),
    bit_and-pow (irq % 32) (enable (irq / 32)),
  )

  IsBest-better :
      (irq : ℕ) (best : Option ℕ)
      → 1 ≤ irq
      → IsBest irq best
      → is_candidate priorities pending enable threshold irq (priority_of best) ≡ true
      → IsBest (irq + 1) (some irq)
  IsBest-better irq none one h c = (
    one,
    omega arith,
    (candidate-IsEligible irq 0 c).0,
    λ j lo hi e. elim (Bool-cases (ltb j irq)) [
      | inl lt ↦ absurd (h j lo (ground arith) e)
      | inr ge ↦ ground arith
    ],
  )
  IsBest-better irq (some i) one h c = (
    one,
    omega arith,
    (candidate-IsEligible irq (priorities i) c).0,
    λ j lo hi e. elim (Bool-cases (ltb j irq)) [
      | inl lt ↦
          ground (arith, h.3 j lo (ground arith) e, (candidate-IsEligible irq (priorities i) c).1)
      | inr ge ↦ ground arith
    ],
  )

  IsBest-keep :
      (irq : ℕ) (best : Option ℕ)
      → 1 ≤ irq
      → IsBest irq best
      → is_candidate priorities pending enable threshold irq (priority_of best) ≡ false
      → IsBest (irq + 1) best
  IsBest-keep irq none one h c = λ j lo hi e. elim (Bool-cases (ltb j irq)) [
    | inl lt ↦ h j lo (ground arith) e
    | inr ge ↦
        let same : j ≡ irq = ground arith in
        let e' : IsEligible irq = rw same at e in
        absurd (ground (arith, eligible_candidate irq 0 e'))
  ]
  IsBest-keep irq (some i) one h c = (
    h.0,
    omega arith,
    h.2,
    λ j lo hi e. elim (Bool-cases (ltb j irq)) [
      | inl lt ↦ h.3 j lo (ground arith) e
      | inr ge ↦
          let same : j ≡ irq = ground arith in
          let e' : IsEligible irq = rw same at e in
          rw same (ground (arith, eligible_candidate irq (priorities i) e'))
    ],
  )

  scan-IsBest :
      (left irq : ℕ) (best : Option ℕ)
      → 1 ≤ irq
      → IsBest irq best
      → IsBest
          (irq + left)
          (scan priorities pending enable threshold left irq best (priority_of best))
  unfolding scan
  scan-IsBest zero irq best one h = let e : irq + 0 ≡ irq = omega arith in rw e h
  scan-IsBest (suc left) irq best one h =
      let e : irq + suc left ≡ irq + 1 + left = omega arith in
      rw e
        (elim (Bool-cases
          (is_candidate priorities pending enable threshold irq (priority_of best))) [
            | inl c ↦ rw c (
                scan-IsBest left (irq + 1) (some irq) (omega arith)
                  (IsBest-better irq best one h c))
            | inr c ↦
                rw c (scan-IsBest left (irq + 1) best (omega arith) (IsBest-keep irq best one h c))
          ])

  select-IsBest : IsBest 128 (select priorities pending enable threshold)
  unfolding select
  select-IsBest = scan-IsBest 127 1 none (omega arith) (λ j lo hi e. omega arith)

-- The interrupt that a context is offered is eligible and no eligible one beats it, by a higher
-- priority or by the same priority and a higher number; none is offered only if none is eligible.
pub find_pending-IsBest :
    (p : Plic) (context : ℕ)
    → IsBest p.priorities p.pending
        (p.enable context)
        (p.threshold context)
        128
        (find_pending p context)
unfolding find_pending
find_pending-IsBest p context =
    select-IsBest p.priorities p.pending (p.enable context) (p.threshold context)
