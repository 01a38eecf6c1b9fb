-- ===== src/Devices/Plic.antt =====
-- The platform-level interrupt controller (src/devices/plic.rs).
pub mod Select
pub mod Claim
pub mod Lines
use otorisc_v.Base.{
  ℕ, zero, suc, ◌+◌, ◌-◌, ◌*◌, ◌/◌, ◌%◌, ◌^◌, Bool, true, false, ◌&&◌, ◌||◌, ◌==◌, ◌!=◌, ltb, leb,
  bit_and, bit_or, if◌then◌else◌, ◌>>>◌, ◌<<<◌, not32, Option, none, some,
}

-- The arrays are functions of their index; every access below is within the bounds of the source's
-- arrays: 128 priorities, 4 words of bits, 2 contexts.
pub record Plic : Type 0 where
  pub priorities : ℕ → ℕ  -- u8
  pub pending : ℕ → ℕ
  pub enable : ℕ → ℕ → ℕ
  pub threshold : ℕ → ℕ  -- u8
  pub claimed : ℕ → ℕ
  pub s_external_interrupt : Bool
  pub m_external_interrupt : Bool

abbrev pub max_interrupts : ℕ
max_interrupts = 128

abbrev pub max_contexts : ℕ
max_contexts = 2

abbrev pub words : ℕ
words = 4

abbrev pub cleared : Plic
cleared = record {
  priorities = λ _. 0;
  pending = λ _. 0;
  enable = λ _ _. 0;
  threshold = λ _. 0;
  claimed = λ _. 0;
  s_external_interrupt = false;
  m_external_interrupt = false;
}

unfoldable pub new : Plic
new = cleared

abbrev pub put {ℓ} : {A : Type ℓ} → (ℕ → A) → ℕ → A → ℕ → A
put f i v j = if i == j then v else f j

-- `(irq / 32) as usize` and `1 << (irq % 32)`.
abbrev pub word_of : ℕ → ℕ
word_of irq = irq / 32

abbrev pub mask_of : ℕ → ℕ
mask_of irq = 2 ^ (irq % 32)

-- The loop of `find_pending`, over what it reads: the pending words, the context's enable words
-- and threshold, and the priorities.
module _ (priorities pending enable : ℕ → ℕ) (threshold : ℕ) where
  unfoldable pub is_candidate : ℕ → ℕ → Bool
  is_candidate irq best_priority =
      (bit_and (pending (word_of irq)) (mask_of irq) != 0)
      && (bit_and (enable (word_of irq)) (mask_of irq) != 0)
      && (ltb 0 (priorities irq)
          && ltb threshold (priorities irq)
          && leb best_priority (priorities irq))

  -- `left` interrupts from `irq` on are still to be looked at.
  unfoldable pub scan : ℕ → ℕ → Option ℕ → ℕ → Option ℕ
  scan zero irq best best_priority = best
  scan (suc left) irq best best_priority =
      let better = is_candidate irq best_priority in
      scan left (irq + 1) (if better then some irq else best)
        (if better then priorities irq else best_priority)

  unfoldable pub select : Option ℕ
  select = scan 127 1 none 0

unfoldable pub find_pending : Plic → ℕ → Option ℕ
find_pending p context = select p.priorities p.pending (p.enable context) (p.threshold context)

abbrev pub is_some : Option ℕ → Bool
is_some none = false
is_some (some _) = true

unfoldable pub update_external_interrupts : Plic → Plic
unfolding find_pending
update_external_interrupts p = record p {
  m_external_interrupt = is_some (find_pending p 0);
  s_external_interrupt = is_some (find_pending p 1);
}

abbrev pub set_pending : Plic → ℕ → Plic
set_pending p irq = record p {
  pending = put p.pending (word_of irq) (bit_or (p.pending (word_of irq)) (mask_of irq));
}

abbrev pub unset_pending : Plic → ℕ → Plic
unset_pending p irq = record p {
  pending = put p.pending (word_of irq) (bit_and (p.pending (word_of irq)) (not32 (mask_of irq)));
}

abbrev pub is_line : ℕ → Bool
is_line irq = if irq == 0 then false else ltb irq max_interrupts

unfoldable pub raise_interrupt : Plic → ℕ → Plic
unfolding update_external_interrupts
raise_interrupt p irq = if is_line irq then update_external_interrupts (set_pending p irq) else p

unfoldable pub clear_interrupt : Plic → ℕ → Plic
unfolding update_external_interrupts
clear_interrupt p irq = if is_line irq then update_external_interrupts (unset_pending p irq) else p

abbrev pub claim_irq : Plic → ℕ → ℕ → Plic
claim_irq p context irq = record (unset_pending p irq) { claimed = put p.claimed context irq }

unfoldable pub claim : Plic → ℕ → ℕ × Plic
unfolding find_pending update_external_interrupts
claim p context = elim (find_pending p context) [
  | none ↦ (0, p)
  | some irq ↦ (irq, update_external_interrupts (claim_irq p context irq))
]

unfoldable pub complete : Plic → ℕ → ℕ → Plic
unfolding update_external_interrupts
complete p context irq =
    update_external_interrupts
      (if p.claimed context == irq then record p { claimed = put p.claimed context 0 } else p)

-- The regions of the memory map.
abbrev pub in_pending : ℕ → Bool
in_pending o = leb 0x1000 o && ltb o 0x1080

abbrev pub in_enable : ℕ → Bool
in_enable o = leb 0x2000 o && ltb o 0x2100

abbrev pub enable_context : ℕ → ℕ
enable_context o = (o - 0x2000) / 0x80

abbrev pub enable_word : ℕ → ℕ
enable_word o = (o - 0x2000) % 0x80 / 4

abbrev pub in_bounds : ℕ → Bool
in_bounds o = ltb (enable_context o) max_contexts && ltb (enable_word o) words

abbrev pub context_of : ℕ → ℕ
context_of o = (o - 0x200000) / 0x1000

abbrev pub register_of : ℕ → ℕ
register_of o = (o - 0x200000) % 0x1000

unfoldable pub read32 : Plic → ℕ → ℕ × Plic
unfolding claim
read32 p o =
    if ltb o 0x1000
    then (if ltb (o / 4) max_interrupts then p.priorities (o / 4) else 0, p)
    else if in_pending o
    then (if ltb ((o - 0x1000) / 4) words then p.pending ((o - 0x1000) / 4) else 0, p)
    else if in_enable o
    then (if in_bounds o then p.enable (enable_context o) (enable_word o) else 0, p)
    else if leb 0x200000 o
    then if leb max_contexts (context_of o)
      then (0, p)
      else if register_of o == 0
      then (p.threshold (context_of o), p)
      else if register_of o == 4
      then claim p (context_of o)
      else (0, p)
    else (0, p)

abbrev pub put_enable : Plic → ℕ → ℕ → ℕ → Plic
put_enable p context idx value = record p {
  enable = put p.enable context (put (p.enable context) idx value);
}

unfoldable pub write32 : Plic → ℕ → ℕ → Plic
unfolding complete update_external_interrupts
write32 p o value =
    if ltb o 0x1000
    then if is_line (o / 4)
      then update_external_interrupts
          (record p { priorities = put p.priorities (o / 4) (bit_and value 7) })
      else p
    else if in_pending o
    then p
    else if in_enable o
    then if in_bounds o
      then update_external_interrupts (put_enable p (enable_context o) (enable_word o) value)
      else p
    else if leb 0x200000 o
    then if leb max_contexts (context_of o)
      then p
      else if register_of o == 0
      then update_external_interrupts
          (record p { threshold = put p.threshold (context_of o) (bit_and value 7) })
      else if register_of o == 4
      then complete p (context_of o) value
      else p
    else p

abbrev pub byte_of : ℕ → ℕ → ℕ
byte_of word byte_offset = bit_and (word >>> (byte_offset * 8)) 0xFF

abbrev pub with_byte : ℕ → ℕ → ℕ → ℕ
with_byte word byte_offset value =
    bit_or (bit_and word (not32 (0xFF <<< (byte_offset * 8)))) (value <<< (byte_offset * 8))

unfoldable pub read8 : Plic → ℕ → ℕ × Plic
unfolding read32
read8 p offset =
    let (word, p') = read32 p (bit_and offset (not32 3)) in (byte_of word (bit_and offset 3), p')

unfoldable pub write8 : Plic → ℕ → ℕ → Plic
unfolding read32 write32
write8 p offset value =
    let word_offset = bit_and offset (not32 3) in
    let (word, p') = read32 p word_offset in
    write32 p' word_offset (with_byte word (bit_and offset 3) value)

unfoldable pub reset : Plic → Plic
reset p = cleared
