-- ===== src/Jit/Straight.antt =====
-- About the instructions of a block (`compile_block`, src/cpu/rv32/jit/v1/mod.rs).
use otorisc_v.Base.{
  ℕ, zero, suc, ◌+◌, ◌*◌, ◌%◌, ◌<◌, ◌≡◌, refl, ap, arith, true, false, Bool-cases, inl, inr, add32,
  some, List, [], ◌∷◌, length, get_elem?,
}
use otorisc_v.Bus.{Bus}
use otorisc_v.Icache
use otorisc_v.Icache.{CachedInst}
use otorisc_v.Jit.Blocks.{scan-nonempty}
use otorisc_v.Jit.{BlockCache, scan, compile_block, is_block_terminator, max_block}

module _ {S : Type 0} (bus : Bus S) (s : S) (word : ℕ → ℕ)
    (silent : (a : ℕ) → bus.read32 s a ≡ (word a, s)) where
  -- The instruction at an address.
  abbrev pub inst_at : ℕ → CachedInst
  inst_at a = Icache.decode (word a)

  -- Instructions from an address on, one in each word; only the last may end a block, and it does
  -- if there is room for more.
  pub record IsStraight (left start : ℕ) (l : List CachedInst) : Type 0 where
    pub at : (i : ℕ) → i < length l → get_elem? l i ≡ some (inst_at ((start + 4 * i) % 4294967296))
    pub before :
        (i : ℕ)
        → i + 1 < length l
        → is_block_terminator (inst_at ((start + 4 * i) % 4294967296)).opcode ≡ false
    pub ended :
        (n : ℕ)
        → length l ≡ n + 1
        → n + 1 < left
        → is_block_terminator (inst_at ((start + 4 * n) % 4294967296)).opcode ≡ true

  scan-more :
      (left a : ℕ)
      → is_block_terminator (inst_at a).opcode ≡ false
      → (scan bus (suc left) a s).0 ≡ inst_at a ∷ (scan bus left (add32 a 4) s).0
  unfolding scan
  scan-more left a e = rw (silent a, e) refl

  scan-last :
      (left a : ℕ)
      → is_block_terminator (inst_at a).opcode ≡ true
      → (scan bus (suc left) a s).0 ≡ inst_at a ∷ []
  unfolding scan
  scan-last left a e = rw (silent a, e) refl

  -- The address of a later instruction, from the next one.
  next_address : (a i : ℕ) → (add32 a 4 + 4 * i) % 4294967296 ≡ (a + 4 * suc i) % 4294967296
  next_address a i = omega arith

  first_address : (a : ℕ) → a < 4294967296 → (a + 4 * 0) % 4294967296 ≡ a
  first_address a h = omega arith

  abbrev scanned : ℕ → ℕ → List CachedInst
  scanned left a = (scan bus left a s).0

  scan-at :
      (left a i : ℕ)
      → a < 4294967296
      → i < length (scanned left a)
      → get_elem? (scanned left a) i ≡ some (inst_at ((a + 4 * i) % 4294967296))
  unfolding scan
  scan-at zero a i lt h = absurd (omega arith)
  scan-at (suc left) a zero lt h = elim (Bool-cases (is_block_terminator (inst_at a).opcode)) [
    | inl e ↦ rw (scan-last left a e, first_address a lt) refl
    | inr e ↦ rw (scan-more left a e, first_address a lt) refl
  ]
  scan-at (suc left) a (suc i) lt h = elim (Bool-cases (is_block_terminator (inst_at a).opcode)) [
    | inl e ↦ absurd (omega (arith, ap length (scan-last left a e)))
    | inr e ↦
        let k =
          scan-at left (add32 a 4) i (omega arith)
            (omega (arith, ap length (scan-more left a e))) in
        rw (scan-more left a e, ← next_address a i) k
  ]

  scan-before :
      (left a i : ℕ)
      → a < 4294967296
      → i + 1 < length (scanned left a)
      → is_block_terminator (inst_at ((a + 4 * i) % 4294967296)).opcode ≡ false
  unfolding scan
  scan-before zero a i lt h = absurd (omega arith)
  scan-before (suc left) a zero lt h = elim (Bool-cases (is_block_terminator (inst_at a).opcode)) [
    | inl e ↦ absurd (omega (arith, ap length (scan-last left a e)))
    | inr e ↦ rw (first_address a lt) e
  ]
  scan-before (suc left) a (suc i) lt h =
      elim (Bool-cases (is_block_terminator (inst_at a).opcode)) [
        | inl e ↦ absurd (omega (arith, ap length (scan-last left a e)))
        | inr e ↦
            let k =
              scan-before left (add32 a 4) i (omega arith)
                (omega (arith, ap length (scan-more left a e))) in
            rw (← next_address a i) k
      ]

  scan-ended :
      (left a n : ℕ)
      → a < 4294967296
      → length (scanned left a) ≡ n + 1
      → n + 1 < left
      → is_block_terminator (inst_at ((a + 4 * n) % 4294967296)).opcode ≡ true
  scan-ended zero a n lt h room = absurd (omega arith)
  scan-ended (suc zero) a zero lt h room = absurd (omega arith)
  scan-ended (suc (suc left)) a zero lt h room =
      elim (Bool-cases (is_block_terminator (inst_at a).opcode)) [
        | inl e ↦ rw (first_address a lt) e
        | inr e ↦ absurd (
            omega
              (arith, ap length (scan-more (suc left) a e), scan-nonempty bus left (add32 a 4) s))
      ]
  scan-ended (suc left) a (suc n) lt h room =
      elim (Bool-cases (is_block_terminator (inst_at a).opcode)) [
        | inl e ↦ absurd (omega (arith, ap length (scan-last left a e)))
        | inr e ↦
            let k =
              scan-ended left (add32 a 4) n (omega arith)
                (omega (arith, ap length (scan-more left a e))) (omega arith) in
            rw (← next_address a n) k
      ]

  -- A compiled block holds the decoded words from its address on, in order; none of them but the
  -- last is a branch, a jump or a SYSTEM instruction, and the last is one unless the block is full.
  -- The bus only reads here: a word for each address, and no change behind it.
  pub compile_block-IsStraight :
      (c : BlockCache) (start : ℕ)
      → start < 4294967296
      → IsStraight max_block start (compile_block bus c s start).0.instructions
  unfolding compile_block
  compile_block-IsStraight c start lt = record {
    at = λ i h. scan-at max_block start i lt h;
    before = λ i h. scan-before max_block start i lt h;
    ended = λ n h room. scan-ended max_block start n lt h room;
  }
