-- ===== src/Jit/Blocks.antt =====
-- About the size and the contents of blocks (src/cpu/rv32/jit/v1/mod.rs).
use otorisc_v.Base.{
  ℕ, zero, suc, ◌≤◌, ◌≡◌, refl, arith, ◌==◌, Bool-cases, inl, inr, add32, Option, none, some,
  length,
}
use mathlib.Core.Path.{subst}
use otorisc_v.Bus.{Bus}
use otorisc_v.Jit.{
  CompiledBlock, BlockCache, max_block, scan, compile_block, get, new, invalidate_all, current,
}

-- A block has between one and 64 instructions, and knows how many.
pub record IsFull (b : CompiledBlock) : Type 0 where
  pub counted : b.inst_count ≡ length b.instructions
  pub some_there : 1 ≤ b.inst_count
  pub not_too_many : b.inst_count ≤ max_block

-- Every block of a cache is.
pub record IsFilled (c : BlockCache) : Type 0 where
  pub at : (p : ℕ) (b : CompiledBlock) → c.blocks p ≡ some b → IsFull b

module _ {S : Type 0} (bus : Bus S) where
  scan-length : (left paddr : ℕ) (s : S) → length (scan bus left paddr s).0 ≤ left
  unfolding scan
  scan-length zero paddr s = omega arith
  scan-length (suc left) paddr s =
      ground (arith, scan-length left (add32 paddr 4) (bus.read32 s paddr).1)

  pub scan-nonempty : (left paddr : ℕ) (s : S) → 1 ≤ length (scan bus (suc left) paddr s).0
  unfolding scan
  scan-nonempty left paddr s = ground arith

  pub compile_block-IsFull : (c : BlockCache) (s : S) (p : ℕ) → IsFull (compile_block bus c s p).0
  unfolding compile_block
  compile_block-IsFull c s p = record {
    counted = refl;
    some_there = scan-nonempty 63 p s;
    not_too_many = scan-length 64 p s;
  }

  pub compile_block-IsFilled :
      (c : BlockCache) (s : S) (p : ℕ) → IsFilled c → IsFilled (compile_block bus c s p).1
  unfolding compile_block
  compile_block-IsFilled c s p h =
      let block = (compile_block bus c s p).0 in
      record {
        at = λ q b e. elim (Bool-cases (p == q)) [
          | inl here ↦
              let e' : some block ≡ some b = ground arith in
              subst IsFull (cc) (compile_block-IsFull c s p)
          | inr elsewhere ↦ h.at q b (ground arith)
        ];
      }

-- What is current stands in the map.
current-some :
    (g : ℕ) (o : Option CompiledBlock) (b : CompiledBlock) → current g o ≡ some b → o ≡ some b
current-some g none b e = e
current-some g (some x) b e = ground arith

pub get-IsFilled : (c : BlockCache) (p : ℕ) → IsFilled c → IsFilled (get c p).1
unfolding get
get-IsFilled c p h = record { at = λ q b e. h.at q b (ground arith) }

pub get-IsFull :
    (c : BlockCache) (p : ℕ) (b : CompiledBlock) → IsFilled c → (get c p).0 ≡ some b → IsFull b
unfolding get
get-IsFull c p b h e = h.at p b (current-some c.generation (c.blocks p) b (ground arith))

pub new-IsFilled : IsFilled new
unfolding new
new-IsFilled = record { at = λ p b e. cc }

pub invalidate_all-IsFilled : (c : BlockCache) → IsFilled c → IsFilled (invalidate_all c)
unfolding invalidate_all
invalidate_all-IsFilled c h = record { at = λ p b e. h.at p b e }
