-- ===== src/Jit.antt =====
-- Blocks of decoded instructions that run as one (src/cpu/rv32/jit/v1/mod.rs), on the interpreter's
-- path. The generators of native code and of WebAssembly, chosen by features, are not modelled.
pub mod Blocks
pub mod Kept
pub mod Straight
use otorisc_v.Base.{
  ℕ, zero, suc, ◌+◌, ◌%◌, Bool, true, false, ◌||◌, ◌&&◌, ◌==◌, ◌!=◌, not, bit_and, not32, add32,
  u32, u64, if◌then◌else◌, Option, none, some, List, [], ◌∷◌, length, ok, err,
}
use otorisc_v.Bus.{Bus}
use otorisc_v.Icache
use otorisc_v.Icache.{CachedInst}
use otorisc_v.Decode.Op
use otorisc_v.Cpu.{Cpu}
use otorisc_v.Trap.{Trap}
use otorisc_v.Execute.{FpUnit, execute_cached}
use otorisc_v.Execute.Alu.{Outcome}

pub data BlockResult : Type 0 where
  continue : ℕ → BlockResult
  trap : Trap → BlockResult
  interpret : BlockResult

pub record CompiledBlock : Type 0 where
  pub start_paddr : ℕ
  pub inst_count : ℕ
  pub instructions : List CachedInst
  pub generation : ℕ

-- The map from physical addresses to blocks is a function into `Option`.
pub record BlockCache : Type 0 where
  pub blocks : ℕ → Option CompiledBlock
  pub generation : ℕ
  pub hits : ℕ
  pub misses : ℕ
  pub compiles : ℕ

unfoldable pub new : BlockCache
new = record { blocks = λ _. none; generation = 1; hits = 0; misses = 0; compiles = 0 }

-- A block of the current generation.
abbrev pub current : ℕ → Option CompiledBlock → Option CompiledBlock
current generation none = none
current generation (some b) = if b.generation == generation then some b else none

unfoldable pub get_block : BlockCache → ℕ → Option CompiledBlock
get_block c paddr = current c.generation (c.blocks paddr)

unfoldable pub get : BlockCache → ℕ → Option CompiledBlock × BlockCache
get c paddr = elim (current c.generation (c.blocks paddr)) [
  | some b ↦ (some b, record c { hits = u64 (c.hits + 1) })
  | none ↦ (none, record c { misses = u64 (c.misses + 1) })
]

abbrev pub is_block_terminator : ℕ → Bool
is_block_terminator opcode =
    (opcode == Op.branch) || (opcode == Op.jal) || (opcode == Op.jalr) || (opcode == Op.system)

abbrev pub max_block : ℕ
max_block = 64

module _ {S : Type 0} (bus : Bus S) where
  -- The loop of `compile_block`: `left` more instructions fit into the block.
  unfoldable pub scan : ℕ → ℕ → S → List CachedInst × S
  scan zero paddr s = ([], s)
  scan (suc left) paddr s =
      let (inst, s1) = bus.read32 s paddr in
      let cached = Icache.decode inst in
      let more : List CachedInst × S =
        let (later, s2) = scan left (add32 paddr 4) s1 in (cached ∷ later, s2) in
      if is_block_terminator cached.opcode then (cached ∷ [], s1) else more

  abbrev pub insert : BlockCache → ℕ → List CachedInst × S → CompiledBlock × BlockCache × S
  insert c start_paddr (instructions, s) =
      let block : CompiledBlock = record {
        start_paddr = start_paddr;
        inst_count = length instructions;
        instructions = instructions;
        generation = c.generation;
      } in
      (
        block,
        record c {
          blocks = Icache.update c.blocks start_paddr (some block);
          compiles = u64 (c.compiles + 1);
        },
        s,
      )

  unfoldable pub compile_block : BlockCache → S → ℕ → CompiledBlock × BlockCache × S
  unfolding scan
  compile_block c s start_paddr = insert c start_paddr (scan max_block start_paddr s)

unfoldable pub invalidate_all : BlockCache → BlockCache
invalidate_all c = record c { generation = u32 (c.generation + 1) }

-- `retain`, on each block of the map.
abbrev pub retained : ℕ → ℕ → ℕ → Option CompiledBlock → Option CompiledBlock
retained generation page_base addr none = none
retained generation page_base addr (some b) =
    if (b.generation != generation) || (bit_and addr (not32 0xFFF) != page_base)
    then some b
    else none

unfoldable pub invalidate_page : BlockCache → ℕ → BlockCache
invalidate_page c page_addr = record c {
  blocks = λ addr. retained c.generation (bit_and page_addr (not32 0xFFF)) addr (c.blocks addr);
}

unfoldable pub reset : BlockCache → BlockCache
reset c = record { blocks = λ _. none; generation = 1; hits = 0; misses = 0; compiles = 0 }

module _ {S : Type 0} (bus : Bus S) (fp : FpUnit S) where
  abbrev pub and_then : Outcome S → (Cpu → S → Outcome S) → Outcome S
  and_then (ok _, cpu, s) next = next cpu s
  and_then (err t, cpu, s) next = (err t, cpu, s)

  -- The loop of `execute_block`.
  unfoldable pub execute_all : List CachedInst → Cpu → S → Outcome S
  execute_all [] cpu s = (ok tt, cpu, s)
  execute_all (cached ∷ later) cpu s =
      and_then (execute_cached bus fp cached.raw cached cpu s) (execute_all later)

  abbrev pub result : Outcome S → BlockResult × Cpu × S
  result (ok _, cpu, s) = (continue cpu.pc, cpu, s)
  result (err t, cpu, s) = (trap t, cpu, s)

  unfoldable pub execute_block : Cpu → CompiledBlock → S → BlockResult × Cpu × S
  unfolding execute_all
  execute_block cpu block s = result (execute_all block.instructions cpu s)
