-- ===== src/Jit/Kept.antt =====
-- About blocks and what is behind the bus (src/cpu/rv32/jit/v1/mod.rs).
use otorisc_v.Base.{ℕ, zero, suc, arith, add32, ok, err, List, [], ◌∷◌}
use otorisc_v.Bus.{Bus}
use otorisc_v.Icache.{CachedInst}
use otorisc_v.Cpu.{Cpu}
use otorisc_v.Execute.{FpUnit, execute_cached}
use otorisc_v.Execute.Alu.{Outcome}
use otorisc_v.Execute.Stable.{Keeps, FpKeeps}
use otorisc_v.Execute.Stable.Step.{execute_cached-kept}
use otorisc_v.Jit.{
  BlockCache, CompiledBlock, scan, compile_block, and_then, execute_all, execute_block, result,
}

module _ {S : Type 0} (P : S → Type 0) (bus : Bus S) (fp : FpUnit S) (keeps : Keeps P bus)
    (fp_keeps : FpKeeps P fp) where
  scan-kept : (left paddr : ℕ) (s : S) → P s → P (scan bus left paddr s).1
  unfolding scan
  scan-kept zero paddr s h = h
  scan-kept (suc left) paddr s h =
      let k = keeps.on_read32 s paddr h in
      let s1 = (bus.read32 s paddr).1 in ground (arith, k, scan-kept left (add32 paddr 4) s1 k)

  execute_all-kept :
      (l : List CachedInst) (cpu : Cpu) (s : S) → P s → P (execute_all bus fp l cpu s).2
  unfolding execute_all
  execute_all-kept [] cpu s h = h
  execute_all-kept (c ∷ l) cpu s h =
      and_then-kept l (execute_cached bus fp c.raw c cpu s)
        (execute_cached-kept P bus fp keeps fp_keeps c.raw c cpu s h) (execute_all-kept l)
    where
      and_then-kept :
          (l' : List CachedInst) (r : Outcome S)
          → P r.2
          → ((cpu' : Cpu) (s' : S) → P s' → P (execute_all bus fp l' cpu' s').2)
          → P (and_then bus fp r (execute_all bus fp l')).2
      and_then-kept l' (ok _, cpu', s') k ih = ih cpu' s' k
      and_then-kept l' (err t, cpu', s') k ih = k

  pub result-kept : (r : Outcome S) → P r.2 → P (result bus fp r).2
  result-kept (ok _, cpu, s) h = h
  result-kept (err t, cpu, s) h = h

  pub compile_block-kept : (c : BlockCache) (s : S) (p : ℕ) → P s → P (compile_block bus c s p).2
  unfolding compile_block
  compile_block-kept c s p h = scan-kept 64 p s h

  -- A compiled block keeps every property that all accesses through the bus and the floating-point
  -- instructions keep.
  pub execute_block-kept :
      (cpu : Cpu) (b : CompiledBlock) (s : S) → P s → P (execute_block bus fp cpu b s).2
  unfolding execute_block
  execute_block-kept cpu b s h =
      result-kept (execute_all bus fp b.instructions cpu s)
        (execute_all-kept b.instructions cpu s h)
