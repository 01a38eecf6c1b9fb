-- ===== src/Execute/Paths.antt =====
-- About execution with and without a cached decoding (src/cpu/rv32/execute.rs, and `step` of
-- src/cpu/rv32/mod.rs).
use otorisc_v.Base.{ℕ, ◌≡◌, refl, sym, ◌∙◌, ap, ◌==◌, Bool-cases, inl, inr}
use otorisc_v.Bus.{Bus}
use otorisc_v.Cpu.{Cpu}
use otorisc_v.Decode
use otorisc_v.Decode.{from_cached}
use otorisc_v.Decode.Op
use otorisc_v.Icache
use otorisc_v.Icache.{get_or_decode}
use otorisc_v.Icache.Transparent.{IsCoherent, get_or_decode-decode}
use otorisc_v.Execute.{FpUnit, dispatch, execute, execute_cached, fetch_execute, count_instruction}

from_cached-decode : (inst : ℕ) → from_cached (Icache.decode inst) ≡ Decode.decode inst
unfolding from_cached Icache.decode Decode.decode
from_cached-decode inst = refl

module _ {S : Type 0} (bus : Bus S) (fp : FpUnit S) where
  -- The path that decodes for itself does what the path for cached instructions does on the
  -- instruction freshly decoded.
  pub execute-execute_cached :
      (inst : ℕ) (cpu : Cpu) (s : S)
      → execute bus fp inst cpu s ≡ execute_cached bus fp inst (Icache.decode inst) cpu s
  unfolding execute execute_cached dispatch
  execute-execute_cached inst cpu s = elim (Bool-cases ((Decode.decode inst).opcode == Op.lui)) [
    | inl e ↦ rw (from_cached-decode inst, e)
    | inr e ↦ rw (from_cached-decode inst, e)
  ]

  -- With a coherent instruction cache, fetching through the cache and executing does what
  -- reading the word and executing it with no cache does, in the hart whose cache holds the
  -- instruction.
  pub fetch_execute-execute :
      (cpu : Cpu) (s : S) (paddr : ℕ)
      → IsCoherent cpu.icache
      → let (inst, s') = bus.read32 s paddr in
        fetch_execute bus fp cpu s paddr
        ≡ count_instruction bus fp (
            execute bus fp inst
              (record cpu { icache = (get_or_decode cpu.icache paddr inst).1 })
              s')
  unfolding fetch_execute
  fetch_execute-execute cpu s paddr h =
      let (inst, s') = bus.read32 s paddr in
      let cpu' = record cpu { icache = (get_or_decode cpu.icache paddr inst).1 } in
      ap (λ c. count_instruction bus fp (execute_cached bus fp inst c cpu' s'))
        (get_or_decode-decode cpu.icache paddr inst h).0
      ∙ ap (count_instruction bus fp) (sym (execute-execute_cached inst cpu' s'))
