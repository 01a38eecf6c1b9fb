-- ===== src/Bus.antt =====
-- The bus that the hart reads and writes through (trait `Bus`, src/memory/mod.rs). A read may
-- change the state `S` behind the bus, as a device register does.
use otorisc_v.Base.{ℕ}

pub record Bus (S : Type 0) : Type 0 where
  pub read8 : S → ℕ → ℕ × S
  pub write8 : S → ℕ → ℕ → S
  pub read16 : S → ℕ → ℕ × S
  pub write16 : S → ℕ → ℕ → S
  pub read32 : S → ℕ → ℕ × S
  pub write32 : S → ℕ → ℕ → S
  pub read64 : S → ℕ → ℕ × S
  pub write64 : S → ℕ → ℕ → S
