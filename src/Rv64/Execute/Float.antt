-- ===== src/Rv64/Execute/Float.antt =====
-- The floating-point instructions of the 64-bit hart (src/cpu/rv64/execute_fp.rs): what they take
-- from src/cpu/fpu.rs and how they end. The functions of that file that compute with the floats of
-- the host are parameters.
pub mod Compute
pub mod Access
pub mod Sticky
use otorisc_v.Base.{ℕ, Bool, ◌|||◌, Option, none, some, ok}
use otorisc_v.Fpu.{RoundingMode, Fflags, merge, as_u32, write_f32, write_f64}
use otorisc_v.Rv64.Csr.Bits
use otorisc_v.Rv64.Cpu.{Cpu64, write_reg}
use otorisc_v.Rv64.Execute.Integer.{Outcome, next_pc, illegal}

-- A pattern with the flags that its computation raises.
abbrev pub Flagged : Type 0
Flagged = ℕ × Fflags

-- The functions of src/cpu/fpu.rs on one precision: `f32_add` and its like.
pub record FloatOps : Type 0 where
  pub add : ℕ → ℕ → RoundingMode → Flagged
  pub sub : ℕ → ℕ → RoundingMode → Flagged
  pub mul : ℕ → ℕ → RoundingMode → Flagged
  pub div : ℕ → ℕ → RoundingMode → Flagged
  pub sqrt : ℕ → RoundingMode → Flagged
  pub fmadd : ℕ → ℕ → ℕ → RoundingMode → Flagged
  pub min : ℕ → ℕ → Flagged
  pub max : ℕ → ℕ → Flagged
  pub eq : ℕ → ℕ → Bool × Fflags
  pub lt : ℕ → ℕ → Bool × Fflags
  pub le : ℕ → ℕ → Bool × Fflags
  pub to_i32 : ℕ → RoundingMode → Flagged
  pub to_u32 : ℕ → RoundingMode → Flagged
  pub to_i64 : ℕ → RoundingMode → Flagged
  pub to_u64 : ℕ → RoundingMode → Flagged

pub record FloatUnit : Type 0 where
  pub single : FloatOps
  pub double : FloatOps
  pub i32_to_f32 : ℕ → RoundingMode → Flagged
  pub u32_to_f32 : ℕ → RoundingMode → Flagged
  pub i64_to_f32 : ℕ → RoundingMode → Flagged
  pub u64_to_f32 : ℕ → RoundingMode → Flagged
  pub i32_to_f64 : ℕ → ℕ
  pub u32_to_f64 : ℕ → ℕ
  pub i64_to_f64 : ℕ → Flagged
  pub u64_to_f64 : ℕ → Flagged
  pub f32_to_f64 : ℕ → Flagged
  pub f64_to_f32 : ℕ → RoundingMode → Flagged

-- What an instruction writes to rd, and the flags that it merges, if it merges any.
pub data Target : Type 0 where
  single_reg double_reg integer_reg : ℕ → Target

abbrev pub Effect : Type 0
Effect = Target × Option Fflags

abbrev pub flagged : (ℕ → Target) → Flagged → Effect
flagged target (v, flags) = (target v, some flags)

abbrev pub compared : Bool × Fflags → Effect
compared (v, flags) = (integer_reg (as_u32 v), some flags)

abbrev pub merged : Cpu64 → Option Fflags → Cpu64
merged cpu none = cpu
merged cpu (some flags) = record cpu {
  fpu = record (cpu.fpu) { fflags = merge cpu.fpu.fflags flags };
}

abbrev pub write_target : Cpu64 → ℕ → Target → Cpu64
write_target cpu rd (single_reg v) = record cpu { fpu = write_f32 cpu.fpu rd v }
write_target cpu rd (double_reg v) = record cpu { fpu = write_f64 cpu.fpu rd v }
write_target cpu rd (integer_reg v) = write_reg cpu rd v

-- `self.csr.mstatus |= MSTATUS_FS`.
abbrev pub fs_dirty : Cpu64 → Cpu64
fs_dirty cpu = record cpu { csr = record (cpu.csr) { mstatus = cpu.csr.mstatus ||| Bits.fs } }

abbrev pub complete : {S : Type 0} → ℕ → ℕ → Cpu64 → S → Option Effect → Outcome S
complete inst rd cpu s none = illegal inst cpu s
complete inst rd cpu s (some (target, flags)) =
    (ok tt, next_pc (fs_dirty (write_target (merged cpu flags) rd target)), s)
