-- ===== src/Rv64/Execute/Float/Sticky.antt =====
-- About the floating-point computational instructions (src/cpu/rv64/execute_fp.rs): how they end.
use otorisc_v.Base.{
  ℕ, refl, true, false, ◌||◌, ◌==◌, ◌&&&◌, ◌|||◌, ◌≡◌, add64, arith, bit, bit-bit_or, Option, none,
  some, ok, err,
}
use otorisc_v.Trap.{illegal_instruction}
use otorisc_v.Fpu.{Fflags, merge, write_f32, write_f64}
use otorisc_v.Rv64.Csr.Bits
use otorisc_v.Rv64.Cpu.{Cpu64, write_reg}
use otorisc_v.Rv64.Decode.{DecodedInst}
use otorisc_v.Rv64.Execute.Integer.{Outcome}
use otorisc_v.Rv64.Execute.Float.{
  FloatUnit, Target, single_reg, double_reg, integer_reg, Effect, complete, merged, write_target,
}
use otorisc_v.Rv64.Execute.Float.Compute.{execute_op_fp, execute_fma}

-- Every flag of the first is one of the second.
abbrev pub IsWithin : Fflags → Fflags → Type 0
IsWithin f g =
    ((f.nv || g.nv) ≡ g.nv)
    × ((f.dz || g.dz) ≡ g.dz)
    × ((f.of || g.of) ≡ g.of)
    × ((f.uf || g.uf) ≡ g.uf)
    × ((f.nx || g.nx) ≡ g.nx)

-- How an instruction ends, seen from the hart before it and a register `j` that it does not name.
abbrev pub Ends : {S : Type 0} → ℕ → ℕ → Cpu64 → S → Outcome S → Type 0
Ends inst j cpu s (err t, cpu', s') = (t ≡ illegal_instruction inst) × (cpu' ≡ cpu) × (s' ≡ s)
Ends inst j cpu s (ok _, cpu', s') =
    (s' ≡ s)
    × (cpu'.pc ≡ add64 cpu.pc 4)
    × (cpu'.regs j ≡ cpu.regs j)
    × (cpu'.fpu.fregs j ≡ cpu.fpu.fregs j)
    × (cpu'.fpu.frm ≡ cpu.fpu.frm)
    × IsWithin cpu.fpu.fflags cpu'.fpu.fflags
    × (bit cpu'.csr.mstatus 13 ≡ true)
    × (bit cpu'.csr.mstatus 14 ≡ true)

dirty : (k m : ℕ) → bit Bits.fs k ≡ true → bit (m ||| Bits.fs) k ≡ true
dirty k m h = rw (bit-bit_or k m Bits.fs, h) (ground arith)

merged-IsWithin :
    (cpu : Cpu64) (flags : Option Fflags) → IsWithin cpu.fpu.fflags (merged cpu flags).fpu.fflags
unfolding merge
merged-IsWithin cpu none = (ground arith, ground arith, ground arith, ground arith, ground arith)
merged-IsWithin cpu (some g) =
    (ground arith, ground arith, ground arith, ground arith, ground arith)

module _ (rd j : ℕ) (other : ((rd &&& 31) == j) ≡ false) where
  write_target-Keeps :
      (c : Cpu64) (target : Target)
      → let c' = write_target c rd target in
        (c'.pc ≡ c.pc)
        × (c'.regs j ≡ c.regs j)
        × (c'.fpu.fregs j ≡ c.fpu.fregs j)
        × (c'.fpu.frm ≡ c.fpu.frm)
        × (c'.fpu.fflags ≡ c.fpu.fflags)
        × (c'.csr.mstatus ≡ c.csr.mstatus)
  unfolding write_reg write_f32 write_f64
  write_target-Keeps c (single_reg v) = (refl, refl, ground arith, refl, refl, refl)
  write_target-Keeps c (double_reg v) = (refl, refl, ground arith, refl, refl, refl)
  write_target-Keeps c (integer_reg v) =
      (ground arith, ground arith, ground arith, ground arith, ground arith, ground arith)

  complete-Ends :
      {S : Type 0} (inst : ℕ) (cpu : Cpu64) (s : S) (e : Option Effect)
      → Ends inst j cpu s (complete inst rd cpu s e)
  unfolding bit
  complete-Ends inst cpu s none = (refl, refl, refl)
  complete-Ends inst cpu s (some (target, none)) =
      let (pc, x, f, frm, flags, status) = write_target-Keeps cpu target in
      (
        refl,
        rw pc,
        x,
        f,
        frm,
        rw flags (merged-IsWithin cpu none),
        rw status (dirty 13 cpu.csr.mstatus refl),
        rw status (dirty 14 cpu.csr.mstatus refl),
      )
  complete-Ends inst cpu s (some (target, some g)) =
      let c = merged cpu (some g) in
      let (pc, x, f, frm, flags, status) = write_target-Keeps c target in
      (
        refl,
        rw pc,
        x,
        f,
        frm,
        rw flags (merged-IsWithin cpu (some g)),
        rw status (dirty 13 cpu.csr.mstatus refl),
        rw status (dirty 14 cpu.csr.mstatus refl),
      )

-- Whatever the functions on floats compute: a computational or fused multiply-add instruction that
-- completes leaves memory, frm and every register but rd alone, moves the program counter four
-- bytes on, lowers no exception flag and marks the state of the unit dirty; one that does not
-- complete raises an illegal instruction and changes nothing.
pub execute_op_fp-Ends :
    {S : Type 0} (unit : FloatUnit) (inst opcode j : ℕ) (d : DecodedInst) (cpu : Cpu64) (s : S)
    → ((d.rd &&& 31) == j) ≡ false
    → Ends inst j cpu s (execute_op_fp unit inst d cpu s)
      × Ends inst j cpu s (execute_fma unit inst d opcode cpu s)
unfolding execute_op_fp execute_fma
execute_op_fp-Ends unit inst opcode j d cpu s h =
    (complete-Ends d.rd j h inst cpu s _, complete-Ends d.rd j h inst cpu s _)
