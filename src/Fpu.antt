-- ===== src/Fpu.antt =====
-- The state of the floating-point unit: registers, rounding mode and exception flags
-- (src/cpu/fpu.rs). The arithmetic on floats is not modelled.
pub mod Boxing
pub mod Patterns
pub mod Signs
use otorisc_v.Base.{
  ℕ, ◌+◌, ◌*◌, ◌/◌, ◌%◌, ◌^◌, Bool, true, false, ◌||◌, ◌==◌, ◌!=◌, bit_and, bit_or, if◌then◌else◌,
  ◌>>>◌, ◌<<<◌, u32,
}

-- `dynamic` is `DYN`, the mode that defers to frm.
pub data RoundingMode : Type 0 where
  rne rtz rdn rup rmm dynamic : RoundingMode

abbrev pub mode_bits : RoundingMode → ℕ
mode_bits rne = 0
mode_bits rtz = 1
mode_bits rdn = 2
mode_bits rup = 3
mode_bits rmm = 4
mode_bits dynamic = 7

unfoldable pub mode_from : ℕ → RoundingMode
mode_from val =
    let v = bit_and val 7 in
    if v == 0
    then rne
    else if v == 1
    then rtz
    else if v == 2
    then rdn
    else if v == 3
    then rup
    else if v == 4
    then rmm
    else dynamic

pub record Fflags : Type 0 where
  pub nv : Bool
  pub dz : Bool
  pub of : Bool
  pub uf : Bool
  pub nx : Bool

abbrev pub as_u32 : Bool → ℕ
as_u32 true = 1
as_u32 false = 0

unfoldable pub to_bits : Fflags → ℕ
to_bits f = bit_or (as_u32 f.nx) (
    bit_or (as_u32 f.uf <<< 1)
      (bit_or (as_u32 f.of <<< 2) (bit_or (as_u32 f.dz <<< 3) (as_u32 f.nv <<< 4))))

unfoldable pub from_bits : ℕ → Fflags
from_bits bits = record {
  nx = bit_and bits 1 != 0;
  uf = bit_and bits 2 != 0;
  of = bit_and bits 4 != 0;
  dz = bit_and bits 8 != 0;
  nv = bit_and bits 16 != 0;
}

unfoldable pub merge : Fflags → Fflags → Fflags
merge f other = record {
  nx = f.nx || other.nx;
  uf = f.uf || other.uf;
  of = f.of || other.of;
  dz = f.dz || other.dz;
  nv = f.nv || other.nv;
}

abbrev pub default_flags : Fflags
default_flags = record { nv = false; dz = false; of = false; uf = false; nx = false }

-- The array of 32 registers is a function: every index is masked to five bits.
pub record Fpu : Type 0 where
  pub fregs : ℕ → ℕ  -- u64
  pub frm : RoundingMode
  pub fflags : Fflags

unfoldable pub new : Fpu
new = record { fregs = λ _. 0; frm = rne; fflags = default_flags }

abbrev pub at_reg : ℕ → ℕ
at_reg reg = bit_and reg 0x1F

abbrev pub set_freg : Fpu → ℕ → ℕ → Fpu
set_freg f reg value = record f { fregs = λ j. if at_reg reg == j then value else f.fregs j }

unfoldable pub read_f32 : Fpu → ℕ → ℕ
read_f32 f reg =
    let val = f.fregs (at_reg reg) in if (val >>> 32) != 0xFFFFFFFF then 0x7FC00000 else u32 val

unfoldable pub write_f32 : Fpu → ℕ → ℕ → Fpu
write_f32 f reg value = set_freg f reg (bit_or 0xFFFFFFFF00000000 value)

unfoldable pub read_f64 : Fpu → ℕ → ℕ
read_f64 f reg = f.fregs (at_reg reg)

unfoldable pub write_f64 : Fpu → ℕ → ℕ → Fpu
write_f64 f reg value = set_freg f reg value

unfoldable pub read_fcsr : Fpu → ℕ
read_fcsr f = bit_or (mode_bits f.frm <<< 5) (to_bits f.fflags)

unfoldable pub write_fcsr : Fpu → ℕ → Fpu
write_fcsr f value = record f {
  fflags = from_bits (bit_and value 0x1F);
  frm = mode_from (bit_and (value >>> 5) 7);
}

unfoldable pub effective_rm : Fpu → ℕ → RoundingMode
effective_rm f inst_rm = elim (mode_from inst_rm) [ dynamic ↦ f.frm | rm ↦ rm ]

unfoldable pub reset : Fpu → Fpu
reset f = record { fregs = λ _. 0; frm = rne; fflags = default_flags }
