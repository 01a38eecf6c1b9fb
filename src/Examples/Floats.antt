-- ===== src/Examples/Floats.antt =====
-- Functions on floats for the examples of the floating-point instructions.
use otorisc_v.Base.{◌==◌, ltb, leb, true}
use otorisc_v.Fpu.{Fflags, default_flags}
use otorisc_v.Rv64.Execute.Float.{FloatOps, FloatUnit}

-- A unit whose sums are inexact and that answers its first operand everywhere.
abbrev inexact : Fflags
inexact = record (default_flags) { nx = true }

abbrev float_ops : FloatOps
float_ops = record {
  add = λ a b rm. (a, inexact);
  sub = λ a b rm. (a, inexact);
  mul = λ a b rm. (a, inexact);
  div = λ a b rm. (a, inexact);
  sqrt = λ a rm. (a, inexact);
  fmadd = λ a b c rm. (a, inexact);
  min = λ a b. (a, default_flags);
  max = λ a b. (a, default_flags);
  eq = λ a b. (a == b, default_flags);
  lt = λ a b. (ltb a b, default_flags);
  le = λ a b. (leb a b, default_flags);
  to_i32 = λ a rm. (0, default_flags);
  to_u32 = λ a rm. (0, default_flags);
  to_i64 = λ a rm. (0, default_flags);
  to_u64 = λ a rm. (0, default_flags);
}

abbrev pub float_unit : FloatUnit
float_unit = record {
  single = float_ops;
  double = float_ops;
  i32_to_f32 = λ x rm. (x, default_flags);
  u32_to_f32 = λ x rm. (x, default_flags);
  i64_to_f32 = λ x rm. (x, default_flags);
  u64_to_f32 = λ x rm. (x, default_flags);
  i32_to_f64 = λ x. x;
  u32_to_f64 = λ x. x;
  i64_to_f64 = λ x. (x, default_flags);
  u64_to_f64 = λ x. (x, default_flags);
  f32_to_f64 = λ x. (x, default_flags);
  f64_to_f32 = λ x rm. (x, inexact);
}
