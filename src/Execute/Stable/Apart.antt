-- ===== src/Execute/Stable/Apart.antt =====
-- About the instructions that stay away from the bus (src/cpu/rv32/execute.rs).
use otorisc_v.Base.{
  ℕ, ◌≡◌, refl, arith, Bool, true, false, ◌||◌, ◌==◌, ◌!=◌, leb, if◌then◌else◌, bit_and, ◌>>>◌,
  Result, ok, err, Option, none, some,
}
use otorisc_v.Cpu.{Cpu, read_reg}
use otorisc_v.Trap.{Trap}
use otorisc_v.Decode.{DecodedInst}
use otorisc_v.Execute.{jump, finish}
use otorisc_v.Execute.System.{
  execute_priv, execute_csr, execute_system, csr_write, csr_old, csr_new, csr_update, finish_csr,
}

module _ {S : Type 0} where
  pub finish-same : (rd : ℕ) (cpu : Cpu) (s : S) (r : Result Trap ℕ) → (finish rd cpu s r).2 ≡ s
  finish-same rd cpu s (ok v) = refl
  finish-same rd cpu s (err t) = refl

  pub jump-same : (cpu : Cpu) (s : S) (imm : ℕ) (r : Result Trap Bool) → (jump cpu s imm r).2 ≡ s
  jump-same cpu s imm (ok true) = refl
  jump-same cpu s imm (ok false) = refl
  jump-same cpu s imm (err t) = refl

  finish_csr-same :
      (rd old : ℕ) (s : S) (r : Result Trap (Unit {0}) × Cpu) → (finish_csr rd old s r).2 ≡ s
  finish_csr-same rd old s (ok _, cpu) = refl
  finish_csr-same rd old s (err t, cpu) = refl

  csr_update-same :
      (inst : ℕ) (d : DecodedInst) (cpu : Cpu) (s : S) (a v : ℕ) (o : Option ℕ)
      → (csr_update inst d cpu s a v o).2 ≡ s
  csr_update-same inst d cpu s a v none = refl
  csr_update-same inst d cpu s a v (some old) = finish_csr-same d.rd old s (
      if (bit_and d.funct3 3 == 0b01) || (v != 0)
      then csr_write inst cpu a old (csr_new d.funct3 old v)
      else (ok tt, cpu))

  execute_priv-same : (inst : ℕ) (cpu : Cpu) (s : S) → (execute_priv inst cpu s).2 ≡ s
  unfolding execute_priv
  execute_priv-same inst cpu s = ground arith

  pub execute_system-same :
      (inst : ℕ) (d : DecodedInst) (cpu : Cpu) (s : S) → (execute_system inst d cpu s).2 ≡ s
  unfolding execute_system execute_csr
  execute_system-same inst d cpu s = ground (
    arith,
    execute_priv-same inst cpu s,
    csr_update-same inst d cpu s (bit_and (inst >>> 20) 0xFFF)
        (if leb 5 d.funct3 then d.rs1 else read_reg cpu d.rs1)
        (csr_old cpu (bit_and (inst >>> 20) 0xFFF)),
  )
