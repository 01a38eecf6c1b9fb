-- ===== src/Execute/Branches.antt =====
-- About the six branches (`OP_BRANCH`, src/cpu/rv32/execute.rs).
use otorisc_v.Base.{
  ℕ, ◌<◌, ◌≤◌, ◌⊎◌, inl, inr, true, false, ◌≡◌, ◌≢◌, arith, two31, two32, Bool-cases, lt_signed,
  add32, ok,
}
use otorisc_v.Cpu.{Cpu, read_reg}
use otorisc_v.Decode.{DecodedInst, imm_b}
use otorisc_v.Execute.{branch_taken, execute_branch}

-- The six branches, with the funct3 that encodes each.
pub data Branch : Type 0 where
  beq bne blt bge bltu bgeu : Branch

abbrev pub funct3_of : Branch → ℕ
funct3_of beq = 0
funct3_of bne = 1
funct3_of blt = 4
funct3_of bge = 5
funct3_of bltu = 6
funct3_of bgeu = 7

-- `a` is less than `b` as two's complement numbers: a negative number is less than one that is
-- not, and otherwise the words compare as they are.
abbrev pub IsSignedLess : ℕ → ℕ → Type 0
IsSignedLess a b = ((two31 ≤ a) × (b < two31)) ⊎ ((a < b) × ((two31 ≤ a) ⊎ (b < two31)))

abbrev Holds : Branch → ℕ → ℕ → Type 0
Holds beq a b = a ≡ b
Holds bne a b = a ≢ b
Holds blt a b = IsSignedLess a b
Holds bge a b = ¬ IsSignedLess a b
Holds bltu a b = a < b
Holds bgeu a b = b ≤ a

lt_signed-less : (a b : ℕ) → a < two32 → b < two32 → lt_signed a b ≡ true → IsSignedLess a b
lt_signed-less a b ha hb h = ground arith

lt_signed-not : (a b : ℕ) → a < two32 → b < two32 → lt_signed a b ≡ false → ¬ IsSignedLess a b
lt_signed-not a b ha hb h = ground arith

branch_taken-Holds :
    (inst : ℕ) (o : Branch) (a b : ℕ)
    → a < two32
    → b < two32
    → ((branch_taken inst (funct3_of o) a b ≡ ok true) × Holds o a b)
      ⊎ ((branch_taken inst (funct3_of o) a b ≡ ok false) × (¬ Holds o a b))
unfolding branch_taken
branch_taken-Holds inst beq a b ha hb = ground arith
branch_taken-Holds inst bne a b ha hb = ground arith
branch_taken-Holds inst blt a b ha hb = elim (Bool-cases (lt_signed a b)) [
  | inl e ↦ inl (rw e, lt_signed-less a b ha hb e)
  | inr e ↦ inr (rw e, lt_signed-not a b ha hb e)
]
branch_taken-Holds inst bge a b ha hb = elim (Bool-cases (lt_signed a b)) [
  | inl e ↦ inr (rw e, λ k. k (lt_signed-less a b ha hb e))
  | inr e ↦ inl (rw e, lt_signed-not a b ha hb e)
]
branch_taken-Holds inst bltu a b ha hb = ground arith
branch_taken-Holds inst bgeu a b ha hb = ground arith

-- On registers that hold words, each of the six branches goes to its target exactly when the
-- comparison of its name holds, signed where the name says so, and to the next instruction
-- otherwise, and changes nothing but the program counter.
execute_branch-Holds :
    {S : Type 0} (inst : ℕ) (d : DecodedInst) (cpu : Cpu) (s : S) (o : Branch)
    → d.funct3 ≡ funct3_of o
    → read_reg cpu d.rs1 < two32
    → read_reg cpu d.rs2 < two32
    → (Holds o (read_reg cpu d.rs1) (read_reg cpu d.rs2)
        × (execute_branch inst d cpu s ≡ (ok tt, record cpu { pc = add32 cpu.pc (imm_b inst) }, s)))
      ⊎ ((¬ Holds o (read_reg cpu d.rs1) (read_reg cpu d.rs2))
          × (execute_branch inst d cpu s ≡ (ok tt, record cpu { pc = add32 cpu.pc 4 }, s)))
unfolding execute_branch
execute_branch-Holds inst d cpu s o e h1 h2 =
    elim (branch_taken-Holds inst o (read_reg cpu d.rs1) (read_reg cpu d.rs2) h1 h2) [
      | inl (t, h) ↦ inl (h, rw (e, t))
      | inr (t, h) ↦ inr (h, rw (e, t))
    ]
