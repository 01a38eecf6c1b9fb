-- ===== src/Rv64/Execute/Lengths.antt =====
-- About the execution of compressed instructions (`execute_compressed`,
-- src/cpu/rv64/execute_c.rs).
use otorisc_v.Base.{
  ℕ, Bool, true, false, ◌||◌, ◌==◌, ◌!=◌, ◌≡◌, ◌⊎◌, refl, arith, if◌then◌else◌, add64, not64,
  bit_and, Option, some, Result, ok, err, inl, inr,
}
use otorisc_v.Bus.{Bus}
use otorisc_v.Trap.{breakpoint}
use otorisc_v.Rv64.Op
use otorisc_v.Rv64.Cpu.{Cpu64, read_reg, write_reg}
use otorisc_v.Rv64.Decode.{decode, DecodedInst, imm_i, imm_s, imm_u}
use otorisc_v.Decode
use otorisc_v.Rv64.Compressed.{expand_compressed}
use otorisc_v.Rv64.Compressed.Meaning.{
  Meaning, i_type, r_type, s_type, b_type, u_type, j_type, ebreak, reserved, meaning, Expands,
}
use otorisc_v.Rv64.Compressed.Expansion.{expand_compressed-meaning}
use otorisc_v.Rv64.Execute.Integer.{Outcome, illegal, sext32}
use otorisc_v.Rv64.Execute.Access.{
  execute_load, execute_store, translate_at, load_value, store_value, finish_load, load_from,
  store_to, data_priv,
}
use otorisc_v.Mmu.{load, store}
use otorisc_v.Rv64.Trap.{Trap64}
use otorisc_v.Rv64.Execute.System.{execute_system, execute_priv}
use otorisc_v.Rv64.Execute.{
  finish, op, op_imm, op_32, op_imm_32, FpUnit64, Settings, execute_compressed, execute_expanded,
  execute_decoded, execute_branch, branch_taken, adjust,
}

-- Which operations the compressed instructions stand for.
abbrev IsShort : Meaning → Type 0
IsShort (i_type op f rd rs1 imm) =
    (op ≡ Op.op_imm) ⊎ (op ≡ Op.op_imm_32) ⊎ (op ≡ Op.load) ⊎ (op ≡ Op.load_fp) ⊎ (op ≡ Op.jalr)
IsShort (r_type op f g rd rs1 rs2) = (op ≡ Op.op) ⊎ (op ≡ Op.op_32)
IsShort (s_type op f rs1 rs2 imm) = (op ≡ Op.store) ⊎ (op ≡ Op.store_fp)
IsShort (b_type f rs1 rs2 imm) = (f ≡ 0) ⊎ (f ≡ 1)
IsShort (j_type rd imm) = rd ≡ 0
IsShort _ = Unit {0}

meaning-IsShort : (inst : ℕ) → IsShort (meaning inst)
unfolding meaning
meaning-IsShort inst = ground arith

module _ {S : Type 0} (cpu : Cpu64) (s : S) where
  -- An instruction that completes moves the program counter on by `n`.
  abbrev pub Moved : ℕ → Outcome S → Type 0
  Moved n (ok _, cpu', s') = cpu'.pc ≡ add64 cpu.pc n
  Moved n (err t, cpu', s') = Unit {0}

  -- A branch goes to its target or past its two bytes, and changes nothing else.
  abbrev pub branch_to : Bool → ℕ → Outcome S
  branch_to taken imm =
      (ok tt, record cpu { pc = if taken then add64 cpu.pc (sext32 imm) else add64 cpu.pc 2 }, s)

  -- A jump through a register goes to the even address there, and links to the instruction behind
  -- its two bytes.
  abbrev pub JumpsTo : ℕ → ℕ → ℕ → Outcome S → Type 0
  JumpsTo rd rs1 imm o =
      (o.0 ≡ ok tt)
      × (o.1.pc ≡ bit_and (add64 (read_reg cpu rs1) (sext32 imm)) (not64 1))
      × ((rd ≡ 0) ⊎ (read_reg o.1 rd ≡ add64 cpu.pc 2))
      × (o.2 ≡ s)

  -- Where each meaning leaves the hart; the floating-point loads and stores are left open.
  abbrev pub Lands : ℕ → Meaning → Outcome S → Type 0
  Lands inst (i_type op f rd rs1 imm) o =
      if op == Op.jalr
      then JumpsTo rd rs1 imm o
      else if op == Op.load_fp
      then Unit {0}
      else Moved 2 o
  Lands inst (r_type op f g rd rs1 rs2) o = Moved 2 o
  Lands inst (s_type op f rs1 rs2 imm) o = if op == Op.store_fp then Unit {0} else Moved 2 o
  Lands inst (b_type f a b imm) o =
      o
      ≡ branch_to
          (if f == 0 then read_reg cpu a == read_reg cpu b else read_reg cpu a != read_reg cpu b)
          imm
  Lands inst (u_type rd imm) o = Moved 2 o
  Lands inst (j_type rd imm) o = o ≡ branch_to true imm
  Lands inst ebreak o = o ≡ (err (breakpoint cpu.pc), cpu, s)
  Lands inst reserved o = o ≡ illegal inst cpu s

  -- The parts of an instruction that completes.
  finish-Moved : (rd : ℕ) (r : Result Trap64 ℕ) → Moved 4 (finish rd cpu s r)
  unfolding write_reg
  finish-Moved rd (ok v) = ground arith
  finish-Moved rd (err t) = tt

module _ {S : Type 0} (bus : Bus S) (debug : Bool) (cpu : Cpu64) (s : S) where
  finish_load-Moved :
      (rd : ℕ) (c : Cpu64) (r : Result Trap64 ℕ × S)
      → c.pc ≡ cpu.pc
      → Moved cpu s 4 (finish_load bus debug rd c r)
  unfolding write_reg
  finish_load-Moved rd c (ok v, t) e = ground (arith, e)
  finish_load-Moved rd c (err x, t) e = tt

  load_from-Moved :
      (inst : ℕ) (d : DecodedInst) (v : ℕ) (x : Result Trap64 ℕ × Cpu64 × S)
      → x.1.pc ≡ cpu.pc
      → Moved cpu s 4 (load_from bus debug inst d v x)
  load_from-Moved inst d v (ok addr, c, t) e =
      finish_load-Moved d.rd c (load_value bus debug inst d.funct3 t v addr) e
  load_from-Moved inst d v (err x, c, t) e = tt

  execute_load-Moved :
      (inst : ℕ) (d : DecodedInst) → Moved cpu s 4 (execute_load bus debug inst d cpu s)
  unfolding execute_load translate_at
  execute_load-Moved inst d =
      let v = add64 (read_reg cpu d.rs1) (sext32 (imm_i inst)) in
      load_from-Moved inst d v (translate_at bus debug (data_priv cpu) cpu s v load) refl

  store_to-Moved :
      (inst : ℕ) (d : DecodedInst) (v value : ℕ) (x : Result Trap64 ℕ × Cpu64 × S)
      → x.1.pc ≡ cpu.pc
      → Moved cpu s 4 (store_to bus debug inst d v value x)
  unfolding store_value
  store_to-Moved inst d v value (ok addr, c, t) e = ground (arith, e)
  store_to-Moved inst d v value (err x, c, t) e = tt

  execute_store-Moved :
      (inst : ℕ) (d : DecodedInst) → Moved cpu s 4 (execute_store bus debug inst d cpu s)
  unfolding execute_store translate_at
  execute_store-Moved inst d =
      let v = add64 (read_reg cpu d.rs1) (sext32 (imm_s inst)) in
      store_to-Moved inst d v (read_reg cpu d.rs2)
        (translate_at bus debug (data_priv cpu) cpu s v store) refl

module _ {S : Type 0} (bus : Bus S) (fp : FpUnit64 S) (settings : Settings) (cpu : Cpu64)
    (s : S) where
  -- An instruction that moves on by four bytes is made to move on by two.
  adjust-Moved :
      (e : ℕ) (d : DecodedInst) (a b : ℕ) (o : Outcome S)
      → ((d.opcode == Op.branch) || (d.opcode == Op.jal) || (d.opcode == Op.jalr)) ≡ false
      → Moved cpu s 4 o
      → Moved cpu s 2 (adjust bus fp settings e d cpu.pc a b o)
  adjust-Moved e d a b (ok _, c, t) h m = ground (arith, h, m)
  adjust-Moved e d a b (err x, c, t) h m = tt

  expanded-Moved :
      (inst e o : ℕ)
      → (decode e).opcode ≡ o
      → (o ≡ Op.op_imm)
        ⊎ (o ≡ Op.op_imm_32)
        ⊎ (o ≡ Op.load)
        ⊎ (o ≡ Op.op)
        ⊎ (o ≡ Op.op_32)
        ⊎ (o ≡ Op.store)
        ⊎ (o ≡ Op.lui)
      → Moved cpu s 2 (execute_expanded bus fp settings inst cpu s (some e))
  unfolding execute_decoded
  expanded-Moved inst e o eq h =
      let d = decode e in
      let a = read_reg cpu d.rs1 in
      let b = read_reg cpu d.rs2 in
      adjust-Moved e d a b (execute_decoded bus fp settings e d cpu s) (ground (arith, eq, h)) (
        ground (
          arith,
          eq,
          h,
          finish-Moved cpu s d.rd (op_imm e d a),
          finish-Moved cpu s d.rd (op_imm_32 e d a),
          finish-Moved cpu s d.rd (op e d a b),
          finish-Moved cpu s d.rd (op_32 e d a b),
          finish-Moved cpu s d.rd (ok (sext32 (imm_u e))),
          execute_load-Moved bus settings.debug cpu s e d,
          execute_store-Moved bus settings.debug cpu s e d,
        ))

  expanded-branch :
      (inst f a b imm : ℕ) (o : Option ℕ)
      → Expands (b_type f a b imm) o
      → (f ≡ 0) ⊎ (f ≡ 1)
      → Lands cpu s inst (b_type f a b imm) (execute_expanded bus fp settings inst cpu s o)
  unfolding execute_decoded execute_branch branch_taken
  expanded-branch inst f a b imm o (e, eq, (code, ra, rb, f3, i)) (inl h) =
      rw eq (ground (arith, code, ra, rb, f3, i, h))
  expanded-branch inst f a b imm o (e, eq, (code, ra, rb, f3, i)) (inr h) =
      rw eq (ground (arith, code, ra, rb, f3, i, h))

  expanded-jump :
      (inst rd imm : ℕ) (o : Option ℕ)
      → Expands (j_type rd imm) o
      → rd ≡ 0
      → Lands cpu s inst (j_type rd imm) (execute_expanded bus fp settings inst cpu s o)
  unfolding execute_decoded write_reg
  expanded-jump inst rd imm o (e, eq, (code, d, i)) h = rw eq (ground (arith, code, d, i, h))

  expanded-jalr :
      (inst c f rd rs1 imm : ℕ) (o : Option ℕ)
      → Expands (i_type c f rd rs1 imm) o
      → c ≡ Op.jalr
      → JumpsTo cpu s rd rs1 imm (execute_expanded bus fp settings inst cpu s o)
  unfolding execute_decoded write_reg read_reg
  expanded-jalr inst c f rd rs1 imm o (e, eq, (code, d, a, f3, i)) h =
      rw eq (ground (arith, code, d, a, f3, i, h))

  expanded-ebreak :
      (inst : ℕ)
      → execute_expanded bus fp settings inst cpu s (some 0x00100073)
        ≡ (err (breakpoint cpu.pc), cpu, s)
  unfolding execute_decoded execute_system execute_priv Decode.decode
  expanded-ebreak inst = refl

  expanded-Lands :
      (inst : ℕ) (m : Meaning) (o : Option ℕ)
      → Expands m o
      → IsShort m
      → Lands cpu s inst m (execute_expanded bus fp settings inst cpu s o)
  expanded-Lands inst (i_type c f rd rs1 imm) o (e, eq, (code, d, a, b, i)) (inl h) =
      rw (h, eq) (expanded-Moved inst e c code (ground (arith, h)))
  expanded-Lands inst (i_type c f rd rs1 imm) o (e, eq, (code, d, a, b, i)) (inr (inl h)) =
      rw (h, eq) (expanded-Moved inst e c code (ground (arith, h)))
  expanded-Lands inst (i_type c f rd rs1 imm) o (e, eq, (code, d, a, b, i)) (inr (inr (inl h))) =
      rw (h, eq) (expanded-Moved inst e c code (ground (arith, h)))
  expanded-Lands inst (i_type c f rd rs1 imm) o x (inr (inr (inr (inl h)))) = rw h tt
  expanded-Lands inst (i_type c f rd rs1 imm) o x (inr (inr (inr (inr h)))) =
      rw h (expanded-jalr inst c f rd rs1 imm o x h)
  expanded-Lands inst (r_type c f g rd rs1 rs2) o (e, eq, (code, d, a, b, i, j)) h =
      rw eq (expanded-Moved inst e c code (ground (arith, h)))
  expanded-Lands inst (s_type c f rs1 rs2 imm) o (e, eq, (code, d, a, b, i)) (inl h) =
      rw (h, eq) (expanded-Moved inst e c code (ground (arith, h)))
  expanded-Lands inst (s_type c f rs1 rs2 imm) o x (inr h) = rw h tt
  expanded-Lands inst (b_type f rs1 rs2 imm) o x h = expanded-branch inst f rs1 rs2 imm o x h
  expanded-Lands inst (u_type rd imm) o (e, eq, (code, d, i)) h =
      rw eq (expanded-Moved inst e Op.lui code (ground arith))
  expanded-Lands inst (j_type rd imm) o x h = expanded-jump inst rd imm o x h
  expanded-Lands inst ebreak o x h = rw x (expanded-ebreak inst)
  expanded-Lands inst reserved o x h = rw x

  -- A compressed instruction runs as what it stands for, at a length of two bytes: a branch goes to
  -- its target or two bytes on, by the comparison of its registers, and changes nothing else; C.J
  -- goes to its target; a jump through a register goes there and links two bytes on; EBREAK and the
  -- reserved encodings trap and change nothing; every other instruction that completes, the
  -- floating-point loads and stores left open, moves the program counter two bytes on.
  pub execute_compressed-Lands :
      (inst : ℕ) → Lands cpu s inst (meaning inst) (execute_compressed bus fp settings inst cpu s)
  unfolding execute_compressed
  execute_compressed-Lands inst =
      expanded-Lands inst (meaning inst) (expand_compressed inst) (expand_compressed-meaning inst)
        (meaning-IsShort inst)
