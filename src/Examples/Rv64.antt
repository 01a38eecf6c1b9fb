-- ===== src/Examples/Rv64.antt =====
-- The 64-bit hart at concrete inputs (src/cpu/rv64).
use otorisc_v.Examples.Floats.{float_unit}
use otorisc_v.Rv64.Execute.Float.Compute.{execute_op_fp, execute_fma}
use otorisc_v.Rv64.Execute.Float.Sticky.{Ends, execute_op_fp-Ends}
use otorisc_v.Fpu.Patterns.{f64_classify, f64_sgnj, f64_sgnjn, f64_is_nan, f64_is_snan}
use otorisc_v.Fpu.Signs.{mirrored, f64_classify-sgnjn}
use otorisc_v.Base.{ℕ, leb, ◌==◌, ◌≡◌, inl, refl, arith, bit, false, some, ok, if◌then◌else◌}
use otorisc_v.Privilege.{supervisor}
use otorisc_v.Mmu.{load}
use otorisc_v.Mmu.Walk.{allowed}
use otorisc_v.Trap.{Trap}
use otorisc_v.Csr.Names.{csr_name}
use otorisc_v.Examples.Memory.{Ram, ram, store_word}
use otorisc_v.Rv64.Csr.{read, write, write_register}
use otorisc_v.Rv64.Csr
use otorisc_v.Rv64.Csr.Masks.{writable, otherwise, read-write_register}
use otorisc_v.Rv64.Mmu
use otorisc_v.Rv64.Mmu.{translate, lookup_from, leaf, tlb_match, fill_tlb, perm_of}
use otorisc_v.Rv64.Mmu.Walk.{lookup}
use otorisc_v.Rv64.Mmu.Modes.{translated, translate-translated, lookup_from-IsCold}
use otorisc_v.Rv64.Mmu.Reuse.{lookup_from-leaf}
use otorisc_v.Rv64.Cpu
use otorisc_v.Rv64.Trap.{is_delegated}
use otorisc_v.Rv64.Trap.Return.{resume, resumed_status, resume-handle_trap}
use otorisc_v.Rv64.Op
use otorisc_v.Rv64.Decode.{decode}
use otorisc_v.Rv64.Compressed.{expand_compressed}
use otorisc_v.Rv64.Compressed.Meaning.{Expands, r_type, meaning}
use otorisc_v.Rv64.Compressed.Expansion.{expand_compressed-meaning}
use otorisc_v.Rv64.Execute.{FpUnit64, Settings, execute_compressed}
use otorisc_v.Rv64.Execute.Integer.{illegal}
use otorisc_v.Rv64.Execute.Lengths.{branch_to, execute_compressed-Lands}
use otorisc_v.Rv64.Execute.System.{sv39, execute_system}
use otorisc_v.Rv64.Execute.Satp.{IsLegal, execute_system-IsLegal}

-- C.MV a0, a1.
expand_compressed-meaning_example : Expands (r_type Op.op 0 0 10 0 11) (expand_compressed 0x852E)
unfolding meaning
expand_compressed-meaning_example = expand_compressed-meaning 0x852E

-- A unit without floating-point instructions.
abbrev no_fp : FpUnit64 Ram
no_fp = record {
  execute_load_fp = λ inst d. illegal inst;
  execute_store_fp = λ inst d. illegal inst;
  execute_op_fp = λ inst d. illegal inst;
  execute_fma = λ inst d op. illegal inst;
}

abbrev settings : Settings
settings = record { debug = false; satp = sv39 }

abbrev zeros : Ram
zeros _ = 0

-- C.BEQZ a0, 8, with a0 = 0.
execute_compressed-Lands_example :
    execute_compressed ram no_fp settings 0xC501 Cpu.new zeros
    ≡ branch_to Cpu.new zeros (Cpu.read_reg Cpu.new 10 == Cpu.read_reg Cpu.new 0) 8
unfolding meaning
execute_compressed-Lands_example = execute_compressed-Lands ram no_fp settings Cpu.new zeros 0xC501

-- Sv39 with a root table at 0x80000000 whose entry 1 maps a gigapage to 0x80000000.
abbrev tables : Ram
tables = store_word (λ _. 0) 0x80000008 0x200000CF

abbrev satp : ℕ
satp = 0x8000000000080000

translate-translated_example :
    (translate ram false Mmu.new tables 0x40001234 load supervisor satp 0).0
    ≡ translated tables load supervisor 0 satp 0x40001234
translate-translated_example =
    translate-translated ram (λ s. s) tables load supervisor 0 satp 0x40001234 (λ s a. refl)
      (omega arith) Mmu.new false
      (λ levels.
        lookup_from-IsCold Mmu.new 0x40001234 load supervisor 0 levels 0
          (λ j. unfold Mmu.new in refl))

translated_gigapage : translated tables load supervisor 0 satp 0x40001234 ≡ ok 0x80001234
unfolding lookup allowed bit
translated_gigapage = refl

-- A readable page of the lowest level at 0x80000000.
lookup_from-leaf_example :
    lookup_from
      (leaf ram Mmu.new zeros 0 0x1000 0x200000CF 0x5123 load supervisor 0).1
      0x5456
      load
      supervisor
      0
      1
      0
    ≡ some 0x80000456
unfolding allowed bit leaf otorisc_v.Mmu.check_permissions
lookup_from-leaf_example =
    lookup_from-leaf ram load supervisor 0 0x5123 Mmu.new zeros 0 0x1000 0x200000CF 0x80000123
      0x5456 load supervisor 0 (omega arith) refl refl

-- stvec written in supervisor mode.
read-write_register_example :
    (r : ℕ) × (read (write Csr.new 0x105 7 supervisor).0 0x105 supervisor ≡ some r)
    × (bit r 1 ≡ (
        if bit (writable (csr_name 0x105) Csr.new) 1
        then bit 7 1
        else bit (otherwise (csr_name 0x105) Csr.new) 1))
unfolding write Csr.new write_register csr_name
read-write_register_example =
    read-write_register Csr.new 0x105 7 supervisor 1 (omega arith) (omega arith) refl

-- A breakpoint in machine mode.
resume-handle_trap_example :
    let t = Trap.breakpoint 0x1000 in
    let to_s = is_delegated Cpu.new t in
    ((resume Cpu.new t).pc ≡ Cpu.new.pc)
    × ((resume Cpu.new t).priv_level ≡ Cpu.new.priv_level)
    × ((resume Cpu.new t).regs ≡ Cpu.new.regs)
    × (bit (resume Cpu.new t).csr.mstatus 3 ≡ resumed_status to_s Cpu.new.csr.mstatus 3)
resume-handle_trap_example = resume-handle_trap Cpu.new (Trap.breakpoint 0x1000) 3 (omega arith)

-- CSRW satp, a0.
execute_system-IsLegal_example :
    IsLegal sv39 (execute_system sv39 0x18051073 (decode 0x18051073) Cpu.new zeros).1.csr.satp
unfolding Cpu.new Csr.new
execute_system-IsLegal_example =
    execute_system-IsLegal sv39 0x18051073 Cpu.new (inl refl) (decode 0x18051073) zeros

-- The double 1.0.
f64_classify-sgnjn_example :
    (f64_classify (f64_sgnjn 0x3FF0000000000000 0x3FF0000000000000)
      ≡ mirrored (f64_classify 0x3FF0000000000000))
    × (f64_sgnj (f64_sgnjn 0x3FF0000000000000 0x3FF0000000000000) 0x3FF0000000000000
        ≡ 0x3FF0000000000000)
    × (f64_is_nan 0x3FF0000000000000 ≡ leb 256 (f64_classify 0x3FF0000000000000))
    × (f64_is_snan 0x3FF0000000000000 ≡ (f64_classify 0x3FF0000000000000 == 256))
f64_classify-sgnjn_example = f64_classify-sgnjn 0x3FF0000000000000 (omega arith)

-- fadd.d f3, f1, f2, and a fused instruction of the same word, seen from f4.
execute_op_fp-Ends_example :
    Ends 0x022081D3 4 Cpu.new zeros
      (execute_op_fp float_unit 0x022081D3 (decode 0x022081D3) Cpu.new zeros)
    × Ends 0x022081D3 4 Cpu.new zeros
        (execute_fma float_unit 0x022081D3 (decode 0x022081D3) Op.madd Cpu.new zeros)
unfolding otorisc_v.Decode.decode
execute_op_fp-Ends_example =
    execute_op_fp-Ends float_unit 0x022081D3 Op.madd 4 (decode 0x022081D3) Cpu.new zeros refl
