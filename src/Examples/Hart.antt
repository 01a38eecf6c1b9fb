-- ===== src/Examples/Hart.antt =====
-- Registers of the hart at concrete inputs (src/cpu/rv32/csr.rs, mod.rs and src/cpu/fpu.rs).
use otorisc_v.Base.{ℕ, ◌≡◌, refl, arith, bit, if◌then◌else◌, some}
use otorisc_v.Privilege.{supervisor}
use otorisc_v.Csr.{read, write, min_priv, is_read_only, write_register}
use otorisc_v.Csr
use otorisc_v.Csr.Names.{csr_name}
use otorisc_v.Csr.Masks.{writable, otherwise, read-write}
use otorisc_v.Csr.Isolation.{IsIsolated, write-supervisor-IsIsolated}

-- sstatus written in supervisor mode: SIE is set.
read-write_example :
    (r : ℕ) × (read (write Csr.new 0x100 2 supervisor).0 0x100 supervisor ≡ some r)
    × (bit r 1 ≡ (
        if bit (writable (csr_name 0x100) Csr.new) 1
        then bit 2 1
        else bit (otherwise (csr_name 0x100) Csr.new) 1))
unfolding write Csr.new write_register csr_name
read-write_example = read-write Csr.new 0x100 2 supervisor 1 (omega arith) (omega arith) refl

write-supervisor-IsIsolated_example :
    IsIsolated Csr.new (write Csr.new 0x100 0xFFFFFFFF supervisor).0 3
unfolding Csr.new
write-supervisor-IsIsolated_example =
    write-supervisor-IsIsolated Csr.new 0x100 0xFFFFFFFF 3 (omega arith) (omega arith)
