-- ===== src/Cpu/Registers.antt =====
-- About the general registers (src/cpu/rv32/mod.rs).
use otorisc_v.Base.{ℕ, ◌<◌, ◌==◌, ◌≡◌, arith, bit_and_mask, if◌then◌else◌}
use otorisc_v.Cpu.{Cpu, read_reg, write_reg}

-- For register numbers below 32: x0 reads as zero whatever is written to any register; another
-- register reads as what was last written to it, and the rest keep their values.
pub read_reg-write_reg :
    (cpu : Cpu) (i j v : ℕ)
    → i < 32
    → j < 32
    → read_reg (write_reg cpu i v) j ≡ (if j == 0 then 0 else if i == j then v else read_reg cpu j)
unfolding read_reg write_reg
read_reg-write_reg cpu i j v hi hj = ground (arith, bit_and_mask 5 i, bit_and_mask 5 j)
