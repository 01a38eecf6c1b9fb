-- ===== src/Csr/Mstatus.antt =====
-- The bits of mstatus (src/cpu/rv32/csr.rs).
use otorisc_v.Base.{ℕ, bit_or}

abbrev pub sie : ℕ
sie = 0x2

abbrev pub mie : ℕ
mie = 0x8

abbrev pub spie : ℕ
spie = 0x20

abbrev pub mpie : ℕ
mpie = 0x80

abbrev pub spp : ℕ
spp = 0x100

abbrev pub mpp : ℕ
mpp = 0x1800

abbrev pub fs : ℕ
fs = 0x6000

abbrev pub xs : ℕ
xs = 0x18000

abbrev pub mprv : ℕ
mprv = 0x20000

abbrev pub sum : ℕ
sum = 0x40000

abbrev pub mxr : ℕ
mxr = 0x80000

abbrev pub tvm : ℕ
tvm = 0x100000

abbrev pub tw : ℕ
tw = 0x200000

abbrev pub tsr : ℕ
tsr = 0x400000

abbrev pub sd : ℕ
sd = 0x80000000

-- The masks that the arms of `read` and `write` build with `|`.
abbrev pub read_sstatus_mask : ℕ
read_sstatus_mask =
    bit_or sie (bit_or spie (bit_or spp (bit_or fs (bit_or xs (bit_or sum (bit_or mxr sd))))))

abbrev pub write_sstatus_mask : ℕ
write_sstatus_mask = bit_or sie (bit_or spie (bit_or spp (bit_or fs (bit_or xs (bit_or sum mxr)))))

abbrev pub write_mstatus_mask : ℕ
write_mstatus_mask = bit_or sie (
    bit_or mie (
      bit_or spie (
        bit_or mpie (
          bit_or spp (
            bit_or mpp
              (bit_or fs (bit_or mprv (bit_or sum (bit_or mxr (bit_or tvm (bit_or tw tsr)))))))))))
