-- ===== src/Rv64/Csr/Bits.antt =====
-- The bits of mstatus, mip and mie at 64 bits (src/cpu/rv64/csr.rs).
use otorisc_v.Base.{ℕ, ◌|||◌}

abbrev pub sie : ℕ
sie = 0x2

abbrev pub mie : ℕ
mie = 0x8

abbrev pub spie : ℕ
spie = 0x20

abbrev pub mpie : ℕ
mpie = 0x80

abbrev pub spp : ℕ
spp = 0x100

abbrev pub mpp : ℕ
mpp = 0x1800

abbrev pub fs : ℕ
fs = 0x6000

abbrev pub xs : ℕ
xs = 0x18000

abbrev pub mprv : ℕ
mprv = 0x20000

abbrev pub sum : ℕ
sum = 0x40000

abbrev pub mxr : ℕ
mxr = 0x80000

abbrev pub tvm : ℕ
tvm = 0x100000

abbrev pub tw : ℕ
tw = 0x200000

abbrev pub tsr : ℕ
tsr = 0x400000

abbrev pub sd : ℕ
sd = 0x8000000000000000

abbrev pub ssip : ℕ
ssip = 0x2

abbrev pub msip : ℕ
msip = 0x8

abbrev pub stip : ℕ
stip = 0x20

abbrev pub mtip : ℕ
mtip = 0x80

abbrev pub seip : ℕ
seip = 0x200

abbrev pub meip : ℕ
meip = 0x800

-- The masks that the arms of `read` and `write` build with `|`.
abbrev pub read_sstatus_mask : ℕ
read_sstatus_mask = sie ||| spie ||| spp ||| fs ||| xs ||| sum ||| mxr ||| sd

abbrev pub write_sstatus_mask : ℕ
write_sstatus_mask = sie ||| spie ||| spp ||| fs ||| xs ||| sum ||| mxr

abbrev pub write_mstatus_mask : ℕ
write_mstatus_mask =
    sie ||| mie ||| spie ||| mpie ||| spp ||| mpp ||| fs ||| mprv ||| sum ||| mxr ||| tvm ||| tw
    ||| tsr

abbrev pub write_mip_mask : ℕ
write_mip_mask = ssip ||| stip
