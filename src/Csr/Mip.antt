-- ===== src/Csr/Mip.antt =====
-- The bits of mip and mie (src/cpu/rv32/csr.rs).
use otorisc_v.Base.{ℕ, bit_or}

abbrev pub ssip : ℕ
ssip = 0x2

abbrev pub msip : ℕ
msip = 0x8

abbrev pub stip : ℕ
stip = 0x20

abbrev pub mtip : ℕ
mtip = 0x80

abbrev pub seip : ℕ
seip = 0x200

abbrev pub meip : ℕ
meip = 0x800

-- The masks of the `CSR_MIE` and `CSR_MIP` arms of `write`.
abbrev pub write_mie_mask : ℕ
write_mie_mask = bit_or ssip (bit_or msip (bit_or stip (bit_or mtip (bit_or seip meip))))

abbrev pub write_mip_mask : ℕ
write_mip_mask = bit_or ssip stip
