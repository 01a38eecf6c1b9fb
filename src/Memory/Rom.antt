-- ===== src/Memory/Rom.antt =====
-- The boot ROM (`init_boot_rom`, `init_sbi_handler`, `init_boot_rom_rv64`, src/memory/mod.rs).
use otorisc_v.Base.{ℕ, ◌+◌, List, [], ◌∷◌}
use otorisc_v.Memory.{Memory}
use otorisc_v.Memory.Bytes.{put_le_bytes}

-- The words of a list stored from an offset on, four bytes each.
unfoldable pub put_words : (ℕ → ℕ) → ℕ → List ℕ → ℕ → ℕ
put_words rom offset [] = rom
put_words rom offset (inst ∷ rest) = put_words (put_le_bytes rom offset 4 inst) (offset + 4) rest

abbrev pub nop : ℕ
nop = 0x00000013

abbrev pub instructions : List ℕ
instructions =
    0x0000b2b7 ∷ 0x1ff28293 ∷ 0x30229073 ∷ 0x00000293 ∷ 0x22228293 ∷ 0x30329073 ∷ 0x00000297
    ∷ 0x00001337 ∷ 0x88030313 ∷ 0x30031073 ∷ 0x800002b7 ∷ 0x34129073 ∷ 0x000012b7 ∷ 0x08028293
    ∷ 0x30529073 ∷ 0x00700293 ∷ 0x30629073 ∷ 0x30200073 ∷ nop ∷ nop ∷ nop ∷ nop ∷ nop ∷ nop ∷ nop
    ∷ nop ∷ nop ∷ nop ∷ nop ∷ []

abbrev pub instructions_rv64 : List ℕ
instructions_rv64 =
    0x0000b2b7 ∷ 0x1ff28293 ∷ 0x30229073 ∷ 0x00000293 ∷ 0x22228293 ∷ 0x30329073 ∷ 0x000012b7
    ∷ 0xaaa28293 ∷ 0x30429073 ∷ 0x00003337 ∷ 0x88030313 ∷ 0x30031073 ∷ 0x800002b7 ∷ 0x02029293
    ∷ 0x0202d293 ∷ 0x34129073 ∷ 0x000012b7 ∷ 0x08028293 ∷ 0x30529073 ∷ 0x00700293 ∷ 0x30629073
    ∷ 0x30200073 ∷ nop ∷ nop ∷ nop ∷ nop ∷ nop ∷ []

abbrev pub sbi_handler : List ℕ
sbi_handler = 0x0000006f ∷ nop ∷ nop ∷ nop ∷ []

-- The test that the handler fits the ROM always holds: it ends at 0x90.
unfoldable pub init_sbi_handler : {D : Type 0} → Memory D → Memory D
init_sbi_handler m = record m { rom = put_words m.rom 0x80 sbi_handler }

unfoldable pub init_boot_rom : {D : Type 0} → Memory D → Memory D
unfolding init_sbi_handler
init_boot_rom m = init_sbi_handler (record m { rom = put_words m.rom 0 instructions })

unfoldable pub init_boot_rom_rv64 : {D : Type 0} → Memory D → Memory D
unfolding init_sbi_handler
init_boot_rom_rv64 m = init_sbi_handler (record m { rom = put_words m.rom 0 instructions_rv64 })
