-- ===== src/Decode/Op.antt =====
-- The opcodes (src/cpu/rv32/decode.rs).
use otorisc_v.Base.{ℕ}

abbrev pub lui : ℕ
lui = 0b0110111

abbrev pub auipc : ℕ
auipc = 0b0010111

abbrev pub jal : ℕ
jal = 0b1101111

abbrev pub jalr : ℕ
jalr = 0b1100111

abbrev pub branch : ℕ
branch = 0b1100011

abbrev pub load : ℕ
load = 0b0000011

abbrev pub store : ℕ
store = 0b0100011

abbrev pub op_imm : ℕ
op_imm = 0b0010011

abbrev pub op : ℕ
op = 0b0110011

abbrev pub misc_mem : ℕ
misc_mem = 0b0001111

abbrev pub system : ℕ
system = 0b1110011

abbrev pub amo : ℕ
amo = 0b0101111

abbrev pub load_fp : ℕ
load_fp = 0b0000111

abbrev pub store_fp : ℕ
store_fp = 0b0100111

abbrev pub madd : ℕ
madd = 0b1000011

abbrev pub msub : ℕ
msub = 0b1000111

abbrev pub nmsub : ℕ
nmsub = 0b1001011

abbrev pub nmadd : ℕ
nmadd = 0b1001111

abbrev pub op_fp : ℕ
op_fp = 0b1010011
