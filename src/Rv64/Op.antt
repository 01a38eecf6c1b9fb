-- ===== src/Rv64/Op.antt =====
-- The codes that the 64-bit hart compares fields with (src/cpu/rv64/decode.rs).
use otorisc_v.Base.{ℕ}

abbrev pub lui : ℕ
lui = 0b0110111

abbrev pub auipc : ℕ
auipc = 0b0010111

abbrev pub jal : ℕ
jal = 0b1101111

abbrev pub jalr : ℕ
jalr = 0b1100111

abbrev pub branch : ℕ
branch = 0b1100011

abbrev pub load : ℕ
load = 0b0000011

abbrev pub store : ℕ
store = 0b0100011

abbrev pub op_imm : ℕ
op_imm = 0b0010011

abbrev pub op : ℕ
op = 0b0110011

abbrev pub op_imm_32 : ℕ
op_imm_32 = 0b0011011

abbrev pub op_32 : ℕ
op_32 = 0b0111011

abbrev pub misc_mem : ℕ
misc_mem = 0b0001111

abbrev pub system : ℕ
system = 0b1110011

abbrev pub amo : ℕ
amo = 0b0101111

abbrev pub load_fp : ℕ
load_fp = 0b0000111

abbrev pub store_fp : ℕ
store_fp = 0b0100111

abbrev pub madd : ℕ
madd = 0b1000011

abbrev pub msub : ℕ
msub = 0b1000111

abbrev pub nmsub : ℕ
nmsub = 0b1001011

abbrev pub nmadd : ℕ
nmadd = 0b1001111

abbrev pub op_fp : ℕ
op_fp = 0b1010011

abbrev pub funct3_beq : ℕ
funct3_beq = 0b000

abbrev pub funct3_bne : ℕ
funct3_bne = 0b001

abbrev pub funct3_blt : ℕ
funct3_blt = 0b100

abbrev pub funct3_bge : ℕ
funct3_bge = 0b101

abbrev pub funct3_bltu : ℕ
funct3_bltu = 0b110

abbrev pub funct3_bgeu : ℕ
funct3_bgeu = 0b111

abbrev pub funct3_lb : ℕ
funct3_lb = 0b000

abbrev pub funct3_lh : ℕ
funct3_lh = 0b001

abbrev pub funct3_lw : ℕ
funct3_lw = 0b010

abbrev pub funct3_lbu : ℕ
funct3_lbu = 0b100

abbrev pub funct3_lhu : ℕ
funct3_lhu = 0b101

abbrev pub funct3_lwu : ℕ
funct3_lwu = 0b110

abbrev pub funct3_ld : ℕ
funct3_ld = 0b011

abbrev pub funct3_add_sub : ℕ
funct3_add_sub = 0b000

abbrev pub funct3_sll : ℕ
funct3_sll = 0b001

abbrev pub funct3_slt : ℕ
funct3_slt = 0b010

abbrev pub funct3_sltu : ℕ
funct3_sltu = 0b011

abbrev pub funct3_xor : ℕ
funct3_xor = 0b100

abbrev pub funct3_srl_sra : ℕ
funct3_srl_sra = 0b101

abbrev pub funct3_or : ℕ
funct3_or = 0b110

abbrev pub funct3_and : ℕ
funct3_and = 0b111

abbrev pub funct3_mul : ℕ
funct3_mul = 0b000

abbrev pub funct3_mulh : ℕ
funct3_mulh = 0b001

abbrev pub funct3_mulhsu : ℕ
funct3_mulhsu = 0b010

abbrev pub funct3_mulhu : ℕ
funct3_mulhu = 0b011

abbrev pub funct3_div : ℕ
funct3_div = 0b100

abbrev pub funct3_divu : ℕ
funct3_divu = 0b101

abbrev pub funct3_rem : ℕ
funct3_rem = 0b110

abbrev pub funct3_remu : ℕ
funct3_remu = 0b111

abbrev pub funct3_priv : ℕ
funct3_priv = 0b000

abbrev pub funct3_csrrw : ℕ
funct3_csrrw = 0b001

abbrev pub funct3_csrrs : ℕ
funct3_csrrs = 0b010

abbrev pub funct3_csrrc : ℕ
funct3_csrrc = 0b011

abbrev pub funct3_csrrwi : ℕ
funct3_csrrwi = 0b101

abbrev pub funct3_csrrsi : ℕ
funct3_csrrsi = 0b110

abbrev pub funct3_csrrci : ℕ
funct3_csrrci = 0b111

abbrev pub funct5_lr : ℕ
funct5_lr = 0b00010

abbrev pub funct5_sc : ℕ
funct5_sc = 0b00011

abbrev pub funct5_amoswap : ℕ
funct5_amoswap = 0b00001

abbrev pub funct5_amoadd : ℕ
funct5_amoadd = 0b00000

abbrev pub funct5_amoxor : ℕ
funct5_amoxor = 0b00100

abbrev pub funct5_amoand : ℕ
funct5_amoand = 0b01100

abbrev pub funct5_amoor : ℕ
funct5_amoor = 0b01000

abbrev pub funct5_amomin : ℕ
funct5_amomin = 0b10000

abbrev pub funct5_amomax : ℕ
funct5_amomax = 0b10100

abbrev pub funct5_amominu : ℕ
funct5_amominu = 0b11000

abbrev pub funct5_amomaxu : ℕ
funct5_amomaxu = 0b11100

abbrev pub funct3_fld : ℕ
funct3_fld = 0b011
