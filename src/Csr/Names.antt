-- ===== src/Csr/Names.antt =====
-- The registers by name, and their addresses (the `CSR_*` constants of src/cpu/rv32/csr.rs).
use otorisc_v.Base.{ℕ, ◌==◌, if◌then◌else◌}

pub data CsrName : Type 0 where
  fflags frm fcsr : CsrName
  sstatus sie stvec scounteren sscratch sepc scause stval sip satp : CsrName
  mstatus misa medeleg mideleg mie mtvec mcounteren mscratch mepc mcause mtval mip mhartid : CsrName
  cycle time instret cycleh timeh instreth : CsrName
  unknown : CsrName

-- The constant that the arms of `read` and `write` compare the address with.
abbrev pub address : CsrName → ℕ
address fflags = 0x001
address frm = 0x002
address fcsr = 0x003
address sstatus = 0x100
address sie = 0x104
address stvec = 0x105
address scounteren = 0x106
address sscratch = 0x140
address sepc = 0x141
address scause = 0x142
address stval = 0x143
address sip = 0x144
address satp = 0x180
address mstatus = 0x300
address misa = 0x301
address medeleg = 0x302
address mideleg = 0x303
address mie = 0x304
address mtvec = 0x305
address mcounteren = 0x306
address mscratch = 0x340
address mepc = 0x341
address mcause = 0x342
address mtval = 0x343
address mip = 0x344
address mhartid = 0xF14
address cycle = 0xC00
address time = 0xC01
address instret = 0xC02
address cycleh = 0xC80
address timeh = 0xC81
address instreth = 0xC82
address unknown = 0xFFF

-- Which arm of the `match addr` an address takes; `unknown` is the arm `_`.
unfoldable pub csr_name : ℕ → CsrName
csr_name addr =
    if addr == 0x001
    then fflags
    else if addr == 0x002
    then frm
    else if addr == 0x003
    then fcsr
    else if addr == 0x100
    then sstatus
    else if addr == 0x104
    then sie
    else if addr == 0x105
    then stvec
    else if addr == 0x106
    then scounteren
    else if addr == 0x140
    then sscratch
    else if addr == 0x141
    then sepc
    else if addr == 0x142
    then scause
    else if addr == 0x143
    then stval
    else if addr == 0x144
    then sip
    else if addr == 0x180
    then satp
    else if addr == 0x300
    then mstatus
    else if addr == 0x301
    then misa
    else if addr == 0x302
    then medeleg
    else if addr == 0x303
    then mideleg
    else if addr == 0x304
    then mie
    else if addr == 0x305
    then mtvec
    else if addr == 0x306
    then mcounteren
    else if addr == 0x340
    then mscratch
    else if addr == 0x341
    then mepc
    else if addr == 0x342
    then mcause
    else if addr == 0x343
    then mtval
    else if addr == 0x344
    then mip
    else if addr == 0xF14
    then mhartid
    else if addr == 0xC00
    then cycle
    else if addr == 0xC01
    then time
    else if addr == 0xC02
    then instret
    else if addr == 0xC80
    then cycleh
    else if addr == 0xC81
    then timeh
    else if addr == 0xC82
    then instreth
    else unknown
