-- ===== src/Csr/Isolation.antt =====
-- About writes in supervisor mode (src/cpu/rv32/csr.rs).
use otorisc_v.Base.{
  bit-merge, ℕ, ◌<◌, Bool-cases, inl, inr, Bool, true, false, Option, none, some, ◌≡◌, arith,
  bit_and, bit, bit-bit_and, two32, ◌⊎◌, bit_and-lt,
}
use otorisc_v.Privilege.{supervisor}
use otorisc_v.Csr.Names.{CsrName, csr_name}
use otorisc_v.Csr.{Csr, write_register, write, accepted, min_priv}

-- The registers of machine mode.
abbrev pub is_machine : CsrName → Bool
is_machine CsrName.mstatus = true
is_machine CsrName.misa = true
is_machine CsrName.medeleg = true
is_machine CsrName.mideleg = true
is_machine CsrName.mie = true
is_machine CsrName.mtvec = true
is_machine CsrName.mcounteren = true
is_machine CsrName.mscratch = true
is_machine CsrName.mepc = true
is_machine CsrName.mcause = true
is_machine CsrName.mtval = true
is_machine CsrName.mip = true
is_machine CsrName.mhartid = true
is_machine _ = false

csr_name-min_priv : (addr : ℕ) → is_machine (csr_name addr) ≡ true → min_priv addr ≡ 3
unfolding csr_name
csr_name-min_priv addr h = ground arith

-- Nothing that belongs to machine mode differs: its own registers, its bits of mstatus, and the
-- interrupts that are not delegated.
pub record IsIsolated (c c' : Csr) (k : ℕ) : Type 0 where
  pub misa_same : c'.misa ≡ c.misa
  pub medeleg_same : c'.medeleg ≡ c.medeleg
  pub mideleg_same : c'.mideleg ≡ c.mideleg
  pub mtvec_same : c'.mtvec ≡ c.mtvec
  pub mcounteren_same : c'.mcounteren ≡ c.mcounteren
  pub mscratch_same : c'.mscratch ≡ c.mscratch
  pub mepc_same : c'.mepc ≡ c.mepc
  pub mcause_same : c'.mcause ≡ c.mcause
  pub mtval_same : c'.mtval ≡ c.mtval
  pub mstatus_kept : (bit 0xDE122 k ≡ true) ⊎ (bit c'.mstatus k ≡ bit c.mstatus k)
  pub mie_kept : (bit c.mideleg k ≡ true) ⊎ (bit c'.mie k ≡ bit c.mie k)
  pub mip_kept : (bit c.mideleg k ≡ true) ⊎ (bit c'.mip k ≡ bit c.mip k)

IsIsolated-refl : (c : Csr) (k : ℕ) → IsIsolated c c k
IsIsolated-refl c k = ground arith

abbrev IsolatedOr : Csr → ℕ → Option Csr → Type 0
IsolatedOr c k none = Unit {0}
IsolatedOr c k (some c') = IsIsolated c c' k

write_register-Isolated :
    (n : CsrName) (v : ℕ) (c : Csr) (k : ℕ)
    → k < 32
    → c.mideleg < two32
    → is_machine n ≡ false
    → IsolatedOr c k (write_register n v c)
unfolding write_register
write_register-Isolated CsrName.sstatus v c k hk hd m =
    ground (arith, bit-merge 32 k c.mstatus 0xDE122 v hk (omega arith))
write_register-Isolated CsrName.sie v c k hk hd m =
    ground (arith, bit-merge 32 k c.mie c.mideleg v hk hd)
write_register-Isolated CsrName.sip v c k hk hd m = ground (
  arith,
  bit-merge 32 k c.mip (bit_and 2 c.mideleg) v hk (bit_and-lt 32 2 c.mideleg (omega arith)),
  bit-bit_and k 2 c.mideleg,
)
write_register-Isolated _ v c k hk hd m = ground arith

accepted-Isolated :
    (c : Csr) (k : ℕ) (o : Option Csr) → IsolatedOr c k o → IsIsolated c (accepted c o).0 k
accepted-Isolated c k none h = IsIsolated-refl c k
accepted-Isolated c k (some c') h = h

-- With a mideleg below 2 ^ 32, a write in supervisor mode, to any address and with any value,
-- leaves alone what belongs to machine mode: its registers, each bit of mstatus that is not in
-- sstatus, and each bit of mie and mip whose interrupt is not delegated.
pub write-supervisor-IsIsolated :
    (c : Csr) (addr v k : ℕ)
    → k < 32
    → c.mideleg < two32
    → IsIsolated c (write c addr v supervisor).0 k
unfolding write
write-supervisor-IsIsolated c addr v k hk hd = elim (Bool-cases (is_machine (csr_name addr))) [
  | inl m ↦ rw (refused addr m) (IsIsolated-refl c k)
  | inr m ↦ ground (
    arith,
    IsIsolated-refl c k,
    accepted-Isolated c k (write_register (csr_name addr) v c)
        (write_register-Isolated (csr_name addr) v c k hk hd m),
  )
]
  where
    refused : (a : ℕ) → is_machine (csr_name a) ≡ true → write c a v supervisor ≡ (c, false)
    refused a m = ground (arith, csr_name-min_priv a m)
