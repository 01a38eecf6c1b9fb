-- ===== src/Csr/Masks.antt =====
-- About reading a register back after a write, bit by bit (src/cpu/rv32/csr.rs).
use otorisc_v.Base.{
  ℕ, ◌<◌, true, not, ◌||◌, some, none, Option, ◌≡◌, refl, arith, bit_and, bit-merge, bit-view,
  masked, plain, within_self, within_and, bit, bit-bit_and, bit_and-lt, if◌then◌else◌, two32,
  all_below, all_below_sound,
}
use otorisc_v.Csr.Names.{CsrName, csr_name}
use otorisc_v.Privilege.{PrivilegeLevel}
use otorisc_v.Csr.{Csr, read_register, write_register, read, write, accepted}

-- The bits of a register that software can change.
abbrev pub writable : CsrName → Csr → ℕ
writable CsrName.mstatus c = 0x7E79AA
writable CsrName.mie c = 0xAAA
writable CsrName.mip c = 0x22
writable CsrName.mtvec c = 0xFFFFFFFC
writable CsrName.stvec c = 0xFFFFFFFC
writable CsrName.mepc c = 0xFFFFFFFE
writable CsrName.sepc c = 0xFFFFFFFE
writable CsrName.sstatus c = 0xDE122
writable CsrName.sie c = c.mideleg
writable CsrName.sip c = bit_and 0x2 c.mideleg
writable _ c = 0xFFFFFFFF

-- What the other bits read as afterwards: in mip and in the three views of supervisor mode what they
-- were; in every other register zero, also where they were set before: a write to mstatus clears XS,
-- which a write to sstatus can set.
abbrev pub otherwise : CsrName → Csr → ℕ
otherwise CsrName.mip c = read_register CsrName.mip c
otherwise CsrName.sstatus c = read_register CsrName.sstatus c
otherwise CsrName.sie c = read_register CsrName.sie c
otherwise CsrName.sip c = read_register CsrName.sip c
otherwise _ c = 0

-- Every bit of sstatus that can be written can be read.
sstatus_table : all_below 32 (λ k. not (bit 0xDE122 k) || bit 0x800DE122 k) ≡ true
unfolding all_below bit
sstatus_table = refl

abbrev ReadsBack : CsrName → ℕ → Csr → ℕ → Option Csr → Type 0
ReadsBack n v c k none = Unit {0}
ReadsBack n v c k (some c') =
    bit (read_register n c') k ≡ (if bit (writable n c) k then bit v k else bit (otherwise n c) k)

write_register-ReadsBack :
    (n : CsrName) (v : ℕ) (c : Csr) (k : ℕ)
    → k < 32
    → c.mideleg < two32
    → ReadsBack n v c k (write_register n v c)
unfolding read_register write_register
write_register-ReadsBack CsrName.mstatus v c k hk hd = masked k v 0x7E79AA
write_register-ReadsBack CsrName.mie v c k hk hd = masked k v 0xAAA
write_register-ReadsBack CsrName.mtvec v c k hk hd = masked k v 0xFFFFFFFC
write_register-ReadsBack CsrName.stvec v c k hk hd = masked k v 0xFFFFFFFC
write_register-ReadsBack CsrName.mepc v c k hk hd = masked k v 0xFFFFFFFE
write_register-ReadsBack CsrName.sepc v c k hk hd = masked k v 0xFFFFFFFE
write_register-ReadsBack CsrName.mip v c k hk hd = bit-merge 32 k c.mip 0x22 v hk (omega arith)
write_register-ReadsBack CsrName.sstatus v c k hk hd =
    bit-view 32 k c.mstatus 0xDE122 v 0x800DE122 hk (omega arith)
      (all_below_sound 32 (λ k. not (bit 0xDE122 k) || bit 0x800DE122 k) k sstatus_table hk)
write_register-ReadsBack CsrName.sie v c k hk hd =
    bit-view 32 k c.mie c.mideleg v c.mideleg hk hd (within_self (bit c.mideleg k))
write_register-ReadsBack CsrName.sip v c k hk hd =
    bit-view 32 k c.mip (bit_and 2 c.mideleg) v c.mideleg hk
      (bit_and-lt 32 2 c.mideleg (omega arith))
      (rw (bit-bit_and k 2 c.mideleg) (within_and (bit 2 k) (bit c.mideleg k)))
write_register-ReadsBack CsrName.medeleg v c k hk hd = plain 32 k v hk
write_register-ReadsBack CsrName.mideleg v c k hk hd = plain 32 k v hk
write_register-ReadsBack CsrName.mcounteren v c k hk hd = plain 32 k v hk
write_register-ReadsBack CsrName.mscratch v c k hk hd = plain 32 k v hk
write_register-ReadsBack CsrName.mcause v c k hk hd = plain 32 k v hk
write_register-ReadsBack CsrName.mtval v c k hk hd = plain 32 k v hk
write_register-ReadsBack CsrName.scounteren v c k hk hd = plain 32 k v hk
write_register-ReadsBack CsrName.sscratch v c k hk hd = plain 32 k v hk
write_register-ReadsBack CsrName.scause v c k hk hd = plain 32 k v hk
write_register-ReadsBack CsrName.stval v c k hk hd = plain 32 k v hk
write_register-ReadsBack CsrName.satp v c k hk hd = plain 32 k v hk
write_register-ReadsBack _ v c k hk hd = tt

accepted-ReadsBack :
    (n : CsrName) (v : ℕ) (c : Csr) (k : ℕ) (o : Option Csr)
    → ReadsBack n v c k o
    → (accepted c o).1 ≡ true
    → bit (read_register n (accepted c o).0) k
      ≡ (if bit (writable n c) k then bit v k else bit (otherwise n c) k)
accepted-ReadsBack n v c k none h e = absurd (ground arith)
accepted-ReadsBack n v c k (some c') h e = h

-- With a mideleg below 2 ^ 32, a write that is accepted reads back, at the same address and
-- privilege, as the written value on the bits that the register lets software change; the others
-- read as they were in mip, sstatus, sie and sip, and as zero in every other register.
pub read-write :
    (c : Csr) (addr v : ℕ) (p : PrivilegeLevel) (k : ℕ)
    → k < 32
    → c.mideleg < two32
    → (write c addr v p).1 ≡ true
    → (r : ℕ) × (read (write c addr v p).0 addr p ≡ some r)
      × (bit r k ≡ (
          if bit (writable (csr_name addr) c) k
          then bit v k
          else bit (otherwise (csr_name addr) c) k))
unfolding read write
read-write c addr v p k hk hd h =
    let n = csr_name addr in
    (
      read_register n (write c addr v p).0,
      ground arith,
      ground (
        arith,
        accepted-ReadsBack n v c k (write_register n v c) (write_register-ReadsBack n v c k hk hd),
      ),
    )
