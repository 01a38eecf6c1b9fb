-- ===== src/Rv64/Execute/Satp.antt =====
-- About the modes that satp can hold (`sanitize_satp`, `execute_system`, src/cpu/rv64/execute.rs).
use otorisc_v.Base.{
  ℕ, ◌*◌, ◌/◌, ◌%◌, ◌^◌, ◌<◌, ◌≤◌, ◌≡◌, ◌⊎◌, inl, inr, arith, ◌>>>◌, ◌&&&◌, leb, on_if, ◌==◌, ◌!=◌,
  ◌||◌, if◌then◌else◌, bit_and, bit_or, bit_and_mask, Option, none, some, Result, ok, err,
}
use otorisc_v.Privilege.{PrivilegeLevel}
use otorisc_v.Csr.Names.{CsrName, csr_name}
use otorisc_v.Rv64.Csr.{Csr64, write, write_register}
use otorisc_v.Rv64.Trap.{sret, mret, Trap64}
use otorisc_v.Rv64.Cpu.{Cpu64, write_reg, read_reg}
use otorisc_v.Rv64.Decode.{DecodedInst}
use otorisc_v.Rv64.Compressed.Fields.{or_high}
use otorisc_v.Execute.System.{is_csr_funct3}
use otorisc_v.Rv64.Execute.Integer.{Outcome}
use otorisc_v.Rv64.Execute.System.{
  SatpSetting, satp_mode_limit, sanitize_satp, csr_write, csr_new, finish_csr, csr_update, csr_old,
  execute_csr, execute_priv, execute_system,
}

-- A mode that the translation knows and the setting allows.
abbrev pub IsLegal : SatpSetting → ℕ → Type 0
IsLegal setting satp =
    let mode = satp / 2 ^ 60 % 16 in
    (mode ≡ 0) ⊎ (((mode ≡ 8) ⊎ (mode ≡ 9) ⊎ (mode ≡ 10)) × (mode ≤ satp_mode_limit setting))

mode_field :
    (value mode : ℕ)
    → mode < 16
    → bit_or (bit_and value 1152921504606846975) (mode * 1152921504606846976 % 18446744073709551616)
        / 2 ^ 60
        % 16
      ≡ mode
mode_field value mode h =
    let e : mode * 1152921504606846976 % 18446744073709551616 ≡ mode * 1152921504606846976 =
      omega arith in
    rw
      (
        bit_and_mask 60 value,
        e,
        or_high 60 (value % 2 ^ 60) (mode * 1152921504606846976) (omega arith) (omega arith),
      )
      (omega arith)

sanitize_satp-IsLegal :
    (setting : SatpSetting) (value : ℕ) → IsLegal setting (sanitize_satp setting value)
unfolding sanitize_satp
sanitize_satp-IsLegal setting value =
    let mode = value / 1152921504606846976 % 16 in
    ground (
      arith,
      bit_and_mask 4 (value / 1152921504606846976),
      mode_field value 0 (omega arith),
      mode_field value mode (omega arith),
    )

-- Only a write to satp changes it.
abbrev KeepsSatp : CsrName → ℕ → Csr64 → Option Csr64 → Type 0
KeepsSatp n v c none = Unit {0}
KeepsSatp n v c (some c') = (c'.satp ≡ c.satp) ⊎ ((n ≡ CsrName.satp) × (c'.satp ≡ v))

write_register-KeepsSatp :
    (n : CsrName) (v : ℕ) (c : Csr64) → KeepsSatp n v c (write_register n v c)
unfolding write_register
write_register-KeepsSatp n v c = ground arith

csr_name-satp : (addr : ℕ) → csr_name addr ≡ CsrName.satp → addr ≡ 0x180
unfolding csr_name
csr_name-satp addr h = ground arith

write-satp :
    (c : Csr64) (addr v : ℕ) (p : PrivilegeLevel)
    → ((write c addr v p).0.satp ≡ c.satp) ⊎ ((addr ≡ 0x180) × ((write c addr v p).0.satp ≡ v))
unfolding write
write-satp c addr v p =
    ground (arith, write_register-KeepsSatp (csr_name addr) v c, csr_name-satp addr)

csr_write-satp :
    (inst : ℕ) (cpu : Cpu64) (addr old v : ℕ)
    → ((csr_write inst cpu addr old v).1.csr.satp ≡ cpu.csr.satp)
      ⊎ ((addr ≡ 0x180) × ((csr_write inst cpu addr old v).1.csr.satp ≡ v))
unfolding csr_write
csr_write-satp inst cpu addr old v = ground (arith, write-satp cpu.csr addr v cpu.priv_level)

csr_new-IsLegal :
    (setting : SatpSetting) (funct3 old value : ℕ)
    → IsLegal setting (csr_new setting 0x180 funct3 old value)
unfolding csr_new
csr_new-IsLegal setting funct3 old value = sanitize_satp-IsLegal setting _

module _ (setting : SatpSetting) (inst : ℕ) (cpu : Cpu64) (h : IsLegal setting cpu.csr.satp) where
  csr_write-IsLegal :
      (addr old funct3 value : ℕ)
      → IsLegal setting
          (csr_write inst cpu addr old (csr_new setting addr funct3 old value)).1.csr.satp
  csr_write-IsLegal addr old funct3 value =
      elim (csr_write-satp inst cpu addr old (csr_new setting addr funct3 old value)) [
        | inl e ↦ rw e h
        | inr (a, e) ↦ rw (e, a) (csr_new-IsLegal setting funct3 old value)
      ]

  module _ {S : Type 0} (d : DecodedInst) (s : S) where
    finish_csr-IsLegal :
        (rd old : ℕ) (r : Result Trap64 (Unit {0}) × Cpu64)
        → IsLegal setting r.1.csr.satp
        → IsLegal setting (finish_csr rd old s r).1.csr.satp
    unfolding write_reg
    finish_csr-IsLegal rd old (ok _, c) k = ground (arith, k)
    finish_csr-IsLegal rd old (err t, c) k = k

    csr_update-IsLegal :
        (addr value : ℕ) (old : Option ℕ)
        → IsLegal setting (csr_update setting inst d cpu s addr value old).1.csr.satp
    csr_update-IsLegal addr value none = h
    csr_update-IsLegal addr value (some old) = finish_csr-IsLegal d.rd old _ (
        on_if (λ (r : Result Trap64 (Unit {0}) × Cpu64). IsLegal setting r.1.csr.satp)
          ((bit_and d.funct3 3 == 1) || (value != 0))
          (λ _. csr_write-IsLegal addr old d.funct3 value) (λ _. h))

    execute_csr-IsLegal : IsLegal setting (execute_csr setting inst d cpu s).1.csr.satp
    unfolding execute_csr
    execute_csr-IsLegal =
        let addr = inst >>> 20 &&& 0xFFF in
        let value = if leb 5 d.funct3 then d.rs1 else read_reg cpu d.rs1 in
        csr_update-IsLegal addr value (csr_old cpu addr)

    execute_priv-IsLegal : IsLegal setting (execute_priv inst cpu s).1.csr.satp
    unfolding execute_priv sret mret
    execute_priv-IsLegal = ground (arith, h)

    -- Where satp holds a mode that the translation knows and that the setting of the environment
    -- allows, no SYSTEM instruction puts another mode there.
    pub execute_system-IsLegal : IsLegal setting (execute_system setting inst d cpu s).1.csr.satp
    unfolding execute_system
    execute_system-IsLegal =
        let legal = λ (o : Outcome S). IsLegal setting o.1.csr.satp in
        on_if legal (d.funct3 == 0) (λ _. execute_priv-IsLegal)
          (λ _. on_if legal (is_csr_funct3 d.funct3) (λ _. execute_csr-IsLegal) (λ _. h))
