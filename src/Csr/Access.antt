-- ===== src/Csr/Access.antt =====
-- About the accesses that `write` refuses (src/cpu/rv32/csr.rs).
use otorisc_v.Base.{ℕ, ◌<◌, true, false, none, ◌≡◌, ◌↔◌, ◌⊎◌, arith}
use otorisc_v.Privilege.{PrivilegeLevel, as_u8}
use otorisc_v.Csr.Names.{csr_name}
use otorisc_v.Csr.{Csr, write, write_register, min_priv, is_read_only}

-- A write is refused exactly when the privilege is too low, the address is read-only or no register
-- that can be written has it; and a refused write leaves every register as it was.
pub write-refused :
    (c : Csr) (addr v : ℕ) (p : PrivilegeLevel)
    → ((write c addr v p).1 ≡ false
        ↔ (as_u8 p < min_priv addr)
          ⊎ (is_read_only addr ≡ true)
          ⊎ (write_register (csr_name addr) v c ≡ none))
      × (((write c addr v p).1 ≡ true) ⊎ ((write c addr v p).0 ≡ c))
unfolding write
write-refused c addr v p = ground arith
