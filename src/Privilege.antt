-- ===== src/Privilege.antt =====
-- Privilege levels (src/cpu/mod.rs).
use otorisc_v.Base.{ℕ, Bool, ltb, leb, ◌==◌, bit_and, if◌then◌else◌}

pub data PrivilegeLevel : Type 0 where
  user supervisor machine : PrivilegeLevel

-- `priv as u8`; the derived order is the order of these numbers.
abbrev pub as_u8 : PrivilegeLevel → ℕ
as_u8 user = 0
as_u8 supervisor = 1
as_u8 machine = 3

abbrev pub lt_priv : PrivilegeLevel → PrivilegeLevel → Bool
lt_priv p q = ltb (as_u8 p) (as_u8 q)

abbrev pub le_priv : PrivilegeLevel → PrivilegeLevel → Bool
le_priv p q = leb (as_u8 p) (as_u8 q)

abbrev pub is_priv : PrivilegeLevel → PrivilegeLevel → Bool
is_priv p q = as_u8 p == as_u8 q

-- `PrivilegeLevel::from`; the reserved encoding 2 reads as machine mode.
unfoldable pub from_u8 : ℕ → PrivilegeLevel
from_u8 val =
    let v = bit_and val 3 in
    if v == 0 then user else if v == 1 then supervisor else if v == 3 then machine else machine
