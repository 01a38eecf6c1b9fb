-- ===== src/Base/Masked.antt =====
-- Masked updates of a word of `n` bits, `(old & !mask) | (value & mask)`, bit by bit.
use Prim.Native.Nat.{ℕ, ◌-◌, ◌^◌, ◌<◌, bit_and, bit_or}
use mathlib.Core.Path.{◌≡◌}
use mathlib.Core.Bool.{Bool, true, false, not, ◌&&◌, ◌||◌}
use native.Mathlib.Omega.{arith}
use otorisc_v.Base.Tests.{if◌then◌else◌, lt→ltb}
use otorisc_v.Base.Bits.{bit, bit-bit_and, bit-bit_or}
use otorisc_v.Base.BitLaws.{bit-complement, bit-zero}
use otorisc_v.Base.Shifts.{bit-mask}

select : (a b c : Bool) → ((a && not c) || (b && c)) ≡ (if c then b else a)
select a b c = ground arith

mask_only : (b c : Bool) → (b && c) ≡ (if c then b else false)
mask_only b c = ground arith

view :
    (m v o r : Bool)
    → (not m || r) ≡ true
    → ((if m then v else o) && r) ≡ (if m then v else (o && r))
view m v o r h = ground arith

pub within_self : (b : Bool) → (not b || b) ≡ true
within_self b = ground arith

pub within_and : (a b : Bool) → (not (a && b) || b) ≡ true
within_and a b = ground arith

pub bit-merge :
    (n k old mask v : ℕ)
    → k < n
    → mask < 2 ^ n
    → bit (bit_or (bit_and old (2 ^ n - 1 - mask)) (bit_and v mask)) k
      ≡ (if bit mask k then bit v k else bit old k)
bit-merge n k old mask v hk hm =
    rw
      (
        bit-bit_or k (bit_and old (2 ^ n - 1 - mask)) (bit_and v mask),
        bit-bit_and k old (2 ^ n - 1 - mask),
        bit-bit_and k v mask,
        bit-complement n k mask hm hk,
      )
      (select (bit old k) (bit v k) (bit mask k))

-- A view of a register through a mask `r`, after a write through a mask `m`.
pub bit-view :
    (n k old m v r : ℕ)
    → k < n
    → m < 2 ^ n
    → (not (bit m k) || bit r k) ≡ true
    → bit (bit_and (bit_or (bit_and old (2 ^ n - 1 - m)) (bit_and v m)) r) k
      ≡ (if bit m k then bit v k else bit (bit_and old r) k)
bit-view n k old m v r hk hm h =
    rw
      (
        bit-bit_and k (bit_or (bit_and old (2 ^ n - 1 - m)) (bit_and v m)) r,
        bit-merge n k old m v hk hm,
        bit-bit_and k old r,
      )
      (view (bit m k) (bit v k) (bit old k) (bit r k) h)

pub masked : (k v m : ℕ) → bit (bit_and v m) k ≡ (if bit m k then bit v k else bit 0 k)
masked k v m = rw (bit-bit_and k v m, bit-zero k) (mask_only (bit v k) (bit m k))

-- A register with no mask.
pub plain : (n k v : ℕ) → k < n → bit v k ≡ (if bit (2 ^ n - 1) k then bit v k else bit 0 k)
plain n k v h = rw (bit-mask n k, lt→ltb k n h)

pub bit-set :
    (k status mask : ℕ) → bit (bit_or status mask) k ≡ (if bit mask k then true else bit status k)
bit-set k status mask = ground (arith, bit-bit_or k status mask)

pub bit-clear :
    (n k status mask : ℕ)
    → k < n
    → mask < 2 ^ n
    → bit (bit_and status (2 ^ n - 1 - mask)) k ≡ (if bit mask k then false else bit status k)
bit-clear n k status mask hk hm =
    ground (arith, bit-bit_and k status (2 ^ n - 1 - mask), bit-complement n k mask hm hk)
