-- ===== src/Memory/Bytes.antt =====
-- Numbers as bytes, lowest first: `from_le_bytes` and `to_le_bytes` over an array of bytes, as
-- src/memory/mod.rs uses them on RAM and ROM.
use otorisc_v.Base.{
  ℕ, zero, suc, ◌+◌, ◌-◌, ◌*◌, ◌/◌, ◌%◌, ◌^◌, ◌≤◌, ◌<◌, ◌≡◌, refl, ap, arith, ◌==◌, ◌&&◌, leb, ltb,
  if◌then◌else◌,
}
use native.Mathlib.Nat.{pow-suc}

abbrev pub put_byte : (ℕ → ℕ) → ℕ → ℕ → ℕ → ℕ
put_byte bytes o v j = if o == j then v else bytes j

-- The number in the `n` bytes from offset `o` on.
unfoldable pub from_le_bytes : (ℕ → ℕ) → ℕ → ℕ → ℕ
from_le_bytes bytes o zero = 0
from_le_bytes bytes o (suc n) = bytes o + 256 * from_le_bytes bytes (o + 1) n

-- The `n` lowest bytes of `v` stored from offset `o` on.
unfoldable pub put_le_bytes : (ℕ → ℕ) → ℕ → ℕ → ℕ → ℕ → ℕ
put_le_bytes bytes o zero v = bytes
put_le_bytes bytes o (suc n) v = put_le_bytes (put_byte bytes o (v % 256)) (o + 1) n (v / 256)

-- Byte `i` of a number.
unfoldable pub byte : ℕ → ℕ → ℕ
byte v zero = v % 256
byte v (suc i) = byte (v / 256) i

-- An array in which the `n` bytes from `o` on are those of `v`.
abbrev pub overlay : (ℕ → ℕ) → ℕ → ℕ → ℕ → ℕ → ℕ
overlay bytes o n v j = if leb o j && ltb j (o + n) then byte v (j - o) else bytes j

byte_next : (v o j : ℕ) → o < j → byte v (j - o) ≡ byte (v / 256) (j - (o + 1))
unfolding byte
byte_next v o j h = let e : j - o ≡ suc (j - (o + 1)) = omega arith in rw e

byte_first : (v o : ℕ) → byte v (o - o) ≡ v % 256
unfolding byte
byte_first v o = let e : o - o ≡ 0 = omega arith in rw e

pub put_le_bytes-overlay :
    (bytes : ℕ → ℕ) (o n v j : ℕ) → put_le_bytes bytes o n v j ≡ overlay bytes o n v j
unfolding put_le_bytes
put_le_bytes-overlay bytes o zero v j = ground arith
put_le_bytes-overlay bytes o (suc n) v j = ground (
  arith,
  put_le_bytes-overlay (put_byte bytes o (v % 256)) (o + 1) n (v / 256) j,
  byte_next v o j,
  byte_first v o,
  ap (λ k. byte v (k - o)),
)

pub from_le_bytes-ext :
    (f g : ℕ → ℕ) (o n : ℕ)
    → ((i : ℕ) → o ≤ i → i < o + n → f i ≡ g i)
    → from_le_bytes f o n ≡ from_le_bytes g o n
unfolding from_le_bytes
from_le_bytes-ext f g o zero h = refl
from_le_bytes-ext f g o (suc n) h =
    ground (arith, h o, from_le_bytes-ext f g (o + 1) n (λ i a b. h i (omega arith) (omega arith)))

-- What is stored is read back.
pub from_le_bytes-put_le_bytes :
    (bytes : ℕ → ℕ) (o n v : ℕ) → v < 256 ^ n → from_le_bytes (put_le_bytes bytes o n v) o n ≡ v
unfolding from_le_bytes put_le_bytes
from_le_bytes-put_le_bytes bytes o zero v h = omega arith
from_le_bytes-put_le_bytes bytes o (suc n) v h =
    let first = put_le_bytes-overlay bytes o (suc n) v o in
    let rest =
      from_le_bytes-put_le_bytes (put_byte bytes o (v % 256)) (o + 1) n (v / 256)
        (omega (arith, pow-suc 256 n)) in
    ground (arith, first, rest, byte_first v o)
