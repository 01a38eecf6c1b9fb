-- ===== src/Execute/Division.antt =====
-- About signed division and remainder (`execute_m_extension`, src/cpu/rv32/execute.rs).
use otorisc_v.Base.{
  ℕ, ◌+◌, ◌-◌, ◌*◌, ◌/◌, ◌%◌, ◌<◌, ◌≤◌, ◌⊎◌, ◌≡◌, arith, two32, two31, u32, Bool, if◌then◌else◌,
  true, false, ltb, Bool-cases, inl, inr, ap,
}
use native.Mathlib.Nat.{div-add-mod, div-le_self, mod-lt}
use otorisc_v.Execute.Alu.{div, rem, wrapping_div, wrapping_rem, abs32, neg32, is_negative}

-- Two words are each other's negative.
abbrev Opposite : ℕ → ℕ → Type 0
Opposite x y = (x + y ≡ two32) ⊎ ((x ≡ 0) × (y ≡ 0))

neg32-Opposite : (x : ℕ) → x < two32 → Opposite x (neg32 x)
neg32-Opposite x h = ground arith

-- The sizes satisfy `q * b + r = a`; each lemma carries that over to one choice of signs.
neg_pos :
    (a b q r x y : ℕ)
    → q * b + r + a ≡ two32
    → a < two32
    → Opposite q x
    → Opposite r y
    → u32 (x * b + y) ≡ a
neg_pos a b q r x y e ha (inl h) (inl k) = omega (arith, ap (λ t. t * b) h)
neg_pos a b q r x y e ha (inl h) (inr (k, l)) = omega (arith, ap (λ t. t * b) h)
neg_pos a b q r x y e ha (inr (h, i)) (inl k) = rw i (omega (arith, ap (λ t. t * b) h))
neg_pos a b q r x y e ha (inr (h, i)) (inr (k, l)) = omega (arith, ap (λ t. t * b) h)

pos_neg :
    (a b size q r x : ℕ)
    → q * size + r ≡ a
    → a < two32
    → b + size ≡ two32
    → Opposite q x
    → u32 (x * b + r) ≡ a
pos_neg a b size q r x e ha n (inl h) = omega (arith, ap (λ t. t * b) h, ap (λ t. q * t) n)
pos_neg a b size q r x e ha n (inr (h, i)) = rw i (omega (arith, ap (λ t. t * size) h))

neg_neg :
    (a b size q r y : ℕ)
    → q * size + r + a ≡ two32
    → a < two32
    → b + size ≡ two32
    → Opposite r y
    → u32 (q * b + y) ≡ a
neg_neg a b size q r y e ha n (inl k) = omega (arith, ap (λ t. q * t) n)
neg_neg a b size q r y e ha n (inr (k, l)) = omega (arith, ap (λ t. q * t) n)

pos_pos : (a b q r : ℕ) → q * b + r ≡ a → a < two32 → q < two32 → u32 (u32 q * b + r) ≡ a
pos_pos a b q r e ha hq = let same : u32 q ≡ q = omega arith in rw same (omega arith)

-- The sizes of quotient and remainder.
sizes : (x y : ℕ) → 0 < y → x < two32 → (x / y * y + x % y ≡ x) × (x / y < two32) × (x % y < y)
sizes x y hy hx = (omega (arith, div-add-mod x y), omega (arith, div-le_self x y), mod-lt x hy)

wrapping_div-rem :
    (a b : ℕ) → a < two32 → b < two32 → 0 < b → u32 (wrapping_div a b * b + wrapping_rem a b) ≡ a
unfolding wrapping_div wrapping_rem
wrapping_div-rem a b ha hb hz = elim (Bool-cases (ltb a two31)) [
  | inl ea ↦ elim (Bool-cases (ltb b two31)) [
    | inl eb ↦
        let (s, lq, lr) = sizes a b hz ha in
        let quotient : wrapping_div a b ≡ u32 (a / b) = ground (arith, ea, eb) in
        let remainder : wrapping_rem a b ≡ a % b = ground (arith, ea, eb) in
        rw (quotient, remainder) (pos_pos a b (a / b) (a % b) s ha lq)
    | inr eb ↦
        let size = two32 - b in
        let (s, lq, lr) = sizes a size (omega arith) ha in
        let quotient : wrapping_div a b ≡ neg32 (a / size) = ground (arith, ea, eb) in
        let remainder : wrapping_rem a b ≡ a % size = ground (arith, ea, eb) in
        rw (quotient, remainder)
          (pos_neg a b size (a / size) (a % size) (neg32 (a / size)) s ha (omega arith)
            (neg32-Opposite (a / size) lq))
  ]
  | inr ea ↦
      let x = two32 - a in
      let small : x < two32 = ground (arith, ea) in
      elim (Bool-cases (ltb b two31)) [
        | inl eb ↦
            let (s, lq, lr) = sizes x b hz small in
            let quotient : wrapping_div a b ≡ neg32 (x / b) = ground (arith, ea, eb) in
            let remainder : wrapping_rem a b ≡ neg32 (x % b) = ground (arith, ea, eb) in
            rw (quotient, remainder)
              (neg_pos a b (x / b) (x % b) (neg32 (x / b)) (neg32 (x % b)) (omega (arith, s)) ha
                (neg32-Opposite (x / b) lq) (neg32-Opposite (x % b) (omega (arith, lr))))
        | inr eb ↦
            let size = two32 - b in
            let (s, lq, lr) = sizes x size (omega arith) small in
            let quotient : wrapping_div a b ≡ x / size = ground (arith, ea, eb, lq) in
            let remainder : wrapping_rem a b ≡ neg32 (x % size) = ground (arith, ea, eb) in
            rw (quotient, remainder)
              (neg_neg a b size (x / size) (x % size) (neg32 (x % size)) (omega (arith, s)) ha
                (omega arith) (neg32-Opposite (x % size) (omega (arith, lr))))
      ]
]

signed_size :
    (r size : ℕ) (negative : Bool)
    → r < size
    → size ≤ two31
    → abs32 (if negative then neg32 r else r) < size
signed_size r size true lt le = ground arith
signed_size r size false lt le = ground arith

abs32-bounds : (b : ℕ) → b < two32 → 0 < b → (0 < abs32 b) × (abs32 b ≤ two31)
abs32-bounds b hb hz = ground arith

wrapping_rem-lt : (a b : ℕ) → b < two32 → 0 < b → abs32 (wrapping_rem a b) < abs32 b
unfolding wrapping_rem
wrapping_rem-lt a b hb hz =
    let (positive, le) = abs32-bounds b hb hz in
    signed_size (abs32 a % abs32 b) (abs32 b) (is_negative a) (mod-lt (abs32 a) positive) le

-- For all words, the results of DIV and REM satisfy `div * b + rem = a` modulo 2 ^ 32, by zero and
-- on overflow too; and if `b` is not zero, the remainder is smaller in size than `b`.
pub div-rem :
    (a b : ℕ)
    → a < two32
    → b < two32
    → (u32 (div a b * b + rem a b) ≡ a) × ((b ≡ 0) ⊎ (abs32 (rem a b) < abs32 b))
unfolding div rem
div-rem a b ha hb = ground (arith, wrapping_div-rem a b ha hb, wrapping_rem-lt a b hb)
