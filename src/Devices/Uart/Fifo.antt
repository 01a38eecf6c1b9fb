-- ===== src/Devices/Uart/Fifo.antt =====
-- About the buffer of received bytes (src/devices/uart.rs).
use otorisc_v.Base.{
  ℕ, zero, suc, ◌+◌, ◌-◌, ◌<◌, ◌≤◌, false, ◌≡◌, refl, sym, ap, ap₂, tests, ◌∙◌, arith, leb,
  if◌then◌else◌, List, [], ◌∷◌, ◌++◌, length, drop, length-append, Bool-cases, inl, inr,
}
use mathlib.Core.List.{append_assoc, append-nil}
use otorisc_v.Devices.Uart.{Uart, receive_char, read_rbr, rest, front, is_dlab_set, max_fifo_size}

abbrev pub receive_all : Uart → List ℕ → Uart
receive_all u [] = u
receive_all u (c ∷ cs) = receive_all (receive_char u c) cs

-- The last 256 bytes of a list.
abbrev pub newest : List ℕ → List ℕ
newest xs = drop (length xs - 256) xs

newest-drop : (z : ℕ) (zs : List ℕ) → 256 ≤ length zs → newest zs ≡ newest (z ∷ zs)
newest-drop z zs h = let e : suc (length zs) - 256 ≡ suc (length zs - 256) = omega arith in rw e

newest-rest :
    (xs ys : List ℕ)
    → 0 < length xs
    → 257 ≤ length (xs ++ ys)
    → newest (rest xs ++ ys) ≡ newest (xs ++ ys)
newest-rest [] ys p h = absurd (omega arith)
newest-rest (x ∷ xs) ys p h = newest-drop x (xs ++ ys) (omega arith)

drop-append_few : (n : ℕ) (xs : List ℕ) → n ≡ 0 → drop n xs ≡ xs
drop-append_few zero xs h = refl
drop-append_few (suc n) xs h = absurd (omega arith)

length-rest : (xs : List ℕ) → 0 < length xs → length (rest xs) + 1 ≡ length xs
length-rest [] h = absurd (omega arith)
length-rest (x ∷ xs) h = omega arith

abbrev pub pushed : List ℕ → ℕ → List ℕ
pushed xs c = (if leb max_fifo_size (length xs) then rest xs else xs) ++ c ∷ []

pub pushed-le : (xs : List ℕ) (c : ℕ) → length xs ≤ 256 → length (pushed xs c) ≤ 256
pushed-le xs c h =
    ground
      (arith, length-rest xs, length-append {0} (rest xs) (c ∷ []), length-append {0} xs (c ∷ []))

newest-pushed :
    (xs cs : List ℕ) (c : ℕ) → length xs ≤ 256 → newest (pushed xs c ++ cs) ≡ newest (xs ++ c ∷ cs)
newest-pushed xs cs c h = elim (Bool-cases (leb max_fifo_size (length xs))) [
  | inl full ↦
      rw (full, append_assoc)
        (newest-rest xs (c ∷ cs) (omega tests) (omega (tests, length-append {0} xs (c ∷ cs))))
  | inr free ↦ rw (free, append_assoc)
]

receive_all-from :
    (u : Uart) (xs cs : List ℕ)
    → u.rx_fifo ≡ xs
    → length xs ≤ 256
    → (receive_all u cs).rx_fifo ≡ newest (xs ++ cs)
unfolding receive_char
receive_all-from u xs [] e h =
    rw (append-nil, e) (sym (drop-append_few (length xs - 256) xs (omega arith)))
receive_all-from u xs (c ∷ cs) e h =
    receive_all-from (receive_char u c) (pushed xs c) cs (rw e) (pushed-le xs c h)
    ∙ newest-pushed xs cs c h

-- Bytes from the host are queued in order, and of more than 256 the newest 256 are kept.
receive_all-newest :
    (u : Uart) (cs : List ℕ)
    → length u.rx_fifo ≤ 256
    → (receive_all u cs).rx_fifo ≡ newest (u.rx_fifo ++ cs)
receive_all-newest u cs h = receive_all-from u u.rx_fifo cs refl h

-- `n` reads of the receive register.
abbrev pub read_all : ℕ → Uart → List ℕ × Uart
read_all zero u = ([], u)
read_all (suc n) u = let (c, u') = read_rbr u in let (cs, u'') = read_all n u' in (c ∷ cs, u'')

read_rbr-front :
    (u : Uart)
    → is_dlab_set u ≡ false
    → ((read_rbr u).0 ≡ front u.rx_fifo)
      × ((read_rbr u).1.rx_fifo ≡ rest u.rx_fifo)
      × ((read_rbr u).1.lcr ≡ u.lcr)
unfolding read_rbr
read_rbr-front u d = ground arith

-- With the divisor latch closed, reading as often as there are bytes gives them in order and leaves
-- the queue empty.
read_all-drains :
    (xs : List ℕ) (u : Uart)
    → u.rx_fifo ≡ xs
    → is_dlab_set u ≡ false
    → ((read_all (length xs) u).0 ≡ xs) × ((read_all (length xs) u).1.rx_fifo ≡ [])
read_all-drains [] u e d = (refl, e)
read_all-drains (x ∷ xs) u e d =
    let (byte, queue, latch) = read_rbr-front u d in
    let (bytes, empty) = read_all-drains xs (read_rbr u).1 (queue ∙ ap rest e) (rw latch d) in
    (ap₂ ◌∷◌ (byte ∙ ap front e) bytes, empty)
