-- ===== src/Devices/Uart.antt =====
-- The serial port, a 16550 (src/devices/uart.rs).
pub mod Fifo
pub mod Lines
use otorisc_v.Base.{
  ℕ, ◌+◌, ◌*◌, ◌/◌, ◌%◌, ◌^◌, Bool, true, false, ◌&&◌, ◌||◌, not, ◌==◌, ◌!=◌, leb, bit_and, bit_or,
  if◌then◌else◌, not8, u8, List, [], ◌∷◌, ◌++◌, length, drop,
}

pub record Uart : Type 0 where
  pub rx_fifo : List ℕ  -- oldest first
  pub tx_buffer : List ℕ
  pub ier : ℕ
  pub lcr : ℕ
  pub mcr : ℕ
  pub scr : ℕ
  pub fifo_enabled : Bool
  pub divisor : ℕ  -- u16
  pub interrupt_flags : ℕ
  pub interrupt_line : ℕ

unfoldable pub new : ℕ → Uart
new interrupt_line = record {
  rx_fifo = [];
  tx_buffer = [];
  ier = 0;
  lcr = 0;
  mcr = 0;
  scr = 0;
  fifo_enabled = false;
  divisor = 0;
  interrupt_flags = 0;
  interrupt_line = interrupt_line;
}

-- `IIR_RX_AVAILABLE` and `IIR_TX_EMPTY`, also the bits of `interrupt_flags`; `IER_RX_AVAILABLE` and
-- `IER_TX_EMPTY`.
abbrev pub rx_flag : ℕ
rx_flag = 0x04

abbrev pub tx_flag : ℕ
tx_flag = 0x02

abbrev pub rx_enable : ℕ
rx_enable = 0x01

abbrev pub tx_enable : ℕ
tx_enable = 0x02

abbrev pub max_fifo_size : ℕ
max_fifo_size = 256

abbrev pub is_empty : List ℕ → Bool
is_empty [] = true
is_empty (x ∷ xs) = false

-- `pop_front`: the byte, 0 if there is none, and the rest.
abbrev pub front : List ℕ → ℕ
front [] = 0
front (x ∷ xs) = x

abbrev pub rest : List ℕ → List ℕ
rest [] = []
rest (x ∷ xs) = xs

unfoldable pub receive_char : Uart → ℕ → Uart
receive_char u c =
    let kept = if leb max_fifo_size (length u.rx_fifo) then rest u.rx_fifo else u.rx_fifo in
    record u { rx_fifo = kept ++ c ∷ []; interrupt_flags = bit_or u.interrupt_flags rx_flag }

unfoldable pub get_output : Uart → List ℕ × Uart
get_output u = (u.tx_buffer, record u { tx_buffer = [] })

abbrev pub rx_pending : Uart → Bool
rx_pending u = (bit_and u.interrupt_flags rx_flag != 0) && (bit_and u.ier rx_enable != 0)

abbrev pub tx_pending : Uart → Bool
tx_pending u = (bit_and u.interrupt_flags tx_flag != 0) && (bit_and u.ier tx_enable != 0)

unfoldable pub has_interrupt : Uart → Bool
has_interrupt u = if rx_pending u then true else if tx_pending u then true else false

unfoldable pub get_lsr : Uart → ℕ
get_lsr u = let lsr = bit_or 0x20 0x40 in if not (is_empty u.rx_fifo) then bit_or lsr 0x01 else lsr

unfoldable pub get_iir : Uart → ℕ × Uart
get_iir u =
    let fifo_bits = if u.fifo_enabled then 0xC0 else 0 in
    if rx_pending u
    then (bit_or fifo_bits rx_flag, u)
    else if tx_pending u
    then (
      bit_or fifo_bits tx_flag,
      record u { interrupt_flags = bit_and u.interrupt_flags (not8 tx_flag) },
    )
    else (bit_or fifo_bits 0x01, u)

abbrev pub is_dlab_set : Uart → Bool
is_dlab_set u = bit_and u.lcr 0x80 != 0

-- `read_rbr`, and the `UART_RBR` arm of `read8`.
unfoldable pub read_rbr : Uart → ℕ × Uart
read_rbr u = if is_dlab_set u then (u8 u.divisor, u) else (
  front u.rx_fifo,
  record u {
    rx_fifo = rest u.rx_fifo;
    interrupt_flags =
        if is_empty (rest u.rx_fifo)
        then bit_and u.interrupt_flags (not8 rx_flag)
        else u.interrupt_flags;
  },
)

unfoldable pub read8 : Uart → ℕ → ℕ × Uart
unfolding read_rbr get_iir
read8 u offset =
    if offset == 0
    then read_rbr u
    else if offset == 1
    then (if is_dlab_set u then u8 (u.divisor / 2 ^ 8) else u.ier, u)
    else if offset == 2
    then get_iir u
    else if offset == 3
    then (u.lcr, u)
    else if offset == 4
    then (u.mcr, u)
    else if offset == 5
    then (get_lsr u, u)
    else if offset == 6
    then (0, u)
    else if offset == 7
    then (u.scr, u)
    else (0, u)

unfoldable pub write_thr : Uart → ℕ → Uart
write_thr u value =
    if is_dlab_set u
    then record u { divisor = bit_or (bit_and u.divisor 0xFF00) value }
    else record u {
      tx_buffer = u.tx_buffer ++ value ∷ [];
      interrupt_flags = bit_or u.interrupt_flags tx_flag;
    }

unfoldable pub write_ier : Uart → ℕ → Uart
write_ier u value =
    if is_dlab_set u
    then record u { divisor = bit_or (bit_and u.divisor 0x00FF) (value * 2 ^ 8) }
    else record u {
      ier = bit_and value 0x0F;
      interrupt_flags = bit_and u.interrupt_flags (not8 tx_flag);
    }

abbrev pub clear_rx : Bool → Uart → Uart
clear_rx true u = record u {
  rx_fifo = [];
  interrupt_flags = bit_and u.interrupt_flags (not8 rx_flag);
}
clear_rx false u = u

abbrev pub clear_tx : Bool → Uart → Uart
clear_tx true u = record u {
  tx_buffer = [];
  interrupt_flags = bit_and u.interrupt_flags (not8 tx_flag);
}
clear_tx false u = u

unfoldable pub write_fcr : Uart → ℕ → Uart
write_fcr u value =
    clear_tx (bit_and value 0x04 != 0)
      (clear_rx (bit_and value 0x02 != 0) (record u { fifo_enabled = bit_and value 0x01 != 0 }))

unfoldable pub write8 : Uart → ℕ → ℕ → Uart
unfolding write_thr write_ier write_fcr
write8 u offset value =
    if offset == 0
    then write_thr u value
    else if offset == 1
    then write_ier u value
    else if offset == 2
    then write_fcr u value
    else if offset == 3
    then record u { lcr = value }
    else if offset == 4
    then record u { mcr = value }
    else if offset == 7
    then record u { scr = value }
    else u

unfoldable pub reset : Uart → Uart
reset u = record {
  rx_fifo = [];
  tx_buffer = [];
  ier = 0;
  lcr = 0;
  mcr = 0;
  scr = 0;
  fifo_enabled = false;
  divisor = 0;
  interrupt_flags = 0;
  interrupt_line = u.interrupt_line;
}

unfoldable pub read32 : Uart → ℕ → ℕ × Uart
unfolding read8
read32 u offset = read8 u offset

unfoldable pub write32 : Uart → ℕ → ℕ → Uart
unfolding write8
write32 u offset value = write8 u offset (u8 value)
