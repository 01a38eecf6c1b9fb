-- ===== src/Examples.antt =====
-- The theorems at concrete inputs.
mod Floats
mod Hart
mod Traps
mod Memory
mod Instructions
mod Peripherals
mod Interrupts
mod Machine
mod Rv64
