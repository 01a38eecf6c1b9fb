-- ===== src/Rv64.antt =====
-- The 64-bit hart (src/cpu/rv64).
pub mod Op
pub mod Decode
pub mod Compressed
pub mod Csr
pub mod Mmu
pub mod Cpu
pub mod Trap
pub mod Execute
