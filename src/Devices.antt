-- ===== src/Devices.antt =====
-- The devices of the 32-bit machine (src/devices/).
pub mod Clint
pub mod Uart
pub mod Plic
pub mod Virtio
pub mod Virtio9p
