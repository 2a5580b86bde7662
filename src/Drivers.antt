-- ===== src/Drivers.antt =====
-- Small device drivers: what their init functions request from the kernel and give back.
pub mod Resources
pub mod Ofcd
pub mod Query
pub mod Vram
pub mod Procex
pub mod Port
pub mod Entry
pub mod Unwind
mod Examples
