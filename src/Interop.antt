-- ===== src/Interop.antt =====
-- The programs on one partition: what browse_sfs.c has stored, the kernel module of
-- 7_nov12/RealFSInAction finds.
pub mod Bytes
pub mod Files
pub mod Mount
mod Examples
pub mod Lifetime
