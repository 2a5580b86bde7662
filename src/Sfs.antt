-- ===== src/Sfs.antt =====
-- The Simula File System kernel module (real_sfs), under lfy_dd_series/18-25-Filesystem.
pub mod Layout
pub mod Device
pub mod BlockIo
pub mod Blocks
pub mod Entries
pub mod Directory
pub mod Inode
pub mod Mount
pub mod Ownership
pub mod Consistent
pub mod Super
pub mod OnBlockDevice
pub mod Format
pub mod Small
mod Examples
mod TwoBlocks
