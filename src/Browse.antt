-- ===== src/Browse.antt =====
-- The user program of lfy_dd_series/18-25-Filesystem/4_aug12/RealFS/browse_sfs.c: a shell on a
-- partition with the Simula File System, with its file table, file contents and commands.
pub mod Handle
pub mod Table
pub mod Contents
pub mod Shell
pub mod Main
pub mod Fresh
pub mod Small
mod Examples
