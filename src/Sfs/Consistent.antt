-- ===== src/Sfs/Consistent.antt =====
-- A mounted file system in order: the device holds the entries, no two files have one name, and
-- the tracker of used blocks is sound for them.
pub mod Files
pub mod Blocks
pub mod Update
pub mod Reach
pub mod Data
use linuxpedia.Prelude.{ℕ, List}
use linuxpedia.Sfs.Layout.{FileEntry}
use linuxpedia.Sfs.Device.{BufferCache}
use linuxpedia.Sfs.BlockIo.{Fs}
use linuxpedia.Sfs.BlockIo.Table.{Holds}
use linuxpedia.Sfs.Directory.{Distinct}
use linuxpedia.Sfs.Ownership.{IsSound}

pub record IsConsistent {D : Type 0} ⦃cache : BufferCache D⦄ (fs : Fs D) (es : List FileEntry)
    : Type 0 where
  pub holds : Holds fs es
  pub distinct : Distinct es
  pub sound : IsSound fs.sb fs.used_blocks es
