-- ===== src/Simula.antt =====
-- lfy_dd_series/18-25-Filesystem/3_july12/SimulaFS/browse_sfs.c, version 2.0 of the program whose
-- version 3.0 is 4_aug12/RealFS/browse_sfs.c: the three operations that differ. The others have the
-- text of version 3.0. The file system is on a block device, which the program takes as its argument.
pub mod Versions
pub mod First
pub mod Shell
mod Examples
use linuxpedia.Prelude.{ℕ, ◌+◌, Option, none, some, List}
use linuxpedia.Sfs.Layout.{FileEntry, zero_entry}
use linuxpedia.Browse.Handle.{Browser}
use linuxpedia.Browse.Table.{Reply, silent, printed, doesnt_exist, sfs_lookup, store_entry}
use linuxpedia.Browse.Contents.{
  Input, input_size, Writing, read_blocks, write_loop_from, finish_write,
}

-- It gives no blocks back.
unfoldable pub sfs_remove : Browser → List ℕ → Reply × Browser
sfs_remove b fn =
    let (found, fe, b') = sfs_lookup b fn in
    elim found [ none ↦ (doesnt_exist, b') | some i ↦ (silent, store_entry b' i zero_entry) ]

-- It asks for no permission.
unfoldable pub sfs_read : Browser → List ℕ → Reply × Browser
sfs_read b fn =
    let (found, fe, b') = sfs_lookup b fn in
    elim found [
      | none ↦ (doesnt_exist, b')
      | some i ↦ let (bytes, b'') = read_blocks fe.blocks fe.size b' in (printed bytes, b'')
    ]

-- The variables of sfs_write before its loop.
abbrev pub start_writing : Browser → FileEntry → Writing
start_writing b fe = record {
  browser = b;
  blocks = fe.blocks;
  cur_read_i = 0;
  to_read = b.sb.block_size;
  total_size = 0;
  block_i = 0;
}

-- It asks for no permission and gives no blocks back.
unfoldable pub sfs_write : Browser → List ℕ → Input → (now : ℕ) → Option (Reply × Browser)
sfs_write b fn input now =
    let (found, fe, b') = sfs_lookup b fn in
    elim found [
      | none ↦ some (doesnt_exist, b')
      | some i ↦ elim (write_loop_from (input_size input + 1) input (start_writing b' fe)) [
        | none ↦ none
        | some result ↦ some (silent, finish_write i fe now result)
      ]
    ]
