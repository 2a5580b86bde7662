-- ===== src/Sfs/BlockIo.antt =====
-- Reads and writes of real_sfs_ops.c through the buffer cache: read_sb_from_real_sfs,
-- read_from_real_sfs, write_to_real_sfs, and their calls for one file entry.
pub mod Laws
pub mod Table
use linuxpedia.Prelude.{
  ℕ, ◌+◌, ◌*◌, ◌/◌, ◌%◌, ◌≡◌, Bool, Option, none, some, List, ltb, if◌then◌else◌, length, take,
  slice, splice,
}
use linuxpedia.Prelude.Int.{ℤ, pos, neg_eio, neg_einval}
use linuxpedia.Sfs.Layout.{
  SuperBlock, FileEntry, u32_mod, simula_fs_block_size, encode_entry, decode_entry, decode_super,
}
use linuxpedia.Sfs.Device.{BufferCache}

-- `sfs_info_t` together with the device below `vfs_sb`.
pub record Fs (D : Type 0) : Type 0 where
  pub sb : SuperBlock
  pub used_blocks : List ℕ
  pub dev : D

-- What a read returns: a negative code with the buffer untouched, or 0 with the bytes copied to it.
pub data Transfer (A : Type 0) : Type 0 where
  failed : ℤ → Transfer A
  copied : A → Transfer A

-- `abs`, which wraps at 32 bits
abbrev pub abs_pos : SuperBlock → ℕ → ℕ → ℕ
abs_pos sb block offset = (block * sb.block_size + offset) % u32_mod

-- `ino * sizeof(sfs_file_entry_t)`, as the `byte4_t` argument that it becomes
abbrev pub entry_offset : ℕ → ℕ
entry_offset ino = (ino * 64) % u32_mod

module _ {D : Type 0} ⦃cache : BufferCache D⦄ where
  unfoldable pub read_sb_from_real_sfs : D → Transfer SuperBlock
  read_sb_from_real_sfs d = elim (cache.sb_bread d 0) [
    | none ↦ failed neg_eio
    | some bytes ↦ copied (decode_super (take simula_fs_block_size bytes))
  ]

  unfoldable pub read_from_real_sfs : Fs D → ℕ → ℕ → ℕ → Transfer (List ℕ)
  read_from_real_sfs fs block offset len =
      let abs = abs_pos fs.sb block offset in
      let block' = abs / cache.bd_block_size in
      let offset' = abs % cache.bd_block_size in
      if ltb cache.bd_block_size ((offset' + len) % u32_mod)
      then failed neg_einval
      else elim (cache.sb_bread fs.dev block') [
        | none ↦ failed neg_eio
        | some bytes ↦ copied (slice bytes offset' len)
      ]

  unfoldable pub write_to_real_sfs : Fs D → ℕ → ℕ → List ℕ → ℤ × Fs D
  write_to_real_sfs fs block offset buf =
      let abs = abs_pos fs.sb block offset in
      let block' = abs / cache.bd_block_size in
      let offset' = abs % cache.bd_block_size in
      if ltb cache.bd_block_size ((offset' + length buf) % u32_mod)
      then (neg_einval, fs)
      else elim (cache.sb_bread fs.dev block') [
        | none ↦ (neg_eio, fs)
        | some bytes ↦ (
          pos 0,
          record fs { dev = cache.mark_buffer_dirty fs.dev block' (splice bytes offset' buf) },
        )
      ]

  -- The call of read_from_real_sfs for entry `ino` of the table.
  unfoldable pub read_entry : Fs D → ℕ → Transfer FileEntry
  unfolding read_from_real_sfs
  read_entry fs ino =
      elim (read_from_real_sfs fs fs.sb.entry_table_block_start (entry_offset ino) 64) [
        | failed e ↦ failed e
        | copied bytes ↦ copied (decode_entry bytes)
      ]

  -- The call of write_to_real_sfs for entry `ino` of the table.
  unfoldable pub write_entry : Fs D → ℕ → FileEntry → ℤ × Fs D
  unfolding write_to_real_sfs
  write_entry fs ino fe =
      write_to_real_sfs fs fs.sb.entry_table_block_start (entry_offset ino) (encode_entry fe)
