-- ===== src/Sfs/OnBlockDevice.antt =====
-- The module as it was in lfy_dd_series/18-25-Filesystem/6_oct12/RealSFSOnBlockDevice: real_sfs_ops.c
-- reads, and takes up a mount, and counts the blocks of the device as those of the file system.
pub mod Same
use linuxpedia.Prelude.{
  ℕ, zero, suc, ◌+◌, ◌/◌, ◌%◌, Bool, true, false, Option, none, some, List, [], not, ◌==◌, ltb, leb,
  slice, if◌then◌else◌,
}
use linuxpedia.Prelude.Int.{ℤ, pos, neg_eio, neg_einval, neg_enomem}
use linuxpedia.Sfs.Layout.{FileEntry, u32_mod, simula_fs_type, name_first, decode_entry}
use linuxpedia.Sfs.Device.{BufferCache}
use linuxpedia.Sfs.BlockIo.{Fs, Transfer, failed, copied, read_sb_from_real_sfs, entry_offset}
use linuxpedia.Sfs.Mount.{mark_blocks, initial_map}

module _ {D : Type 0} ⦃cache : BufferCache D⦄ where
  -- A block size of 0 would trap.
  unfoldable pub read_from_real_sfs : Fs D → ℕ → ℕ → ℕ → Transfer (List ℕ)
  read_from_real_sfs fs block offset len =
      let block_size = fs.sb.block_size in
      let past = leb block_size offset in
      let block' = if past then (block + offset / block_size) % u32_mod else block in
      let offset' = if past then offset % block_size else offset in
      if ltb block_size ((offset' + len) % u32_mod)
      then failed neg_einval
      else elim (cache.sb_bread fs.dev block') [
        | none ↦ failed neg_eio
        | some bytes ↦ copied (slice bytes offset' len)
      ]

  unfoldable pub read_entry : Fs D → ℕ → Transfer FileEntry
  unfolding read_from_real_sfs
  read_entry fs ino =
      elim (read_from_real_sfs fs fs.sb.entry_table_block_start (entry_offset ino) 64) [
        | failed e ↦ failed e
        | copied bytes ↦ copied (decode_entry bytes)
      ]

  unfoldable pub mark_loop : Fs D → (left ino : ℕ) → List ℕ → Transfer (List ℕ)
  mark_loop fs zero ino used = copied used
  mark_loop fs (suc k) ino used = elim (read_entry fs ino) [
    | failed e ↦ failed neg_enomem
    | copied fe ↦
        mark_loop fs k (suc ino) (if name_first fe == 0 then used else mark_blocks fe.blocks used)
  ]

  unfoldable pub init_browsing : D → (vmalloc : Bool) → ℤ × Option (Fs D)
  unfolding mark_loop
  init_browsing d vmalloc = elim (read_sb_from_real_sfs d) [
    | failed e ↦ (neg_eio, none)
    | copied sb ↦
        if not (sb.type == simula_fs_type)
        then (neg_einval, none)
        else if not vmalloc
        then (neg_enomem, none)
        else let fs : Fs D = record { sb = sb; used_blocks = []; dev = d } in
          elim (mark_loop fs sb.entry_count 0 (initial_map sb)) [
            | failed e ↦ (e, none)
            | copied used ↦ (pos 0, some (record fs { used_blocks = used }))
          ]
  ]
