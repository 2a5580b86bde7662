-- ===== src/Sfs/Format.antt =====
-- format_real_sfs.c: the super block that mkfs computes, and the blocks that it writes.
pub mod Laws
use linuxpedia.Prelude.{
  ℕ, zero, suc, ◌+◌, ◌*◌, ◌/◌, ◌%◌, List, [], ◌∷◌, ◌++◌, replicate, ◌-◌, min, length, splice,
  Option, none, some, Bool, not, ◌==◌, if◌then◌else◌,
}
use linuxpedia.Sfs.Layout.{
  SuperBlock, FileEntry, u32_mod, simula_fs_type, simula_fs_block_size, simula_fs_entry_size,
  zero_entry, encode_super, encode_entry,
}

-- SFS_ENTRY_TABLE_BLOCK_START
abbrev pub sfs_entry_table_block_start : ℕ
sfs_entry_table_block_start = 1

-- `partition_size * 0.10`, cut to an integer: for a 32-bit factor the nearest double to 0.10 is
-- too close to a tenth for the product to be cut to anything but the quotient by 10.
abbrev pub entry_table_blocks : ℕ → ℕ
entry_table_blocks partition_size = partition_size / 10

-- The super block for a device of `size` bytes, in `byte4_t` arithmetic.
unfoldable pub format_super : ℕ → SuperBlock
format_super size =
    let partition_size = size / simula_fs_block_size % u32_mod in
    let entry_table_size = entry_table_blocks partition_size in
    record {
      type = simula_fs_type;
      block_size = simula_fs_block_size;
      partition_size = partition_size;
      entry_size = simula_fs_entry_size;
      entry_table_size = entry_table_size;
      entry_table_block_start = sfs_entry_table_block_start;
      entry_count = entry_table_size * simula_fs_block_size % u32_mod / simula_fs_entry_size;
      data_block_start = (sfs_entry_table_block_start + entry_table_size) % u32_mod;
    }

-- The loop of clear_file_entries that fills one block with zero entries.
unfoldable pub entries_block : ℕ → List ℕ
entries_block zero = []
entries_block (suc n) = encode_entry zero_entry ++ entries_block n

-- What main writes from the start of the device on, block by block.
unfoldable pub format_image : ℕ → List (List ℕ)
unfolding format_super entries_block
format_image size =
    let sb = format_super size in
    encode_super sb ∷ replicate sb.entry_table_size (entries_block (sb.block_size / sb.entry_size))

-- The writes of a block after the other, from `at` on; the device takes nothing past its end.
abbrev pub write_blocks : (at : ℕ) → List (List ℕ) → (device : List ℕ) → List ℕ
write_blocks at [] device = device
write_blocks at (block ∷ blocks) device =
    write_blocks (at + min (length block) (length device - at)) blocks (splice device at block)

-- main: the exit code and the device. `opened` is the device that open gives, `sized` says whether
-- the ioctl that gives its size succeeds.
unfoldable pub format_main :
    (argc : ℕ) → (opened : Option (List ℕ)) → (sized : Bool) → ℕ × Option (List ℕ)
unfolding format_image
format_main argc opened sized = if not (argc == 2) then (1, opened) else elim opened [
  | none ↦ (2, none)
  | some device ↦
      if not sized
      then (3, some device)
      else (0, some (write_blocks 0 (format_image (length device)) device))
]
