-- ===== src/Browse/Handle.antt =====
-- The open partition of browse_sfs.c with the program's globals, and what `lseek`, `read` and
-- `write` do to a block device: a position past its end is refused, and reads and writes stop
-- there.
use linuxpedia.Prelude.{
  ℕ, ◌+◌, ◌-◌, ◌*◌, ◌%◌, ◌^◌, Bool, ◌||◌, List, length, min, slice, splice, overwrite, ltb,
  if◌then◌else◌,
}
use linuxpedia.Sfs.Layout.{SuperBlock, FileEntry, u32_mod, encode_entry, decode_entry}

-- `wide` says whether `off_t` has 64 bits, else it has 32. `bytes` are the partition's, `pos` is
-- the file position; `sb`, `used_blocks` and `block` are the globals.
pub record Browser : Type 0 where
  pub wide : Bool
  pub bytes : List ℕ
  pub pos : ℕ
  pub sb : SuperBlock
  pub used_blocks : List ℕ
  pub block : List ℕ

abbrev pub seek_to : Browser → ℕ → Browser
seek_to b target = if ltb (length b.bytes) target then b else record b { pos = target }

-- lseek(sfs_handle, offset, SEEK_SET) for an unsigned 32-bit offset
unfoldable pub lseek_set : Browser → ℕ → Browser
lseek_set b offset = if b.wide || ltb offset (2 ^ 31) then seek_to b offset else b

-- lseek(sfs_handle, offset, SEEK_CUR): a 32-bit `off_t` takes an offset of 2 ^ 31 or more for a
-- negative number, a 64-bit one does not.
unfoldable pub lseek_cur : Browser → ℕ → Browser
lseek_cur b offset =
    if b.wide || ltb offset (2 ^ 31)
    then seek_to b (b.pos + offset)
    else if ltb (b.pos + offset) u32_mod
    then b
    else seek_to b (b.pos + offset - u32_mod)

-- read(sfs_handle, …, n): the bytes
unfoldable pub read_bytes : Browser → ℕ → List ℕ × Browser
read_bytes b n =
    let bytes = slice b.bytes b.pos n in (bytes, record b { pos = b.pos + length bytes })

unfoldable pub write_bytes : Browser → List ℕ → Browser
write_bytes b new = record b {
  bytes = splice b.bytes b.pos new;
  pos = b.pos + min (length new) (length b.bytes - b.pos);
}

-- read(sfs_handle, fe, sizeof(sfs_file_entry_t)): bytes that are not read stay as they were.
unfoldable pub read_entry_here : Browser → FileEntry → FileEntry × Browser
unfolding read_bytes
read_entry_here b fe =
    let (bytes, b') = read_bytes b 64 in (decode_entry (overwrite (encode_entry fe) bytes), b')

-- The offset of the entry table, and of entry `i`, in unsigned 32-bit arithmetic.
abbrev pub table_offset : SuperBlock → ℕ
table_offset sb = sb.entry_table_block_start * sb.block_size % u32_mod

abbrev pub entry_offset_of : SuperBlock → ℕ → ℕ
entry_offset_of sb i = (sb.entry_table_block_start * sb.block_size + i * sb.entry_size) % u32_mod

abbrev pub block_offset : SuperBlock → ℕ → ℕ
block_offset sb k = k * sb.block_size % u32_mod
