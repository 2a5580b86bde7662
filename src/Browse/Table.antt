-- ===== src/Browse/Table.antt =====
-- The operations of browse_sfs.c on the file table. What the program prints is the reply.
pub mod Scan
pub mod Init
pub mod Change
pub mod Create
use linuxpedia.Prelude.{
  ℕ, zero, suc, ◌+◌, ◌-◌, ◌*◌, ◌/◌, ◌%◌, Bool, true, false, ◌&&◌, Option, none, some, List, [], ◌∷◌,
  ◌++◌, set, replicate, ◌==◌, if◌then◌else◌,
}
use linuxpedia.Prelude.Int.{ℤ, pos, minus_one}
use linuxpedia.Prelude.CString.{c_str, str_eq}
use linuxpedia.Sfs.Layout.{FileEntry, u32_mod, zero_entry, name_first, encode_entry}
use linuxpedia.Sfs.Entries.{new_entry, set_fields}
use linuxpedia.Sfs.Blocks.{scan_free}
use linuxpedia.Browse.Handle.{
  Browser, lseek_set, lseek_cur, write_bytes, read_entry_here, table_offset, entry_offset_of,
}

-- One line of a listing: name, size, the letters of the permissions, and the time.
pub record Line : Type 0 where
  pub name : List ℕ
  pub size : ℕ
  pub readable : Bool
  pub writable : Bool
  pub executable : Bool
  pub timestamp : ℕ

pub data Reply : Type 0 where
  silent : Reply
  listed : List Line → Reply
  printed : List ℕ → Reply
  already_exists no_entries_left doesnt_exist not_readable not_writable : Reply

-- `fe.perms & 04`, `& 02` and `& 01`
abbrev pub may_read : FileEntry → Bool
may_read fe = fe.perms / 4 % 2 == 1

abbrev pub may_write : FileEntry → Bool
may_write fe = fe.perms / 2 % 2 == 1

abbrev pub may_execute : FileEntry → Bool
may_execute fe = fe.perms % 2 == 1

-- A number outside of the tracker, where the program writes out of bounds, changes nothing here and
-- in put_data_block.
pub mark_used : List ℕ → List ℕ → List ℕ
mark_used [] used = used
mark_used (k ∷ ks) used = let rest = mark_used ks (set used k 1) in if k == 0 then used else rest

pub mark_table : (left : ℕ) → FileEntry → Browser → Browser
mark_table zero fe b = b
mark_table (suc n) fe b =
    let (fe', b') = read_entry_here b fe in
    mark_table n fe' (
      if name_first fe' == 0
      then b'
      else record b' { used_blocks = mark_used fe'.blocks b'.used_blocks })

-- `none` is an allocation that fails: the program exits.
unfoldable pub init_browsing : (calloc : Bool) → Browser → Option Browser
unfolding mark_table mark_used
init_browsing calloc b =
    if calloc
    then some (
        mark_table b.sb.entry_count zero_entry (
          lseek_set
            (record b {
              used_blocks =
                  replicate b.sb.data_block_start 1
                  ++ replicate (b.sb.partition_size - b.sb.data_block_start) 0;
            })
            (table_offset b.sb)))
    else none

unfoldable pub get_data_block : Browser → ℤ × Browser
unfolding scan_free
get_data_block b =
    elim (scan_free (b.sb.partition_size - b.sb.data_block_start) b.sb.data_block_start
      b.used_blocks) [
        | none ↦ (minus_one, b)
        | some k ↦ (pos k, record b { used_blocks = set b.used_blocks k 1 })
      ]

unfoldable pub put_data_block : Browser → ℕ → Browser
put_data_block b k = record b { used_blocks = set b.used_blocks k 0 }

-- The loop of sfs_remove and of sfs_write that gives blocks back, up to the first 0.
pub put_blocks : List ℕ → Browser → Browser
put_blocks [] b = b
put_blocks (k ∷ ks) b = let rest = put_blocks ks (put_data_block b k) in if k == 0 then b else rest

abbrev pub line_of : FileEntry → Line
line_of fe = record {
  name = c_str fe.name;
  size = fe.size;
  readable = may_read fe;
  writable = may_write fe;
  executable = may_execute fe;
  timestamp = fe.timestamp;
}

unfoldable pub list_lines : (left : ℕ) → FileEntry → Browser → List Line × Browser
list_lines zero fe b = ([], b)
list_lines (suc n) fe b =
    let (fe', b') = read_entry_here b fe in
    let (rest, b'') = list_lines n fe' b' in
    (if name_first fe' == 0 then rest else line_of fe' ∷ rest, b'')

unfoldable pub sfs_list : Browser → Reply × Browser
unfolding list_lines
sfs_list b =
    let (lines, b') = list_lines b.sb.entry_count zero_entry (lseek_set b (table_offset b.sb)) in
    (listed lines, b')

-- The loop of sfs_create: `none` if the name is taken, else the final `i`.
unfoldable pub create_scan : List ℕ → (left i : ℕ) → FileEntry → Browser → Option ℕ × Browser
create_scan fn zero i fe b = (some i, b)
create_scan fn (suc n) i fe b =
    let (fe', b') = read_entry_here b fe in
    let rest = create_scan fn n (suc i) fe' b' in
    if name_first fe' == 0 then (some i, b') else if str_eq fe'.name fn then (none, b') else rest

-- The part of sfs_create after its loop has ended at `i`.
unfoldable pub create_here : List ℕ → (now i : ℕ) → Browser → Reply × Browser
create_here fn now i b = if i == b.sb.entry_count then (no_entries_left, b) else (
  silent,
  write_bytes (lseek_cur b ((u32_mod - b.sb.entry_size) % u32_mod))
      (encode_entry (new_entry fn 7 now)),
)

-- `now` is what time(NULL) returns.
unfoldable pub sfs_create : Browser → List ℕ → ℕ → Reply × Browser
unfolding create_scan create_here
sfs_create b fn now =
    let (ended, b') =
      create_scan fn b.sb.entry_count 0 zero_entry (lseek_set b (table_offset b.sb)) in
    elim ended [ none ↦ (already_exists, b') | some i ↦ create_here fn now i b' ]

unfoldable pub lookup_scan :
    List ℕ → (left i : ℕ) → FileEntry → Browser → Option ℕ × FileEntry × Browser
lookup_scan fn zero i fe b = (none, fe, b)
lookup_scan fn (suc n) i fe b =
    let (fe', b') = read_entry_here b fe in
    let rest = lookup_scan fn n (suc i) fe' b' in
    if name_first fe' == 0 then rest else if str_eq fe'.name fn then (some i, fe', b') else rest

-- `none` is -1. The entry that `fe` points to is left in the second place.
unfoldable pub sfs_lookup : Browser → List ℕ → Option ℕ × FileEntry × Browser
unfolding lookup_scan
sfs_lookup b fn = lookup_scan fn b.sb.entry_count 0 zero_entry (lseek_set b (table_offset b.sb))

-- The two last calls of sfs_remove, sfs_update and sfs_write.
unfoldable pub store_entry : Browser → ℕ → FileEntry → Browser
store_entry b i fe = write_bytes (lseek_set b (entry_offset_of b.sb i)) (encode_entry fe)

unfoldable pub sfs_remove : Browser → List ℕ → Reply × Browser
unfolding store_entry put_blocks
sfs_remove b fn =
    let (found, fe, b') = sfs_lookup b fn in
    elim found [
      | none ↦ (doesnt_exist, b')
      | some i ↦ (silent, store_entry (put_blocks fe.blocks b') i zero_entry)
    ]

unfoldable pub sfs_update :
    Browser
    → List ℕ
    → (size : Option ℤ) → (update_ts : Bool) → (perms : Option ℤ) → (now : ℕ) → Reply × Browser
unfolding store_entry
sfs_update b fn size update_ts perms now =
    let (found, fe, b') = sfs_lookup b fn in
    elim found [
      | none ↦ (doesnt_exist, b')
      | some i ↦
          let timestamp = if update_ts then some (pos now) else none in
          (silent, store_entry b' i (set_fields size timestamp perms fe))
    ]

unfoldable pub sfs_chperm : Browser → List ℕ → ℤ → Reply × Browser
sfs_chperm b fn perm = sfs_update b fn none false (some perm) 0
