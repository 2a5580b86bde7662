-- ===== src/Browse/Small.antt =====
-- A small partition with one file, for the examples.
use linuxpedia.Prelude.{
  ℕ, true, List, [], ◌∷◌, ◌++◌, replicate, length-replicate, zero, suc, ◌<◌, ◌≡◌, refl, length,
  get_or, slice, arith,
}
use linuxpedia.Sfs.Layout.{SuperBlock, FileEntry, simula_fs_type, zero_entry, encode_entry, IsEntry}
use linuxpedia.Prelude.CString.{c_str}
use linuxpedia.Browse.Contents.{Input}
use linuxpedia.Browse.Shell.Parse.{IsName}
use linuxpedia.Browse.Handle.{Browser}
use linuxpedia.Sfs.Entries.Refine.{zero_entry-IsEntry}
use linuxpedia.Browse.Table.Scan.{IsLaidOut, HasEntries, slot}

abbrev pub small_sb : SuperBlock
small_sb = record {
  type = simula_fs_type;
  block_size = 512;
  partition_size = 4;
  entry_size = 64;
  entry_table_size = 1;
  entry_table_block_start = 1;
  entry_count = 2;
  data_block_start = 2;
}

-- "hi"
abbrev pub hi : List ℕ
hi = b'h' ∷ b'i' ∷ []

-- A file of that name with a block.
abbrev pub hi_entry : FileEntry
hi_entry = record {
  name = hi ++ replicate 14 0;
  size = 5;
  timestamp = 7;
  perms = 7;
  blocks = 3 ∷ replicate 8 0;
}

abbrev pub two_entries : List FileEntry
two_entries = zero_entry ∷ hi_entry ∷ []

abbrev pub partition : List ℕ
partition = replicate 512 0 ++ encode_entry zero_entry ++ encode_entry hi_entry ++ replicate 1408 0

-- A program on a machine with a 64-bit `off_t`.
abbrev pub wide_browser : Browser
wide_browser = record {
  wide = true;
  bytes = partition;
  pos = 0;
  sb = small_sb;
  used_blocks = 1 ∷ 1 ∷ 0 ∷ 1 ∷ [];
  block = replicate 512 0;
}

pub hi_entry-IsEntry : IsEntry hi_entry
hi_entry-IsEntry = omega arith

pub partition-IsLaidOut : IsLaidOut small_sb (length partition)
unfolding encode_entry
partition-IsLaidOut = omega arith

pub stored_two :
    (i : ℕ)
    → i < 2
    → slice partition (slot small_sb i) 64 ≡ encode_entry (get_or two_entries i zero_entry)
unfolding encode_entry
stored_two zero h = refl
stored_two (suc zero) h = refl
stored_two (suc (suc i)) h = absurd (omega arith)

pub entries_two : (i : ℕ) → i < 2 → IsEntry (get_or two_entries i zero_entry)
entries_two zero h = zero_entry-IsEntry
entries_two (suc zero) h = hi_entry-IsEntry
entries_two (suc (suc i)) h = absurd (omega arith)

pub partition-HasEntries : HasEntries partition small_sb two_entries
partition-HasEntries = record {
  layout = partition-IsLaidOut;
  count = refl;
  stored = stored_two;
  entries = entries_two;
}

-- A device of eleven blocks that was full of sevens.
unfoldable pub device : List ℕ
device = replicate 5632 7

pub length-device : length device ≡ 5632
unfolding device
length-device = length-replicate {A = ℕ} 5632 7

abbrev pub two_reads : Input
two_reads = replicate 300 65 ∷ replicate 400 66 ∷ []

pub hi-IsName : IsName hi
unfolding c_str
hi-IsName = record { whole = refl; some_byte = omega arith; first = λ e. omega arith }
