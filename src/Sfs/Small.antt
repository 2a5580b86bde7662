-- ===== src/Sfs/Small.antt =====
-- A device of eight blocks in memory and a small file system on it, for the examples.
use linuxpedia.Prelude.{
  ℕ, zero, suc, ◌<◌, ◌≡◌, refl, inl, inr, ap, Bool, true, false, Option, none, some, List, [], ◌∷◌,
  replicate, get_or, set, length, arith, ◌==◌, if◌then◌else◌, Option-cases,
}
use linuxpedia.Prelude.CString.{strlen, str_eq, strncpy}
use linuxpedia.Sfs.Layout.{
  SuperBlock, FileEntry, zero_entry, simula_fs_type, decode_entry, encode_super, decode_super,
}
use linuxpedia.Sfs.Device.{BufferCache}
use linuxpedia.Sfs.BlockIo.{Fs, copied, read_entry, read_sb_from_real_sfs}
use linuxpedia.Sfs.BlockIo.Table.{Holds}
use linuxpedia.Sfs.Entries.{new_entry, sfs_create}
use linuxpedia.Sfs.Entries.Refine.{zero_entry-IsEntry}
use linuxpedia.Sfs.Directory.{find, create_in, in_use}
use linuxpedia.Sfs.Directory.Change.{Fits}
use linuxpedia.Sfs.Consistent.{IsConsistent}
use linuxpedia.Sfs.Consistent.Files.{sfs_create-IsConsistent}
use linuxpedia.Sfs.Mount.Sound.{mounted, init_browsing-IsConsistent}
use linuxpedia.Sfs.Format.Laws.{fresh_entries, fresh-Distinct, fresh-IsTidy, get_or-fresh}

-- A block of `n` bytes that starts with these.
unfoldable pub fit : ℕ → List ℕ → List ℕ
fit zero xs = []
fit (suc n) [] = 0 ∷ fit n []
fit (suc n) (x ∷ xs) = x ∷ fit n xs

length-fit : (n : ℕ) (xs : List ℕ) → length (fit n xs) ≡ n
unfolding fit
length-fit zero xs = refl
length-fit (suc n) [] = ap suc (length-fit n [])
length-fit (suc n) (x ∷ xs) = ap suc (length-fit n xs)

pub fit-length : (n : ℕ) (xs : List ℕ) → length xs ≡ n → fit n xs ≡ xs
unfolding fit
fit-length zero [] h = refl
fit-length zero (x ∷ xs) h = absurd (omega arith)
fit-length (suc n) [] h = absurd (omega arith)
fit-length (suc n) (x ∷ xs) h = ap (◌∷◌ x) (fit-length n xs (omega arith))

-- A device in memory: `none` is a block that cannot be read.
abbrev pub Disk : Type 0
Disk = ℕ → Option (List ℕ)

abbrev buffer : Option (List ℕ) → Option (List ℕ)
buffer none = none
buffer (some bytes) = some (fit 512 bytes)

unfoldable pub bread : Disk → ℕ → Option (List ℕ)
bread d b = buffer (d b)

unfoldable pub dirty : Disk → ℕ → List ℕ → Disk
dirty d b new c = if b == c then some new else d c

pub bread-size : (d : Disk) (b : ℕ) (bytes : List ℕ) → bread d b ≡ some bytes → length bytes ≡ 512
unfolding bread
bread-size d b bytes h = elim (Option-cases (d b)) [
  | inl e ↦ absurd (ground arith)
  | inr (bs, e) ↦ ground (arith, length-fit 512 bs)
]

pub bread-dirty :
    (d : Disk) (b : ℕ) (old new : List ℕ)
    → bread d b ≡ some old
    → length new ≡ 512
    → (c : ℕ) → bread (dirty d b new) c ≡ (if b == c then some new else bread d c)
unfolding bread dirty
bread-dirty d b old new h e c = go (b == c)
  where
    go : (t : Bool) → buffer (if t then some new else d c) ≡ (if t then some new else buffer (d c))
    go true = ap some (fit-length 512 new e)
    go false = refl

instance abbrev pub disk : BufferCache Disk
disk = record {
  bd_block_size = 512;
  sb_bread = bread;
  mark_buffer_dirty = dirty;
  buffer_size = bread-size;
  coherent = bread-dirty;
}

-- Eight blocks: the super block, one of the entry table, and the data area from block 2 on.
abbrev pub sb : SuperBlock
sb = record {
  type = simula_fs_type;
  block_size = 512;
  partition_size = 8;
  entry_size = 64;
  entry_table_size = 1;
  entry_table_block_start = 1;
  entry_count = 2;
  data_block_start = 2;
}

abbrev pub device : Disk
device b = if b == 0 then some (encode_super sb) else some []

abbrev bare : Fs Disk
bare = record { sb = sb; used_blocks = []; dev = device }

unfoldable pub fresh : Fs Disk
fresh = mounted device sb (fresh_entries 2)

bare-stored : (i : ℕ) → i < 2 → read_entry bare i ≡ copied (get_or (fresh_entries 2) i zero_entry)
unfolding read_entry decode_entry bread fit
bare-stored zero lt = refl
bare-stored (suc zero) lt = refl
bare-stored (suc (suc i)) lt = absurd (omega arith)

pub bare-Holds : Holds bare (fresh_entries 2)
bare-Holds = record {
  table = omega arith;
  count = refl;
  stored = bare-stored;
  entries = λ i lt. rw (get_or-fresh 2 i) zero_entry-IsEntry;
}

pub read_super : read_sb_from_real_sfs device ≡ copied sb
unfolding read_sb_from_real_sfs decode_super encode_super bread fit
read_super = refl

pub fresh-IsConsistent : IsConsistent fresh (fresh_entries 2)
unfolding fresh
fresh-IsConsistent =
    (init_browsing-IsConsistent device sb (fresh_entries 2) read_super refl bare-Holds
      (fresh-Distinct 2) (fresh-IsTidy sb 2 (omega arith) (omega arith) (omega arith))).1

abbrev pub name_a : List ℕ
name_a = b'a' ∷ 0 ∷ []

abbrev pub name_b : List ℕ
name_b = b'b' ∷ 0 ∷ []

-- Sixteen bytes, one more than fits.
abbrev pub long_name : List ℕ
long_name = replicate 16 b'x'

pub a-Fits : Fits name_a
unfolding strlen
a-Fits = omega arith

abbrev pub entries_a : List FileEntry
entries_a = set (fresh_entries 2) 0 (new_entry name_a 7 5)

pub create_a : create_in (fresh_entries 2) name_a 7 5 ≡ some (0, entries_a)
unfolding create_in str_eq
create_a = refl

unfoldable pub with_a : Fs Disk
with_a = (sfs_create fresh name_a 7 5 zero_entry).2

pub with_a-IsConsistent : IsConsistent with_a entries_a
unfolding with_a
with_a-IsConsistent =
    sfs_create-IsConsistent name_a 7 5 zero_entry fresh-IsConsistent a-Fits create_a

pub find_a : find name_a entries_a ≡ some (0, new_entry name_a 7 5)
unfolding find str_eq strncpy
find_a = refl

pub live_a : in_use (get_or entries_a 0 zero_entry) ≡ true
unfolding strncpy
live_a = refl
