-- ===== src/Sfs/Examples.antt =====
-- A device of eight blocks of 512 bytes with a fresh file system, runs of the module on it, and the
-- theorems at it.
use linuxpedia.Prelude.{
  ℕ, zero, suc, ◌+◌, ◌*◌, ◌/◌, ◌^◌, ◌≤◌, ◌<◌, ◌≡◌, refl, ◌⊎◌, ap, true, false, none, some, [], ◌∷◌,
  replicate, get_or, set, length, arith, ◌==◌, if◌then◌else◌,
}
use linuxpedia.Prelude.Int.{pos, minus_one, is_neg}
use linuxpedia.Prelude.CString.{strlen, str_eq, strncpy}
use linuxpedia.Sfs.Layout.{
  FileEntry, IsEntry, zero_entry, encode_entry, decode_entry, encode_super, decode_super,
}
use linuxpedia.Sfs.BlockIo.{Fs, copied, read_entry, write_entry, read_sb_from_real_sfs}
use linuxpedia.Sfs.BlockIo.Laws.{HasTable}
use linuxpedia.Sfs.BlockIo.Table.{Holds, write_entry-Holds}
use linuxpedia.Sfs.Entries.{
  blocks_needed, set_fields, new_entry, dt_dir, sfs_create, sfs_lookup, sfs_remove, sfs_update,
}
use linuxpedia.Sfs.Entries.Refine.{
  new_entry-IsEntry, Creates, sfs_create-create_in, Removes, sfs_remove-find,
}
use linuxpedia.Sfs.Inode.{sfs_get_block, sfs_readdir}
use linuxpedia.Sfs.Inode.Listing.{collect, listing, sfs_readdir-listing, sfs_readdir-resumed}
use linuxpedia.Sfs.Ownership.{occ, own, refs}
use linuxpedia.Sfs.Mount.Tracker.{prefix, prefix_refs}
use linuxpedia.Sfs.Directory.{find, create_in}
use linuxpedia.Sfs.Consistent.{IsConsistent}
use linuxpedia.Sfs.Consistent.Files.{lookup-create, lookup-remove}
use linuxpedia.Sfs.Consistent.Blocks.{Allocates, sfs_get_block-Allocates}
use linuxpedia.Sfs.Consistent.Update.{updated, Frees, sfs_update-IsConsistent}
use linuxpedia.Sfs.Consistent.Reach.{
  Reach, here, next, create, remove, Consistent, Reach-Consistent,
}
use linuxpedia.Sfs.Mount.{init_browsing, get_bit_pos}
use linuxpedia.Sfs.Mount.Sound.{init_browsing-hole, IsTidy, init_browsing-IsConsistent}
use linuxpedia.Sfs.Super.{sfs_fill_super, sfs_kill_sb}
use linuxpedia.Sfs.Super.Laws.{fill_super-frees, kill_sb-frees_twice, get_bit_pos-log2}
use linuxpedia.Sfs.OnBlockDevice
use linuxpedia.Sfs.OnBlockDevice.Same.{init_browsing-same_mount}
use linuxpedia.Sfs.Format.{format_super}
use linuxpedia.Sfs.Format.Laws.{fresh_entries, fresh-Distinct, fresh-IsTidy, format_super-IsTidy}
use linuxpedia.Sfs.Small.{
  fit, Disk, bread, disk, sb, device, fresh, bare-Holds, read_super, fresh-IsConsistent, name_a,
  name_b, long_name, a-Fits, entries_a, create_a, with_a, with_a-IsConsistent, find_a, live_a,
}

init_browsing-IsConsistent_example :
    (init_browsing device true ≡ (pos 0, some fresh)) × IsConsistent fresh (fresh_entries 2)
unfolding fresh
init_browsing-IsConsistent_example =
    init_browsing-IsConsistent device sb (fresh_entries 2) read_super refl bare-Holds
      (fresh-Distinct 2) (fresh-IsTidy sb 2 (omega arith) (omega arith) (omega arith))

lookup-create_example :
    ((sfs_create fresh name_a 7 5 zero_entry).0 ≡ pos 1)
    × (sfs_lookup (sfs_create fresh name_a 7 5 zero_entry).2 name_a zero_entry
        ≡ (pos 1, new_entry name_a 7 5))
lookup-create_example =
    lookup-create name_a 7 5 zero_entry zero_entry fresh-IsConsistent.holds a-Fits create_a

create_long :
    create_in (fresh_entries 2) long_name 7 5
    ≡ some (0, set (fresh_entries 2) 0 (new_entry long_name 7 5))
unfolding create_in str_eq
create_long = refl

long-lt : 15 < strlen long_name
unfolding strlen
long-lt = omega arith

lookup-remove_example :
    ((sfs_remove with_a name_a).0 ≡ pos 1)
    × ((sfs_lookup (sfs_remove with_a name_a).1 name_a zero_entry).0 ≡ minus_one)
lookup-remove_example = lookup-remove name_a zero_entry with_a-IsConsistent find_a

sfs_create-create_in_example :
    Creates fresh
      (new_entry name_a 7 5)
      (create_in (fresh_entries 2) name_a 7 5)
      (sfs_create fresh name_a 7 5 zero_entry)
sfs_create-create_in_example = sfs_create-create_in fresh-IsConsistent.holds name_a 7 5 zero_entry

sfs_remove-find_example :
    Removes with_a entries_a (find name_a entries_a) (sfs_remove with_a name_a)
sfs_remove-find_example = sfs_remove-find with_a-IsConsistent.holds name_a

write_entry-Holds_example :
    (d : Disk) × (write_entry fresh 1 (new_entry name_b 6 9) ≡ (pos 0, record fresh { dev = d }))
    × Holds (record fresh { dev = d }) (set (fresh_entries 2) 1 (new_entry name_b 6 9))
write_entry-Holds_example =
    write_entry-Holds fresh-IsConsistent.holds 1 (new_entry name_b 6 9) (omega arith)
      (new_entry-IsEntry name_b 6 9)

sfs_get_block-Allocates_example :
    Allocates with_a entries_a 0 1 (omega arith) (sfs_get_block with_a (pos 1) 1 true)
sfs_get_block-Allocates_example =
    sfs_get_block-Allocates with_a entries_a 0 1 (omega arith) with_a-IsConsistent (omega arith)
      live_a refl

sfs_update-IsConsistent_example :
    ((sfs_update with_a (pos 1) (some (pos 600)) none (some (pos 6))).0 ≡ pos 0)
    × IsConsistent (sfs_update with_a (pos 1) (some (pos 600)) none (some (pos 6))).1 (
        set entries_a 0 (
          updated with_a.sb.block_size
            (some (pos 600))
            none
            (some (pos 6))
            (get_or entries_a 0 zero_entry)))
    × Frees
        (blocks_needed
          (set_fields (some (pos 600)) none (some (pos 6)) (get_or entries_a 0 zero_entry)).size
          with_a.sb.block_size)
        (get_or entries_a 0 zero_entry).blocks
        with_a.used_blocks
        (sfs_update with_a (pos 1) (some (pos 600)) none (some (pos 6))).1.used_blocks
sfs_update-IsConsistent_example =
    sfs_update-IsConsistent with_a entries_a 0 (omega arith) (some (pos 600)) none (some (pos 6))
      with_a-IsConsistent live_a

two_steps : Reach fresh (sfs_remove with_a name_a).1
unfolding with_a
two_steps = next (next here (create name_a 7 5 zero_entry a-Fits refl)) (remove name_a refl)

Reach-Consistent_example : Consistent (sfs_remove with_a name_a).1
Reach-Consistent_example = Reach-Consistent two_steps (fresh_entries 2, fresh-IsConsistent)

kill_sb-frees_twice_example :
    (sfs_kill_sb (sfs_fill_super device true true true true false).2).faults ≡ 2
kill_sb-frees_twice_example =
    kill_sb-frees_twice device true true true true false fresh refl
      (ap (λ r. r.1) init_browsing-IsConsistent_example.0) refl

fill_super-frees_example :
    let (code, info, m) = sfs_fill_super device true true true true true in
    (m.faults ≡ 0)
    × (((code ≡ pos 0)
          × (m.info_live ≡ true)
          × (m.map_live ≡ true)
          × (sfs_kill_sb m
              ≡ record { info_live = false; map_live = false; s_fs_info = true; faults = 0 }))
        ⊎ ((is_neg code ≡ true) × (info ≡ none) × (m.info_live ≡ false) × (m.map_live ≡ false)))
fill_super-frees_example = fill_super-frees device true true true true true

get_bit_pos-log2_example :
    (n : ℕ) × (get_bit_pos 512 ≡ some (pos n)) × (2 ^ n ≤ 512) × (512 < 2 * 2 ^ n)
get_bit_pos-log2_example = get_bit_pos-log2 512 (omega arith) (omega arith)

format_super-IsTidy_example :
    let sb' = format_super 1_000_000 in
    HasTable 512 sb'
    × IsTidy sb' (fresh_entries sb'.entry_count)
    × (sb'.entry_count * 64 ≡ sb'.entry_table_size * sb'.block_size)
    × (sb'.entry_table_block_start ≡ 1)
    × (sb'.entry_table_block_start + sb'.entry_table_size ≡ sb'.data_block_start)
    × (sb'.partition_size ≡ 1_000_000 / 512)
    × (sb'.entry_table_size ≡ sb'.partition_size / 10)
    × (sb'.partition_size * sb'.block_size ≤ 1_000_000)
format_super-IsTidy_example =
    format_super-IsTidy 1_000_000 512 (omega arith) (omega arith) (omega arith) refl (omega arith)

sfs_readdir-listing_example : sfs_readdir with_a collect (pos 0) (pos 0) 0 [] ≡ (
  pos 1,
  2 + length (listing 0 2 entries_a),
  record { name = b'.' ∷ []; at = 0; ino = pos 0; kind = dt_dir }
      ∷ record { name = b'.' ∷ b'.' ∷ []; at = 1; ino = pos 0; kind = dt_dir }
      ∷ listing 0 2 entries_a,
)
sfs_readdir-listing_example = sfs_readdir-listing (pos 0) (pos 0) with_a-IsConsistent.holds

sfs_readdir-resumed_example : sfs_readdir with_a collect (pos 0) (pos 0) 3 [] ≡ (pos 0, 3, [])
sfs_readdir-resumed_example = sfs_readdir-resumed with_a collect (pos 0) (pos 0) 3 [] (omega arith)

-- An entry whose only block stands at index 1, behind a hole.
abbrev holed : FileEntry
holed = record (new_entry name_a 7 5) { blocks = 0 ∷ 2 ∷ replicate 7 0 }

holed_prefix : prefix_refs 2 (holed ∷ zero_entry ∷ []) ≡ 0
unfolding prefix_refs prefix occ strncpy
holed_prefix = refl

abbrev holed_device : Disk
holed_device b =
    if b == 0 then some (encode_super sb) else if b == 1 then some (encode_entry holed) else some []

abbrev holed_bare : Fs Disk
holed_bare = record { sb = sb; used_blocks = []; dev = holed_device }

holed-stored :
    (i : ℕ)
    → i < 2
    → (read_entry holed_bare i ≡ copied (get_or (holed ∷ zero_entry ∷ []) i zero_entry))
      × IsEntry (get_or (holed ∷ zero_entry ∷ []) i zero_entry)
unfolding read_entry decode_entry encode_entry bread fit strncpy
holed-stored zero lt = (refl, omega arith)
holed-stored (suc zero) lt = (refl, omega arith)
holed-stored (suc (suc i)) lt = absurd (omega arith)

holed-super : read_sb_from_real_sfs holed_device ≡ copied sb
unfolding read_sb_from_real_sfs decode_super encode_super bread fit
holed-super = refl

init_browsing-hole_example :
    (info : Fs Disk) × (init_browsing holed_device true ≡ (pos 0, some info))
    × (get_or info.used_blocks 2 0 ≡ 0)
init_browsing-hole_example =
    init_browsing-hole holed_device sb (holed ∷ zero_entry ∷ []) 2 holed-super refl
      (record {
        table = omega arith;
        count = refl;
        stored = λ i lt. (holed-stored i lt).0;
        entries = λ i lt. (holed-stored i lt).1;
      })
      (omega arith) (omega arith) holed_prefix

holed-owned : refs 2 (holed ∷ zero_entry ∷ []) ≡ 1
unfolding refs own occ strncpy
holed-owned = refl

init_browsing-same_mount_example :
    OnBlockDevice.init_browsing device true ≡ init_browsing device true
init_browsing-same_mount_example =
    init_browsing-same_mount device sb true read_super bare-Holds.table refl
