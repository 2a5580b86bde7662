-- ===== src/Sfs/Format/Laws.antt =====
-- The super block of mkfs fits its device, and a fresh file system mounts in order.
use linuxpedia.Prelude.{
  ℕ, zero, suc, ◌+◌, ◌*◌, ◌/◌, ◌%◌, ◌^◌, ◌≤◌, ◌<◌, ◌≡◌, refl, List, replicate, get_or, length,
  arith, length-append,
}
use linuxpedia.Sfs.Layout.{SuperBlock, FileEntry, u32_mod, zero_entry, encode_entry}
use linuxpedia.Sfs.Layout.RoundTrip.{length-encode_entry}
use linuxpedia.Sfs.BlockIo.Laws.{HasTable}
use linuxpedia.Sfs.Entries.Refine.{zero_entry-IsEntry}
use linuxpedia.Sfs.Directory.{Distinct}
use linuxpedia.Sfs.Ownership.{refs}
use linuxpedia.Sfs.Ownership.Change.{own-zero_entry}
use linuxpedia.Sfs.Mount.Tracker.{prefix_refs}
use linuxpedia.Sfs.Mount.Sound.{IsTidy}
use linuxpedia.Sfs.Format.{format_super, entries_block}

-- The table of `n` zero entries.
abbrev pub fresh_entries : ℕ → List FileEntry
fresh_entries n = replicate n zero_entry

pub get_or-fresh : (n i : ℕ) → get_or (fresh_entries n) i zero_entry ≡ zero_entry
get_or-fresh zero i = refl
get_or-fresh (suc n) zero = refl
get_or-fresh (suc n) (suc i) = get_or-fresh n i

refs-fresh : (b n : ℕ) → refs b (fresh_entries n) ≡ 0
unfolding refs
refs-fresh b zero = refl
refs-fresh b (suc n) = omega (arith, own-zero_entry b, refs-fresh b n)

prefix_refs-fresh : (b n : ℕ) → prefix_refs b (fresh_entries n) ≡ 0
unfolding prefix_refs
prefix_refs-fresh b zero = refl
prefix_refs-fresh b (suc n) = omega (arith, prefix_refs-fresh b n)

pub fresh-Distinct : (n : ℕ) → Distinct (fresh_entries n)
fresh-Distinct n i j hi hj live same = absurd (cc (live, get_or-fresh n i))

pub fresh-IsTidy :
    (sb : SuperBlock) (n : ℕ)
    → sb.partition_size < 4294967295
    → 0 < sb.data_block_start
    → sb.data_block_start ≤ sb.partition_size
    → IsTidy sb (fresh_entries n)
fresh-IsTidy sb n small start inside = record {
  small = small;
  start = start;
  start_inside = inside;
  single = λ b nz. omega (arith, refs-fresh b n);
  above = λ b nz lt. refs-fresh b n;
  below = λ b le. refs-fresh b n;
  no_hole = λ b nz. omega (arith, refs-fresh b n, prefix_refs-fresh b n);
}

-- For a device of at least one block and less than 40 GB, the super block of mkfs counts the whole
-- blocks of the device. Its entry table has a tenth of them, lies on entry boundaries without
-- wrapping, starts at block 1, fills its blocks exactly and ends where the data area starts, which is
-- inside the partition; a table of unused entries is in order for it.
pub format_super-IsTidy :
    (size bd : ℕ)
    → 512 ≤ size
    → size < 40_000_000_000
    → 0 < bd
    → bd % 64 ≡ 0
    → bd ≤ 2 ^ 31
    → let sb = format_super size in
      HasTable bd sb
      × IsTidy sb (fresh_entries sb.entry_count)
      × (sb.entry_count * 64 ≡ sb.entry_table_size * sb.block_size)
      × (sb.entry_table_block_start ≡ 1)
      × (sb.entry_table_block_start + sb.entry_table_size ≡ sb.data_block_start)
      × (sb.partition_size ≡ size / 512)
      × (sb.entry_table_size ≡ sb.partition_size / 10)
      × (sb.partition_size * sb.block_size ≤ size)
unfolding format_super
format_super-IsTidy size bd low high pos slots small =
    let n = size / 512 % u32_mod / 10 * 512 % u32_mod / 64 in
    (
      omega arith,
      fresh-IsTidy (format_super size) n (omega arith) (omega arith) (omega arith),
      omega arith,
      refl,
      omega arith,
      omega arith,
      refl,
      omega arith,
    )

pub length-entries_block : (n : ℕ) → length (entries_block n) ≡ 64 * n
unfolding entries_block
length-entries_block zero = refl
length-entries_block (suc n) = omega (
  arith,
  length-append (encode_entry zero_entry) (entries_block n),
  length-encode_entry zero_entry zero_entry-IsEntry,
  length-entries_block n,
)
