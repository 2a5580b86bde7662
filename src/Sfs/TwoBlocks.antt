-- ===== src/Sfs/TwoBlocks.antt =====
-- A device of eight blocks with a file of two blocks, and the theorem about file data at it.
use linuxpedia.Prelude.{
  ℕ, zero, suc, ◌+◌, ◌<◌, ◌≡◌, ◌≢◌, refl, true, false, some, List, [], ◌∷◌, replicate, get_or,
  arith, ne→==, ◌==◌, if◌then◌else◌,
}
use linuxpedia.Prelude.Int.{pos}
use linuxpedia.Sfs.Layout.{
  FileEntry, IsEntry, zero_entry, encode_entry, decode_entry, encode_super, decode_super,
}
use linuxpedia.Sfs.BlockIo.{Fs, copied, read_entry, read_sb_from_real_sfs}
use linuxpedia.Sfs.BlockIo.Table.{Holds}
use linuxpedia.Sfs.Directory.{Distinct, named}
use linuxpedia.Sfs.Entries.Refine.{zero_entry-IsEntry}
use linuxpedia.Sfs.Inode.{sfs_get_block}
use linuxpedia.Sfs.Ownership.{occ, own, refs}
use linuxpedia.Sfs.Mount.Tracker.{prefix, prefix_refs}
use linuxpedia.Sfs.Mount.Sound.{IsTidy, mounted, init_browsing-IsConsistent}
use linuxpedia.Sfs.Consistent.{IsConsistent}
use linuxpedia.Sfs.Consistent.Data.{Names, sfs_get_block-stored}
use linuxpedia.Sfs.Small.{Disk, bread, dirty, fit, disk, sb}

abbrev two_block_entry : FileEntry
two_block_entry = record {
  name = b'a' ∷ replicate 15 0;
  size = 700;
  timestamp = 5;
  perms = 7;
  blocks = 2 ∷ 3 ∷ replicate 7 0;
}

abbrev es : List FileEntry
es = two_block_entry ∷ zero_entry ∷ []

abbrev device : Disk
device b =
    if b == 0
    then some (encode_super sb)
    else if b == 1
    then some (encode_entry two_block_entry)
    else some []

abbrev bare : Fs Disk
bare = record { sb = sb; used_blocks = []; dev = device }

bare-stored : (i : ℕ) → i < 2 → read_entry bare i ≡ copied (get_or es i zero_entry)
unfolding read_entry decode_entry encode_entry bread fit
bare-stored zero lt = refl
bare-stored (suc zero) lt = refl
bare-stored (suc (suc i)) lt = absurd (omega arith)

es-IsEntry : (i : ℕ) → i < 2 → IsEntry (get_or es i zero_entry)
es-IsEntry zero lt = omega arith
es-IsEntry (suc zero) lt = zero_entry-IsEntry
es-IsEntry (suc (suc i)) lt = absurd (omega arith)

bare-Holds : Holds bare es
bare-Holds = record {
  table = omega arith;
  count = refl;
  stored = bare-stored;
  entries = es-IsEntry;
}

super_here : read_sb_from_real_sfs device ≡ copied sb
unfolding read_sb_from_real_sfs decode_super encode_super bread fit
super_here = refl

es-Distinct : Distinct es
es-Distinct zero zero hi hj live same = refl
es-Distinct zero (suc j) hi hj live same = absurd (unused j hj same)
  where
    unused :
        (j : ℕ) → suc j < 2 → named two_block_entry.name (get_or es (suc j) zero_entry) ≡ true → ⊥
    unused zero lt h = absurd (cc)
    unused (suc j) lt h = absurd (omega arith)
es-Distinct (suc zero) j hi hj live same = absurd (cc)
es-Distinct (suc (suc i)) j hi hj live same = absurd (omega arith)

refs-es : (b : ℕ) → b ≢ 0 → refs b es ≡ (if b == 2 then 1 else 0) + (if b == 3 then 1 else 0)
unfolding refs own occ
refs-es b nz = rw (ne→== b 0 nz) (omega arith)

es-IsTidy : IsTidy sb es
unfolding prefix_refs prefix occ
es-IsTidy = record {
  small = omega arith;
  start = omega arith;
  start_inside = omega arith;
  single = λ b nz. ground (arith, refs-es b nz);
  above = λ b nz lt. ground (arith, refs-es b nz);
  below = λ b le. ground (arith, refs-es b (omega arith));
  no_hole = λ b nz. omega (arith, refs-es b nz);
}

abbrev fs : Fs Disk
fs = mounted device sb es

fs-IsConsistent : IsConsistent fs es
fs-IsConsistent =
    (init_browsing-IsConsistent device sb es super_here refl bare-Holds es-Distinct es-IsTidy).1

two_blocks-Names_first : Names es 0 0 2
two_blocks-Names_first = record {
  inside = omega arith;
  live = refl;
  small = omega arith;
  some_block = λ e. omega arith;
  named = refl;
}

two_blocks-Names_second : Names es 0 1 3
two_blocks-Names_second = record {
  inside = omega arith;
  live = refl;
  small = omega arith;
  some_block = λ e. omega arith;
  named = refl;
}

-- A block full of sevens.
abbrev sevens : List ℕ
sevens = replicate 512 7

block_two : bread device 2 ≡ some (replicate 512 0)
unfolding bread fit
block_two = refl

sfs_get_block-stored_example :
    let fs' : Fs Disk = record fs { dev = dirty device 2 sevens } in
    (sfs_get_block fs (pos 1) 0 false ≡ (pos 0, some 2, fs))
    × IsConsistent fs' es
    × (sfs_get_block fs' (pos 1) 0 false ≡ (pos 0, some 2, fs'))
    × (bread fs'.dev 2 ≡ some sevens)
    × (sfs_get_block fs' (pos 1) 1 false ≡ (pos 0, some 3, fs'))
    × (bread fs'.dev 3 ≡ bread device 3)
sfs_get_block-stored_example =
    sfs_get_block-stored fs es 0 0 0 1 2 3 (replicate 512 0) sevens false fs-IsConsistent refl
      (omega arith) two_blocks-Names_first two_blocks-Names_second (λ e. omega arith) block_two refl
