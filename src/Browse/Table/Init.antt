-- ===== src/Browse/Table/Init.antt =====
-- init_browsing of browse_sfs.c builds the tracker that the mount of real_sfs builds.
use linuxpedia.Prelude.{
  ℕ, ◌+◌, ◌*◌, ◌≡◌, refl, ap, ◌∙◌, true, some, List, [], ◌∷◌, length, set, arith, ◌==◌,
  if◌then◌else◌, inl, inr, Bool-cases,
}
use linuxpedia.Sfs.Layout.{FileEntry, IsEntry, zero_entry, name_first}
use linuxpedia.Sfs.Entries.Refine.{zero_entry-IsEntry}
use linuxpedia.Sfs.Mount.{mark_blocks, initial_map}
use linuxpedia.Sfs.Mount.Tracker.{mark_entries}
use linuxpedia.Sfs.Mount.Sound.{tracker}
use linuxpedia.Browse.Handle.{Browser}
use linuxpedia.Browse.Table.{mark_used, mark_table, init_browsing}
use linuxpedia.Browse.Table.Scan.{
  HasEntries, Spells, HasEntries-Spells, read_entry_here-entry, moved, slot, seek_table,
}

mark_used-mark_blocks : (ks used : List ℕ) → mark_used ks used ≡ mark_blocks ks used
unfolding mark_used mark_blocks
mark_used-mark_blocks [] used = refl
mark_used-mark_blocks (k ∷ ks) used = ground (arith, mark_used-mark_blocks ks (set used k 1))

-- The program at this place with this tracker.
abbrev pub tracking : Browser → ℕ → List ℕ → Browser
tracking b p used = record b { pos = p; used_blocks = used }

marked :
    (x : FileEntry) (b : Browser) (p : ℕ)
    → (if name_first x == 0
        then moved b p
        else record (moved b p) { used_blocks = mark_used x.blocks b.used_blocks })
      ≡ tracking b p
          (if name_first x == 0 then b.used_blocks else mark_blocks x.blocks b.used_blocks)
marked x b p = elim (Bool-cases (name_first x == 0)) [
  | inl e ↦ rw e refl
  | inr e ↦ rw e (ap (tracking b p) (mark_used-mark_blocks x.blocks b.used_blocks))
]

-- The rest of the loop after an entry has been read.
abbrev turn : ℕ → FileEntry × Browser → Browser
turn n (x, b) =
    mark_table n x
      (if name_first x == 0 then b else record b { used_blocks = mark_used x.blocks b.used_blocks })

mark_table-entries :
    (es : List FileEntry) (fe : FileEntry) (b : Browser)
    → IsEntry fe
    → Spells b.bytes b.pos es
    → mark_table (length es) fe b
      ≡ tracking b (b.pos + length es * 64) (mark_entries es b.used_blocks)
unfolding mark_table mark_entries
mark_table-entries [] fe b v h = ap (λ p. moved b p) (omega arith)
mark_table-entries (x ∷ xs) fe b v h =
    let used = if name_first x == 0 then b.used_blocks else mark_blocks x.blocks b.used_blocks in
    ap (turn (length xs)) (read_entry_here-entry b fe x v h.1 h.0)
    ∙ ap (mark_table (length xs) x) (marked x b (b.pos + 64))
    ∙ mark_table-entries xs x (tracking b (b.pos + 64) used) h.1 h.2
    ∙ ap (λ p. tracking b p (mark_entries xs used)) (omega arith)

mark_count :
    (es : List FileEntry) (n : ℕ) (b : Browser)
    → length es ≡ n
    → Spells b.bytes b.pos es
    → mark_table n zero_entry b ≡ tracking b (b.pos + n * 64) (mark_entries es b.used_blocks)
mark_count es n b e h = rw (← e) (mark_table-entries es zero_entry b zero_entry-IsEntry h)

-- On a partition with a file table, a start of the program leaves the partition, the super block
-- and the buffer as they are, and its tracker is the one that a mount of the same table gives the
-- kernel module.
pub init_browsing-tracker :
    (b : Browser) (es : List FileEntry)
    → HasEntries b.bytes b.sb es
    → init_browsing true b
      ≡ some (tracking b (slot b.sb 0 + b.sb.entry_count * 64) (tracker b.sb es))
unfolding init_browsing
init_browsing-tracker b es h =
    let b' : Browser = record b { used_blocks = initial_map b.sb } in
    rw (seek_table b' h.layout) (
      ap some
        (mark_count es b.sb.entry_count (moved b' (slot b.sb 0)) h.count (HasEntries-Spells h)))
