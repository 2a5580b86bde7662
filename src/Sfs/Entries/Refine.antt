-- ===== src/Sfs/Entries/Refine.antt =====
-- sfs_lookup, sfs_create and sfs_remove against the directory of entries that the device holds.
use linuxpedia.Prelude.{
  ℕ, ◌<◌, ◌≡◌, refl, ap, sym, ◌∙◌, Option, none, some, List, [], ◌∷◌, set, length, length-append,
  ◌==◌, if◌then◌else◌, arith, Option-cases, inl, inr,
}
use linuxpedia.Prelude.Int.{ℤ, pos, minus_one}
use linuxpedia.Prelude.CString.{strncpy, length-strncpy}
use linuxpedia.Sfs.Layout.{FileEntry, IsEntry, zero_entry}
use linuxpedia.Sfs.Device.{BufferCache}
use linuxpedia.Sfs.BlockIo.{Fs, read_entry}
use linuxpedia.Sfs.BlockIo.Table.{Holds, write_entry-Holds}
use linuxpedia.Sfs.Blocks.{sfs_put_data_block}
use linuxpedia.Sfs.Entries.{
  new_entry, free_blocks, create_loop, store_new, sfs_create, erase_entry, sfs_remove,
  s2v_inode_num, stopped, scanned,
}
use linuxpedia.Sfs.Entries.Scan.{
  Holds-Reads, sfs_lookup-find, free_code, create_loop-none, create_loop-taken, last_or,
}
use linuxpedia.Sfs.Directory.{find, first_unused, create_in}
use linuxpedia.Sfs.Directory.Laws.{find-some, first_unused-some}

pub new_entry-IsEntry : (fn : List ℕ) (perms now : ℕ) → IsEntry (new_entry fn perms now)
new_entry-IsEntry fn perms now = record {
  name_size = omega (arith, length-append (strncpy 15 fn) (0 ∷ []), length-strncpy 15 fn);
  size_word = omega arith;
  timestamp_word = omega arith;
  perms_word = omega arith;
  blocks_size = refl;
  block_words = omega arith;
}

pub zero_entry-IsEntry : IsEntry zero_entry
zero_entry-IsEntry = omega arith

-- The tracker after the blocks before the first 0 have been given back.
unfoldable pub release : List ℕ → List ℕ → List ℕ
release [] used = used
release (b ∷ bs) used = let rest = release bs (set used b 0) in if b == 0 then used else rest

pub free_blocks-release :
    {D : Type 0} (bs : List ℕ) (fs : Fs D)
    → free_blocks bs fs ≡ record fs { used_blocks = release bs fs.used_blocks }
unfolding free_blocks release sfs_put_data_block
free_blocks-release [] fs = refl
free_blocks-release (b ∷ bs) fs = ground (arith, free_blocks-release bs (sfs_put_data_block fs b))

module _ {D : Type 0} ⦃cache : BufferCache D⦄ where
  -- The tracker is no part of the table.
  pub Holds-used_blocks :
      {fs : Fs D} {es : List FileEntry} (used : List ℕ)
      → Holds fs es
      → Holds (record fs { used_blocks = used }) es
  unfolding read_entry
  Holds-used_blocks used h = record {
    table = h.table;
    count = h.count;
    stored = h.stored;
    entries = h.entries;
  }

  -- What sfs_create must do where the directory's answer is this.
  abbrev pub Creates :
      Fs D → FileEntry → Option (ℕ × List FileEntry) → ℤ × FileEntry × Fs D → Type 0
  Creates fs fe none (code, fe', fs') = (code ≡ minus_one) × (fs' ≡ fs)
  Creates fs fe (some (i, es')) (code, fe', fs') =
      (code ≡ s2v_inode_num i)
      × (fe' ≡ fe)
      × Holds fs' es'
      × (fs'.sb ≡ fs.sb)
      × (fs'.used_blocks ≡ fs.used_blocks)

  module _ {fs : Fs D} {es : List FileEntry} (h : Holds fs es) (fn : List ℕ) (perms now : ℕ)
      (fe : FileEntry) where
    loop_taken :
        (p : ℕ × FileEntry)
        → find fn es ≡ some p
        → create_loop fs fn fs.sb.entry_count 0 minus_one fe ≡ stopped p.1
    unfolding find
    loop_taken p e =
        ap (λ n. create_loop fs fn n 0 minus_one fe) (sym h.count)
        ∙ (create_loop-taken fs fn 0 minus_one es fe p (Holds-Reads h) e)

    loop_free :
        find fn es ≡ none
        → create_loop fs fn fs.sb.entry_count 0 minus_one fe
          ≡ scanned (free_code (first_unused es)) (last_or es fe)
    unfolding find first_unused
    loop_free e =
        ap (λ n. create_loop fs fn n 0 minus_one fe) (sym h.count)
        ∙ (create_loop-none fs fn 0 es fe (Holds-Reads h) e)

    store_free :
        (i : ℕ) (fe' : FileEntry)
        → i < length es
        → Creates fs
            (new_entry fn perms now)
            (some (i, set es i (new_entry fn perms now)))
            (store_new fs fn perms now (pos i) fe')
    unfolding store_new
    store_free i fe' lt =
        let (d, wrote, held) =
          write_entry-Holds h i (new_entry fn perms now) lt (new_entry-IsEntry fn perms now) in
        rw wrote (refl, refl, held, refl, refl)

    -- sfs_create answers as the directory does: -1 with nothing changed if the name is taken or
    -- no entry is unused, and otherwise the inode number of the first unused entry, which then
    -- holds the new file, with every other entry, the super block and the tracker as before.
    pub sfs_create-create_in :
        Creates fs
          (new_entry fn perms now)
          (create_in es fn perms now)
          (sfs_create fs fn perms now fe)
    unfolding sfs_create create_in
    sfs_create-create_in = elim (Option-cases (find fn es)) [
      | inr (p, e) ↦ rw (e, loop_taken p e, create_in, sfs_create) (refl, refl)
      | inl e ↦ elim (Option-cases (first_unused es)) [
        | inl full ↦ rw (e, loop_free e, full, create_in, sfs_create) (refl, refl)
        | inr (i, free) ↦
            rw (e, loop_free e, free, create_in, sfs_create)
              (store_free i (last_or es fe) (first_unused-some es i free).0)
      ]
    ]

  -- What sfs_remove must do where this is what the directory finds.
  abbrev pub Removes : Fs D → List FileEntry → Option (ℕ × FileEntry) → ℤ × Fs D → Type 0
  Removes fs es none (code, fs') = (code ≡ minus_one) × (fs' ≡ fs)
  Removes fs es (some (i, x)) (code, fs') =
      (code ≡ s2v_inode_num i)
      × Holds fs' (set es i zero_entry)
      × (fs'.sb ≡ fs.sb)
      × (fs'.used_blocks ≡ release x.blocks fs.used_blocks)

  module _ {fs : Fs D} {es : List FileEntry} (h : Holds fs es) (fn : List ℕ) where
    erase_found :
        (i : ℕ) (x : FileEntry)
        → i < length es
        → (d : D) × (erase_entry fs (s2v_inode_num i) x ≡ (
          s2v_inode_num i,
          record fs { used_blocks = release x.blocks fs.used_blocks; dev = d },
        ))
          × Holds
              (record fs { used_blocks = release x.blocks fs.used_blocks; dev = d })
              (set es i zero_entry)
    unfolding erase_entry
    erase_found i x lt =
        let (d, wrote, held) =
          write_entry-Holds (Holds-used_blocks (release x.blocks fs.used_blocks) h) i zero_entry lt
            zero_entry-IsEntry in
        (d, rw (free_blocks-release x.blocks fs, wrote), held)

    -- sfs_remove answers as the directory does: -1 with nothing changed if no entry has the name,
    -- and otherwise the inode number of the first that has it, which is then zeroed, with its
    -- blocks before the first 0 given back and every other entry and the super block as before.
    pub sfs_remove-find : Removes fs es (find fn es) (sfs_remove fs fn)
    unfolding sfs_remove
    sfs_remove-find = elim (Option-cases (find fn es)) [
      | inl e ↦ rw (e, sfs_lookup-find fn zero_entry h, e, sfs_remove) (refl, refl)
      | inr ((i, x), e) ↦
          let (d, erased, held) = erase_found i x (find-some fn es i x e).inside in
          rw (e, sfs_lookup-find fn zero_entry h, e, sfs_remove, erased) (refl, held, refl, refl)
    ]
