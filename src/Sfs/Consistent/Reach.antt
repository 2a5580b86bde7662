-- ===== src/Sfs/Consistent/Reach.antt =====
-- Any sequence of the module's operations, as the kernel may call them in any order.
use linuxpedia.Prelude.{
  ℕ, ◌<◌, ◌≡◌, inl, inr, sym, ◌∙◌, true, Option, List, get_or, set, length, arith, Option-cases,
  Bool-cases, ◌==◌, ==→eq, ==→ne,
}
use linuxpedia.Prelude.Int.{ℤ}
use linuxpedia.Sfs.Layout.{FileEntry, zero_entry}
use linuxpedia.Sfs.Device.{BufferCache}
use linuxpedia.Sfs.BlockIo.{Fs, copied, read_entry}
use linuxpedia.Sfs.BlockIo.Table.{Holds}
use linuxpedia.Sfs.Entries.{s2v_inode_num, sfs_create, sfs_remove, sfs_update}
use linuxpedia.Sfs.Entries.Refine.{sfs_create-create_in, sfs_remove-find}
use linuxpedia.Sfs.Inode.{sfs_get_block}
use linuxpedia.Sfs.Directory.{find, create_in, in_use}
use linuxpedia.Sfs.Directory.Change.{Fits}
use linuxpedia.Sfs.Consistent.{IsConsistent}
use linuxpedia.Sfs.Consistent.Files.{sfs_create-IsConsistent, sfs_remove-IsConsistent}
use linuxpedia.Sfs.Consistent.Blocks.{sfs_get_block-mapped, sfs_get_block-Allocates}
use linuxpedia.Sfs.Consistent.Update.{sfs_update-IsConsistent}

module _ {D : Type 0} ⦃cache : BufferCache D⦄ where
  -- Entry `i` is on the device and in use: the inode behind the call exists.
  pub record IsLive (fs : Fs D) (i : ℕ) : Type 0 where
    pub inside : i < fs.sb.entry_count
    pub entry : FileEntry
    pub reads : read_entry fs i ≡ copied entry
    pub live : in_use entry ≡ true

  pub data Step (fs fs' : Fs D) : Type 0 where
    create :
        (fn : List ℕ) (perms now : ℕ) (fe : FileEntry)
        → Fits fn
        → fs' ≡ (sfs_create fs fn perms now fe).2
        → Step fs fs'
    remove : (fn : List ℕ) → fs' ≡ (sfs_remove fs fn).1 → Step fs fs'
    write_block :
        (i k : ℕ)
        → IsLive fs i
        → k < 9
        → fs' ≡ (sfs_get_block fs (s2v_inode_num i) k true).2
        → Step fs fs'
    update :
        (i : ℕ) (size timestamp perms : Option ℤ)
        → IsLive fs i
        → fs' ≡ (sfs_update fs (s2v_inode_num i) size timestamp perms).1
        → Step fs fs'

  pub data Reach (fs : Fs D) : Fs D → Type 0 where
    here : Reach fs fs
    next : {fs' fs'' : Fs D} → Reach fs fs' → Step fs' fs'' → Reach fs fs''

  abbrev pub Consistent : Fs D → Type 0
  Consistent fs = (es : List FileEntry) × IsConsistent fs es

  live_entry :
      {fs : Fs D} {es : List FileEntry} (i : ℕ)
      → Holds fs es
      → IsLive fs i
      → (i < length es) × (in_use (get_or es i zero_entry) ≡ true)
  live_entry {fs} {es} i h v =
      let lt : i < length es = omega (arith, h.count, v.inside) in
      (lt, same (sym (h.stored i lt) ∙ v.reads) v.live)
    where
      same : {x y : FileEntry} → copied x ≡ copied y → in_use y ≡ true → in_use x ≡ true
      same e live = cc

  module _ {fs : Fs D} (es : List FileEntry) (c : IsConsistent fs es) where
    after_create :
        (fn : List ℕ) (perms now : ℕ) (fe : FileEntry)
        → Fits fn
        → Consistent (sfs_create fs fn perms now fe).2
    after_create fn perms now fe f = elim (Option-cases (create_in es fn perms now)) [
      | inl e ↦ let r = rw e at (sfs_create-create_in c.holds fn perms now fe) in (es, rw r.1 c)
      | inr ((i, es'), e) ↦ (es', sfs_create-IsConsistent fn perms now fe c f e)
    ]

    after_remove : (fn : List ℕ) → Consistent (sfs_remove fs fn).1
    after_remove fn = elim (Option-cases (find fn es)) [
      | inl e ↦ let r = rw e at (sfs_remove-find c.holds fn) in (es, rw r.1 c)
      | inr ((i, x), e) ↦ (set es i zero_entry, sfs_remove-IsConsistent fn c e)
    ]

    after_write_block :
        (i k : ℕ)
        → i < length es
        → in_use (get_or es i zero_entry) ≡ true
        → k < 9
        → Consistent (sfs_get_block fs (s2v_inode_num i) k true).2
    after_write_block i k lt live small =
        elim (Bool-cases (get_or (get_or es i zero_entry).blocks k 0 == 0)) [
          | inr has ↦
              (es, rw (sfs_get_block-mapped fs es i k lt true c.holds small (==→ne _ 0 has)) c)
          | inl hole ↦ elim (sfs_get_block-Allocates fs es i k lt c small live (==→eq _ 0 hole)) [
            | inl (full, taken) ↦ (es, rw full c)
            | inr (b, code, mapped, free, used, c') ↦ (_, c')
          ]
        ]

  -- A step of the module keeps a consistent file system consistent, whether it succeeds or fails.
  pub Step-Consistent : {fs fs' : Fs D} → Step fs fs' → Consistent fs → Consistent fs'
  Step-Consistent (create fn perms now fe f e) (es, c) = rw e (after_create es c fn perms now fe f)
  Step-Consistent (remove fn e) (es, c) = rw e (after_remove es c fn)
  Step-Consistent (write_block i k v small e) (es, c) =
      let (lt, live) = live_entry i c.holds v in rw e (after_write_block es c i k lt live small)
  Step-Consistent {fs} (update i size timestamp perms v e) (es, c) =
      let (lt, live) = live_entry i c.holds v in
      rw e (_, (sfs_update-IsConsistent fs es i lt size timestamp perms c live).1)

  -- Whatever the order of the operations, with names of 1 to 15 bytes for new files, from a consistent file system only consistent ones are
  -- reached: no two files share a name or a block, and every block of a file is marked used.
  pub Reach-Consistent : {fs fs' : Fs D} → Reach fs fs' → Consistent fs → Consistent fs'
  Reach-Consistent here c = c
  Reach-Consistent (next r s) c = Step-Consistent s (Reach-Consistent r c)
