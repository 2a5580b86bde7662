-- ===== src/Sfs/Consistent/Files.antt =====
-- Creating, removing and looking up files on a consistent file system.
use linuxpedia.Prelude.{
  ℕ, ◌≤◌, ◌<◌, ◌≡◌, refl, ◌≢◌, inl, inr, ap, sym, ◌∙◌, true, Option, some, List, get_or, set,
  length, arith,
}
use linuxpedia.Prelude.Int.{minus_one}
use linuxpedia.Prelude.CString.{c_str, strlen}
use linuxpedia.Sfs.Layout.{SuperBlock, FileEntry, zero_entry}
use linuxpedia.Sfs.Device.{BufferCache}
use linuxpedia.Sfs.BlockIo.{Fs}
use linuxpedia.Sfs.BlockIo.Table.{Holds}
use linuxpedia.Sfs.Entries.{new_entry, s2v_inode_num, sfs_create, sfs_remove, sfs_lookup}
use linuxpedia.Sfs.Entries.Scan.{sfs_lookup-find, last_or, answer}
use linuxpedia.Sfs.Entries.Refine.{Creates, sfs_create-create_in, Removes, sfs_remove-find, release}
use linuxpedia.Sfs.Directory.{find, create_in, in_use}
use linuxpedia.Sfs.Directory.Laws.{find-some}
use linuxpedia.Sfs.Directory.Change.{
  Fits, Created, create_in-Created, find-create, find-create_ne, find-create_long, create-Distinct,
  named→in_use, find-remove, remove-Distinct,
}
use linuxpedia.Sfs.Ownership.{IsSound}
use linuxpedia.Sfs.Ownership.Change.{
  occ-replicate, own-zero_entry, own_unused, own_live, own_le, length-release, release-Cleared,
}
use linuxpedia.Sfs.Ownership.Laws.{Gives, IsSound-Gives}
use linuxpedia.Sfs.Consistent.{IsConsistent}

new-IsSound :
    {sb : SuperBlock} {used : List ℕ} {es es' : List FileEntry} {fn : List ℕ} {perms now i : ℕ}
    → IsSound sb used es
    → Created es fn perms now i es'
    → IsSound sb used es'
new-IsSound {used} {es} {fn} {perms} {now} {i} s c = rw c.changed (
    IsSound-Gives s i (new_entry fn perms now) used c.inside refl (s.bits 0) (λ b nz. inl (
      refl,
      omega (
        arith,
        own_unused b (get_or es i zero_entry) c.unused,
        own_le b (new_entry fn perms now),
        occ-replicate b 9 nz,
      ),
    )))

-- The blocks of a removed entry before its first 0 are given back, and it owns none any more.
removed-IsSound :
    {sb : SuperBlock} {used : List ℕ} {es : List FileEntry} {i : ℕ} {x : FileEntry}
    → IsSound sb used es
    → i < length es
    → get_or es i zero_entry ≡ x
    → in_use x ≡ true
    → IsSound sb (release x.blocks used) (set es i zero_entry)
removed-IsSound {used} {es} {i} {x} s lt e live =
    IsSound-Gives s i zero_entry (release x.blocks used) lt (length-release x.blocks used) first
      (λ b nz. rw e (gives b))
  where
    gives : (b : ℕ) → Gives x zero_entry used (release x.blocks used) b
    gives b = elim (release-Cleared x.blocks used b) [
      | inl kept ↦ inl (kept, omega (arith, own-zero_entry b))
      | inr (zeroed, listed) ↦
          inr (zeroed, omega (arith, own-zero_entry b, own_live b x live, listed))
    ]

    first : get_or (release x.blocks used) 0 0 ≤ 1
    first = elim (release-Cleared x.blocks used 0) [
      | inl kept ↦ omega (arith, kept, s.bits 0)
      | inr (zeroed, listed) ↦ omega (arith, zeroed)
    ]

module _ {D : Type 0} ⦃cache : BufferCache D⦄ {fs : Fs D} {es : List FileEntry} where
  module _ (fn : List ℕ) (perms now : ℕ) (fe : FileEntry) {i : ℕ} {es' : List FileEntry} where
    created :
        Holds fs es
        → create_in es fn perms now ≡ some (i, es')
        → Creates fs (new_entry fn perms now) (some (i, es')) (sfs_create fs fn perms now fe)
    created h e = rw e at (sfs_create-create_in h fn perms now fe)

    -- Creating a file with a name that fits keeps the file system consistent.
    pub sfs_create-IsConsistent :
        IsConsistent fs es
        → Fits fn
        → create_in es fn perms now ≡ some (i, es')
        → IsConsistent (sfs_create fs fn perms now fe).2 es'
    sfs_create-IsConsistent k f e =
        let r = created k.holds e in
        let c = create_in-Created es fn perms now i es' e in
        record {
          holds = r.2;
          distinct = create-Distinct c f k.distinct;
          sound = rw (r.3, r.4) (new-IsSound k.sound c);
        }

    -- A file that was created under a name that fits is found under it, with the inode number
    -- that the creation returned, and empty.
    pub lookup-create :
        (g : FileEntry)
        → Holds fs es
        → Fits fn
        → create_in es fn perms now ≡ some (i, es')
        → ((sfs_create fs fn perms now fe).0 ≡ s2v_inode_num i)
          × (sfs_lookup (sfs_create fs fn perms now fe).2 fn g
              ≡ (s2v_inode_num i, new_entry fn perms now))
    lookup-create g h f e =
        let r = created h e in
        let c = create_in-Created es fn perms now i es' e in
        (r.0, sfs_lookup-find fn g r.2 ∙ ap (λ o. answer o (last_or es' g)) (find-create c f))

    -- The creation of one file leaves every other lookup with the answer that it had.
    pub lookup-create_ne :
        (fn' : List ℕ) (g : FileEntry)
        → Holds fs es
        → Fits fn
        → create_in es fn perms now ≡ some (i, es')
        → c_str fn ≢ c_str fn'
        → (sfs_lookup (sfs_create fs fn perms now fe).2 fn' g).0 ≡ (sfs_lookup fs fn' g).0
    lookup-create_ne fn' g h f e ne =
        let r = created h e in
        let c = create_in-Created es fn perms now i es' e in
        ap (λ p. p.0) (sfs_lookup-find fn' g r.2)
        ∙ code_of_answer (find fn' es') (find fn' es) (find-create_ne c fn' f ne)
        ∙ sym (ap (λ p. p.0) (sfs_lookup-find fn' g h))
      where
        code_of_answer :
            (o o' : Option (ℕ × FileEntry))
            → o ≡ o'
            → (answer o (last_or es' g)).0 ≡ (answer o' (last_or es g)).0
        code_of_answer o o' p = ground (arith, p)

    -- A file that was created under a name of more than 15 bytes is not found under it.
    pub lookup-create_long :
        (g : FileEntry)
        → Holds fs es
        → 15 < strlen fn
        → create_in es fn perms now ≡ some (i, es')
        → ((sfs_create fs fn perms now fe).0 ≡ s2v_inode_num i)
          × ((sfs_lookup (sfs_create fs fn perms now fe).2 fn g).0 ≡ minus_one)
    lookup-create_long g h long e =
        let r = created h e in
        let c = create_in-Created es fn perms now i es' e in
        (
          r.0,
          ap (λ p. p.0) (sfs_lookup-find fn g r.2)
              ∙ ap (λ o. (answer o (last_or es' g)).0) (find-create_long c long),
        )

  module _ (fn : List ℕ) {i : ℕ} {x : FileEntry} where
    removed :
        Holds fs es → find fn es ≡ some (i, x) → Removes fs es (some (i, x)) (sfs_remove fs fn)
    removed h e = rw e at (sfs_remove-find h fn)

    -- Removing a file keeps the file system consistent.
    pub sfs_remove-IsConsistent :
        IsConsistent fs es
        → find fn es ≡ some (i, x)
        → IsConsistent (sfs_remove fs fn).1 (set es i zero_entry)
    sfs_remove-IsConsistent k e =
        let r = removed k.holds e in
        let f = find-some fn es i x e in
        record {
          holds = r.1;
          distinct = remove-Distinct f k.distinct;
          sound =
              rw (r.2, r.3)
                (removed-IsSound k.sound f.inside f.here (named→in_use fn x f.has_name));
        }

    -- After a removal the name is not found.
    pub lookup-remove :
        (g : FileEntry)
        → IsConsistent fs es
        → find fn es ≡ some (i, x)
        → ((sfs_remove fs fn).0 ≡ s2v_inode_num i)
          × ((sfs_lookup (sfs_remove fs fn).1 fn g).0 ≡ minus_one)
    lookup-remove g k e =
        let r = removed k.holds e in
        (
          r.0,
          ap (λ p. p.0) (sfs_lookup-find fn g r.1)
              ∙ ap (λ o. (answer o (last_or (set es i zero_entry) g)).0)
                  (find-remove (find-some fn es i x e) k.distinct),
        )
