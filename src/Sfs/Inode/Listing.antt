-- ===== src/Sfs/Inode/Listing.antt =====
-- sfs_readdir of real_sfs.c: what a whole listing shows, and what a resumed one does.
use linuxpedia.Prelude.{
  ℕ, suc, ◌+◌, ◌<◌, ◌≡◌, ap, sym, ◌∙◌, Bool, false, List, [], ◌∷◌, ◌++◌, length, arith, ◌==◌, ne→==,
  if◌then◌else◌, ap₂, Bool-cases, inl, inr,
}
use mathlib.Core.List.{append-nil, append_assoc}
use linuxpedia.Prelude.Int.{ℤ, pos, minus_one, eq_ℤ}
use linuxpedia.Prelude.CString.{c_str}
use linuxpedia.Sfs.Layout.{FileEntry, name_first}
use linuxpedia.Sfs.Device.{BufferCache}
use linuxpedia.Sfs.BlockIo.{Fs}
use linuxpedia.Sfs.BlockIo.Table.{Holds}
use linuxpedia.Sfs.Entries.{DirEntry, dt_dir, dt_reg, s2v_inode_num, list_loop, sfs_list}
use linuxpedia.Sfs.Entries.Scan.{Reads, Holds-Reads}
use linuxpedia.Sfs.Inode.{sfs_readdir, readdir_files}
use linuxpedia.Sfs.Directory.{in_use}

-- A callback that has room for every entry.
abbrev pub collect : List DirEntry → DirEntry → Bool × List DirEntry
collect shown e = (false, shown ++ e ∷ [])

-- The entries in use with their inode numbers, from position `at` on.
unfoldable pub listing : (ino at : ℕ) → List FileEntry → List DirEntry
listing ino at [] = []
listing ino at (x ∷ xs) =
    if in_use x
    then record { name = c_str x.name; at = at; ino = s2v_inode_num ino; kind = dt_reg }
      ∷ listing (suc ino) (at + 1) xs
    else listing (suc ino) at xs

module _ {D : Type 0} ⦃cache : BufferCache D⦄ where
  list_loop-listing :
      (fs : Fs D) (ino at : ℕ) (xs : List FileEntry) (shown : List DirEntry)
      → Reads fs ino xs
      → list_loop fs collect (length xs) ino at shown
        ≡ (pos 0, at + length (listing ino at xs), shown ++ listing ino at xs)
  unfolding list_loop listing
  list_loop-listing fs ino at [] shown h =
      rw (append-nil shown) (ap (λ n. (pos 0, n, shown)) (omega arith))
  list_loop-listing fs ino at (x ∷ xs) shown h = elim (Bool-cases (name_first x == 0)) [
    | inl e ↦ rw (h.0, list_loop, e) (list_loop-listing fs (suc ino) at xs shown h.1)
    | inr e ↦
        let shown_x : DirEntry = record {
          name = c_str x.name;
          at = at;
          ino = s2v_inode_num ino;
          kind = dt_reg;
        } in
        rw (h.0, list_loop, e)
          (list_loop-listing fs (suc ino) (at + 1) xs (shown ++ shown_x ∷ []) h.1
            ∙ ap₂ (λ n l. (pos 0, n, l)) (omega arith)
                (append_assoc shown (shown_x ∷ []) (listing (suc ino) (at + 1) xs)))
  ]

  -- With room for all, a listing from the start shows ".", "..", and then every file once, in the
  -- order of the table and under its inode number; it returns 1 with `f_pos` past the last one.
  pub sfs_readdir-listing :
      {fs : Fs D} {es : List FileEntry} (ino parent : ℤ)
      → Holds fs es
      → sfs_readdir fs collect ino parent 0 [] ≡ (
        pos 1,
        2 + length (listing 0 2 es),
        record { name = b'.' ∷ []; at = 0; ino = ino; kind = dt_dir }
            ∷ record { name = b'.' ∷ b'.' ∷ []; at = 1; ino = parent; kind = dt_dir }
            ∷ listing 0 2 es,
      )
  unfolding sfs_readdir readdir_files sfs_list
  sfs_readdir-listing {fs} {es} ino parent h =
      ap (λ (r : ℤ × ℕ × List DirEntry). (if eq_ℤ r.0 minus_one then pos 0 else pos 1, r.1, r.2))
        (ap (λ n. list_loop fs collect n 0 2 dots) (sym h.count)
          ∙ list_loop-listing fs 0 2 es dots (Holds-Reads h))
    where
      dots : List DirEntry
      dots =
          record { name = b'.' ∷ []; at = 0; ino = ino; kind = dt_dir }
          ∷ record { name = b'.' ∷ b'.' ∷ []; at = 1; ino = parent; kind = dt_dir }
          ∷ []

  -- A listing that goes on after the first file shows nothing more, whatever files are left.
  pub sfs_readdir-resumed :
      {B : Type 0} (fs : Fs D) (filldir : B → DirEntry → Bool × B) (ino parent : ℤ) (f_pos : ℕ)
      (dirent : B)
      → 2 < f_pos
      → sfs_readdir fs filldir ino parent f_pos dirent ≡ (pos 0, f_pos, dirent)
  unfolding sfs_readdir readdir_files
  sfs_readdir-resumed fs filldir ino parent f_pos dirent h =
      rw (ne→== f_pos 0 (omega arith), ne→== f_pos 1 (omega arith), ne→== f_pos 2 (omega arith))
