-- ===== src/Sfs/Inode.antt =====
-- The callbacks of real_sfs.c for files and directories. The kernel's inode calls are parameters:
-- whether `new_inode` succeeds, and what `iget_locked` returns.
pub mod Listing
pub mod Modes
use Prim.Native.Nat.{bit_and, bit_or}
use linuxpedia.Prelude.{
  ℕ, ◌+◌, Bool, true, false, not, Option, none, some, List, [], ◌∷◌, ◌++◌, get_or, set, length, ltb,
  leb, ◌==◌, if◌then◌else◌,
}
use linuxpedia.Prelude.Int.{ℤ, pos, minus_one, eq_ℤ, neg_eio, neg_enospc, neg_eacces, neg_enoent}
use linuxpedia.Prelude.CString.{strncpy}
use linuxpedia.Sfs.Layout.{FileEntry, zero_entry, simula_fs_data_block_cnt}
use linuxpedia.Sfs.Device.{BufferCache}
use linuxpedia.Sfs.BlockIo.{Fs}
use linuxpedia.Sfs.Blocks.{sfs_get_data_block}
use linuxpedia.Sfs.Entries.{
  DirEntry, dt_dir, to_u32, sfs_create, sfs_remove, sfs_lookup, sfs_update, sfs_get_file_entry,
  sfs_update_file_entry, sfs_list,
}

abbrev pub s_ifreg : ℕ
s_ifreg = 0o100000

-- The bits of S_IRUSR | S_IRGRP | S_IROTH and its fellows are disjoint, so `|=` is a sum.
unfoldable pub perms_of_mode : ℕ → ℕ
perms_of_mode mode =
    (if bit_and mode 0o444 == 0 then 0 else 4)
    + (if bit_and mode 0o222 == 0 then 0 else 2)
    + (if bit_and mode 0o111 == 0 then 0 else 1)

unfoldable pub mode_of_perms : ℕ → ℕ
mode_of_perms perms =
    s_ifreg
    + (if bit_and perms 4 == 0 then 0 else 0o444)
    + (if bit_and perms 2 == 0 then 0 else 0o222)
    + (if bit_and perms 1 == 0 then 0 else 0o111)

-- The fields of a `struct inode` that the module fills in.
pub record Inode : Type 0 where
  pub i_ino : ℤ
  pub i_size : ℕ
  pub i_mode : ℕ
  pub i_time : ℕ

-- What sfs_inode_lookup hands back: an error, a dentry with no inode, or the inode.
pub data Looked : Type 0 where
  error : ℤ → Looked
  negative : Looked
  found : Inode → Looked

-- `iget_locked`: no inode, one marked I_NEW, or one from the cache.
pub data Iget : Type 0 where
  no_inode : Iget
  fresh : Iget
  cached : Inode → Iget

-- `fn`, the dentry's name with its end mark
abbrev pub dentry_name : List ℕ → List ℕ
dentry_name name = strncpy (length name) name ++ (0 ∷ [])

module _ {D : Type 0} ⦃cache : BufferCache D⦄ where
  -- The part of sfs_get_block for a block that the file does not have yet.
  unfoldable pub allocate_block : Fs D → ℤ → ℕ → FileEntry → ℤ × Option ℕ × Fs D
  allocate_block fs i_ino iblock fe =
      let (got, fs') = sfs_get_data_block fs in
      let block = to_u32 got in
      if block == to_u32 minus_one
      then (neg_enospc, none, fs')
      else let (code, fs'') =
          sfs_update_file_entry fs' i_ino (record fe { blocks = set fe.blocks iblock block }) in
        if eq_ℤ code minus_one then (neg_eio, none, fs'') else (pos 0, some block, fs'')

  -- The option is the block that `map_bh` maps.
  unfoldable pub sfs_get_block : Fs D → ℤ → ℕ → Bool → ℤ × Option ℕ × Fs D
  unfolding allocate_block
  sfs_get_block fs i_ino iblock create =
      if leb simula_fs_data_block_cnt iblock
      then (neg_enospc, none, fs)
      else let (code, fe) = sfs_get_file_entry fs i_ino zero_entry in
        if eq_ℤ code minus_one
        then (neg_eio, none, fs)
        else if get_or fe.blocks iblock 0 == 0
        then if not create then (neg_eio, none, fs) else allocate_block fs i_ino iblock fe
        else (pos 0, some (get_or fe.blocks iblock 0), fs)

  unfoldable pub sfs_inode_create :
      Fs D → List ℕ → (mode now : ℕ) → (new_inode : Bool) → ℤ × Option Inode × Fs D
  sfs_inode_create fs name mode now new_inode =
      let fn = dentry_name name in
      let (ino, fe, fs') = sfs_create fs fn (perms_of_mode mode) now zero_entry in
      if eq_ℤ ino minus_one
      then (neg_eio, none, fs')
      else if not new_inode
      then (let (code, fs'') = sfs_remove fs' fn in (neg_eacces, none, fs''))
      else (
        pos 0,
        some (record {
          i_ino = ino;
          i_size = fe.size;
          i_mode = bit_or s_ifreg mode;
          i_time = fe.timestamp;
        }),
        fs',
      )

  unfoldable pub sfs_inode_unlink : Fs D → List ℕ → ℤ × Fs D
  sfs_inode_unlink fs name =
      let (ino, fs') = sfs_remove fs (dentry_name name) in
      if eq_ℤ ino minus_one then (neg_eio, fs') else (pos 0, fs')

  unfoldable pub sfs_inode_lookup :
      Fs D → (parent_is_root : Bool) → List ℕ → (iget_locked : ℤ → Iget) → Looked
  unfolding mode_of_perms
  sfs_inode_lookup fs parent_is_root name iget_locked =
      if not parent_is_root
      then error neg_enoent
      else let (ino, fe) = sfs_lookup fs (dentry_name name) zero_entry in
        if eq_ℤ ino minus_one then negative else elim (iget_locked ino) [
          | no_inode ↦ error neg_eacces
          | fresh ↦ found (record {
            i_ino = ino;
            i_size = fe.size;
            i_mode = mode_of_perms fe.perms;
            i_time = fe.timestamp;
          })
          | cached inode ↦ found inode
        ]

  -- `is_reg` is S_ISREG(inode->i_mode).
  unfoldable pub sfs_write_inode :
      Fs D → (is_reg : Bool) → (i_ino : ℤ) → (size i_mode mtime ctime : ℕ) → ℤ × Fs D
  unfolding perms_of_mode
  sfs_write_inode fs is_reg i_ino size i_mode mtime ctime =
      if not is_reg
      then (pos 0, fs)
      else sfs_update fs i_ino (some (pos size))
          (some (pos (if ltb ctime mtime then mtime else ctime)))
          (some (pos (perms_of_mode i_mode)))

  -- The part of sfs_readdir from `f_pos == 2` on.
  unfoldable pub readdir_files : {B : Type 0} → Fs D → (B → DirEntry → Bool × B) → ℕ → B → ℤ × ℕ × B
  readdir_files fs filldir f_pos dirent =
      if f_pos == 2
      then (let (code, f_pos', dirent') = sfs_list fs filldir f_pos dirent in
          (if eq_ℤ code minus_one then pos 0 else pos 1, f_pos', dirent'))
      else (pos 0, f_pos, dirent)

  unfoldable pub readdir_parent :
      {B : Type 0} → Fs D → (B → DirEntry → Bool × B) → ℤ → ℕ → B → ℤ × ℕ × B
  unfolding readdir_files
  readdir_parent fs filldir parent_ino f_pos dirent =
      if f_pos == 1
      then (let (over, dirent') =
            filldir dirent
              (record { name = b'.' ∷ b'.' ∷ []; at = f_pos; ino = parent_ino; kind = dt_dir }) in
          if over then (pos 0, f_pos, dirent') else readdir_files fs filldir (f_pos + 1) dirent')
      else readdir_files fs filldir f_pos dirent

  unfoldable pub sfs_readdir :
      {B : Type 0} → Fs D → (B → DirEntry → Bool × B) → (ino parent_ino : ℤ) → ℕ → B → ℤ × ℕ × B
  unfolding readdir_parent
  sfs_readdir fs filldir ino parent_ino f_pos dirent =
      if f_pos == 0
      then (let (over, dirent') =
            filldir dirent (record { name = b'.' ∷ []; at = f_pos; ino = ino; kind = dt_dir }) in
          if over
          then (pos 0, f_pos, dirent')
          else readdir_parent fs filldir parent_ino (f_pos + 1) dirent')
      else readdir_parent fs filldir parent_ino f_pos dirent
