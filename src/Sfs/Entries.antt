-- ===== src/Sfs/Entries.antt =====
-- The operations of real_sfs_ops.c on the table of file entries. A function that stores through
-- its `sfs_file_entry_t *fe` returns the entry that it leaves there; the code's `int` comes first.
pub mod Scan
pub mod Refine
use linuxpedia.Prelude.{
  ℕ, zero, suc, ◌+◌, ◌-◌, ◌/◌, ◌%◌, Bool, true, false, Option, none, some, List, [], ◌∷◌, ◌++◌,
  replicate, ◌==◌, if◌then◌else◌, ◌&&◌, ◌||◌, leb,
}
use linuxpedia.Prelude.Int.{ℤ, pos, negsuc, minus_one, eq_ℤ, is_neg}
use linuxpedia.Prelude.CString.{c_str, strlen, str_eq, strncpy}
use linuxpedia.Sfs.Layout.{FileEntry, u32_mod, zero_entry, name_first}
use linuxpedia.Sfs.Device.{BufferCache}
use linuxpedia.Sfs.BlockIo.{Fs, failed, copied, read_entry, write_entry}
use linuxpedia.Sfs.Blocks.{sfs_put_data_block}

-- S2V_INODE_NUM
abbrev pub s2v_inode_num : ℕ → ℤ
s2v_inode_num i = pos (suc i)

-- An `int` stored in a `byte4_t`.
abbrev pub to_u32 : ℤ → ℕ
to_u32 (pos n) = n % u32_mod
to_u32 (negsuc n) = u32_mod - 1 - n % u32_mod

-- V2S_INODE_NUM, as the unsigned number that it is multiplied as.
abbrev pub v2s_inode_num : ℤ → ℕ
v2s_inode_num (pos zero) = u32_mod - 1
v2s_inode_num (pos (suc i)) = i
v2s_inode_num (negsuc i) = to_u32 (negsuc (suc i))

-- The loop of sfs_create: it stops with -1, or ends with `free_ino`.
pub data CreateScan : Type 0 where
  stopped : FileEntry → CreateScan
  scanned : ℤ → FileEntry → CreateScan

-- What the callback `filldir` is told; it returns whether the listing is over, with its new state.
pub data FileKind : Type 0 where
  dt_dir dt_reg : FileKind

pub record DirEntry : Type 0 where
  pub name : List ℕ
  pub at : ℕ
  pub ino : ℤ
  pub kind : FileKind

abbrev pub new_entry : List ℕ → ℕ → ℕ → FileEntry
new_entry fn perms now = record {
  name = strncpy 15 fn ++ (0 ∷ []);
  size = 0;
  timestamp = now % u32_mod;
  perms = perms % u32_mod;
  blocks = replicate 9 0;
}

-- The fields that sfs_update sets; `none` is a null pointer.
abbrev pub set_fields : Option ℤ → Option ℤ → Option ℤ → FileEntry → FileEntry
set_fields size timestamp perms fe = record {
  name = fe.name;
  size = elim size [ none ↦ fe.size | some n ↦ to_u32 n ];
  timestamp = elim timestamp [ none ↦ fe.timestamp | some n ↦ to_u32 n ];
  perms = elim perms [
    | none ↦ fe.perms
    | some n ↦ if is_neg n || leb (to_u32 n) 7 then to_u32 n else fe.perms
  ];
  blocks = fe.blocks;
}

-- The first block that a file of this size does not need, in `byte4_t` arithmetic.
abbrev pub blocks_needed : ℕ → ℕ → ℕ
blocks_needed size block_size = (size + block_size + (u32_mod - 1)) % u32_mod / block_size

module _ {D : Type 0} where
  -- The loop of sfs_remove over the blocks of an entry: it stops at the first 0.
  pub free_blocks : List ℕ → Fs D → Fs D
  free_blocks [] fs = fs
  free_blocks (b ∷ bs) fs =
      let rest = free_blocks bs (sfs_put_data_block fs b) in if b == 0 then fs else rest

  -- The loop of sfs_update: the blocks from index `i` on are given back and zeroed.
  unfoldable pub truncate_blocks : (i : ℕ) → List ℕ → Fs D → List ℕ × Fs D
  truncate_blocks i [] fs = ([], fs)
  truncate_blocks (suc i) (b ∷ bs) fs = let (bs', fs') = truncate_blocks i bs fs in (b ∷ bs', fs')
  truncate_blocks zero (b ∷ bs) fs =
      let (bs', fs') = truncate_blocks zero bs (if b == 0 then fs else sfs_put_data_block fs b) in
      (0 ∷ bs', fs')

module _ {D : Type 0} ⦃cache : BufferCache D⦄ where
  pub lookup_loop : Fs D → List ℕ → (left ino : ℕ) → FileEntry → ℤ × FileEntry
  lookup_loop fs fn zero ino fe = (minus_one, fe)
  lookup_loop fs fn (suc k) ino fe = elim (read_entry fs ino) [
    | failed e ↦ (minus_one, fe)
    | copied fe' ↦
        let rest = lookup_loop fs fn k (suc ino) fe' in
        if name_first fe' == 0
        then rest
        else if str_eq fe'.name fn
        then (s2v_inode_num ino, fe')
        else rest
  ]

  unfoldable pub sfs_lookup : Fs D → List ℕ → FileEntry → ℤ × FileEntry
  unfolding lookup_loop
  sfs_lookup fs fn fe = lookup_loop fs fn fs.sb.entry_count 0 fe

  pub create_loop : Fs D → List ℕ → (left ino : ℕ) → (free_ino : ℤ) → FileEntry → CreateScan
  create_loop fs fn zero ino free_ino fe = scanned free_ino fe
  create_loop fs fn (suc k) ino free_ino fe = elim (read_entry fs ino) [
    | failed e ↦ stopped fe
    | copied fe' ↦
        let free_ino' =
          if name_first fe' == 0 && eq_ℤ free_ino minus_one then pos ino else free_ino in
        let rest = create_loop fs fn k (suc ino) free_ino' fe' in
        if name_first fe' == 0 then rest else if str_eq fe'.name fn then stopped fe' else rest
  ]

  -- The part of sfs_create after its loop; `free_ino` is -1 or the index of an unused entry.
  unfoldable pub store_new : Fs D → List ℕ → ℕ → ℕ → ℤ → FileEntry → ℤ × FileEntry × Fs D
  store_new fs fn perms now (negsuc _) fe = (minus_one, fe, fs)
  store_new fs fn perms now (pos free_ino) fe =
      let fe' = new_entry fn perms now in
      let (code, fs') = write_entry fs free_ino fe' in
      if eq_ℤ code minus_one then (minus_one, fe', fs') else (s2v_inode_num free_ino, fe', fs')

  -- `now` is what get_seconds() returns.
  unfoldable pub sfs_create : Fs D → List ℕ → ℕ → ℕ → FileEntry → ℤ × FileEntry × Fs D
  unfolding create_loop store_new
  sfs_create fs fn perms now fe = elim (create_loop fs fn fs.sb.entry_count 0 minus_one fe) [
    | stopped fe' ↦ (minus_one, fe', fs)
    | scanned free_ino fe' ↦ store_new fs fn perms now free_ino fe'
  ]

  -- The part of sfs_remove after its lookup has found the entry.
  unfoldable pub erase_entry : Fs D → ℤ → FileEntry → ℤ × Fs D
  unfolding free_blocks
  erase_entry fs vfs_ino fe =
      let (code, fs') = write_entry (free_blocks fe.blocks fs) (v2s_inode_num vfs_ino) zero_entry in
      if eq_ℤ code minus_one then (minus_one, fs') else (vfs_ino, fs')

  -- The local `fe` of sfs_remove is uninitialised; the lookup fills it before it is read.
  unfoldable pub sfs_remove : Fs D → List ℕ → ℤ × Fs D
  unfolding erase_entry
  sfs_remove fs fn =
      let (vfs_ino, fe) = sfs_lookup fs fn zero_entry in
      if eq_ℤ vfs_ino minus_one then (minus_one, fs) else erase_entry fs vfs_ino fe

  unfoldable pub sfs_get_file_entry : Fs D → ℤ → FileEntry → ℤ × FileEntry
  sfs_get_file_entry fs vfs_ino fe = elim (read_entry fs (v2s_inode_num vfs_ino)) [
    | failed e ↦ (minus_one, fe)
    | copied fe' ↦ (pos 0, fe')
  ]

  -- The part of sfs_update after the fields have been set. A block size of 0 would trap.
  unfoldable pub resize_entry : Fs D → ℤ → FileEntry → ℤ × Fs D
  resize_entry fs vfs_ino fe =
      let (blocks, fs') = truncate_blocks (blocks_needed fe.size fs.sb.block_size) fe.blocks fs in
      write_entry fs' (v2s_inode_num vfs_ino) (record fe { blocks = blocks })

  unfoldable pub sfs_update : Fs D → ℤ → Option ℤ → Option ℤ → Option ℤ → ℤ × Fs D
  unfolding resize_entry truncate_blocks
  sfs_update fs vfs_ino size timestamp perms =
      let (code, fe) = sfs_get_file_entry fs vfs_ino zero_entry in
      if eq_ℤ code minus_one
      then (minus_one, fs)
      else resize_entry fs vfs_ino (set_fields size timestamp perms fe)

  unfoldable pub sfs_update_file_entry : Fs D → ℤ → FileEntry → ℤ × Fs D
  sfs_update_file_entry fs vfs_ino fe = write_entry fs (v2s_inode_num vfs_ino) fe

  unfoldable pub list_loop :
      {B : Type 0} → Fs D → (B → DirEntry → Bool × B) → (left ino f_pos : ℕ) → B → ℤ × ℕ × B
  list_loop fs filldir zero ino f_pos dirent = (pos 0, f_pos, dirent)
  list_loop fs filldir (suc k) ino f_pos dirent = elim (read_entry fs ino) [
    | failed e ↦ (minus_one, f_pos, dirent)
    | copied fe ↦ elim (name_first fe == 0) [
      | true ↦ list_loop fs filldir k (suc ino) f_pos dirent
      | false ↦
          let (over, dirent') =
            filldir dirent (record {
              name = c_str fe.name;
              at = f_pos;
              ino = s2v_inode_num ino;
              kind = dt_reg;
            }) in
          elim over [
            | true ↦ (pos 1, f_pos, dirent')
            | false ↦ list_loop fs filldir k (suc ino) (f_pos + 1) dirent'
          ]
    ]
  ]

  unfoldable pub sfs_list : {B : Type 0} → Fs D → (B → DirEntry → Bool × B) → ℕ → B → ℤ × ℕ × B
  unfolding list_loop
  sfs_list fs filldir f_pos dirent = list_loop fs filldir fs.sb.entry_count 0 f_pos dirent
