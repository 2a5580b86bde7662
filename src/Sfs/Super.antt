-- ===== src/Sfs/Super.antt =====
-- sfs_fill_super and sfs_kill_sb of real_sfs.c, with init_browsing and shut_browsing of
-- real_sfs_ops.c below them: what is allocated and freed on each path, and what the kernel is told.
-- The kernel's allocations succeed or fail as the parameters say.
pub mod Laws
use linuxpedia.Prelude.{
  ℕ, suc, ◌+◌, Bool, true, false, not, Option, none, some, List, [], ◌==◌, if◌then◌else◌,
}
use linuxpedia.Prelude.Int.{ℤ, pos, is_neg, neg_eio, neg_enomem, neg_eacces}
use linuxpedia.Sfs.Device.{BufferCache}
use linuxpedia.Sfs.Layout.{simula_fs_type}
use linuxpedia.Sfs.BlockIo.{Fs, failed, copied, read_sb_from_real_sfs}
use linuxpedia.Sfs.Mount.{init_browsing, initial_map, mark_loop, get_bit_pos}

-- The module's memory: `info`, its tracker, whether `s_fs_info` points to `info`, and how often
-- memory that was not allocated has been used or freed.
pub record Memory : Type 0 where
  pub info_live : Bool
  pub map_live : Bool
  pub s_fs_info : Bool
  pub faults : ℕ

abbrev pub no_memory : Memory
no_memory = record { info_live = false; map_live = false; s_fs_info = false; faults = 0 }

-- vfree of the tracker
unfoldable pub vfree : Memory → Memory
vfree m = if m.map_live then record m { map_live = false } else record m { faults = m.faults + 1 }

-- It reads `info`, whose tracker has been set by then.
unfoldable pub shut_browsing : Memory → Memory
unfolding vfree
shut_browsing m = if m.info_live then vfree m else record m { faults = m.faults + 1 }

unfoldable pub kfree_info : Memory → Memory
kfree_info m =
    if m.info_live then record m { info_live = false } else record m { faults = m.faults + 1 }

-- The file system's part of sfs_kill_sb.
unfoldable pub sfs_kill_sb : Memory → Memory
unfolding shut_browsing kfree_info
sfs_kill_sb m = if m.s_fs_info then kfree_info (shut_browsing m) else m

-- The module's own structures whose addresses it gives to the kernel.
pub data ModuleTable : Type 0 where
  sfs sfs_sops sfs_iops sfs_dops sfs_aops : ModuleTable

-- A root inode that is allocated fresh.
pub record RootInode : Type 0 where
  pub i_op : ModuleTable
  pub i_mode : ℕ
  pub i_fop : ModuleTable
  pub a_ops : ModuleTable

-- S_IFDIR | S_IRWXU | S_IRWXG | S_IRWXO
abbrev pub root_mode : ℕ
root_mode = 16384 + 448 + 56 + 7

-- What the kernel's super block is told. `root` is none where the root inode comes from the inode
-- cache, with what it has.
pub record SuperInfo (D : Type 0) : Type 0 where
  pub info : Fs D
  pub s_magic : ℕ
  pub s_blocksize : ℕ
  pub s_blocksize_bits : Option ℤ
  pub s_type : ModuleTable
  pub s_op : ModuleTable
  pub root : Option RootInode

module _ {D : Type 0} ⦃cache : BufferCache D⦄ where
  -- The part of sfs_fill_super after init_browsing has returned 0.
  -- `i_new` says whether the root inode is allocated fresh.
  unfoldable pub finish_super :
      Fs D → (iget_locked i_new d_make_root : Bool) → Memory → ℤ × Option (SuperInfo D) × Memory
  unfolding shut_browsing kfree_info get_bit_pos
  finish_super fs iget_locked i_new d_make_root m =
      if not iget_locked
      then (neg_eacces, none, kfree_info (shut_browsing m))
      else if not d_make_root
      then (neg_enomem, none, kfree_info (shut_browsing m))
      else (
        pos 0,
        some (record {
          info = fs;
          s_magic = fs.sb.type;
          s_blocksize = fs.sb.block_size;
          s_blocksize_bits = get_bit_pos fs.sb.block_size;
          s_type = sfs;
          s_op = sfs_sops;
          root =
              if i_new
              then some (record {
                i_op = sfs_iops;
                i_mode = root_mode;
                i_fop = sfs_dops;
                a_ops = sfs_aops;
              })
              else none;
        }),
        m,
      )

  -- What init_browsing does to the memory: it allocates the tracker, gives it back where an entry
  -- cannot be read, and sets `s_fs_info` at its end.
  unfoldable pub browsing_memory : D → (vmalloc : Bool) → Memory → Memory
  unfolding vfree
  browsing_memory d vmalloc m = elim (read_sb_from_real_sfs d) [
    | failed e ↦ m
    | copied sb ↦
        if not (sb.type == simula_fs_type)
        then m
        else if not vmalloc
        then m
        else let m' = record m { map_live = true } in
          let fs : Fs D = record { sb = sb; used_blocks = []; dev = d } in
          elim (mark_loop fs sb.entry_count 0 (initial_map sb)) [
            | failed e ↦ vfree m'
            | copied used ↦ record m' { s_fs_info = true }
          ]
  ]

  unfoldable pub sfs_fill_super :
      D → (kzalloc vmalloc iget_locked i_new d_make_root : Bool) → ℤ × Option (SuperInfo D) × Memory
  unfolding finish_super browsing_memory kfree_info
  sfs_fill_super d kzalloc vmalloc iget_locked i_new d_make_root =
      if not kzalloc
      then (neg_enomem, none, no_memory)
      else let m = browsing_memory d vmalloc (record no_memory { info_live = true }) in
        elim (init_browsing d vmalloc).1 [
          | none ↦ (neg_eio, none, kfree_info m)
          | some fs ↦ finish_super fs iget_locked i_new d_make_root m
        ]
