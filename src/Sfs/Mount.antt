-- ===== src/Sfs/Mount.antt =====
-- Mounting: init_browsing of real_sfs_ops.c, and get_bit_pos, sfs_fill_super and sfs_kill_sb of
-- real_sfs.c. Whether an allocation of the kernel succeeds is a parameter.
pub mod Tracker
pub mod Sound
use linuxpedia.Prelude.{
  ℕ, zero, suc, ◌+◌, ◌-◌, ◌/◌, Bool, true, false, not, Option, none, some, List, [], ◌∷◌, ◌++◌,
  replicate, set, ◌==◌, if◌then◌else◌,
}
use linuxpedia.Prelude.Int.{ℤ, pos, negsuc, is_neg, neg_eio, neg_einval, neg_enomem, neg_eacces}
use linuxpedia.Sfs.Layout.{SuperBlock, simula_fs_type, name_first}
use linuxpedia.Sfs.Device.{BufferCache}
use linuxpedia.Sfs.BlockIo.{Fs, Transfer, failed, copied, read_sb_from_real_sfs, read_entry}

-- `used_blocks[fe.blocks[j]] = 1` for the blocks before the first 0. A number outside of the tracker,
-- where the source writes out of bounds, changes nothing here.
unfoldable pub mark_blocks : List ℕ → List ℕ → List ℕ
mark_blocks [] used = used
mark_blocks (b ∷ bs) used =
    let rest = mark_blocks bs (set used b 1) in if b == 0 then used else rest

-- The tracker after the two first loops of init_browsing, where the data area starts inside the
-- partition.
abbrev pub initial_map : SuperBlock → List ℕ
initial_map sb =
    replicate sb.data_block_start 1 ++ replicate (sb.partition_size - sb.data_block_start) 0

-- for (i = 0; val; i++) val >>= 1; on fuel
unfoldable pub bit_loop : (fuel val i : ℕ) → Option ℕ
bit_loop zero val i = none
bit_loop (suc f) val i =
    let rest = bit_loop f (val / 2) (i + 1) in if val == 0 then some i else rest

-- An `unsigned int` is 0 after at most 32 shifts.
unfoldable pub get_bit_pos : ℕ → Option ℤ
unfolding bit_loop
get_bit_pos val = elim (bit_loop 33 val 0) [
  | none ↦ none
  | some zero ↦ some (negsuc 0)
  | some (suc i) ↦ some (pos i)
]

module _ {D : Type 0} ⦃cache : BufferCache D⦄ where
  -- The loop of init_browsing over the entry table.
  unfoldable pub mark_loop : Fs D → (left ino : ℕ) → List ℕ → Transfer (List ℕ)
  mark_loop fs zero ino used = copied used
  mark_loop fs (suc k) ino used = elim (read_entry fs ino) [
    | failed e ↦ failed neg_enomem
    | copied fe ↦
        mark_loop fs k (suc ino) (if name_first fe == 0 then used else mark_blocks fe.blocks used)
  ]

  -- `vmalloc` says whether the tracker can be allocated. On success the option holds the `info`
  -- that `s_fs_info` then points to.
  unfoldable pub init_browsing : D → (vmalloc : Bool) → ℤ × Option (Fs D)
  unfolding mark_loop mark_blocks
  init_browsing d vmalloc = elim (read_sb_from_real_sfs d) [
    | failed e ↦ (neg_eio, none)
    | copied sb ↦
        if not (sb.type == simula_fs_type)
        then (neg_einval, none)
        else if not vmalloc
        then (neg_enomem, none)
        else let fs : Fs D = record { sb = sb; used_blocks = []; dev = d } in
          elim (mark_loop fs sb.entry_count 0 (initial_map sb)) [
            | failed e ↦ (e, none)
            | copied used ↦ (pos 0, some (record fs { used_blocks = used }))
          ]
  ]
