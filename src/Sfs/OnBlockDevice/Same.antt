-- ===== src/Sfs/OnBlockDevice/Same.antt =====
-- On a device with blocks as large as those of the file system both modules take up a mount alike.
use native.Mathlib.Nat.{
  add-mul-div_right, add-mul-mod_self_right, add_comm, div-eq_of_lt, div-le_self, mod-eq_of_lt,
}
use linuxpedia.Prelude.{
  ℕ, zero, suc, ◌+◌, ◌*◌, ◌/◌, ◌%◌, ◌≤◌, ◌<◌, ◌≡◌, refl, sym, ap, ap₂, ◌∙◌, Bool, not, Option, none,
  some, List, [], ◌==◌, ltb, leb, slice, if◌then◌else◌, arith, inl, inr, Bool-cases, leb→lt,
}
use linuxpedia.Prelude.Int.{ℤ, pos, neg_einval, neg_eio, neg_enomem}
use linuxpedia.Sfs.Layout.{SuperBlock, u32_mod, decode_entry, name_first, simula_fs_type}
use linuxpedia.Sfs.Device.{BufferCache}
use linuxpedia.Sfs.BlockIo
use linuxpedia.Sfs.BlockIo.{
  Fs, Transfer, failed, copied, abs_pos, entry_offset, read_sb_from_real_sfs,
}
use linuxpedia.Sfs.BlockIo.Laws.{HasTable, Transfer-cases}
use linuxpedia.Sfs.Mount
use linuxpedia.Sfs.Mount.{mark_blocks, initial_map}
use linuxpedia.Sfs.OnBlockDevice

-- Where the module reads: the block and the offset in it.
abbrev block_of : (block_size block offset : ℕ) → ℕ
block_of block_size block offset =
    if leb block_size offset then (block + offset / block_size) % u32_mod else block

abbrev offset_of : (block_size offset : ℕ) → ℕ
offset_of block_size offset = if leb block_size offset then offset % block_size else offset

block_of-div :
    (bs block offset : ℕ)
    → 0 < bs
    → block * bs + offset < u32_mod
    → block_of bs block offset ≡ (block * bs + offset) / bs
block_of-div bs block offset positive low =
    let split : (block * bs + offset) / bs ≡ block + offset / bs =
      ap (λ n. n / bs) (add_comm (block * bs) offset)
      ∙ add-mul-div_right offset block positive
      ∙ add_comm (offset / bs) block in
    elim (Bool-cases (leb bs offset)) [
      | inl past ↦ rw past (omega (arith, split, div-le_self (block * bs + offset) bs))
      | inr near ↦ rw near (omega (arith, split, div-eq_of_lt (leb→lt bs offset near)))
    ]

offset_of-mod : (bs block offset : ℕ) → 0 < bs → offset_of bs offset ≡ (block * bs + offset) % bs
offset_of-mod bs block offset positive =
    let split : (block * bs + offset) % bs ≡ offset % bs =
      ap (λ n. n % bs) (add_comm (block * bs) offset) ∙ add-mul-mod_self_right offset block bs in
    elim (Bool-cases (leb bs offset)) [
      | inl past ↦ rw past (sym split)
      | inr near ↦ rw near (sym (mod-eq_of_lt (leb→lt bs offset near)) ∙ sym split)
    ]

module _ {D : Type 0} ⦃cache : BufferCache D⦄ where
  -- What a read gives of this place.
  abbrev read_at : Fs D → ℕ → (bd block offset : ℕ) → Transfer (List ℕ)
  read_at fs len bd block offset =
      if ltb bd ((offset + len) % u32_mod)
      then failed neg_einval
      else elim (cache.sb_bread fs.dev block) [
        | none ↦ failed neg_eio
        | some bytes ↦ copied (slice bytes offset len)
      ]

  -- An address below 4 GB is split in the same way.
  read_from_real_sfs-same :
      (fs : Fs D) (block offset len : ℕ)
      → 0 < fs.sb.block_size
      → fs.sb.block_size ≡ cache.bd_block_size
      → block * fs.sb.block_size + offset < u32_mod
      → OnBlockDevice.read_from_real_sfs fs block offset len
        ≡ BlockIo.read_from_real_sfs fs block offset len
  unfolding OnBlockDevice.read_from_real_sfs BlockIo.read_from_real_sfs
  read_from_real_sfs-same fs block offset len positive same low =
      let bs = fs.sb.block_size in
      let whole : block * bs + offset ≡ abs_pos fs.sb block offset = omega (arith, low) in
      ap₂ (read_at fs len bs) (block_of-div bs block offset positive low ∙ ap (λ a. a / bs) whole)
        (offset_of-mod bs block offset positive ∙ ap (λ a. a % bs) whole)
      ∙ ap
          (λ bd.
            read_at fs len bd (abs_pos fs.sb block offset / bd) (abs_pos fs.sb block offset % bd))
          same

  module _ (fs : Fs D) (g : HasTable cache.bd_block_size fs.sb)
      (same : fs.sb.block_size ≡ cache.bd_block_size) where
    read_entry-same :
        (ino : ℕ)
        → ino < fs.sb.entry_count
        → OnBlockDevice.read_entry fs ino ≡ BlockIo.read_entry fs ino
    unfolding OnBlockDevice.read_entry BlockIo.read_entry
    read_entry-same ino lt =
        ap
          (λ (t : Transfer (List ℕ)). elim t [
            | failed e ↦ failed e
            | copied bytes ↦ copied (decode_entry bytes)
          ])
          (read_from_real_sfs-same fs fs.sb.entry_table_block_start (entry_offset ino) 64
            (omega (arith, g.block_positive, same)) same (omega (arith, g.table_end, lt)))

    mark_loop-same :
        (left ino : ℕ) (used : List ℕ)
        → ino + left ≤ fs.sb.entry_count
        → OnBlockDevice.mark_loop fs left ino used ≡ Mount.mark_loop fs left ino used
    unfolding OnBlockDevice.mark_loop Mount.mark_loop
    mark_loop-same zero ino used h = refl
    mark_loop-same (suc k) ino used h =
        let read = read_entry-same ino (omega arith) in
        elim (Transfer-cases (BlockIo.read_entry fs ino)) [
          | inl (code, e) ↦ rw (read ∙ e, OnBlockDevice.mark_loop, e, Mount.mark_loop) refl
          | inr (fe, e) ↦
              rw (read ∙ e, OnBlockDevice.mark_loop, e, Mount.mark_loop)
                (mark_loop-same k (suc ino)
                  (if name_first fe == 0 then used else mark_blocks fe.blocks used) (omega arith))
        ]

  -- What the mount of a known super block makes of its loop over the entries.
  abbrev mount_with : Fs D → Bool → Transfer (List ℕ) → ℤ × Option (Fs D)
  mount_with fs vmalloc t =
      if not (fs.sb.type == simula_fs_type)
      then (neg_einval, none)
      else if not vmalloc
      then (neg_enomem, none)
      else elim t [
        | failed e ↦ (e, none)
        | copied used ↦ (pos 0, some (record fs { used_blocks = used }))
      ]

  -- On a device whose blocks are as large as those of the file system, and with a super block whose
  -- entry table lies on entry boundaries below 4 GB, the init_browsing of the two modules return the
  -- same and leave the same `info`, whether or not there is memory for the tracker and whatever read
  -- fails on the way.
  pub init_browsing-same_mount :
      (d : D) (sb : SuperBlock) (vmalloc : Bool)
      → read_sb_from_real_sfs d ≡ copied sb
      → HasTable cache.bd_block_size sb
      → sb.block_size ≡ cache.bd_block_size
      → OnBlockDevice.init_browsing d vmalloc ≡ Mount.init_browsing d vmalloc
  unfolding OnBlockDevice.init_browsing Mount.init_browsing
  init_browsing-same_mount d sb vmalloc found g same =
      let fs : Fs D = record { sb = sb; used_blocks = []; dev = d } in
      let marks = mark_loop-same fs g same sb.entry_count 0 (initial_map sb) (omega arith) in
      rw (found, OnBlockDevice.init_browsing, Mount.init_browsing)
        (ap (mount_with fs vmalloc) marks)
