-- ===== src/Sfs/Consistent/Blocks.antt =====
-- sfs_get_block of real_sfs.c on a consistent file system.
use linuxpedia.Prelude.{
  ℕ, zero, suc, ◌-◌, ◌%◌, ◌≤◌, ◌<◌, ◌≡◌, refl, ◌≢◌, ◌⊎◌, inl, inr, ap, ◌∙◌, Bool, true, false,
  Option, none, some, List, [], ◌∷◌, get_or, set, length, arith, ◌==◌, ne→==, lt→leb, length-set,
}
use linuxpedia.Prelude.Int.{ℤ, pos, neg_enospc, neg_eio}
use linuxpedia.Sfs.Layout.{FileEntry, AllWords, IsEntry, u32_mod, zero_entry}
use linuxpedia.Sfs.Device.{BufferCache}
use linuxpedia.Sfs.BlockIo.{Fs}
use linuxpedia.Sfs.BlockIo.Table.{Holds, write_entry-Holds}
use linuxpedia.Sfs.Blocks.Laws.{IsFirstFree, data_blocks, sfs_get_data_block-cases}
use linuxpedia.Sfs.Entries.{s2v_inode_num, sfs_get_file_entry, sfs_update_file_entry}
use linuxpedia.Sfs.Entries.Refine.{Holds-used_blocks}
use linuxpedia.Sfs.Inode.{sfs_get_block, allocate_block}
use linuxpedia.Sfs.Directory.{in_use}
use linuxpedia.Sfs.Directory.Change.{Distinct-same_name}
use linuxpedia.Sfs.Ownership.Laws.{IsSound-takes}
use linuxpedia.Sfs.Consistent.{IsConsistent}

AllWords-set : (ws : List ℕ) (k v : ℕ) → AllWords ws → v < u32_mod → AllWords (set ws k v)
AllWords-set [] k v h lt = tt
AllWords-set (w ∷ ws) zero v h lt = (lt, h.1)
AllWords-set (w ∷ ws) (suc k) v h lt = (h.0, AllWords-set ws k v h.1 lt)

-- The entry with `b` as its block number `k`.
abbrev pub with_block : FileEntry → ℕ → ℕ → FileEntry
with_block x k b = record x { blocks = set x.blocks k b }

with_block-IsEntry :
    {x : FileEntry} (k b : ℕ) → IsEntry x → b < u32_mod → IsEntry (with_block x k b)
with_block-IsEntry {x} k b v lt = record {
  name_size = v.name_size;
  size_word = v.size_word;
  timestamp_word = v.timestamp_word;
  perms_word = v.perms_word;
  blocks_size = length-set x.blocks k b ∙ v.blocks_size;
  block_words = AllWords-set x.blocks k b v.block_words lt;
}

module _ {D : Type 0} ⦃cache : BufferCache D⦄ (fs : Fs D) (es : List FileEntry) (i k : ℕ)
    (lt : i < length es) where
  pub get_file_entry-ok :
      (fe : FileEntry)
      → Holds fs es
      → sfs_get_file_entry fs (s2v_inode_num i) fe ≡ (pos 0, get_or es i zero_entry)
  unfolding sfs_get_file_entry
  get_file_entry-ok fe h = rw (h.stored i lt, sfs_get_file_entry)

  -- A block that the file has is mapped, and nothing changes.
  pub sfs_get_block-mapped :
      (create : Bool)
      → Holds fs es
      → k < 9
      → get_or (get_or es i zero_entry).blocks k 0 ≢ 0
      → sfs_get_block fs (s2v_inode_num i) k create
        ≡ (pos 0, some (get_or (get_or es i zero_entry).blocks k 0), fs)
  unfolding sfs_get_block
  sfs_get_block-mapped create h small has =
      rw (lt→leb 9 k small, get_file_entry-ok zero_entry h, ne→== _ 0 has)

  -- A hole is not filled for a reader.
  pub sfs_get_block-hole :
      Holds fs es
      → k < 9
      → get_or (get_or es i zero_entry).blocks k 0 ≡ 0
      → sfs_get_block fs (s2v_inode_num i) k false ≡ (neg_eio, none, fs)
  unfolding sfs_get_block
  sfs_get_block-hole h small none_yet =
      rw (lt→leb 9 k small, get_file_entry-ok zero_entry h, none_yet)

  -- What the allocation of a block for a hole comes to.
  abbrev pub Allocates : ℤ × Option ℕ × Fs D → Type 0
  Allocates r =
      ((r ≡ (neg_enospc, none, fs))
        × ((c : ℕ)
            → fs.sb.data_block_start ≤ c
            → c < fs.sb.partition_size
            → get_or fs.used_blocks c 0 ≢ 0))
      ⊎ ((b : ℕ) × (r.0 ≡ pos 0)
          × (r.1 ≡ some b)
          × IsFirstFree (data_blocks fs) fs.sb.data_block_start fs.used_blocks b
          × (r.2.used_blocks ≡ set fs.used_blocks b 1)
          × IsConsistent r.2 (set es i (with_block (get_or es i zero_entry) k b)))

  allocate_block-Allocates :
      IsConsistent fs es
      → k < 9
      → in_use (get_or es i zero_entry) ≡ true
      → get_or (get_or es i zero_entry).blocks k 0 ≡ 0
      → Allocates (allocate_block fs (s2v_inode_num i) k (get_or es i zero_entry))
  unfolding allocate_block sfs_update_file_entry
  allocate_block-Allocates c small live none_yet = elim (sfs_get_data_block-cases fs) [
    | inr (full, taken) ↦ inl (rw full refl, taken)
    | inl (b, got, free) ↦
        let x = get_or es i zero_entry in
        let below : b < fs.sb.partition_size = omega (arith, free.high) in
        let word : b % u32_mod ≡ b = omega (arith, c.sound.small) in
        let not_full : (b == u32_mod - 1) ≡ false =
          ne→== b (u32_mod - 1) (omega (arith, c.sound.small)) in
        let v = c.holds.entries i lt in
        let (d, wrote, held) =
          write_entry-Holds (Holds-used_blocks (set fs.used_blocks b 1) c.holds) i
            (with_block x k b) lt (with_block-IsEntry k b v (omega (arith, c.sound.small))) in
        let done : allocate_block fs (s2v_inode_num i) k x
            ≡ (pos 0, some b, record fs { used_blocks = set fs.used_blocks b 1; dev = d }) =
          rw (got, word, not_full, wrote) in
        inr (
          b,
          ap (λ r. r.0) done,
          ap (λ r. r.1) done,
          free,
          ap (λ r. r.2.used_blocks) done,
          rw done (record {
            holds = held;
            distinct = Distinct-same_name es i (with_block x k b) lt refl c.distinct;
            sound =
                IsSound-takes c.sound i k b lt (omega (arith, v.blocks_size)) live none_yet free.low
                  below free.was_free;
          }),
        )
  ]

  -- A write to a hole: no block of the data area is free, and -ENOSPC comes back with nothing
  -- changed; or the first free block is mapped, marked used and stored in the entry, and the file
  -- system is consistent with it, with all else as before.
  pub sfs_get_block-Allocates :
      IsConsistent fs es
      → k < 9
      → in_use (get_or es i zero_entry) ≡ true
      → get_or (get_or es i zero_entry).blocks k 0 ≡ 0
      → Allocates (sfs_get_block fs (s2v_inode_num i) k true)
  unfolding sfs_get_block
  sfs_get_block-Allocates c small live none_yet =
      rw (lt→leb 9 k small, get_file_entry-ok zero_entry c.holds, none_yet)
        (allocate_block-Allocates c small live none_yet)
