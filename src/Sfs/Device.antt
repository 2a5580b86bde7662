-- ===== src/Sfs/Device.antt =====
-- The kernel's buffer cache, as real_sfs uses it: `sb_bread` hands out the bytes of a block of the
-- block device, and `mark_buffer_dirty` after a store into them makes the store the block's bytes.
-- It is not part of the repository, so it is a parameter, with what its documentation promises.
use linuxpedia.Prelude.{ℕ, ◌≡◌, Option, some, List, length, ◌==◌, if◌then◌else◌}

-- `D` is the state of the device; an unreadable block is `none`.
pub record BufferCache (D : Type 0) : Type 0 where
  pub bd_block_size : ℕ
  pub sb_bread : D → ℕ → Option (List ℕ)
  pub mark_buffer_dirty : D → ℕ → List ℕ → D
  -- a buffer holds one block
  pub buffer_size :
      (d : D) (b : ℕ) (bytes : List ℕ) → sb_bread d b ≡ some bytes → length bytes ≡ bd_block_size
  -- what is stored in a buffer of the cache is what is read from that block, and from no other
  pub coherent :
      (d : D) (b : ℕ) (old new : List ℕ)
      → sb_bread d b ≡ some old
      → length new ≡ bd_block_size
      → (c : ℕ)
      → sb_bread (mark_buffer_dirty d b new) c ≡ (if b == c then some new else sb_bread d c)
