-- ===== src/Sfs/Blocks.antt =====
-- The tracker of used blocks of real_sfs_ops.c: sfs_get_data_block and sfs_put_data_block. Each
-- runs under `info->lock` from its first access of `used_blocks` to its last, so it is one step.
pub mod Laws
use linuxpedia.Prelude.{
  ℕ, zero, suc, ◌-◌, Option, none, some, List, [], ◌∷◌, get_or, set, ◌==◌, if◌then◌else◌,
}
use linuxpedia.Prelude.Int.{ℤ, pos, minus_one}
use linuxpedia.Sfs.BlockIo.{Fs}

-- The first block from `i` on, of the next `left`, whose byte in the tracker is 0.
unfoldable pub scan_free : (left i : ℕ) → List ℕ → Option ℕ
scan_free zero i used = none
scan_free (suc k) i used =
    let rest = scan_free k (suc i) used in if get_or used i 0 == 0 then some i else rest

module _ {D : Type 0} where
  unfoldable pub sfs_get_data_block : Fs D → ℤ × Fs D
  unfolding scan_free
  sfs_get_data_block fs =
      elim (scan_free (fs.sb.partition_size - fs.sb.data_block_start) fs.sb.data_block_start
        fs.used_blocks) [
          | none ↦ (minus_one, fs)
          | some i ↦ (pos i, record fs { used_blocks = set fs.used_blocks i 1 })
        ]

  -- A number outside of the tracker, where the source writes out of bounds, changes nothing here.
  unfoldable pub sfs_put_data_block : Fs D → ℕ → Fs D
  sfs_put_data_block fs i = record fs { used_blocks = set fs.used_blocks i 0 }
