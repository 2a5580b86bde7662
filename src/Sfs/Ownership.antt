-- ===== src/Sfs/Ownership.antt =====
-- Which file owns which block: the tracker of used blocks against the blocks that the entries in
-- use name. A sound state never gives one block to two files or twice to one.
pub mod Change
pub mod Laws
use linuxpedia.Prelude.{
  ℕ, zero, suc, ◌+◌, ◌≤◌, ◌<◌, ◌≡◌, ◌≢◌, Bool, List, [], ◌∷◌, get_or, set, length, ◌==◌,
  if◌then◌else◌,
}
use linuxpedia.Sfs.Layout.{SuperBlock, FileEntry, zero_entry}
use linuxpedia.Sfs.Directory.{in_use}

-- How often `b` stands in a list of blocks.
unfoldable pub occ : ℕ → List ℕ → ℕ
occ b [] = 0
occ b (x ∷ xs) = (if b == x then 1 else 0) + occ b xs

-- How often an entry names `b`; an unused entry names no block.
unfoldable pub own : ℕ → FileEntry → ℕ
own b x = if in_use x then occ b x.blocks else 0

unfoldable pub refs : ℕ → List FileEntry → ℕ
refs b [] = 0
refs b (x ∷ xs) = own b x + refs b xs

-- Every block that a file names is marked, and named once; the blocks before the data area are
-- no file's.
pub record IsSound (sb : SuperBlock) (used : List ℕ) (es : List FileEntry) : Type 0 where
  pub size : length used ≡ sb.partition_size
  pub small : sb.partition_size < 4294967295
  pub start : 0 < sb.data_block_start
  pub bits : (b : ℕ) → get_or used b 0 ≤ 1
  pub reserved : (b : ℕ) → b ≢ 0 → b < sb.data_block_start → refs b es ≡ 0
  pub owned : (b : ℕ) → b ≢ 0 → refs b es ≤ get_or used b 0
