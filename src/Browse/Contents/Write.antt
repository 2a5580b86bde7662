-- ===== src/Browse/Contents/Write.antt =====
-- The loop of sfs_write puts its input into free blocks, one after the other.
use linuxpedia.Prelude.{
  ℕ, zero, suc, ◌+◌, ◌-◌, ◌*◌, ◌%◌, ◌≤◌, ◌<◌, ◌≡◌, sym, ap, ap₂, ◌∙◌, true, some, List, [], ◌∷◌,
  ◌++◌, length, length-append, get_or, set, take, take-set_end, take-splice_below, splice, arith,
  ne→==, min,
}
use linuxpedia.Prelude.Int.{pos}
use linuxpedia.Sfs.Layout.{FileEntry, AllWords, u32_mod}
use linuxpedia.Sfs.Blocks.{scan_free}
use linuxpedia.Sfs.Blocks.Laws.{scan_free-some}
use linuxpedia.Browse.Handle.{Browser, lseek_set, write_bytes, block_offset}
use linuxpedia.Browse.Table.{get_data_block}
use linuxpedia.Browse.Table.Scan.{IsLaidOut, HasEntries, lseek_set-moved}
use linuxpedia.Browse.Table.Change.{HasEntries-splice}
use linuxpedia.Browse.Contents.{Writing, write_full}
use linuxpedia.Browse.Contents.Pieces.{
  Piece, blocks_of, AllHeld, AllFull, AllHeld-add, blocks_of-append, free_count, free_count-taken,
  scan_free-found,
}

-- The free blocks of the data area.
abbrev pub free_blocks_of : Browser → ℕ
free_blocks_of b =
    free_count (b.sb.partition_size - b.sb.data_block_start) b.sb.data_block_start b.used_blocks

-- The pieces `ws` are written, and `pend` stands in the buffer.
pub record Progress (es : List FileEntry) (ws : List Piece) (pend : List ℕ) (w : Writing)
    : Type 0 where
  pub table : HasEntries w.browser.bytes w.browser.sb es
  pub held : AllHeld w.browser.sb w.browser.bytes w.browser.used_blocks ws
  pub full : AllFull ws
  pub tracked : w.browser.sb.partition_size ≤ length w.browser.used_blocks
  pub buffer : length w.browser.block ≡ 512
  pub pending : take w.cur_read_i w.browser.block ≡ pend
  pub cur : w.cur_read_i + w.to_read ≡ 512
  pub some_room : 0 < w.to_read
  pub slots : length w.blocks ≡ 9
  pub words : AllWords w.blocks
  pub kept : take (length ws) w.blocks ≡ blocks_of ws
  pub index : w.block_i ≡ length ws
  pub size : w.total_size ≡ 512 * length ws

-- There is room for `n` more bytes, in the entry and on the partition.
pub record HasRoom (n : ℕ) (w : Writing) : Type 0 where
  pub slots : w.cur_read_i + n + 512 * w.block_i ≤ 4608
  pub free : w.cur_read_i + n ≤ 512 * free_blocks_of w.browser

pub AllWords-set : (ks : List ℕ) (i k : ℕ) → AllWords ks → k < u32_mod → AllWords (set ks i k)
AllWords-set [] i k h small = tt
AllWords-set (j ∷ ks) zero k h small = (small, h.1)
AllWords-set (j ∷ ks) (suc i) k h small = (h.0, AllWords-set ks i k h.1 small)

pub length-snoc :
    (ws : List Piece) (k : ℕ) (p : List ℕ) → length (ws ++ ((k, p) ∷ [])) ≡ suc (length ws)
length-snoc ws k p = omega (arith, length-append ws ((k, p) ∷ []))

-- The block that get_data_block finds, and the program once `new` is written to it.
pub record Finding (b : Browser) (k : ℕ) : Type 0 where
  pub scanned :
      scan_free (b.sb.partition_size - b.sb.data_block_start) b.sb.data_block_start b.used_blocks
      ≡ some k
  pub low : b.sb.data_block_start ≤ k
  pub high : k < b.sb.partition_size
  pub free : get_or b.used_blocks k 0 ≡ 0

pub find_block :
    (b : Browser)
    → b.sb.data_block_start ≤ b.sb.partition_size
    → 0 < free_blocks_of b
    → (k : ℕ) × Finding b k
find_block b area h =
    let n = b.sb.partition_size - b.sb.data_block_start in
    let (k, e) = scan_free-found n b.sb.data_block_start b.used_blocks h in
    let f = scan_free-some n b.sb.data_block_start b.used_blocks k e in
    (k, record { scanned = e; low = f.low; high = omega (arith, f.high); free = f.was_free })

abbrev pub stored_in : Browser → ℕ → List ℕ → Browser
stored_in b k new = record b {
  bytes = splice b.bytes (k * 512) new;
  pos = k * 512 + min (length new) (length b.bytes - k * 512);
  used_blocks = set b.used_blocks k 1;
}

pub get_data_block-Finding :
    (b : Browser) (k : ℕ)
    → Finding b k
    → get_data_block b ≡ (pos k, record b { used_blocks = set b.used_blocks k 1 })
unfolding get_data_block
get_data_block-Finding b k f = rw (f.scanned, get_data_block)

pub write_block :
    (b : Browser) (k : ℕ) (new : List ℕ)
    → IsLaidOut b.sb (length b.bytes)
    → Finding b k
    → write_bytes
        (lseek_set (record b { used_blocks = set b.used_blocks k 1 }) (block_offset b.sb k))
        new
      ≡ stored_in b k new
unfolding write_bytes
write_block b k new l f =
    let at : block_offset b.sb k ≡ k * 512 =
      ap (λ n. k * n % u32_mod) l.block ∙ omega (arith, f.high, l.inside, l.small) in
    rw (
      at,
      lseek_set-moved (record b { used_blocks = set b.used_blocks k 1 }) (k * 512)
          (omega (arith, f.high, l.inside)) (omega (arith, f.high, l.inside, l.small)),
    )

-- A full block goes to the block that is found.
abbrev pub with_block : Writing → ℕ → Writing
with_block w k = record w {
  browser = stored_in w.browser k (take 512 w.browser.block);
  blocks = set w.blocks w.block_i k;
  cur_read_i = 0;
  to_read = 512;
  total_size = w.total_size + 512;
  block_i = w.block_i + 1;
}

pub write_full-Finding :
    (w : Writing) (k : ℕ)
    → IsLaidOut w.browser.sb (length w.browser.bytes)
    → Finding w.browser k
    → w.block_i < 9
    → write_full w ≡ (true, with_block w k)
unfolding write_full
write_full-Finding w k l f lt = rw (
  ne→== w.block_i 9 (λ e. omega arith),
  get_data_block-Finding w.browser k f,
  write_full,
  get_data_block-Finding w.browser k f,
  write_block w.browser k (take w.browser.sb.block_size w.browser.block) l f,
  l.block,
)

-- The first block stays.
pub head_with :
    {es : List FileEntry} {ws : List Piece} {pend : List ℕ} {w : Writing}
    → Progress es ws pend w
    → (k : ℕ) → Finding w.browser k
    → (new : List ℕ) → take 512 (stored_in w.browser k new).bytes ≡ take 512 w.browser.bytes
head_with {w = w} h k f new =
    take-splice_below w.browser.bytes (k * 512) new 512
      (omega (arith, f.low, h.table.layout.table, h.table.layout.first))

-- What holds with one more piece in the block that is found, but for the sizes of pieces.
module _ {es : List FileEntry} {ws : List Piece} {pend : List ℕ} {w : Writing}
    (h : Progress es ws pend w) (k : ℕ) (f : Finding w.browser k) (new : List ℕ)
    (short : length new ≤ 512) (lt : w.block_i < 9) where
  pub table_with : HasEntries (stored_in w.browser k new).bytes w.browser.sb es
  table_with = HasEntries-splice k new h.table f.low

  pub held_with :
      AllHeld w.browser.sb
        (stored_in w.browser k new).bytes
        (set w.browser.used_blocks k 1)
        (ws ++ ((k, new) ∷ []))
  held_with =
      AllHeld-add w.browser.sb w.browser.bytes w.browser.used_blocks ws k new h.held f.free short
        f.low f.high h.table.layout.inside h.tracked

  pub kept_with :
      take (length (ws ++ ((k, new) ∷ []))) (set w.blocks w.block_i k)
      ≡ blocks_of (ws ++ ((k, new) ∷ []))
  kept_with =
      ap₂ (λ n i. take n (set w.blocks i k)) (length-snoc ws k new) h.index
      ∙ take-set_end (length ws) w.blocks k (omega (arith, h.slots, h.index))
      ∙ ap (λ ks. ks ++ (k ∷ [])) h.kept
      ∙ sym (blocks_of-append ws k new)

  pub words_with : AllWords (set w.blocks w.block_i k)
  words_with =
      AllWords-set w.blocks w.block_i k h.words
        (omega (arith, f.high, h.table.layout.inside, h.table.layout.small))

  pub free_with : free_blocks_of (stored_in w.browser k new) + 1 ≡ free_blocks_of w.browser
  free_with =
      free_count-taken (w.browser.sb.partition_size - w.browser.sb.data_block_start)
        w.browser.sb.data_block_start k w.browser.used_blocks f.scanned
        (omega (arith, h.tracked, h.table.layout.area))
