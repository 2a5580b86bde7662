-- ===== src/Browse/Contents/Finish.antt =====
-- The end of sfs_write: the partial block, and the entry that is stored.
use linuxpedia.Prelude.{
  ℕ, ◌+◌, ◌≤◌, ◌<◌, ◌≡◌, refl, sym, ap, ◌∙◌, not, List, [], ◌∷◌, ◌++◌, length, length-append,
  length-set, length-take, set, take, arith, ◌==◌, if◌then◌else◌, ne→==, inl, inr, Bool-cases,
  ==→eq, ==→ne,
}
use mathlib.Core.List.{append-nil}
use linuxpedia.Sfs.Layout.{FileEntry, AllWords, IsEntry}
use linuxpedia.Browse.Table.Scan.{HasEntries}
use linuxpedia.Browse.Contents.{Writing, write_partial, write_entry_of}
use linuxpedia.Browse.Contents.Pieces.{
  Piece, contents, blocks_of, contents-append, length-contents, AllHeld,
}
use linuxpedia.Browse.Contents.Read.{Cut, AllFull-Cut, Cut-append}
use linuxpedia.Browse.Contents.Write.{
  Progress, HasRoom, Finding, find_block, get_data_block-Finding, write_block, stored_in,
  table_with, head_with, held_with, kept_with, words_with,
}

-- All of `bytes` is written, to the blocks that the entry is to name first.
pub record Finished (es : List FileEntry) (bytes : List ℕ) (w : Writing) : Type 0 where
  pub pieces : List Piece
  pub table : HasEntries w.browser.bytes w.browser.sb es
  pub held : AllHeld w.browser.sb w.browser.bytes w.browser.used_blocks pieces
  pub cut : Cut pieces
  pub buffer : length w.browser.block ≡ 512
  pub slots : length w.blocks ≡ 9
  pub words : AllWords w.blocks
  pub kept : take (length pieces) w.blocks ≡ blocks_of pieces
  pub size : w.total_size ≡ length (contents pieces)
  pub small : w.total_size ≤ 4608
  pub same : contents pieces ≡ bytes

-- With nothing in the buffer the loop has written all.
pub Progress-Finished :
    {es : List FileEntry} {ws : List Piece} {pend : List ℕ} {w : Writing}
    → Progress es ws pend w
    → HasRoom 0 w
    → w.cur_read_i ≡ 0
    → Finished es (contents ws ++ pend) w
Progress-Finished {es} {ws} {pend} {w} h room none_left =
    let empty : pend ≡ [] = sym h.pending ∙ ap (λ n. take n w.browser.block) none_left in
    record {
      pieces = ws;
      table = h.table;
      held = h.held;
      cut = AllFull-Cut ws h.full;
      buffer = h.buffer;
      slots = h.slots;
      words = h.words;
      kept = h.kept;
      size = omega (arith, h.size, length-contents ws h.full);
      small = omega (arith, h.size, h.index, room.slots);
      same = sym (ap (◌++◌ (contents ws)) empty ∙ append-nil (contents ws));
    }

abbrev with_partial : Writing → ℕ → Writing
with_partial w k = record w {
  browser = stored_in w.browser k (take w.cur_read_i w.browser.block);
  blocks = set w.blocks w.block_i k;
  total_size = w.total_size + w.cur_read_i;
}

write_partial-Finding :
    {es : List FileEntry} {ws : List Piece} {pend : List ℕ} (w : Writing) (k : ℕ)
    → Progress es ws pend w
    → Finding w.browser k
    → w.block_i < 9
    → write_partial w ≡ with_partial w k
unfolding write_partial
write_partial-Finding w k h f lt = rw (
  ne→== w.block_i 9 (λ e. omega arith),
  get_data_block-Finding w.browser k f,
  write_partial,
  get_data_block-Finding w.browser k f,
  write_block w.browser k (take w.cur_read_i w.browser.block) h.table.layout f,
)

Partial-Finished :
    {es : List FileEntry} {ws : List Piece} {pend : List ℕ} {w : Writing} (k : ℕ)
    → Progress es ws pend w
    → HasRoom 0 w
    → Finding w.browser k
    → 0 < w.cur_read_i
    → Finished es (contents ws ++ pend) (with_partial w k)
Partial-Finished {es} {ws} {pend} {w} k h room f some_left =
    let new = take w.cur_read_i w.browser.block in
    let amount : length new ≡ w.cur_read_i =
      omega (arith, length-take w.cur_read_i w.browser.block, h.buffer, h.cur) in
    let lt : w.block_i < 9 = omega (arith, room.slots) in
    let short : length new ≤ 512 = omega (arith, h.cur) in
    let together : contents (ws ++ ((k, new) ∷ [])) ≡ contents ws ++ new =
      sym (append-nil (contents (ws ++ ((k, new) ∷ []))))
      ∙ contents-append ws k new []
      ∙ append-nil (contents ws ++ new) in
    record {
      pieces = ws ++ ((k, new) ∷ []);
      table = table_with h k f new short lt;
      held = held_with h k f new short lt;
      cut = Cut-append ws k new h.full (omega arith);
      buffer = h.buffer;
      slots = length-set w.blocks w.block_i k ∙ h.slots;
      words = words_with h k f new short lt;
      kept = kept_with h k f new short lt;
      size =
          omega (arith, h.size, length-contents ws h.full, length-append (contents ws) new)
          ∙ ap length (sym together);
      small = omega (arith, h.size, h.index, room.slots);
      same = together ∙ ap (◌++◌ (contents ws)) h.pending;
    }

-- What the code after the loop makes of the writing variables.
abbrev pub finished : Writing → Writing
finished w = if not (w.cur_read_i == 0) then write_partial w else w

pub finished-Finished :
    {es : List FileEntry} {ws : List Piece} {pend : List ℕ} (w : Writing)
    → Progress es ws pend w
    → HasRoom 0 w
    → Finished es (contents ws ++ pend) (finished w)
      × ((finished w).browser.sb ≡ w.browser.sb)
      × (take 512 (finished w).browser.bytes ≡ take 512 w.browser.bytes)
finished-Finished w h room = elim (Bool-cases (w.cur_read_i == 0)) [
  | inl none_left ↦ rw none_left (Progress-Finished h room (==→eq _ _ none_left), refl, refl)
  | inr some_left ↦
      let more : 0 < w.cur_read_i = omega (arith, ==→ne _ _ some_left) in
      let (k, f) = find_block w.browser h.table.layout.area (omega (arith, room.free)) in
      rw (some_left, write_partial-Finding w k h f (omega (arith, room.slots)))
        (
          Partial-Finished k h room f more,
          refl,
          head_with h k f (take w.cur_read_i w.browser.block),
        )
]

-- The entry that is stored is one that the C type can hold.
pub write_entry_of-IsEntry :
    {es : List FileEntry} {bytes : List ℕ} (fe : FileEntry) (w : Writing) (now : ℕ)
    → IsEntry fe
    → Finished es bytes w
    → IsEntry (write_entry_of fe w now)
write_entry_of-IsEntry fe w now v f = record {
  name_size = v.name_size;
  size_word = omega (arith, f.small);
  timestamp_word = omega arith;
  perms_word = v.perms_word;
  blocks_size = f.slots;
  block_words = f.words;
}
