-- ===== src/Browse/Contents/Loop.antt =====
-- The loop of sfs_write takes in all that is typed, if there is room for it.
use linuxpedia.Prelude.{
  ℕ, zero, suc, ◌+◌, ◌-◌, ◌≤◌, ◌<◌, ◌≡◌, refl, sym, ap, ◌∙◌, true, false, some, List, [], ◌∷◌, ◌++◌,
  length, length-append, length-set, length-take, length-splice, take, take-splice, splice, arith,
  ◌==◌, inl, inr, Bool-cases, ==→eq, ==→ne,
}
use mathlib.Core.List.{append-nil, append_assoc}
use linuxpedia.Sfs.Layout.{FileEntry}
use linuxpedia.Browse.Handle.{Browser}
use linuxpedia.Browse.Contents.{
  Input, input_size, read_input, Writing, write_full, take_in, write_loop_from,
}
use linuxpedia.Browse.Contents.Input.{typed, read_input-Takes}
use linuxpedia.Browse.Contents.Pieces.{Piece, contents, contents-append, AllFull-append}
use linuxpedia.Browse.Contents.Write.{
  Progress, HasRoom, Finding, find_block, with_block, write_full-Finding, length-snoc, head_with,
  table_with, held_with, kept_with, words_with, free_with,
}

-- The end of the loop, with these pieces written and these bytes left in the buffer.
pub record Wrote (es : List FileEntry) (before : List ℕ) (fuel : ℕ) (input : Input) (w : Writing)
    : Type 0 where
  pub after : Writing
  pub pieces : List Piece
  pub pend : List ℕ
  pub runs : write_loop_from fuel input w ≡ some (true, after)
  pub progress : Progress es pieces pend after
  pub room : HasRoom 0 after
  pub same : contents pieces ++ pend ≡ before ++ typed input
  pub sb : after.browser.sb ≡ w.browser.sb
  pub head : take 512 after.browser.bytes ≡ take 512 w.browser.bytes

-- The writing variables after a read that does not fill the block.
abbrev partly : Writing → List ℕ → Writing
partly w bytes = record w {
  browser = record w.browser { block = splice w.browser.block w.cur_read_i bytes };
  cur_read_i = w.cur_read_i + length bytes;
  to_read = w.to_read - length bytes;
}

abbrev filled : Writing → List ℕ → Writing
filled w bytes = record w {
  browser = record w.browser { block = splice w.browser.block w.cur_read_i bytes };
}

module _ {es : List FileEntry} {ws : List Piece} {pend : List ℕ} {w : Writing}
    (h : Progress es ws pend w) (bytes : List ℕ) (short : length bytes ≤ w.to_read) where
  joined :
      take (w.cur_read_i + length bytes) (splice w.browser.block w.cur_read_i bytes) ≡ pend ++ bytes
  joined =
      take-splice w.browser.block w.cur_read_i bytes (omega (arith, h.buffer, h.cur))
      ∙ ap (λ xs. xs ++ bytes) h.pending

  Progress-partly : length bytes < w.to_read → Progress es ws (pend ++ bytes) (partly w bytes)
  Progress-partly less = record {
    table = h.table;
    held = h.held;
    full = h.full;
    tracked = h.tracked;
    buffer = length-splice w.browser.block w.cur_read_i bytes ∙ h.buffer;
    pending = joined;
    cur = omega (arith, h.cur);
    some_room = omega arith;
    slots = h.slots;
    words = h.words;
    kept = h.kept;
    index = h.index;
    size = h.size;
  }

  -- The block that has been filled, in the words of the loop.
  module _ (all : length bytes ≡ w.to_read) (k : ℕ) (f : Finding w.browser k)
      (lt : w.block_i < 9) where
    abbrev block_bytes : List ℕ
    block_bytes = take 512 (splice w.browser.block w.cur_read_i bytes)

    block_same : block_bytes ≡ pend ++ bytes
    block_same =
        let e : 512 ≡ w.cur_read_i + length bytes = omega (arith, h.cur) in
        ap (λ n. take n (splice w.browser.block w.cur_read_i bytes)) e ∙ joined

    block_size : length block_bytes ≡ 512
    block_size = omega (
      arith,
      length-take 512 (splice w.browser.block w.cur_read_i bytes),
      length-splice w.browser.block w.cur_read_i bytes,
      h.buffer,
    )

    Progress-filled : Progress es (ws ++ ((k, block_bytes) ∷ [])) [] (with_block (filled w bytes) k)
    Progress-filled =
        let short' : length block_bytes ≤ 512 = omega (arith, block_size) in
        record {
          table = table_with h k f block_bytes short' lt;
          held = held_with h k f block_bytes short' lt;
          full = AllFull-append ws k block_bytes h.full block_size;
          tracked = omega (arith, length-set w.browser.used_blocks k 1, h.tracked);
          buffer = length-splice w.browser.block w.cur_read_i bytes ∙ h.buffer;
          pending = refl;
          cur = omega arith;
          some_room = omega arith;
          slots = length-set w.blocks w.block_i k ∙ h.slots;
          words = words_with h k f block_bytes short' lt;
          kept = kept_with h k f block_bytes short' lt;
          index = omega (arith, length-snoc ws k block_bytes, h.index);
          size = omega (arith, length-snoc ws k block_bytes, h.size);
        }

nothing_more :
    {es : List FileEntry} {ws : List Piece} {pend : List ℕ} (fuel : ℕ) (input : Input) (w : Writing)
    → Progress es ws pend w
    → HasRoom (length (typed input)) w
    → typed input ≡ []
    → write_loop_from fuel input w ≡ some (true, w)
    → Wrote es (contents ws ++ pend) fuel input w
nothing_more {es} {ws} {pend} fuel input w h room none_left e = record {
  after = w;
  pieces = ws;
  pend = pend;
  runs = e;
  progress = h;
  room = record { slots = omega (arith, room.slots); free = omega (arith, room.free) };
  same = sym (ap (◌++◌ (contents ws ++ pend)) none_left ∙ append-nil (contents ws ++ pend));
  sb = refl;
  head = refl;
}

stops :
    (fuel : ℕ) (input : Input) (w : Writing)
    → (length (read_input w.to_read input).0 == 0) ≡ true
    → write_loop_from (suc fuel) input w ≡ some (true, w)
unfolding write_loop_from
stops fuel input w none_read = rw (none_read, write_loop_from)

Finding-filled :
    {b : Browser} {k : ℕ} {block : List ℕ} → Finding b k → Finding (record b { block = block }) k
Finding-filled f = record { scanned = f.scanned; low = f.low; high = f.high; free = f.free }

-- The rest of the loop, after a turn.
carry :
    {es : List FileEntry} {before before' : List ℕ} {fuel : ℕ} {input input' : Input}
    {w w' : Writing}
    → Wrote es before' fuel input' w'
    → write_loop_from (suc fuel) input w ≡ write_loop_from fuel input' w'
    → before' ++ typed input' ≡ before ++ typed input
    → w'.browser.sb ≡ w.browser.sb
    → take 512 w'.browser.bytes ≡ take 512 w.browser.bytes
    → Wrote es before (suc fuel) input w
carry r turn bytes sb head = record {
  after = r.after;
  pieces = r.pieces;
  pend = r.pend;
  runs = turn ∙ r.runs;
  progress = r.progress;
  room = r.room;
  same = r.same ∙ bytes;
  sb = r.sb ∙ sb;
  head = r.head ∙ head;
}

regroup : (c p b t u : List ℕ) → b ++ t ≡ u → (c ++ (p ++ b)) ++ t ≡ (c ++ p) ++ u
regroup c p b t u e = simp (append_assoc) (ap (λ xs. c ++ (p ++ xs)) e)

regroup_written :
    (ws : List Piece) (k : ℕ) (p q b t u : List ℕ)
    → q ≡ p ++ b
    → b ++ t ≡ u
    → (contents (ws ++ ((k, q) ∷ [])) ++ []) ++ t ≡ (contents ws ++ p) ++ u
regroup_written ws k p q b t u same e =
    append_assoc (contents (ws ++ ((k, q) ∷ []))) [] t
    ∙ contents-append ws k q t
    ∙ append_assoc (contents ws) q t
    ∙ ap (λ x. contents ws ++ (x ++ t)) same
    ∙ ap (◌++◌ (contents ws)) (append_assoc p b t ∙ ap (◌++◌ p) e)
    ∙ sym (append_assoc (contents ws) p u)

-- A turn of the loop that reads some bytes, less than fill the block or all of it.
module _ (fuel : ℕ) (input : Input) (w : Writing)
    (some_bytes : (length (read_input w.to_read input).0 == 0) ≡ false) where
  turn_partly :
      (length (read_input w.to_read input).0 == w.to_read) ≡ false
      → write_loop_from (suc fuel) input w
        ≡ write_loop_from fuel
            (read_input w.to_read input).1
            (partly w (read_input w.to_read input).0)
  unfolding write_loop_from take_in
  turn_partly less = rw (some_bytes, write_loop_from, less)

  turn_full :
      (k : ℕ)
      → (length (read_input w.to_read input).0 == w.to_read) ≡ true
      → write_full (filled w (read_input w.to_read input).0)
        ≡ (true, with_block (filled w (read_input w.to_read input).0) k)
      → write_loop_from (suc fuel) input w
        ≡ write_loop_from fuel
            (read_input w.to_read input).1
            (with_block (filled w (read_input w.to_read input).0) k)
  unfolding write_loop_from take_in
  turn_full k all written = rw (some_bytes, write_loop_from, all, written, written)

-- The loop ends by the end of the input, with all that was typed in the pieces and the buffer.
pub write_loop_from-Wrote :
    {es : List FileEntry} (fuel : ℕ) (ws : List Piece) (pend : List ℕ) (input : Input) (w : Writing)
    → Progress es ws pend w
    → HasRoom (length (typed input)) w
    → input_size input < fuel
    → Wrote es (contents ws ++ pend) fuel input w
write_loop_from-Wrote zero ws pend input w h room enough = absurd (omega arith)
write_loop_from-Wrote {es} (suc fuel) ws pend input w h room enough =
    let r = read_input w.to_read input in
    let t = read_input-Takes w.to_read input h.some_room in
    elim (Bool-cases (length r.0 == 0)) [
      | inl none_read ↦
          nothing_more (suc fuel) input w h room (t.ends (==→eq _ _ none_read))
            (stops fuel input w none_read)
      | inr some_read ↦
          let some_bytes : 0 < length r.0 = omega (arith, ==→ne _ _ some_read) in
          let whole = t.whole some_bytes in
          let sizes : length (typed input) ≡ length r.0 + length (typed r.1) =
            ap length (sym whole) ∙ length-append r.0 (typed r.1) in
          elim (Bool-cases (length r.0 == w.to_read)) [
            | inr less ↦
                carry
                  (write_loop_from-Wrote fuel ws (pend ++ r.0) r.1 (partly w r.0)
                    (Progress-partly h r.0 t.short (omega (arith, ==→ne _ _ less, t.short)))
                    (record {
                      slots = omega (arith, room.slots, sizes);
                      free = omega (arith, room.free, sizes);
                    })
                    (omega (arith, t.size)))
                  (turn_partly fuel input w some_read less)
                  (regroup (contents ws) pend r.0 (typed r.1) (typed input) whole) refl refl
            | inl filled_up ↦
                let all : length r.0 ≡ w.to_read = ==→eq _ _ filled_up in
                let lt : w.block_i < 9 = omega (arith, room.slots, sizes, h.cur) in
                let (k, f) =
                  find_block w.browser h.table.layout.area
                    (omega (arith, room.free, sizes, h.cur)) in
                let w' = filled w r.0 in
                let new = block_bytes h r.0 t.short all k f lt in
                let size = block_size h r.0 t.short all k f lt in
                carry
                  (write_loop_from-Wrote fuel (ws ++ ((k, new) ∷ [])) [] r.1 (with_block w' k)
                    (Progress-filled h r.0 t.short all k f lt)
                    (record {
                      slots = omega (arith, room.slots, sizes, h.cur);
                      free = omega (
                        arith,
                        room.free,
                        sizes,
                        h.cur,
                        free_with h k f new (omega (arith, size)) lt,
                      );
                    })
                    (omega (arith, t.size)))
                  (turn_full fuel input w some_read k filled_up
                    (write_full-Finding w' k h.table.layout (Finding-filled f) lt))
                  (regroup_written ws k pend new r.0 (typed r.1) (typed input)
                    (block_same h r.0 t.short all k f lt) whole)
                  refl (head_with h k f new)
          ]
    ]
