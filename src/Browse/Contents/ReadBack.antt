-- ===== src/Browse/Contents/ReadBack.antt =====
-- What sfs_write of browse_sfs.c writes, sfs_read gives back.
use linuxpedia.Prelude.{
  ℕ, ◌+◌, ◌-◌, ◌*◌, ◌≤◌, ◌≡◌, refl, sym, ap, ◌∙◌, true, some, List, [], ◌∷◌, ◌++◌, length,
  length-set, set, drop, take, take-append-drop, take-splice_below, splice, arith,
}
use mathlib.Core.Path.{subst}
use linuxpedia.Sfs.Layout.{FileEntry, IsEntry, encode_entry}
use linuxpedia.Sfs.Layout.RoundTrip.{length-encode_entry}
use linuxpedia.Sfs.Directory.{find}
use linuxpedia.Sfs.Directory.Laws.{find-some}
use linuxpedia.Sfs.Entries.Refine.{release}
use linuxpedia.Browse.Handle.{Browser}
use linuxpedia.Browse.Table.{silent, printed, may_read, may_write, store_entry}
use linuxpedia.Browse.Table.Scan.{HasEntries, moved, slot}
use linuxpedia.Browse.Table.Change.{
  put_blocks-release, HasEntries-set, store_entry-splice, find-set_same,
}
use linuxpedia.Browse.Contents.{
  Input, input_size, Writing, first_writing, write_entry_of, sfs_read, finish_write, sfs_write,
}
use linuxpedia.Browse.Contents.Input.{typed}
use linuxpedia.Browse.Contents.Pieces.{free_count, AllHeld-table}
use linuxpedia.Browse.Contents.Write.{Progress, HasRoom}
use linuxpedia.Browse.Contents.Kept.{IsKept, lookup_found, sfs_read-IsKept}
use linuxpedia.Browse.Contents.Loop.{write_loop_from-Wrote}
use linuxpedia.Browse.Contents.Finish.{
  Finished, finished, finished-Finished, write_entry_of-IsEntry,
}

length-release : (ks used : List ℕ) → length (release ks used) ≡ length used
unfolding release
length-release [] used = refl
length-release (k ∷ ks) used = ground (arith, length-release ks (set used k 0), length-set used k 0)

-- The program stands on a partition with this table, in which entry `i` is the file, which may be
-- read and written; `n` bytes fit the entry and, with its old blocks given back, the partition.
pub record IsReady (b : Browser) (es : List FileEntry) (fn : List ℕ) (i : ℕ) (x : FileEntry) (n : ℕ)
    : Type 0 where
  pub table : HasEntries b.bytes b.sb es
  pub found : find fn es ≡ some (i, x)
  pub tracked : b.sb.partition_size ≤ length b.used_blocks
  pub buffer : length b.block ≡ 512
  pub readable : may_read x ≡ true
  pub writable : may_write x ≡ true
  pub fits : n ≤ 4608
  pub free :
      n
      ≤ 512
        * free_count
            (b.sb.partition_size - b.sb.data_block_start)
            b.sb.data_block_start
            (release x.blocks b.used_blocks)

module _ {b : Browser} {es : List FileEntry} {fn : List ℕ} {i : ℕ} {x : FileEntry} {n : ℕ}
    (r : IsReady b es fn i x n) where
  IsEntry-of_file : IsEntry x
  IsEntry-of_file =
      let f = find-some fn es i x r.found in subst IsEntry f.here (r.table.entries i f.inside)

  first_Progress : (p : ℕ) → Progress es [] [] (first_writing (moved b p) x)
  first_Progress p = rw (put_blocks-release x.blocks (moved b p)) (record {
    table = r.table;
    held = tt;
    full = tt;
    tracked = omega (arith, r.tracked, length-release x.blocks b.used_blocks);
    buffer = r.buffer;
    pending = refl;
    cur = omega (arith, r.table.layout.block);
    some_room = omega (arith, r.table.layout.block);
    slots = IsEntry-of_file.blocks_size;
    words = IsEntry-of_file.block_words;
    kept = refl;
    index = refl;
    size = omega arith;
  })

  first_HasRoom : (p : ℕ) → HasRoom n (first_writing (moved b p) x)
  first_HasRoom p =
      rw (put_blocks-release x.blocks (moved b p))
        (record { slots = omega (arith, r.fits); free = omega (arith, r.free) })

  -- The program once the entry of the finished file is stored.
  module _ {bytes : List ℕ} (w : Writing) (now : ℕ) (f : Finished es bytes w) where
    abbrev new_entry_of : FileEntry
    new_entry_of = write_entry_of x w now

    abbrev ended : ℕ → Browser
    ended q = record w.browser {
      bytes = splice w.browser.bytes (slot w.browser.sb i) (encode_entry new_entry_of);
      pos = q;
    }

    stored : (q : ℕ) × (store_entry w.browser i new_entry_of ≡ ended q)
    stored =
        let inside = (find-some fn es i x r.found).inside in
        store_entry-splice w.browser i new_entry_of f.table inside
          (write_entry_of-IsEntry x w now IsEntry-of_file f)

    ended-IsKept : (q : ℕ) → IsKept (ended q).bytes w.browser.sb fn bytes
    ended-IsKept q =
        let inside = (find-some fn es i x r.found).inside in
        let v = write_entry_of-IsEntry x w now IsEntry-of_file f in
        let place = slot w.browser.sb i in
        record {
          es = set es i new_entry_of;
          i = i;
          fe = new_entry_of;
          table = HasEntries-set f.table i new_entry_of inside v;
          found = find-set_same fn es i x new_entry_of r.found refl;
          readable = r.readable;
          pieces = f.pieces;
          rest = drop (length f.pieces) w.blocks;
          used = w.browser.used_blocks;
          held =
              AllHeld-table w.browser.sb w.browser.bytes w.browser.used_blocks f.pieces place
                (encode_entry new_entry_of) f.held
                (omega
                  (arith, length-encode_entry new_entry_of v, f.table.count, f.table.layout.table));
          cut = f.cut;
          blocks =
              sym (take-append-drop (length f.pieces) w.blocks)
              ∙ ap (λ ks. ks ++ drop (length f.pieces) w.blocks) f.kept;
          size = f.size;
          same = f.same;
        }

    ended-head : (q : ℕ) → take 512 (ended q).bytes ≡ take 512 w.browser.bytes
    ended-head q =
        take-splice_below w.browser.bytes (slot w.browser.sb i) (encode_entry new_entry_of) 512
          (omega (arith, f.table.layout.first))

-- What sfs_write leaves behind: the file with this text, in the program and on the partition.
pub record HasWritten (b b' : Browser) (fn text : List ℕ) : Type 0 where
  pub kept : IsKept b'.bytes b'.sb fn text
  pub buffer : length b'.block ≡ 512
  pub sb : b'.sb ≡ b.sb
  pub head : take 512 b'.bytes ≡ take 512 b.bytes

pub sfs_write-HasWritten :
    (b : Browser) (es : List FileEntry) (fn : List ℕ) (i : ℕ) (x : FileEntry) (input : Input)
    (now : ℕ)
    → IsReady b es fn i x (length (typed input))
    → (b' : Browser) × (sfs_write b fn input now ≡ some (silent, b'))
      × HasWritten b b' fn (typed input)
unfolding sfs_write finish_write
sfs_write-HasWritten b es fn i x input now r =
    let (p, found) = lookup_found b fn i x r.table r.found in
    let w₀ = first_writing (moved b p) x in
    let fuel = input_size input + 1 in
    let done =
      write_loop_from-Wrote fuel [] [] input w₀ (first_Progress r p) (first_HasRoom r p)
        (omega arith) in
    let (f, same_sb, same_head) = finished-Finished done.after done.progress done.room in
    let w = finished done.after in
    let (q, same) = stored r w now f in
    let freed = put_blocks-release x.blocks (moved b p) in
    (
      ended r w now f q,
      rw (found, sfs_write, found, r.writable, done.runs, found) (ap (λ c. some (silent, c)) same),
      record {
        kept =
            subst (IsKept (ended r w now f q).bytes w.browser.sb fn) done.same
              (ended-IsKept r w now f q);
        buffer = f.buffer;
        sb = same_sb ∙ done.sb ∙ ap (λ c. c.sb) freed;
        head = ended-head r w now f q ∙ same_head ∙ done.head ∙ ap (λ c. take 512 c.bytes) freed;
      },
    )

-- On a partition with a file table, sfs_write to a file that may be read and written takes in all
-- that is typed, if this is at most 9 blocks and fits the blocks that are free once those of the
-- file are given back; it does not run out of fuel, and sfs_read of the file then prints exactly
-- what was typed.
pub sfs_read-sfs_write :
    (b : Browser) (es : List FileEntry) (fn : List ℕ) (i : ℕ) (x : FileEntry) (input : Input)
    (now : ℕ)
    → IsReady b es fn i x (length (typed input))
    → (b' : Browser) × (sfs_write b fn input now ≡ some (silent, b'))
      × ((sfs_read b' fn).0 ≡ printed (typed input))
sfs_read-sfs_write b es fn i x input now r =
    let (b', runs, h) = sfs_write-HasWritten b es fn i x input now r in
    (b', runs, sfs_read-IsKept b' fn (typed input) h.kept h.buffer)
