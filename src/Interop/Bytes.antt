-- ===== src/Interop/Bytes.antt =====
-- A partition's bytes as the buffer cache of the kernel shows them, and the file table in them.
use linuxpedia.Prelude.{
  ℕ, zero, suc, ◌+◌, ◌*◌, ◌/◌, ◌%◌, ◌≤◌, ◌<◌, ◌≡◌, refl, sym, ap, ◌∙◌, some, List, [], ◌∷◌, length,
  take, slice, get_or, arith,
}
use linuxpedia.Sfs.Layout.{SuperBlock, FileEntry, zero_entry, decode_entry}
use linuxpedia.Sfs.Layout.RoundTrip.{decode_entry-encode_entry}
use linuxpedia.Sfs.Device.{BufferCache}
use linuxpedia.Sfs.BlockIo.{Fs, copied, read_entry}
use linuxpedia.Sfs.BlockIo.Laws.{HasTable, slot, slot_lem, slot_fits}
use linuxpedia.Sfs.BlockIo.Table.{Holds, read_entry-some}
use linuxpedia.Browse.Table.Scan.{HasEntries}

slice_nil : (o n : ℕ) → slice {A = ℕ} [] o n ≡ []
slice_nil zero zero = refl
slice_nil zero (suc n) = refl
slice_nil (suc o) zero = refl
slice_nil (suc o) (suc n) = refl

take-slice : (xs : List ℕ) (n b m : ℕ) → b + m ≤ n → slice (take n xs) b m ≡ slice xs b m
take-slice xs zero zero zero h = refl
take-slice xs zero zero (suc m) h = absurd (omega arith)
take-slice xs zero (suc b) m h = absurd (omega arith)
take-slice [] (suc n) b m h = refl
take-slice (x ∷ xs) (suc n) zero zero h = refl
take-slice (x ∷ xs) (suc n) zero (suc m) h = ap (◌∷◌ x) (take-slice xs n zero m (omega arith))
take-slice (x ∷ xs) (suc n) (suc b) m h = take-slice xs n b m (omega arith)

-- Part of a part.
pub slice-slice :
    (xs : List ℕ) (a n b m : ℕ) → b + m ≤ n → slice (slice xs a n) b m ≡ slice xs (a + b) m
slice-slice xs zero n b m h = take-slice xs n b m h ∙ ap (λ k. slice xs k m) (omega arith)
slice-slice [] (suc a) n b m h =
    take-slice [] n b m h ∙ slice_nil b m ∙ sym (slice_nil (suc a + b) m)
slice-slice (x ∷ xs) (suc a) n b m h =
    slice-slice xs a n b m h ∙ ap (λ k. slice (x ∷ xs) k m) (add a b)
  where
    add : (a b : ℕ) → suc (a + b) ≡ suc a + b
    add a b = omega arith

module _ {D : Type 0} ⦃cache : BufferCache D⦄ where
  -- The cache shows these bytes in blocks of 512.
  pub record Shows (d : D) (bytes : List ℕ) : Type 0 where
    pub block : cache.bd_block_size ≡ 512
    pub shown :
        (k : ℕ)
        → k * 512 + 512 ≤ length bytes
        → cache.sb_bread d k ≡ some (slice bytes (k * 512) 512)

  module _ {d : D} {bytes : List ℕ} {sb : SuperBlock} {es : List FileEntry} (s : Shows d bytes)
      (h : HasEntries bytes sb es) where
    abbrev fs_of : List ℕ → Fs D
    fs_of used = record { sb = sb; used_blocks = used; dev = d }

    shown-HasTable : HasTable cache.bd_block_size sb
    shown-HasTable = record {
      block_positive = omega (arith, s.block);
      block_slots = rw s.block (omega arith);
      block_small = omega (arith, s.block);
      table_aligned = rw h.layout.block (omega arith);
      table_end =
          rw h.layout.block
            (omega (arith, h.layout.table, h.layout.area, h.layout.inside, h.layout.small));
    }

    shown_entry :
        (used : List ℕ) (i : ℕ)
        → i < length es
        → read_entry (fs_of used) i ≡ copied (get_or es i zero_entry)
    shown_entry used i lt =
        let a = slot sb i in
        let l = h.layout in
        let inside : i < sb.entry_count = omega (arith, lt, h.count) in
        let place : a ≡ sb.entry_table_block_start * 512 + i * 64 =
          slot_lem shown-HasTable i inside ∙ rw l.block (omega arith) in
        let block : a / cache.bd_block_size ≡ a / 512 = ap (λ n. a / n) s.block in
        let offset : a % cache.bd_block_size ≡ a % 512 = ap (λ n. a % n) s.block in
        let fits = slot_fits shown-HasTable i inside in
        read_entry-some (fs_of used) shown-HasTable i (slice bytes (a / 512 * 512) 512) inside (
          ap (cache.sb_bread d) block
          ∙ s.shown (a / 512) (omega (arith, place, inside, l.table, l.area, l.inside)))
        ∙ ap (λ xs. copied (decode_entry xs))
            (slice-slice bytes (a / 512 * 512) 512 (a % cache.bd_block_size) 64
                (omega (arith, fits, s.block))
              ∙ ap (λ k. slice bytes k 64) (omega (arith, offset, place))
              ∙ h.stored i lt)
        ∙ ap copied (decode_entry-encode_entry (get_or es i zero_entry) (h.entries i lt))

    -- The kernel module holds the entries that browse_sfs.c reads in these bytes.
    pub shown-Holds : (used : List ℕ) → Holds (fs_of used) es
    shown-Holds used = record {
      table = shown-HasTable;
      count = h.count;
      stored = shown_entry used;
      entries = h.entries;
    }
