-- ===== src/Browse/Fresh.antt =====
-- A partition that format_real_sfs.c has made, as browse_sfs.c finds it.

pub mod First
use linuxpedia.Prelude.{
  ℕ, zero, suc, ◌+◌, ◌-◌, ◌*◌, ◌/◌, ◌%◌, ◌^◌, ◌≤◌, ◌<◌, ◌≡◌, refl, sym, ap, ap₂, ◌∙◌, List, [], ◌∷◌,
  ◌++◌, length, length-append, length-replicate, replicate, take, drop, slice, splice, overwrite,
  length-splice, take-append, min, get_or, arith, splice-nil, splice-append, take-overwrite_short,
  slice-overwrite, slice-append,
}
use mathlib.Core.List.{append_assoc, append-nil}
use linuxpedia.Sfs.Layout.{
  SuperBlock, FileEntry, IsSuper, u32_mod, zero_entry, encode_entry, encode_super,
}
use linuxpedia.Sfs.Layout.RoundTrip.{length-encode_entry, length-encode_super}
use linuxpedia.Sfs.Entries.Refine.{zero_entry-IsEntry}
use linuxpedia.Sfs.Format.{format_super, format_image, entries_block, write_blocks}
use linuxpedia.Sfs.Format.Laws.{fresh_entries, get_or-fresh, length-entries_block}
use linuxpedia.Browse.Table.Scan.{IsLaidOut, HasEntries, slot}

-- The blocks in one list.
abbrev joined : List (List ℕ) → List ℕ
joined [] = []
joined (block ∷ blocks) = block ++ joined blocks

write_blocks-splice :
    (at : ℕ) (blocks : List (List ℕ)) (dev : List ℕ)
    → at + length (joined blocks) ≤ length dev
    → write_blocks at blocks dev ≡ splice dev at (joined blocks)
write_blocks-splice at [] dev h = sym (splice-nil dev at)
write_blocks-splice at (block ∷ blocks) dev h =
    let sizes = length-append block (joined blocks) in
    let written : min (length block) (length dev - at) ≡ length block = ground (arith, sizes) in
    ap (λ n. write_blocks (at + n) blocks (splice dev at block)) written
    ∙ write_blocks-splice (at + length block) blocks (splice dev at block)
        (omega (arith, sizes, length-splice dev at block))
    ∙ splice-append dev at block (joined blocks) (omega (arith, sizes))

entries_block-append : (a b : ℕ) → entries_block a ++ entries_block b ≡ entries_block (a + b)
unfolding entries_block
entries_block-append zero b = ap entries_block (omega arith)
entries_block-append (suc a) b =
    append_assoc (encode_entry zero_entry) (entries_block a) (entries_block b)
    ∙ ap (◌++◌ (encode_entry zero_entry)) (entries_block-append a b)
    ∙ ap entries_block (add a b)
  where
    add : (a b : ℕ) → suc (a + b) ≡ suc a + b
    add a b = omega arith

joined-replicate : (k n : ℕ) → joined (replicate k (entries_block n)) ≡ entries_block (k * n)
unfolding entries_block
joined-replicate zero n = ap entries_block (none_left n)
  where
    none_left : (n : ℕ) → 0 ≡ 0 * n
    none_left n = omega arith
joined-replicate (suc k) n =
    ap (◌++◌ (entries_block n)) (joined-replicate k n)
    ∙ entries_block-append n (k * n)
    ∙ ap entries_block (mul k n)
  where
    mul : (k n : ℕ) → n + k * n ≡ suc k * n
    mul k n = omega arith

slice-entries_block :
    (n i : ℕ) → i < n → slice (entries_block n) (i * 64) 64 ≡ encode_entry zero_entry
unfolding entries_block
slice-entries_block zero i h = absurd (omega arith)
slice-entries_block (suc n) zero h =
    take-append (encode_entry zero_entry) (entries_block n) 64
      (sym (length-encode_entry zero_entry zero_entry-IsEntry))
slice-entries_block (suc n) (suc i) h =
    ap (λ k. slice (encode_entry zero_entry ++ entries_block n) k 64)
      (omega (arith, length-encode_entry zero_entry zero_entry-IsEntry))
    ∙ slice-append (encode_entry zero_entry) (entries_block n) (i * 64) 64
    ∙ slice-entries_block n i (omega arith)

-- The partition that mkfs leaves.
unfoldable pub formatted : List ℕ → List ℕ
formatted device = write_blocks 0 (format_image (length device)) device

module _ (device : List ℕ) (low : 5120 ≤ length device) (high : length device < 2 ^ 31) where
  abbrev super_of : SuperBlock
  super_of = format_super (length device)

  abbrev image : List ℕ
  image = encode_super super_of ++ entries_block super_of.entry_count

  fresh-IsLaidOut : IsLaidOut super_of (length device)
  unfolding format_super
  fresh-IsLaidOut = record {
    block = refl;
    entry = refl;
    first = omega arith;
    table = omega (arith, low, high);
    area = omega (arith, low, high);
    inside = omega (arith, low, high);
    small = high;
  }

  length-image : length image ≡ 512 + super_of.entry_count * 64
  length-image =
      length-append (encode_super super_of) (entries_block super_of.entry_count)
      ∙ ap₂ (λ a b. a + b) (length-encode_super super_of)
          (length-entries_block super_of.entry_count ∙ swap super_of.entry_count)
    where
      swap : (n : ℕ) → 64 * n ≡ n * 64
      swap n = omega arith

  joined-format_image : joined (format_image (length device)) ≡ image
  unfolding format_image format_super
  joined-format_image =
      ap (◌++◌ (encode_super super_of))
        (joined-replicate super_of.entry_table_size 8 ∙ ap entries_block (omega (arith, low, high)))

  image_inside : length image ≤ length device
  image_inside =
      let l = fresh-IsLaidOut in omega (arith, length-image, l.first, l.table, l.area, l.inside)

  formatted-image : formatted device ≡ splice device 0 image
  unfolding formatted
  formatted-image =
      write_blocks-splice 0 (format_image (length device)) device
        (rw joined-format_image (omega (arith, image_inside)))
      ∙ ap (splice device 0) joined-format_image

  slot_inside : (i : ℕ) → i < super_of.entry_count → slot super_of i ≡ 512 + i * 64
  unfolding format_super
  slot_inside i lt = refl

  fresh_stored :
      (i : ℕ)
      → i < super_of.entry_count
      → slice (formatted device) (slot super_of i) 64 ≡ encode_entry zero_entry
  fresh_stored i lt =
      ap₂ (λ xs o. slice xs o 64) formatted-image (slot_inside i lt)
      ∙ slice-overwrite device image (512 + i * 64) 64 (omega (arith, length-image, lt))
          (omega (arith, image_inside))
      ∙ ap (λ n. slice image (n + i * 64) 64) (sym (length-encode_super super_of))
      ∙ slice-append (encode_super super_of) (entries_block super_of.entry_count) (i * 64) 64
      ∙ slice-entries_block super_of.entry_count i lt

  -- The partition is as long as it was, begins with the super block, and holds the empty table.
  pub fresh-length : length (formatted device) ≡ length device
  fresh-length = ap length formatted-image ∙ length-splice device 0 image

  pub fresh-head : take 512 (formatted device) ≡ encode_super super_of
  fresh-head =
      ap (take 512) formatted-image
      ∙ take-overwrite_short device image 512 (omega (arith, length-image))
          (omega (arith, image_inside))
      ∙ take-append (encode_super super_of) (entries_block super_of.entry_count) 512
          (sym (length-encode_super super_of))

  pub fresh-HasEntries : HasEntries (formatted device) super_of (fresh_entries super_of.entry_count)
  fresh-HasEntries =
      let n = super_of.entry_count in
      let size = length-replicate n zero_entry in
      record {
        layout = rw fresh-length fresh-IsLaidOut;
        count = size;
        stored =
            λ i lt. fresh_stored i (omega (arith, size)) ∙ ap encode_entry (sym (get_or-fresh n i));
        entries = λ i lt. rw (get_or-fresh n i) zero_entry-IsEntry;
      }

  pub fresh-IsSuper : IsSuper super_of
  unfolding format_super
  fresh-IsSuper = record {
    type_word = omega arith;
    block_size_word = omega arith;
    partition_size_word = omega arith;
    entry_size_word = omega arith;
    entry_table_size_word = omega arith;
    entry_table_block_start_word = omega arith;
    entry_count_word = omega arith;
    data_block_start_word = omega arith;
  }
