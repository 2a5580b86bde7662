-- ===== src/Sfs/BlockIo/Table.antt =====
-- The entry table as the list of entries that the device's bytes stand for.
use linuxpedia.Prelude.{
  ℕ, ◌+◌, ◌/◌, ◌%◌, ◌<◌, ◌≡◌, ◌≢◌, inl, inr, ap, ◌∙◌, sym, none, some, List, length, get_or, set,
  arith, Option-cases, Bool-cases, ◌==◌, ==→eq, ==→ne, slice, splice, length-splice,
  slice-splice_self, slice-splice_before, slice-splice_after, le→ltb, if◌then◌else◌, length-set,
  get_or-set_self, get_or-set_ne,
}
use linuxpedia.Prelude.Int.{pos, neg_eio}
use linuxpedia.Sfs.Layout.{FileEntry, IsEntry, u32_mod, zero_entry, encode_entry, decode_entry}
use linuxpedia.Sfs.Layout.RoundTrip.{length-encode_entry, decode_entry-encode_entry}
use linuxpedia.Sfs.Device.{BufferCache}
use linuxpedia.Sfs.BlockIo.{Fs, failed, copied, read_entry, write_entry}
use linuxpedia.Sfs.BlockIo.Laws.{HasTable, slot, slot_fits, slots_apart}

module _ {D : Type 0} ⦃cache : BufferCache D⦄ where
  -- The device holds these entries, every one of them readable.
  pub record Holds (fs : Fs D) (es : List FileEntry) : Type 0 where
    pub table : HasTable cache.bd_block_size fs.sb
    pub count : length es ≡ fs.sb.entry_count
    pub stored : (i : ℕ) → i < length es → read_entry fs i ≡ copied (get_or es i zero_entry)
    pub entries : (i : ℕ) → i < length es → IsEntry (get_or es i zero_entry)

  abbrev pub slot_block : Fs D → ℕ → ℕ
  slot_block fs i = slot fs.sb i / cache.bd_block_size

  abbrev pub slot_offset : Fs D → ℕ → ℕ
  slot_offset fs i = slot fs.sb i % cache.bd_block_size

  -- With the geometry right the straddling test never fires: a read depends on its block alone.
  read_entry-none :
      (fs : Fs D) (g : HasTable cache.bd_block_size fs.sb) (i : ℕ)
      → i < fs.sb.entry_count
      → cache.sb_bread fs.dev (slot_block fs i) ≡ none
      → read_entry fs i ≡ failed neg_eio
  unfolding read_entry
  read_entry-none fs g i h e = rw (
    le→ltb cache.bd_block_size ((slot_offset fs i + 64) % u32_mod)
        (omega (arith, slot_fits g i h, g.block_small)),
    e,
    read_entry,
  )

  pub read_entry-some :
      (fs : Fs D) (g : HasTable cache.bd_block_size fs.sb) (i : ℕ) (bytes : List ℕ)
      → i < fs.sb.entry_count
      → cache.sb_bread fs.dev (slot_block fs i) ≡ some bytes
      → read_entry fs i ≡ copied (decode_entry (slice bytes (slot_offset fs i) 64))
  unfolding read_entry
  read_entry-some fs g i bytes h e = rw (
    le→ltb cache.bd_block_size ((slot_offset fs i + 64) % u32_mod)
        (omega (arith, slot_fits g i h, g.block_small)),
    e,
    read_entry,
  )

  abbrev stored_dev : Fs D → ℕ → FileEntry → List ℕ → D
  stored_dev fs i fe bytes =
      cache.mark_buffer_dirty fs.dev (slot_block fs i)
        (splice bytes (slot_offset fs i) (encode_entry fe))

  write_entry-some :
      (fs : Fs D) (g : HasTable cache.bd_block_size fs.sb) (i : ℕ) (fe : FileEntry) (bytes : List ℕ)
      → IsEntry fe
      → i < fs.sb.entry_count
      → cache.sb_bread fs.dev (slot_block fs i) ≡ some bytes
      → write_entry fs i fe ≡ (pos 0, record fs { dev = stored_dev fs i fe bytes })
  unfolding write_entry
  write_entry-some fs g i fe bytes v h e = rw (
    length-encode_entry fe v,
    le→ltb cache.bd_block_size ((slot_offset fs i + 64) % u32_mod)
        (omega (arith, slot_fits g i h, g.block_small)),
    e,
  )

  -- The block of an entry that can be read.
  pub block_readable :
      {fs : Fs D} {es : List FileEntry} (h : Holds fs es) (i : ℕ)
      → i < length es
      → (bytes : List ℕ) × (cache.sb_bread fs.dev (slot_block fs i) ≡ some bytes)
  block_readable {fs} {es} h i lt = elim (Option-cases (cache.sb_bread fs.dev (slot_block fs i))) [
    | inl e ↦ absurd (cc (h.stored i lt, read_entry-none fs h.table i (omega (arith, h.count)) e))
    | inr found ↦ found
  ]

  module _ (fs : Fs D) (es : List FileEntry) (h : Holds fs es) (i : ℕ) (fe : FileEntry)
      (lt : i < length es) (v : IsEntry fe) (bytes : List ℕ)
      (e : cache.sb_bread fs.dev (slot_block fs i) ≡ some bytes) where
    abbrev new_bytes : List ℕ
    new_bytes = splice bytes (slot_offset fs i) (encode_entry fe)

    abbrev new_fs : Fs D
    new_fs = record fs { dev = stored_dev fs i fe bytes }

    bread_new :
        (c : ℕ)
        → cache.sb_bread new_fs.dev c
          ≡ (if slot_block fs i == c then some new_bytes else cache.sb_bread fs.dev c)
    bread_new = cache.coherent fs.dev (slot_block fs i) bytes new_bytes e (
        length-splice bytes (slot_offset fs i) (encode_entry fe)
        ∙ cache.buffer_size fs.dev (slot_block fs i) bytes e)

    read_self : read_entry new_fs i ≡ copied fe
    read_self =
        read_entry-some new_fs h.table i new_bytes (omega (arith, h.count))
          (ground (arith, bread_new (slot_block fs i)))
        ∙ ap copied (ap decode_entry same ∙ decode_entry-encode_entry fe v)
      where
        same : slice new_bytes (slot_offset fs i) 64 ≡ encode_entry fe
        same =
            slice-splice_self bytes (slot_offset fs i) (encode_entry fe) 64
              (sym (length-encode_entry fe v))
              (omega (
                arith,
                cache.buffer_size fs.dev (slot_block fs i) bytes e,
                slot_fits h.table i (omega (arith, h.count)),
              ))

    slice_other :
        (j : ℕ)
        → j < length es
        → i ≢ j
        → slot_block fs i ≡ slot_block fs j
        → slice new_bytes (slot_offset fs j) 64 ≡ slice bytes (slot_offset fs j) 64
    slice_other j ltj ne same =
        elim (slots_apart h.table i j (omega (arith, h.count)) (omega (arith, h.count)) ne same) [
          | inl after ↦
              slice-splice_after bytes (slot_offset fs i) (encode_entry fe) (slot_offset fs j) 64
                (omega (arith, length-encode_entry fe v, after))
          | inr before ↦
              slice-splice_before bytes (slot_offset fs i) (encode_entry fe) (slot_offset fs j) 64
                before
        ]

    read_other : (j : ℕ) → j < length es → i ≢ j → read_entry new_fs j ≡ read_entry fs j
    read_other j ltj ne =
        let inside : j < fs.sb.entry_count = omega (arith, h.count) in
        let (old, found) = block_readable h j ltj in
        elim (Bool-cases (slot_block fs i == slot_block fs j)) [
          | inl same ↦
              read_entry-some new_fs h.table j new_bytes inside
                (bread_new (slot_block fs j) ∙ rw same)
              ∙ ap (λ bs. copied (decode_entry bs)) (slice_other j ltj ne (==→eq _ _ same))
              ∙ sym (
                  read_entry-some fs h.table j bytes inside
                    (ap (cache.sb_bread fs.dev) (sym (==→eq _ _ same)) ∙ e))
          | inr differ ↦
              read_entry-some new_fs h.table j old inside
                (bread_new (slot_block fs j) ∙ rw differ found)
              ∙ sym (read_entry-some fs h.table j old inside found)
        ]

    stored_new :
        (j : ℕ)
        → j < length (set es i fe)
        → (read_entry new_fs j ≡ copied (get_or (set es i fe) j zero_entry))
          × IsEntry (get_or (set es i fe) j zero_entry)
    stored_new j ltj =
        let inside : j < length es = omega (arith, length-set es i fe) in
        elim (Bool-cases (i == j)) [
          | inl same ↦
              let p : i ≡ j = ==→eq _ _ same in
              rw (← p, get_or-set_self es i fe zero_entry lt) (read_self, v)
          | inr differ ↦
              rw (get_or-set_ne es i j fe zero_entry (==→ne _ _ differ))
                (read_other j inside (==→ne _ _ differ) ∙ h.stored j inside, h.entries j inside)
        ]

    new_Holds : Holds new_fs (set es i fe)
    new_Holds = record {
      table = h.table;
      count = length-set es i fe ∙ h.count;
      stored = λ j ltj. (stored_new j ltj).0;
      entries = λ j ltj. (stored_new j ltj).1;
    }

  -- Writing an entry returns 0 and changes the table at that entry and nowhere else; the super
  -- block and the map of used blocks stay.
  pub write_entry-Holds :
      {fs : Fs D} {es : List FileEntry} (h : Holds fs es) (i : ℕ) (fe : FileEntry)
      → i < length es
      → IsEntry fe
      → (d : D) × (write_entry fs i fe ≡ (pos 0, record fs { dev = d }))
        × Holds (record fs { dev = d }) (set es i fe)
  write_entry-Holds {fs} {es} h i fe lt v =
      let (bytes, e) = block_readable h i lt in
      (
        stored_dev fs i fe bytes,
        write_entry-some fs h.table i fe bytes v (omega (arith, h.count)) e,
        new_Holds fs es h i fe lt v bytes e,
      )
