-- ===== src/Browse/Table/Change.antt =====
-- Storing an entry of the file table, and what is left alone outside of it.
use linuxpedia.Prelude.{
  ℕ, ◌+◌, ◌-◌, ◌*◌, ◌≤◌, ◌<◌, ◌≡◌, ◌≢◌, refl, sym, ap, ◌∙◌, ◌&&◌, not, some, List, length,
  length-set, [], ◌∷◌, get_or, set, get_or-set_self, get_or-set_ne, slice, splice, length-splice,
  slice-splice_self, slice-splice_before, slice-splice_after, arith, inl, inr, Bool-cases, ◌==◌,
  ==→eq, ==→ne, min, ltb, ltb→lt, ltb→ge,
}
use linuxpedia.Prelude.CString.{str_eq}
use linuxpedia.Sfs.Layout.{SuperBlock, FileEntry, IsEntry, zero_entry, encode_entry}
use linuxpedia.Sfs.Layout.RoundTrip.{length-encode_entry}
use linuxpedia.Sfs.Directory.{find, named}
use linuxpedia.Sfs.Directory.Laws.{find-some, find-first}
use linuxpedia.Browse.Handle.{Browser, write_bytes}
use linuxpedia.Sfs.Entries.Refine.{release}
use linuxpedia.Browse.Table.{store_entry, put_blocks, put_data_block}
use linuxpedia.Browse.Table.Scan.{HasEntries, slot, lseek_set-moved, entry_offset_of-slot}

module _ {bytes : List ℕ} {sb : SuperBlock} {es : List FileEntry} (h : HasEntries bytes sb es)
    (i : ℕ) (fe : FileEntry) (lt : i < length es) (v : IsEntry fe) where
  stored_at :
      (j : ℕ)
      → j < length es
      → slice (splice bytes (slot sb i) (encode_entry fe)) (slot sb j) 64
        ≡ encode_entry (get_or (set es i fe) j zero_entry)
  stored_at j ltj =
      let new = encode_entry fe in
      let size = length-encode_entry fe v in
      elim (Bool-cases (i == j)) [
        | inl same ↦
            let p : i ≡ j = ==→eq _ _ same in
            rw (← p, get_or-set_self es i fe zero_entry lt)
              (slice-splice_self bytes (slot sb i) new 64 (sym size)
                (omega (arith, h.count, h.layout.table, h.layout.area, h.layout.inside)))
        | inr differ ↦
            let ne : i ≢ j = ==→ne _ _ differ in
            rw (get_or-set_ne es i j fe zero_entry ne) (apart j ne ∙ h.stored j ltj)
      ]
    where
      apart :
          (j : ℕ)
          → i ≢ j
          → slice (splice bytes (slot sb i) (encode_entry fe)) (slot sb j) 64
            ≡ slice bytes (slot sb j) 64
      apart j ne = elim (Bool-cases (ltb i j)) [
        | inl less ↦
            slice-splice_after bytes (slot sb i) (encode_entry fe) (slot sb j) 64
              (omega (arith, length-encode_entry fe v, ltb→lt i j less))
        | inr more ↦
            slice-splice_before bytes (slot sb i) (encode_entry fe) (slot sb j) 64
              (omega (arith, ltb→ge i j more, ne))
      ]

  IsEntry-at : (j : ℕ) → j < length es → IsEntry (get_or (set es i fe) j zero_entry)
  IsEntry-at j ltj = elim (Bool-cases (i == j)) [
    | inl same ↦ let p : i ≡ j = ==→eq _ _ same in rw (← p, get_or-set_self es i fe zero_entry lt) v
    | inr differ ↦ rw (get_or-set_ne es i j fe zero_entry (==→ne _ _ differ)) (h.entries j ltj)
  ]

  pub HasEntries-set : HasEntries (splice bytes (slot sb i) (encode_entry fe)) sb (set es i fe)
  HasEntries-set = record {
    layout = rw (length-splice bytes (slot sb i) (encode_entry fe)) h.layout;
    count = length-set es i fe ∙ h.count;
    stored = λ j ltj. stored_at j (omega (arith, length-set es i fe));
    entries = λ j ltj. IsEntry-at j (omega (arith, length-set es i fe));
  }

-- A write into the data area leaves the table.
pub HasEntries-splice :
    {bytes : List ℕ} {sb : SuperBlock} {es : List FileEntry} (k : ℕ) (new : List ℕ)
    → HasEntries bytes sb es
    → sb.data_block_start ≤ k
    → HasEntries (splice bytes (k * 512) new) sb es
HasEntries-splice {bytes} {sb} {es} k new h low = record {
  layout = rw (length-splice bytes (k * 512) new) h.layout;
  count = h.count;
  stored = λ j ltj.
      slice-splice_before bytes (k * 512) new (slot sb j) 64
        (omega (arith, h.count, h.layout.table))
      ∙ h.stored j ltj;
  entries = h.entries;
}

-- A write of 64 bytes right after the table leaves the table.
pub HasEntries-after :
    {bytes : List ℕ} {sb : SuperBlock} {es : List FileEntry} (new : List ℕ)
    → HasEntries bytes sb es
    → HasEntries (splice bytes (slot sb (length es)) new) sb es
HasEntries-after {bytes} {sb} {es} new h = record {
  layout = rw (length-splice bytes (slot sb (length es)) new) h.layout;
  count = h.count;
  stored = λ j ltj.
      slice-splice_before bytes (slot sb (length es)) new (slot sb j) 64 (omega arith)
      ∙ h.stored j ltj;
  entries = h.entries;
}

-- Storing an entry moves the position and changes its 64 bytes.
pub store_entry-splice :
    (b : Browser) {es : List FileEntry} (i : ℕ) (fe : FileEntry)
    → HasEntries b.bytes b.sb es
    → i < length es
    → IsEntry fe
    → (p : ℕ) × (store_entry b i fe
        ≡ record b { bytes = splice b.bytes (slot b.sb i) (encode_entry fe); pos = p })
unfolding store_entry write_bytes
store_entry-splice b i fe h lt v =
    let l = h.layout in
    (
      slot b.sb i + min (length (encode_entry fe)) (length b.bytes - slot b.sb i),
      rw (
        entry_offset_of-slot l i (omega (arith, h.count)),
        lseek_set-moved b (slot b.sb i) (omega (arith, h.count, l.table, l.area, l.inside))
            (omega (arith, h.count, l.table, l.area, l.inside, l.small)),
      ),
    )

-- An entry that keeps its name is found where it was.
pub find-set_same :
    (fn : List ℕ) (es : List FileEntry) (i : ℕ) (x fe : FileEntry)
    → find fn es ≡ some (i, x)
    → fe.name ≡ x.name
    → find fn (set es i fe) ≡ some (i, fe)
find-set_same fn es i x fe e same =
    let f = find-some fn es i x e in
    let self = get_or-set_self es i fe zero_entry f.inside in
    find-first fn (set es i fe) i (omega (arith, length-set es i fe, f.inside))
      (ap (named fn) self ∙ ap (λ n. not (get_or n 0 0 == 0) && str_eq n fn) same ∙ f.has_name)
      (λ j less.
        ap (named fn) (get_or-set_ne es i j fe zero_entry (λ q. omega arith)) ∙ f.earlier j less)
    ∙ ap (λ y. some (i, y)) self

-- Giving blocks back changes the tracker alone.
pub put_blocks-release :
    (ks : List ℕ) (b : Browser)
    → put_blocks ks b ≡ record b { used_blocks = release ks b.used_blocks }
unfolding put_blocks release put_data_block
put_blocks-release [] b = refl
put_blocks-release (k ∷ ks) b = ground (arith, put_blocks-release ks (put_data_block b k))
