-- ===== src/Simula/First/Alike.antt =====
-- The operations on the file table do not look at the tracker, the buffer or the position.
use linuxpedia.Prelude.{
  ℕ, zero, suc, ◌≡◌, refl, sym, ap, ◌∙◌, Option, none, some, List, ◌∷◌, length, arith, ◌==◌,
  if◌then◌else◌,
}
use linuxpedia.Sfs.Layout.{FileEntry, zero_entry, name_first}
use linuxpedia.Browse.Handle.{Browser, lseek_cur, write_bytes, read_entry_here, read_bytes}
use linuxpedia.Browse.Table.{
  Reply, listed, already_exists, Line, line_of, list_lines, sfs_list, create_scan, create_here,
  sfs_create,
}
use linuxpedia.Browse.Table.Scan.{IsLaidOut, moved, slot, seek_table}

-- The program with another tracker and buffer; and at another place as well.
abbrev pub dressed : Browser → List ℕ → List ℕ → Browser
dressed b used block = record b { used_blocks = used; block = block }

abbrev pub other : Browser → ℕ → List ℕ → List ℕ → Browser
other b p used block = record b { pos = p; used_blocks = used; block = block }

-- A result for the program dressed so.
abbrev pub with_dress : {A : Type 0} → List ℕ → List ℕ → A × Browser → A × Browser
with_dress used block (a, b) = (a, dressed b used block)

-- The end of sfs_create.
abbrev pub ended : List ℕ → ℕ → Option ℕ × Browser → Reply × Browser
ended fn now r = elim r.0 [ none ↦ (already_exists, r.1) | some i ↦ create_here fn now i r.1 ]

module _ (used block : List ℕ) where
  pub list_lines-dressed :
      (n : ℕ) (fe : FileEntry) (b : Browser)
      → list_lines n fe (dressed b used block) ≡ with_dress used block (list_lines n fe b)
  unfolding list_lines read_entry_here read_bytes
  list_lines-dressed zero fe b = refl
  list_lines-dressed (suc n) fe b =
      let (fe', b') = read_entry_here b fe in
      ap
        (λ (r : List Line × Browser). (if name_first fe' == 0 then r.0 else line_of fe' ∷ r.0, r.1))
        (list_lines-dressed n fe' b')

  pub create_scan-dressed :
      (fn : List ℕ) (n i : ℕ) (fe : FileEntry) (b : Browser)
      → create_scan fn n i fe (dressed b used block)
        ≡ with_dress used block (create_scan fn n i fe b)
  unfolding create_scan read_entry_here read_bytes
  create_scan-dressed fn zero i fe b = refl
  create_scan-dressed fn (suc n) i fe b =
      let (fe', b') = read_entry_here b fe in
      ground (arith, create_scan-dressed fn n (suc i) fe' b')

  create_here-dressed :
      (fn : List ℕ) (now i : ℕ) (b : Browser)
      → create_here fn now i (dressed b used block) ≡ with_dress used block (create_here fn now i b)
  unfolding create_here lseek_cur write_bytes
  create_here-dressed fn now i b = ground arith

  pub create_end :
      (fn : List ℕ) (now : ℕ) (r : Option ℕ × Browser)
      → ended fn now (with_dress used block r) ≡ with_dress used block (ended fn now r)
  create_end fn now (none, b) = refl
  create_end fn now (some i, b) = create_here-dressed fn now i b

  module _ (p : ℕ) (b : Browser) (l : IsLaidOut b.sb (length b.bytes)) where
    pub sfs_list-other : sfs_list (other b p used block) ≡ with_dress used block (sfs_list b)
    unfolding sfs_list
    sfs_list-other =
        rw (seek_table b l, seek_table (other b p used block) l)
          (ap (λ (r : List Line × Browser). (listed r.0, r.1))
            (list_lines-dressed b.sb.entry_count zero_entry (moved b (slot b.sb 0))))

    pub sfs_create-other :
        (fn : List ℕ) (now : ℕ)
        → sfs_create (other b p used block) fn now ≡ with_dress used block (sfs_create b fn now)
    unfolding sfs_create
    sfs_create-other fn now =
        let r = create_scan fn b.sb.entry_count 0 zero_entry (moved b (slot b.sb 0)) in
        let scanned =
          create_scan-dressed fn b.sb.entry_count 0 zero_entry (moved b (slot b.sb 0)) in
        let n = b.sb.entry_count in
        ap (λ c. ended fn now (create_scan fn n 0 zero_entry c))
          (seek_table (other b p used block) l)
        ∙ ap (ended fn now) scanned
        ∙ create_end fn now r
        ∙ sym (
            ap (λ c. with_dress used block (ended fn now (create_scan fn n 0 zero_entry c)))
              (seek_table b l))
