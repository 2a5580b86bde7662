-- ===== src/Browse/Contents/Kept.antt =====
-- A file that is kept on a partition, and what sfs_read of browse_sfs.c prints of it.
use linuxpedia.Prelude.{
  ℕ, ◌-◌, ◌≡◌, refl, ap, ap₂, ◌∙◌, true, some, Option, List, [], ◌∷◌, ◌++◌, length, arith,
}
use mathlib.Core.Path.{subst}
use linuxpedia.Sfs.Layout.{SuperBlock, FileEntry}
use linuxpedia.Sfs.Directory.{find}
use linuxpedia.Browse.Handle.{Browser, lseek_set, read_bytes, block_offset}
use linuxpedia.Browse.Table.{printed, may_read, sfs_lookup}
use linuxpedia.Browse.Table.Scan.{HasEntries, moved, Finds, sfs_lookup-Finds}
use linuxpedia.Browse.Contents.{read_blocks, read_piece, piece_size, sfs_read}
use linuxpedia.Browse.Contents.Pieces.{Piece, contents, AllHeld, blocks_of}
use linuxpedia.Browse.Contents.Read.{Cut, read_blocks-contents}

-- A lookup of a file that the table has.
pub lookup_found :
    (b : Browser) {es : List FileEntry} (fn : List ℕ) (i : ℕ) (x : FileEntry)
    → HasEntries b.bytes b.sb es
    → find fn es ≡ some (i, x)
    → (p : ℕ) × (sfs_lookup b fn ≡ (some i, x, moved b p))
lookup_found b {es} fn i x h e =
    let (found, entry, same) : Finds (some (i, x)) b (sfs_lookup b fn) =
      subst (λ o. Finds o b (sfs_lookup b fn)) e (sfs_lookup-Finds b fn h) in
    (
      (sfs_lookup b fn).2.pos,
      ap₂ (λ (o : Option ℕ) (q : FileEntry × Browser). (o, q.0, q.1)) found
          (ap₂ (λ y c. (y, c)) entry same),
    )

-- On the partition `bytes`, the file `fn` may be read and has this text, in pieces that its entry
-- names first.
pub record IsKept (bytes : List ℕ) (sb : SuperBlock) (fn text : List ℕ) : Type 0 where
  pub es : List FileEntry
  pub i : ℕ
  pub fe : FileEntry
  pub table : HasEntries bytes sb es
  pub found : find fn es ≡ some (i, fe)
  pub readable : may_read fe ≡ true
  pub pieces : List Piece
  pub rest : List ℕ
  pub used : List ℕ
  pub held : AllHeld sb bytes used pieces
  pub cut : Cut pieces
  pub blocks : fe.blocks ≡ blocks_of pieces ++ rest
  pub size : fe.size ≡ length (contents pieces)
  pub same : contents pieces ≡ text

-- A program on such a partition prints the text, whatever else it has done.
pub sfs_read-IsKept :
    (b : Browser) (fn text : List ℕ)
    → IsKept b.bytes b.sb fn text
    → length b.block ≡ 512
    → (sfs_read b fn).0 ≡ printed text
unfolding sfs_read
sfs_read-IsKept b fn text h buffer =
    let (p, found) = lookup_found b fn h.i h.fe h.table h.found in
    let reads : (sfs_read b fn).0 ≡ printed (read_blocks h.fe.blocks h.fe.size (moved b p)).0 =
      rw (found, sfs_read, found, h.readable) in
    reads
    ∙ ap printed (
        ap₂ (λ ks size. (read_blocks ks size (moved b p)).0) h.blocks h.size
        ∙ read_blocks-contents h.pieces h.rest (moved b p) h.used h.table.layout h.held h.cut
            (omega (arith, buffer))
        ∙ h.same)

lseek_set-bytes : (b : Browser) (o : ℕ) → (lseek_set b o).bytes ≡ b.bytes
unfolding lseek_set
lseek_set-bytes b o = ground arith

read_blocks-bytes : (ks : List ℕ) (rem : ℕ) (b : Browser) → (read_blocks ks rem b).1.bytes ≡ b.bytes
unfolding read_blocks read_piece read_bytes
read_blocks-bytes [] rem b = refl
read_blocks-bytes (k ∷ ks) rem b =
    let n = piece_size b.sb rem in
    let b' = (read_piece b k n).1 in
    ground (arith, lseek_set-bytes b (block_offset b.sb k), read_blocks-bytes ks (rem - n) b')

-- sfs_read of a file that is there leaves the partition as it is.
pub sfs_read-bytes :
    (b : Browser) (fn text : List ℕ)
    → IsKept b.bytes b.sb fn text
    → (sfs_read b fn).1.bytes ≡ b.bytes
unfolding sfs_read
sfs_read-bytes b fn text h =
    let (p, found) = lookup_found b fn h.i h.fe h.table h.found in
    rw (found, sfs_read, found, h.readable) (read_blocks-bytes h.fe.blocks h.fe.size (moved b p))
