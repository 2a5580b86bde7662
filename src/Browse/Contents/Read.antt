-- ===== src/Browse/Contents/Read.antt =====
-- The loop of sfs_read prints the pieces of a file.
use linuxpedia.Prelude.{
  ℕ, ◌+◌, ◌-◌, ◌*◌, ◌%◌, ◌≤◌, ◌<◌, ◌≡◌, ◌≢◌, refl, sym, ap, ◌∙◌, List, [], ◌∷◌, ◌++◌, length,
  length-append, take-overwrite, overwrite, length-overwrite, arith, ◌==◌, eq→==, ne→==, inl, inr,
  Bool-cases,
}
use mathlib.Core.List.{append-nil}
use linuxpedia.Sfs.Layout.{SuperBlock, u32_mod}
use linuxpedia.Browse.Handle.{Browser, read_bytes, block_offset}
use linuxpedia.Browse.Table.Scan.{IsLaidOut, lseek_set-moved}
use linuxpedia.Browse.Contents.{read_blocks, read_piece, piece_size}
use linuxpedia.Browse.Contents.Pieces.{Piece, contents, blocks_of, IsHeldAt, AllHeld, AllFull}

-- Every piece but the last fills its block, and the last is not empty.
abbrev pub Cut : List Piece → Type 0
Cut [] = Unit
Cut ((k, p) ∷ []) = 0 < length p
Cut ((k, p) ∷ w ∷ ws) = (length p ≡ 512) × Cut (w ∷ ws)

pub AllFull-Cut : (ws : List Piece) → AllFull ws → Cut ws
AllFull-Cut [] h = tt
AllFull-Cut ((k, p) ∷ []) h = omega arith
AllFull-Cut ((k, p) ∷ w ∷ ws) h = (h.0, AllFull-Cut (w ∷ ws) h.1)

pub Cut-append :
    (ws : List Piece) (k : ℕ) (p : List ℕ) → AllFull ws → 0 < length p → Cut (ws ++ ((k, p) ∷ []))
Cut-append [] k p h some_bytes = some_bytes
Cut-append ((j, q) ∷ []) k p h some_bytes = (h.0, some_bytes)
Cut-append ((j, q) ∷ w ∷ ws) k p h some_bytes = (h.0, Cut-append (w ∷ ws) k p h.1 some_bytes)

-- The program after a piece has been read.
abbrev pub past : Browser → ℕ → List ℕ → Browser
past b k p = record b { pos = k * 512 + length p; block = overwrite b.block p }

read_piece-held :
    (b : Browser) (used : List ℕ) (k : ℕ) (p : List ℕ)
    → IsLaidOut b.sb (length b.bytes)
    → IsHeldAt b.sb b.bytes used k p
    → 512 ≤ length b.block
    → read_piece b k (length p) ≡ (p, past b k p)
unfolding read_piece read_bytes
read_piece-held b used k p l h size =
    let at : block_offset b.sb k ≡ k * 512 =
      ap (λ n. k * n % u32_mod) l.block ∙ omega (arith, h.high, l.inside, l.small) in
    rw (
      at,
      lseek_set-moved b (k * 512) (omega (arith, h.high, l.inside))
          (omega (arith, h.high, l.inside, l.small)),
      h.here,
      take-overwrite b.block p (omega (arith, h.short)),
    )

-- A turn of the loop that prints these bytes.
module _ (b : Browser) (k n : ℕ) (ks : List ℕ) (rem : ℕ) (out : List ℕ) (b' : Browser)
    (some_block : k ≢ 0) (amount : piece_size b.sb rem ≡ n)
    (reads : read_piece b k n ≡ (out, b')) where
  read_blocks-last : rem ≡ n → (read_blocks (k ∷ ks) rem b).0 ≡ out
  unfolding read_blocks
  read_blocks-last all = rw (amount, reads, ne→== k 0 some_block, eq→== (rem - n) 0 (omega arith))

  read_blocks-more :
      n < rem → (read_blocks (k ∷ ks) rem b).0 ≡ out ++ (read_blocks ks (rem - n) b').0
  unfolding read_blocks
  read_blocks-more left =
      rw (amount, reads, ne→== k 0 some_block, ne→== (rem - n) 0 (λ e. omega arith))

piece_size-full :
    (sb : SuperBlock) (rem : ℕ) → sb.block_size ≡ 512 → 512 ≤ rem → piece_size sb rem ≡ 512
unfolding piece_size
piece_size-full sb rem e h = ground arith

piece_size-rest :
    (sb : SuperBlock) (rem : ℕ) → sb.block_size ≡ 512 → rem ≤ 512 → piece_size sb rem ≡ rem
unfolding piece_size
piece_size-rest sb rem e h = ground arith

held_block :
    {sb : SuperBlock} {bytes used : List ℕ} {k : ℕ} {p : List ℕ} {size : ℕ}
    → IsLaidOut sb size
    → IsHeldAt sb bytes used k p
    → k ≢ 0
held_block l h e = omega (arith, l.first, l.table, h.low)

-- With nothing left to print, blocks that the entry still names print nothing.
read_blocks-nothing :
    (ks : List ℕ) (b : Browser) → b.sb.block_size ≡ 512 → (read_blocks ks 0 b).0 ≡ []
unfolding read_blocks read_piece
read_blocks-nothing [] b h = refl
read_blocks-nothing (k ∷ ks) b h = elim (Bool-cases (k == 0)) [
  | inl e ↦ rw e
  | inr e ↦ rw (e, piece_size-rest b.sb 0 h (omega arith))
]

Cut-length : (w : Piece) (ws : List Piece) → Cut (w ∷ ws) → 0 < length (contents (w ∷ ws))
Cut-length (k, p) [] h = omega (arith, length-append p [])
Cut-length (k, p) (w ∷ ws) h = omega (arith, h.0, length-append p (contents (w ∷ ws)))

-- The loop prints the pieces, whatever blocks the entry names after them.
pub read_blocks-contents :
    (ws : List Piece) (rest : List ℕ) (b : Browser) (used : List ℕ)
    → IsLaidOut b.sb (length b.bytes)
    → AllHeld b.sb b.bytes used ws
    → Cut ws
    → 512 ≤ length b.block
    → (read_blocks (blocks_of ws ++ rest) (length (contents ws)) b).0 ≡ contents ws
read_blocks-contents [] rest b used l h cut size = read_blocks-nothing rest b l.block
read_blocks-contents ((k, p) ∷ []) rest b used l h cut size =
    let all : length (p ++ []) ≡ length p = ap length (append-nil p) in
    read_blocks-last b k (length p) rest (length (p ++ [])) p (past b k p) (held_block l h.0)
      (piece_size-rest b.sb (length (p ++ [])) l.block (omega (arith, h.0.short)) ∙ all)
      (read_piece-held b used k p l h.0 size) all
    ∙ sym (append-nil p)
read_blocks-contents ((k, p) ∷ w ∷ ws) rest b used l h cut size =
    let later = contents (w ∷ ws) in
    let whole = length-append p later in
    let b' = past b k p in
    read_blocks-more b k (length p) (blocks_of (w ∷ ws) ++ rest) (length (p ++ later)) p b'
      (held_block l h.0)
      (piece_size-full b.sb (length (p ++ later)) l.block (omega (arith, cut.0)) ∙ sym cut.0)
      (read_piece-held b used k p l h.0 size) (omega (arith, Cut-length w ws cut.1))
    ∙ ap (◌++◌ p) (
        ap (λ n. (read_blocks (blocks_of (w ∷ ws) ++ rest) n b').0) (omega arith)
        ∙ read_blocks-contents (w ∷ ws) rest b' used l h.1 cut.1
            (omega (arith, length-overwrite b.block p)))
