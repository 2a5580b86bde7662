-- ===== src/Browse/Contents/Pieces.antt =====
-- Pieces of a file: the blocks that hold them, and the free blocks that are left.
use linuxpedia.Prelude.{
  ℕ, zero, suc, ◌+◌, ◌*◌, ◌≤◌, ◌<◌, ◌≡◌, ◌≢◌, refl, sym, ap, ◌∙◌, some, List, [], ◌∷◌, ◌++◌, length,
  length-append, get_or, set, get_or-set_ne, get_or-set_self, slice, splice, slice-splice_self,
  slice-splice_before, slice-splice_after, arith, inl, inr, Bool-cases, ◌==◌, ltb, ltb→lt, ltb→ge,
  if◌then◌else◌,
}
use linuxpedia.Sfs.Layout.{SuperBlock}
use mathlib.Core.List.{append_assoc}
use linuxpedia.Sfs.Blocks.{scan_free}
use linuxpedia.Sfs.Blocks.Laws.{scan_free-some}

-- A block and the bytes at its start that belong to the file.
abbrev pub Piece : Type 0
Piece = ℕ × List ℕ

abbrev pub contents : List Piece → List ℕ
contents [] = []
contents ((k, p) ∷ ws) = p ++ contents ws

abbrev pub blocks_of : List Piece → List ℕ
blocks_of [] = []
blocks_of ((k, p) ∷ ws) = k ∷ blocks_of ws

-- A piece stands in a marked block of the data area.
pub record IsHeldAt (sb : SuperBlock) (bytes used : List ℕ) (k : ℕ) (p : List ℕ) : Type 0 where
  pub low : sb.data_block_start ≤ k
  pub high : k < sb.partition_size
  pub marked : get_or used k 0 ≢ 0
  pub short : length p ≤ 512
  pub here : slice bytes (k * 512) (length p) ≡ p

abbrev pub AllHeld : SuperBlock → List ℕ → List ℕ → List Piece → Type 0
AllHeld sb bytes used [] = Unit
AllHeld sb bytes used ((k, p) ∷ ws) = IsHeldAt sb bytes used k p × AllHeld sb bytes used ws

abbrev pub AllFull : List Piece → Type 0
AllFull [] = Unit
AllFull ((k, p) ∷ ws) = (length p ≡ 512) × AllFull ws

pub AllHeld-append :
    (sb : SuperBlock) (bytes used : List ℕ) (ws : List Piece) (k : ℕ) (p : List ℕ)
    → AllHeld sb bytes used ws
    → IsHeldAt sb bytes used k p
    → AllHeld sb bytes used (ws ++ ((k, p) ∷ []))
AllHeld-append sb bytes used [] k p h g = (g, tt)
AllHeld-append sb bytes used ((j, q) ∷ ws) k p h g =
    (h.0, AllHeld-append sb bytes used ws k p h.1 g)

pub AllFull-append :
    (ws : List Piece) (k : ℕ) (p : List ℕ)
    → AllFull ws
    → length p ≡ 512
    → AllFull (ws ++ ((k, p) ∷ []))
AllFull-append [] k p h g = (g, tt)
AllFull-append ((j, q) ∷ ws) k p h g = (h.0, AllFull-append ws k p h.1 g)

pub contents-append :
    (ws : List Piece) (k : ℕ) (p rest : List ℕ)
    → contents (ws ++ ((k, p) ∷ [])) ++ rest ≡ contents ws ++ p ++ rest
contents-append [] k p rest = simp (append_assoc)
contents-append ((j, q) ∷ ws) k p rest = simp (append_assoc, contents-append ws k p rest)

pub blocks_of-append :
    (ws : List Piece) (k : ℕ) (p : List ℕ)
    → blocks_of (ws ++ ((k, p) ∷ [])) ≡ blocks_of ws ++ (k ∷ [])
blocks_of-append [] k p = refl
blocks_of-append ((j, q) ∷ ws) k p = ap (◌∷◌ j) (blocks_of-append ws k p)

pub length-contents : (ws : List Piece) → AllFull ws → length (contents ws) ≡ 512 * length ws
length-contents [] h = omega arith
length-contents ((k, p) ∷ ws) h =
    omega (arith, length-append p (contents ws), length-contents ws h.1, h.0)

-- A write to a free block of the data area leaves the pieces where they are.
AllHeld-write :
    (sb : SuperBlock) (bytes used : List ℕ) (ws : List Piece) (k : ℕ) (new : List ℕ)
    → AllHeld sb bytes used ws
    → get_or used k 0 ≡ 0
    → length new ≤ 512
    → AllHeld sb (splice bytes (k * 512) new) (set used k 1) ws
AllHeld-write sb bytes used [] k new h free size = tt
AllHeld-write sb bytes used ((j, q) ∷ ws) k new h free size =
    let ne : k ≢ j = λ e. h.0.marked (ap (λ n. get_or used n 0) (sym e) ∙ free) in
    let there : slice (splice bytes (k * 512) new) (j * 512) (length q)
        ≡ slice bytes (j * 512) (length q) =
      elim (Bool-cases (ltb k j)) [
        | inl less ↦
            slice-splice_after bytes (k * 512) new (j * 512) (length q)
              (omega (arith, ltb→lt k j less))
        | inr more ↦
            slice-splice_before bytes (k * 512) new (j * 512) (length q)
              (omega (arith, ltb→ge k j more, h.0.short, ne))
      ] in
    (
      record {
        low = h.0.low;
        high = h.0.high;
        marked = λ e. h.0.marked (sym (get_or-set_ne used k j 1 0 ne) ∙ e);
        short = h.0.short;
        here = there ∙ h.0.here;
      },
      AllHeld-write sb bytes used ws k new h.1 free size,
    )

-- A new piece in a free block of the data area.
pub AllHeld-add :
    (sb : SuperBlock) (bytes used : List ℕ) (ws : List Piece) (k : ℕ) (new : List ℕ)
    → AllHeld sb bytes used ws
    → get_or used k 0 ≡ 0
    → length new ≤ 512
    → sb.data_block_start ≤ k
    → k < sb.partition_size
    → sb.partition_size * 512 ≤ length bytes
    → sb.partition_size ≤ length used
    → AllHeld sb (splice bytes (k * 512) new) (set used k 1) (ws ++ ((k, new) ∷ []))
AllHeld-add sb bytes used ws k new h free size low high inside tracked =
    AllHeld-append sb (splice bytes (k * 512) new) (set used k 1) ws k new
      (AllHeld-write sb bytes used ws k new h free size)
      (record {
        low = low;
        high = high;
        marked = λ e. omega (arith, sym (get_or-set_self used k 1 0 (omega arith)) ∙ e);
        short = size;
        here = slice-splice_self bytes (k * 512) new (length new) refl (omega arith);
      })

-- A write into the file table leaves them too.
pub AllHeld-table :
    (sb : SuperBlock) (bytes used : List ℕ) (ws : List Piece) (o : ℕ) (new : List ℕ)
    → AllHeld sb bytes used ws
    → o + length new ≤ sb.data_block_start * 512
    → AllHeld sb (splice bytes o new) used ws
AllHeld-table sb bytes used [] o new h below = tt
AllHeld-table sb bytes used ((j, q) ∷ ws) o new h below = (
  record {
    low = h.0.low;
    high = h.0.high;
    marked = h.0.marked;
    short = h.0.short;
    here = slice-splice_after bytes o new (j * 512) (length q) (omega (arith, h.0.low)) ∙ h.0.here;
  },
  AllHeld-table sb bytes used ws o new h.1 below,
)

-- The number of blocks from `i` on, of the next `n`, that the tracker has free.
unfoldable pub free_count : (n i : ℕ) → List ℕ → ℕ
free_count zero i used = 0
free_count (suc n) i used = (if get_or used i 0 == 0 then 1 else 0) + free_count n (suc i) used

free_count-set_before :
    (n i k : ℕ) (used : List ℕ) → k < i → free_count n i (set used k 1) ≡ free_count n i used
unfolding free_count
free_count-set_before zero i k used h = refl
free_count-set_before (suc n) i k used h = rw (
  get_or-set_ne used k i 1 0 (λ e. omega arith),
  free_count-set_before n (suc i) k used (omega arith),
)

-- Taking a block leaves one fewer.
pub free_count-taken :
    (n i k : ℕ) (used : List ℕ)
    → scan_free n i used ≡ some k
    → i + n ≤ length used
    → free_count n i (set used k 1) + 1 ≡ free_count n i used
unfolding free_count scan_free
free_count-taken zero i k used h inside = absurd (cc)
free_count-taken (suc n) i k used h inside = elim (Bool-cases (get_or used i 0 == 0)) [
  | inl free ↦
      let e : i ≡ k = ground arith in
      rw
        (
          ← e,
          get_or-set_self used i 1 0 (omega arith),
          free_count-set_before n (suc i) i used (omega arith),
          free,
        )
        (omega arith)
  | inr taken ↦
      let next : scan_free n (suc i) used ≡ some k = ground arith in
      let later = scan_free-some n (suc i) used k next in
      rw (get_or-set_ne used k i 1 0 (λ e. omega (arith, later.low)), taken)
        (omega (arith, free_count-taken n (suc i) k used next (omega arith)))
]

pub scan_free-found :
    (n i : ℕ) (used : List ℕ) → 0 < free_count n i used → (k : ℕ) × (scan_free n i used ≡ some k)
unfolding free_count scan_free
scan_free-found zero i used h = absurd (omega arith)
scan_free-found (suc n) i used h = elim (Bool-cases (get_or used i 0 == 0)) [
  | inl free ↦ (i, rw free)
  | inr taken ↦ let (k, e) = scan_free-found n (suc i) used (ground arith) in (k, rw taken e)
]
