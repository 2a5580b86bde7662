-- ===== src/Interop/Files.antt =====
-- A file that browse_sfs.c keeps on a partition, as the kernel module finds it.
use linuxpedia.Prelude.{
  ℕ, zero, suc, ◌*◌, ◌≤◌, ◌<◌, ◌≡◌, refl, sym, ap, ap₂, ◌∙◌, true, Option, some, List, [], ◌∷◌,
  ◌++◌, length, length-append, take, slice, get_or, take-append, slice-append, arith,
}
use mathlib.Core.Path.{subst}
use linuxpedia.Prelude.{Bool, ◌&&◌, if◌then◌else◌}
use linuxpedia.Prelude.Int.{pos}
use linuxpedia.Prelude.CString.{c_str, strlen, str_eq, bytes_eq, c_str-strncpy}
use linuxpedia.Sfs.Device.{BufferCache}
use linuxpedia.Sfs.BlockIo.{Fs}
use linuxpedia.Sfs.Directory.{find_from, find, in_use}
use linuxpedia.Sfs.Directory.Laws.{find-some}
use linuxpedia.Sfs.Entries.{s2v_inode_num}
use linuxpedia.Sfs.Entries.Scan.{sfs_lookup-find, answer, last_or}
use linuxpedia.Sfs.Inode.{
  Inode, fresh, found, mode_of_perms, dentry_name, sfs_inode_lookup, sfs_get_block,
}
use linuxpedia.Sfs.Consistent.Blocks.{sfs_get_block-mapped}
use linuxpedia.Sfs.Mount.Sound.{tracker, mounted}
use linuxpedia.Browse.Contents.Kept.{IsKept}
use linuxpedia.Interop.Bytes.{Shows, shown-Holds, slice-slice}
use linuxpedia.Sfs.Layout.{SuperBlock, FileEntry, IsEntry, zero_entry}
use linuxpedia.Browse.Contents.Pieces.{Piece, contents, blocks_of, IsHeldAt, AllHeld}
use linuxpedia.Browse.Contents.Read.{Cut}

-- Block `j` of a file in these pieces.
record HasPiece (sb : SuperBlock) (bytes used blocks text : List ℕ) (j : ℕ) : Type 0 where
  pub k : ℕ
  pub p : List ℕ
  pub inside : j < length blocks
  pub named : get_or blocks j 0 ≡ k
  pub held : IsHeldAt sb bytes used k p
  pub here : slice text (j * 512) 512 ≡ p

whole_take : (p rest : List ℕ) → length p ≡ 512 → slice (p ++ rest) 0 512 ≡ p
whole_take p rest h = take-append p rest 512 (sym h)

short_take : (p : List ℕ) (n : ℕ) → length p ≤ n → take n (p ++ []) ≡ p
short_take [] zero h = refl
short_take [] (suc n) h = refl
short_take (x ∷ p) zero h = absurd (omega arith)
short_take (x ∷ p) (suc n) h = ap (◌∷◌ x) (short_take p n (omega arith))

piece_at :
    {sb : SuperBlock} {bytes used : List ℕ} (ws : List Piece) (rest : List ℕ) (j : ℕ)
    → Cut ws
    → AllHeld sb bytes used ws
    → j * 512 < length (contents ws)
    → HasPiece sb bytes used (blocks_of ws ++ rest) (contents ws) j
piece_at [] rest j c h lt = absurd (omega arith)
piece_at ((k, p) ∷ []) rest zero c h lt = record {
  k = k;
  p = p;
  inside = omega arith;
  named = refl;
  held = h.0;
  here = short_take p 512 h.0.short;
}
piece_at ((k, p) ∷ []) rest (suc j) c h lt = absurd (omega (arith, h.0.short, length-append p []))
piece_at ((k, p) ∷ w ∷ ws) rest zero c h lt = record {
  k = k;
  p = p;
  inside = omega arith;
  named = refl;
  held = h.0;
  here = whole_take p (contents (w ∷ ws)) c.0;
}
piece_at ((k, p) ∷ w ∷ ws) rest (suc j) c h lt =
    let later =
      piece_at (w ∷ ws) rest j c.1 h.1
        (omega (arith, lt, c.0, length-append p (contents (w ∷ ws)))) in
    record {
      k = later.k;
      p = later.p;
      inside = omega (arith, later.inside);
      named = later.named;
      held = later.held;
      here =
          ap (λ n. slice (p ++ contents (w ∷ ws)) n 512) (omega (arith, c.0))
          ∙ slice-append p (contents (w ∷ ws)) (j * 512) 512
          ∙ later.here;
    }

-- The name that a dentry is given is the same string.
find_from-name :
    (i : ℕ) (fn fn' : List ℕ) (es : List FileEntry)
    → c_str fn ≡ c_str fn'
    → find_from i fn es ≡ find_from i fn' es
unfolding find_from str_eq
find_from-name i fn fn' [] h = refl
find_from-name i fn fn' (x ∷ xs) h =
    ap₂
      (λ (s : List ℕ) (rest : Option (ℕ × FileEntry)).
        if in_use x && bytes_eq (c_str x.name) s then some (i, x) else rest)
      h (find_from-name (suc i) fn fn' xs h)

strlen-le : (fn : List ℕ) → strlen fn ≤ length fn
unfolding strlen c_str
strlen-le [] = omega arith
strlen-le (x ∷ fn) = ground (arith, strlen-le fn)

find-dentry_name : (fn : List ℕ) (es : List FileEntry) → find (dentry_name fn) es ≡ find fn es
unfolding find
find-dentry_name fn es =
    find_from-name 0 (dentry_name fn) fn es (c_str-strncpy (length fn) fn (strlen-le fn))

held_block :
    {sb : SuperBlock} {bytes used : List ℕ} {k : ℕ} {p : List ℕ}
    → IsHeldAt sb bytes used k p
    → p ≡ take (length p) (slice bytes (k * 512) 512)
held_block {sb} {bytes} {used} {k} {p} h =
    sym h.here
    ∙ ap (λ n. slice bytes n (length p)) (omega arith)
    ∙ sym (slice-slice bytes (k * 512) 512 0 (length p) (omega (arith, h.short)))

module _ {D : Type 0} ⦃cache : BufferCache D⦄ {d : D} {bytes : List ℕ} {sb : SuperBlock}
    {fn text : List ℕ} (s : Shows d bytes) (kept : IsKept bytes sb fn text) where
  abbrev pub mounted_here : Fs D
  mounted_here = mounted d sb kept.es

  -- The inode that the kernel makes of the entry.
  abbrev pub inode_of : Inode
  inode_of = record {
    i_ino = s2v_inode_num kept.i;
    i_size = length text;
    i_mode = mode_of_perms kept.fe.perms;
    i_time = kept.fe.timestamp;
  }

  pub kept-looked : sfs_inode_lookup mounted_here true fn (λ _. fresh) ≡ found inode_of
  unfolding sfs_inode_lookup
  kept-looked =
      let looked =
        sfs_lookup-find (dentry_name fn) zero_entry (shown-Holds s kept.table (tracker sb kept.es))
        ∙ ap (λ o. answer o (last_or kept.es zero_entry))
            (find-dentry_name fn kept.es ∙ kept.found) in
      rw (looked, sfs_inode_lookup)
        (ap (λ n. found (record inode_of { i_size = n })) (kept.size ∙ ap length kept.same))

  kept-piece : (j : ℕ) → j * 512 < length text → HasPiece sb bytes kept.used kept.fe.blocks text j
  kept-piece j lt =
      subst (λ t. HasPiece sb bytes kept.used kept.fe.blocks t j) kept.same
        (subst (λ ks. HasPiece sb bytes kept.used ks (contents kept.pieces) j) (sym kept.blocks)
          (piece_at kept.pieces kept.rest j kept.cut kept.held
            (omega (arith, lt, ap length kept.same))))

  pub kept-mapped :
      (j : ℕ) (create : Bool)
      → j * 512 < length text
      → (k : ℕ) × (block : List ℕ) × (sfs_get_block mounted_here (s2v_inode_num kept.i) j create
          ≡ (pos 0, some k, mounted_here))
        × (cache.sb_bread d k ≡ some block)
        × (slice text (j * 512) 512 ≡ take (length (slice text (j * 512) 512)) block)
  kept-mapped j create lt =
      let piece = kept-piece j lt in
      let f = find-some fn kept.es kept.i kept.fe kept.found in
      let l = kept.table.layout in
      let block = slice bytes (piece.k * 512) 512 in
      let entry : IsEntry kept.fe = subst IsEntry f.here (kept.table.entries kept.i f.inside) in
      let blocks_here = ap (λ x. get_or x.blocks j 0) f.here ∙ piece.named in
      let mapped =
        sfs_get_block-mapped mounted_here kept.es kept.i j f.inside create
          (shown-Holds s kept.table (tracker sb kept.es))
          (omega (arith, piece.inside, entry.blocks_size))
          (λ e. omega (arith, blocks_here, e, piece.held.low, l.first, l.table)) in
      (
        piece.k,
        block,
        mapped ∙ ap (λ k. (pos 0, some k, mounted_here)) blocks_here,
        s.shown piece.k (omega (arith, piece.held.high, l.inside)),
        subst (λ q. q ≡ take (length q) block) (sym piece.here) (held_block piece.held),
      )
