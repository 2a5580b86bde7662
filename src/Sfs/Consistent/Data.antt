-- ===== src/Sfs/Consistent/Data.antt =====
-- The data of files: what the kernel stores in a block that sfs_get_block has mapped.
use native.Mathlib.Nat.{div-lt_iff_lt-mul}
use linuxpedia.Prelude.{
  ℕ, zero, suc, ◌+◌, ◌*◌, ◌/◌, ◌≤◌, ◌<◌, ◌≡◌, ◌≢◌, ◌⊎◌, inl, inr, refl, sym, ap, ◌∙◌, Bool, true,
  some, List, [], ◌∷◌, get_or, set, length, length-set, get_or-set_ne, arith, ◌==◌, ne→==, eq→==,
  ==→eq, ==→ne, Bool-cases, if◌then◌else◌,
}
use mathlib.Core.Path.{subst}
use linuxpedia.Prelude.Int.{pos}
use linuxpedia.Sfs.Layout.{FileEntry, zero_entry}
use linuxpedia.Sfs.Device.{BufferCache}
use linuxpedia.Sfs.BlockIo.{Fs, read_entry}
use linuxpedia.Sfs.BlockIo.Laws.{slot, slot_lem}
use linuxpedia.Sfs.BlockIo.Table.{Holds, slot_block, block_readable, read_entry-some}
use linuxpedia.Sfs.Entries.{s2v_inode_num}
use linuxpedia.Sfs.Directory.{in_use}
use linuxpedia.Sfs.Inode.{sfs_get_block}
use linuxpedia.Sfs.Ownership.{occ, own, refs}
use linuxpedia.Sfs.Ownership.Change.{
  occ-set, occ_one, occ_other, own_live, own-zero_entry, refs-set,
}
use linuxpedia.Sfs.Consistent.{IsConsistent}
use linuxpedia.Sfs.Consistent.Blocks.{sfs_get_block-mapped}

occ-named : (b : ℕ) (bs : List ℕ) (k : ℕ) → k < length bs → get_or bs k 0 ≡ b → 1 ≤ occ b bs
unfolding occ
occ-named b [] k lt e = absurd (omega arith)
occ-named b (x ∷ xs) zero lt e = ground arith
occ-named b (x ∷ xs) (suc k) lt e = omega (arith, occ-named b xs k (omega arith) e)

-- A block that stands at two places of a list is counted twice.
occ-twice :
    (b : ℕ) (bs : List ℕ) (k l : ℕ)
    → b ≢ 0
    → k ≢ l
    → k < length bs
    → l < length bs
    → get_or bs k 0 ≡ b
    → get_or bs l 0 ≡ b
    → 2 ≤ occ b bs
occ-twice b bs k l nz ne ltk ltl atk atl =
    let later =
      occ-named b (set bs k 0) l (omega (arith, length-set bs k 0, ltl))
        (get_or-set_ne bs k l 0 0 ne ∙ atl) in
    let here : occ b (get_or bs k 0 ∷ []) ≡ 1 = ap (λ c. occ b (c ∷ [])) atk ∙ occ_one b in
    omega (arith, occ-set b bs k 0 ltk, occ_other 0 b nz, here, later)

own-refs :
    (b : ℕ) (es : List FileEntry) (j : ℕ)
    → j < length es
    → own b (get_or es j zero_entry) ≤ refs b es
unfolding refs
own-refs b [] j lt = absurd (omega arith)
own-refs b (x ∷ xs) zero lt = omega arith
own-refs b (x ∷ xs) (suc j) lt = omega (arith, own-refs b xs j (omega arith))

-- Entry `i` is in use and names this block as its block `k`.
pub record Names (es : List FileEntry) (i k b : ℕ) : Type 0 where
  pub inside : i < length es
  pub live : in_use (get_or es i zero_entry) ≡ true
  pub small : k < 9
  pub some_block : b ≢ 0
  pub named : get_or (get_or es i zero_entry).blocks k 0 ≡ b

module _ {D : Type 0} ⦃cache : BufferCache D⦄ {fs : Fs D} {es : List FileEntry}
    (c : IsConsistent fs es) where
  own-named : (i k b : ℕ) → Names es i k b → 1 ≤ own b (get_or es i zero_entry)
  own-named i k b n =
      let x = get_or es i zero_entry in
      omega (
        arith,
        own_live b x n.live,
        occ-named b x.blocks k (omega (arith, n.small, (c.holds.entries i n.inside).blocks_size))
            n.named,
      )

  refs-one : (i k b : ℕ) → Names es i k b → refs b es ≤ 1
  refs-one i k b n = omega (arith, c.sound.owned b n.some_block, c.sound.bits b)

  same_entry : (i k l b : ℕ) → Names es i k b → Names es i l b → k ≡ l
  same_entry i k l b n m =
      let x = get_or es i zero_entry in
      let size = (c.holds.entries i n.inside).blocks_size in
      elim (Bool-cases (k == l)) [
        | inl same ↦ ==→eq k l same
        | inr differ ↦
            let twice =
              occ-twice b x.blocks k l n.some_block (==→ne k l differ)
                (omega (arith, n.small, size)) (omega (arith, m.small, size)) n.named m.named in
            absurd (
              omega (arith, twice, own_live b x n.live, own-refs b es i n.inside, refs-one i k b n))
      ]

  other_entry : (i k j l b : ℕ) → Names es i k b → Names es j l b → i ≡ j
  other_entry i k j l b n m = elim (Bool-cases (i == j)) [
    | inl same ↦ ==→eq i j same
    | inr differ ↦
        let cleared = set es i zero_entry in
        let kept : get_or cleared j zero_entry ≡ get_or es j zero_entry =
          get_or-set_ne es i j zero_entry zero_entry (==→ne i j differ) in
        absurd (
          omega (
            arith,
            refs-set b es i zero_entry n.inside,
            own-zero_entry b,
            own-refs b cleared j (omega (arith, length-set es i zero_entry, m.inside)),
            ap (own b) kept,
            own-named i k b n,
            own-named j l b m,
            refs-one i k b n,
          ))
  ]

  -- No file has a block of another, nor one block twice.
  Names-apart : (i k j l b : ℕ) → Names es i k b → Names es j l b → (i ≡ j) × (k ≡ l)
  Names-apart i k j l b n m =
      let same = other_entry i k j l b n m in
      (same, same_entry i k l b n (subst (λ e. Names es e l b) (sym same) m))

  data_area : (i k b : ℕ) → Names es i k b → fs.sb.data_block_start ≤ b
  data_area i k b n =
      let order : (b < fs.sb.data_block_start) ⊎ (fs.sb.data_block_start ≤ b) = omega arith in
      elim order [
        | inl low ↦ absurd (
            omega (
              arith,
              c.sound.reserved b n.some_block low,
              own-named i k b n,
              own-refs b es i n.inside,
            ))
        | inr high ↦ high
      ]

  -- The state once these bytes are stored in block `b`.
  abbrev pub stored : ℕ → List ℕ → Fs D
  stored b new = record fs { dev = cache.mark_buffer_dirty fs.dev b new }

  module _ (same_size : fs.sb.block_size ≡ cache.bd_block_size)
      (area : fs.sb.entry_table_block_start * fs.sb.block_size + 64 * fs.sb.entry_count
        ≤ fs.sb.data_block_start * fs.sb.block_size)
      (b : ℕ) (old new : List ℕ) (high : fs.sb.data_block_start ≤ b)
      (readable : cache.sb_bread fs.dev b ≡ some old)
      (size : length new ≡ cache.bd_block_size) where
    bread_stored :
        (k : ℕ)
        → cache.sb_bread (stored b new).dev k
          ≡ (if b == k then some new else cache.sb_bread fs.dev k)
    bread_stored = cache.coherent fs.dev b old new readable size

    bread_other : (k : ℕ) → b ≢ k → cache.sb_bread (stored b new).dev k ≡ cache.sb_bread fs.dev k
    bread_other k ne =
        bread_stored k ∙ ap (λ t. if t then some new else cache.sb_bread fs.dev k) (ne→== b k ne)

    bread_self : cache.sb_bread (stored b new).dev b ≡ some new
    bread_self =
        bread_stored b ∙ ap (λ t. if t then some new else cache.sb_bread fs.dev b) (eq→== b b refl)

    table_below : (j : ℕ) → j < length es → slot_block fs j < b
    table_below j lt =
        let bd = cache.bd_block_size in
        let place = slot_lem c.holds.table j (omega (arith, lt, c.holds.count)) in
        let sizes : fs.sb.data_block_start * fs.sb.block_size ≡ fs.sb.data_block_start * bd =
          ap (λ n. fs.sb.data_block_start * n) same_size in
        let before : slot fs.sb j < fs.sb.data_block_start * bd =
          omega (arith, place, area, sizes, lt, c.holds.count) in
        let below : slot fs.sb j / bd < fs.sb.data_block_start =
          (div-lt_iff_lt-mul c.holds.table.block_positive).1 before in
        omega (arith, below, high)

    entry_stored : (j : ℕ) → j < length es → read_entry (stored b new) j ≡ read_entry fs j
    entry_stored j lt =
        let g = c.holds.table in
        let inside : j < fs.sb.entry_count = omega (arith, lt, c.holds.count) in
        let (bytes, here) = block_readable c.holds j lt in
        let apart : b ≢ slot_block fs j = λ e. omega (arith, e, table_below j lt) in
        read_entry-some (stored b new) g j bytes inside (bread_other (slot_block fs j) apart ∙ here)
        ∙ sym (read_entry-some fs g j bytes inside here)

    stored-IsConsistent : IsConsistent (stored b new) es
    stored-IsConsistent = record {
      holds = record {
        table = c.holds.table;
        count = c.holds.count;
        stored = λ j lt. entry_stored j lt ∙ c.holds.stored j lt;
        entries = c.holds.entries;
      };
      distinct = c.distinct;
      sound = c.sound;
    }

  mapped :
      (d : D) (i k b : ℕ) (create : Bool)
      → Names es i k b
      → Holds (record fs { dev = d }) es
      → sfs_get_block (record fs { dev = d }) (s2v_inode_num i) k create
        ≡ (pos 0, some b, record fs { dev = d })
  mapped d i k b create n h =
      sfs_get_block-mapped (record fs { dev = d }) es i k n.inside create h n.small
        (λ e. n.some_block (sym n.named ∙ e))
      ∙ ap (λ x. (pos 0, some x, record fs { dev = d })) n.named

-- In a consistent file system whose device has blocks as large as its own, and whose entry table
-- ends before the data area: when the kernel stores the bytes of a block of one file where
-- sfs_get_block maps it, the file system stays consistent with the same entries, sfs_get_block maps
-- it there still and the block has the new bytes; any other block of any file is mapped where it
-- was, and has the bytes that it had.
pub sfs_get_block-stored :
    {D : Type 0} ⦃cache : BufferCache D⦄ (fs : Fs D) (es : List FileEntry) (i k j l b b' : ℕ)
    (old new : List ℕ) (create : Bool)
    → IsConsistent fs es
    → fs.sb.block_size ≡ cache.bd_block_size
    → fs.sb.entry_table_block_start * fs.sb.block_size + 64 * fs.sb.entry_count
      ≤ fs.sb.data_block_start * fs.sb.block_size
    → Names es i k b
    → Names es j l b'
    → ¬ ((i ≡ j) × (k ≡ l))
    → cache.sb_bread fs.dev b ≡ some old
    → length new ≡ cache.bd_block_size
    → let fs' : Fs D = record fs { dev = cache.mark_buffer_dirty fs.dev b new } in
      (sfs_get_block fs (s2v_inode_num i) k create ≡ (pos 0, some b, fs))
      × IsConsistent fs' es
      × (sfs_get_block fs' (s2v_inode_num i) k create ≡ (pos 0, some b, fs'))
      × (cache.sb_bread fs'.dev b ≡ some new)
      × (sfs_get_block fs' (s2v_inode_num j) l create ≡ (pos 0, some b', fs'))
      × (cache.sb_bread fs'.dev b' ≡ cache.sb_bread fs.dev b')
sfs_get_block-stored ⦃cache⦄ fs es i k j l b b' old new create c same area n m apart readable size =
    let high = data_area c i k b n in
    let after = stored-IsConsistent c same area b old new high readable size in
    let d = cache.mark_buffer_dirty fs.dev b new in
    let differ : b ≢ b' = λ e. apart (Names-apart c i k j l b n (subst (Names es j l) (sym e) m)) in
    (
      mapped c fs.dev i k b create n c.holds,
      after,
      mapped c d i k b create n after.holds,
      bread_self c same area b old new high readable size,
      mapped c d j l b' create m after.holds,
      bread_other c same area b old new high readable size b' differ,
    )
