-- ===== src/Sfs/Mount/Sound.antt =====
-- init_browsing puts a mounted file system in order, if no file has a block behind a hole.
use linuxpedia.Prelude.{
  ℕ, zero, suc, ◌-◌, ◌≤◌, ◌<◌, ◌≡◌, refl, ◌≢◌, ◌⊎◌, inl, inr, ap, sym, ◌∙◌, true, some, List, [],
  ◌∷◌, ◌++◌, replicate, get_or, length, arith, ◌==◌, if◌then◌else◌, length-append, length-replicate,
  eq→==, ltb, ltb→lt, ltb→ge, Bool-cases, get_or-beyond,
}
use linuxpedia.Prelude.Int.{pos}
use linuxpedia.Sfs.Layout.{SuperBlock, FileEntry, name_first, simula_fs_type}
use linuxpedia.Sfs.Device.{BufferCache}
use linuxpedia.Sfs.BlockIo.{Fs, copied, read_sb_from_real_sfs}
use linuxpedia.Sfs.BlockIo.Table.{Holds}
use linuxpedia.Sfs.Entries.Scan.{Reads, Holds-Reads}
use linuxpedia.Sfs.Entries.Refine.{Holds-used_blocks}
use linuxpedia.Sfs.Directory.{Distinct}
use linuxpedia.Sfs.Ownership.{refs, IsSound}
use linuxpedia.Sfs.Consistent.{IsConsistent}
use linuxpedia.Sfs.Mount.{mark_loop, mark_blocks, initial_map, init_browsing}
use linuxpedia.Sfs.Mount.Tracker.{
  prefix_refs, mark_entries, length-mark_entries, mark_entries-Marks, Marks,
}

-- `d` bytes of 1, then `n` bytes of 0.
pub get_or-initial :
    (d n c : ℕ) → get_or {A = ℕ} (replicate d 1 ++ replicate n 0) c 0 ≡ (if ltb c d then 1 else 0)
get_or-initial zero zero c = ground arith
get_or-initial zero (suc n) zero = ground arith
get_or-initial zero (suc n) (suc c) = ground (arith, get_or-initial zero n c)
get_or-initial (suc d) n zero = ground arith
get_or-initial (suc d) n (suc c) = ground (arith, get_or-initial d n c)

pub length-initial_map :
    (sb : SuperBlock)
    → sb.data_block_start ≤ sb.partition_size
    → length (initial_map sb) ≡ sb.partition_size
length-initial_map sb h = omega (
  arith,
  length-append {A = ℕ} (replicate sb.data_block_start 1)
      (replicate (sb.partition_size - sb.data_block_start) 0),
  length-replicate {A = ℕ} sb.data_block_start 1,
  length-replicate {A = ℕ} (sb.partition_size - sb.data_block_start) 0,
)

-- What the files of the table must satisfy: no block of two files, every block in the data area,
-- and none behind a hole.
pub record IsTidy (sb : SuperBlock) (es : List FileEntry) : Type 0 where
  pub small : sb.partition_size < 4294967295
  pub start : 0 < sb.data_block_start
  pub start_inside : sb.data_block_start ≤ sb.partition_size
  pub single : (b : ℕ) → b ≢ 0 → refs b es ≤ 1
  pub above : (b : ℕ) → b ≢ 0 → b < sb.data_block_start → refs b es ≡ 0
  pub below : (b : ℕ) → sb.partition_size ≤ b → refs b es ≡ 0
  pub no_hole : (b : ℕ) → b ≢ 0 → prefix_refs b es ≡ refs b es

abbrev pub tracker : SuperBlock → List FileEntry → List ℕ
tracker sb es = mark_entries es (initial_map sb)

module _ (sb : SuperBlock) (es : List FileEntry)
    (inside : sb.data_block_start ≤ sb.partition_size) where
  length-tracker : length (tracker sb es) ≡ sb.partition_size
  length-tracker = length-mark_entries es (initial_map sb) ∙ length-initial_map sb inside

  -- Of a block of the data area the tracker says whether some file names it before a 0.
  pub tracker-data :
      (c : ℕ)
      → sb.data_block_start ≤ c
      → c < sb.partition_size
      → Marks (prefix_refs c es) (initial_map sb) (tracker sb es) c
        × (get_or (initial_map sb) c 0 ≡ 0)
  tracker-data c low high = (
    mark_entries-Marks es (initial_map sb) c (omega (arith, length-initial_map sb inside)),
    get_or-initial sb.data_block_start (sb.partition_size - sb.data_block_start) c ∙ ground arith,
  )

  tracker-le : (c : ℕ) → get_or (tracker sb es) c 0 ≤ 1
  tracker-le c = elim (Bool-cases (ltb c sb.partition_size)) [
    | inl lt ↦
        elim (mark_entries-Marks es (initial_map sb) c
          (omega (arith, length-initial_map sb inside, ltb→lt _ _ lt))) [
            | inl (e, same) ↦ omega (arith, same, start_le c)
            | inr (n, marked) ↦ omega (arith, marked)
          ]
    | inr ge ↦
        omega
          (arith, get_or-beyond (tracker sb es) c 0 (omega (arith, length-tracker, ltb→ge _ _ ge)))
  ]
    where
      start_le : (c : ℕ) → get_or (initial_map sb) c 0 ≤ 1
      start_le c =
          rw (get_or-initial sb.data_block_start (sb.partition_size - sb.data_block_start) c)
            (ground arith)

pub tracker-IsSound :
    (sb : SuperBlock) (es : List FileEntry) → IsTidy sb es → IsSound sb (tracker sb es) es
tracker-IsSound sb es t = record {
  size = length-tracker sb es t.start_inside;
  small = t.small;
  start = t.start;
  bits = tracker-le sb es t.start_inside;
  reserved = t.above;
  owned = λ c nz. owned c nz (Nat-cases c);
}
  where
    Nat-cases :
        (c : ℕ)
        → (c < sb.data_block_start)
          ⊎ ((sb.data_block_start ≤ c) × (c < sb.partition_size))
          ⊎ (sb.partition_size ≤ c)
    Nat-cases c = omega arith

    owned :
        (c : ℕ)
        → c ≢ 0
        → (c < sb.data_block_start)
          ⊎ ((sb.data_block_start ≤ c) × (c < sb.partition_size))
          ⊎ (sb.partition_size ≤ c)
        → refs c es ≤ get_or (tracker sb es) c 0
    owned c nz (inl low) = omega (arith, t.above c nz low)
    owned c nz (inr (inr high)) = omega (arith, t.below c high)
    owned c nz (inr (inl (low, high))) = elim (tracker-data sb es t.start_inside c low high).0 [
      | inl (e, same) ↦ omega (arith, t.no_hole c nz, e)
      | inr (n, marked) ↦ omega (arith, marked, t.single c nz)
    ]

hole-is_free :
    (sb : SuperBlock) (es : List FileEntry) (b : ℕ)
    → sb.data_block_start ≤ b
    → b < sb.partition_size
    → prefix_refs b es ≡ 0
    → get_or (tracker sb es) b 0 ≡ 0
hole-is_free sb es b low high none_marked =
    let (marks, clear) = tracker-data sb es (omega arith) b low high in
    elim marks [
      | inl (e, same) ↦ same ∙ clear
      | inr (n, marked) ↦ absurd (omega (arith, n, none_marked))
    ]

module _ {D : Type 0} ⦃cache : BufferCache D⦄ where
  mark_loop-entries :
      (fs : Fs D) (ino : ℕ) (xs : List FileEntry) (used : List ℕ)
      → Reads fs ino xs
      → mark_loop fs (length xs) ino used ≡ copied (mark_entries xs used)
  unfolding mark_loop mark_entries
  mark_loop-entries fs ino [] used h = refl
  mark_loop-entries fs ino (x ∷ xs) used h =
      rw (h.0, mark_loop)
        (mark_loop-entries fs (suc ino) xs
          (if name_first x == 0 then used else mark_blocks x.blocks used) h.1)

  -- The state in which init_browsing leaves `info`.
  abbrev pub mounted : D → SuperBlock → List FileEntry → Fs D
  mounted d sb es = record { sb = sb; used_blocks = tracker sb es; dev = d }

  pub init_browsing-mounted :
      (d : D) (sb : SuperBlock) (es : List FileEntry)
      → read_sb_from_real_sfs d ≡ copied sb
      → sb.type ≡ simula_fs_type
      → Holds (record { sb = sb; used_blocks = []; dev = d }) es
      → init_browsing d true ≡ (pos 0, some (mounted d sb es))
  unfolding init_browsing
  init_browsing-mounted d sb es found magic h =
      rw (init_browsing, found, eq→== sb.type simula_fs_type magic, marked)
    where
      bare : Fs D
      bare = record { sb = sb; used_blocks = []; dev = d }

      marked :
          mark_loop bare sb.entry_count 0 (initial_map sb)
          ≡ copied (mark_entries es (initial_map sb))
      marked =
          ap (λ n. mark_loop bare n 0 (initial_map sb)) (sym h.count)
          ∙ mark_loop-entries bare 0 es (initial_map sb) (Holds-Reads h)

  -- A device with a valid super block and readable entries is mounted, with the tracker built
  -- from its files; where these have different names and are tidy, the mounted file system is
  -- consistent.
  pub init_browsing-IsConsistent :
      (d : D) (sb : SuperBlock) (es : List FileEntry)
      → read_sb_from_real_sfs d ≡ copied sb
      → sb.type ≡ simula_fs_type
      → Holds (record { sb = sb; used_blocks = []; dev = d }) es
      → Distinct es
      → IsTidy sb es
      → (init_browsing d true ≡ (pos 0, some (mounted d sb es))) × IsConsistent (mounted d sb es) es
  init_browsing-IsConsistent d sb es found magic h distinct tidy = (
    init_browsing-mounted d sb es found magic h,
    record {
      holds = Holds-used_blocks (tracker sb es) h;
      distinct = distinct;
      sound = tracker-IsSound sb es tidy;
    },
  )

  -- A block of the data area that the files name only behind a 0 is free in the tracker that a
  -- mount builds, however many files name it.
  pub init_browsing-hole :
      (d : D) (sb : SuperBlock) (es : List FileEntry) (b : ℕ)
      → read_sb_from_real_sfs d ≡ copied sb
      → sb.type ≡ simula_fs_type
      → Holds (record { sb = sb; used_blocks = []; dev = d }) es
      → sb.data_block_start ≤ b
      → b < sb.partition_size
      → prefix_refs b es ≡ 0
      → (info : Fs D) × (init_browsing d true ≡ (pos 0, some info))
        × (get_or info.used_blocks b 0 ≡ 0)
  init_browsing-hole d sb es b found magic h low high unmarked = (
    mounted d sb es,
    init_browsing-mounted d sb es found magic h,
    hole-is_free sb es b low high unmarked,
  )
