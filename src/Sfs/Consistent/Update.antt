-- ===== src/Sfs/Consistent/Update.antt =====
-- sfs_update of real_sfs_ops.c on a consistent file system: new size, time and permissions, and
-- the blocks past the new size given back.
use linuxpedia.Prelude.{
  ℕ, zero, suc, ◌+◌, ◌≤◌, ◌<◌, ◌≡◌, refl, ◌≢◌, ◌⊎◌, inl, inr, ap, ◌∙◌, true, Option, none, some,
  List, [], ◌∷◌, get_or, set, length, arith, ◌==◌, leb, Bool-cases, if◌then◌else◌, length-set,
  ne→==, get_or-set_ne,
}
use linuxpedia.Prelude.Int.{ℤ, pos, negsuc, minus_one, eq_ℤ}
use linuxpedia.Sfs.Layout.{FileEntry, AllWords, IsEntry, u32_mod, zero_entry}
use linuxpedia.Sfs.Device.{BufferCache}
use linuxpedia.Sfs.BlockIo.{Fs, write_entry}
use linuxpedia.Sfs.BlockIo.Table.{write_entry-Holds}
use linuxpedia.Sfs.Blocks.{sfs_put_data_block}
use linuxpedia.Sfs.Entries.{
  s2v_inode_num, to_u32, set_fields, blocks_needed, truncate_blocks, resize_entry, sfs_update,
}
use linuxpedia.Sfs.Entries.Refine.{Holds-used_blocks}
use linuxpedia.Sfs.Directory.{in_use}
use linuxpedia.Sfs.Directory.Change.{Distinct-same_name}
use linuxpedia.Sfs.Ownership.{occ}
use linuxpedia.Sfs.Ownership.Change.{get_or-set_zero, own_live}
use linuxpedia.Sfs.Ownership.Laws.{Gives, IsSound-Gives}
use linuxpedia.Sfs.Consistent.{IsConsistent}
use linuxpedia.Sfs.Consistent.Blocks.{get_file_entry-ok}

-- The first `i` blocks, and 0 for the others.
unfoldable pub zero_from : ℕ → List ℕ → List ℕ
zero_from i [] = []
zero_from (suc i) (b ∷ bs) = b ∷ zero_from i bs
zero_from zero (b ∷ bs) = 0 ∷ zero_from zero bs

-- The tracker after the blocks from index `i` on have been given back.
unfoldable pub release_from : ℕ → List ℕ → List ℕ → List ℕ
release_from i [] used = used
release_from (suc i) (b ∷ bs) used = release_from i bs used
release_from zero (b ∷ bs) used = release_from zero bs (if b == 0 then used else set used b 0)

pub truncate_blocks_lem :
    {D : Type 0} (i : ℕ) (bs : List ℕ) (fs : Fs D)
    → truncate_blocks i bs fs
      ≡ (zero_from i bs, record fs { used_blocks = release_from i bs fs.used_blocks })
unfolding truncate_blocks zero_from release_from sfs_put_data_block
truncate_blocks_lem i [] fs = refl
truncate_blocks_lem (suc i) (b ∷ bs) fs = rw (truncate_blocks_lem i bs fs)
truncate_blocks_lem zero (b ∷ bs) fs = elim (Bool-cases (b == 0)) [
  | inl e ↦ rw (e, truncate_blocks_lem zero bs fs)
  | inr e ↦ rw (e, truncate_blocks_lem zero bs (sfs_put_data_block fs b))
]

-- What `sfs_update` keeps: block `j` of the file, if it is below the bound.
pub get_or-zero_from :
    (i : ℕ) (bs : List ℕ) (j : ℕ)
    → get_or (zero_from i bs) j 0 ≡ (if leb i j then 0 else get_or bs j 0)
unfolding zero_from
get_or-zero_from i [] j = ground arith
get_or-zero_from (suc i) (b ∷ bs) zero = ground arith
get_or-zero_from (suc i) (b ∷ bs) (suc j) = ground (arith, get_or-zero_from i bs j)
get_or-zero_from zero (b ∷ bs) zero = ground arith
get_or-zero_from zero (b ∷ bs) (suc j) = ground (arith, get_or-zero_from zero bs j)

length-zero_from : (i : ℕ) (bs : List ℕ) → length (zero_from i bs) ≡ length bs
unfolding zero_from
length-zero_from i [] = refl
length-zero_from (suc i) (b ∷ bs) = ap suc (length-zero_from i bs)
length-zero_from zero (b ∷ bs) = ap suc (length-zero_from zero bs)

AllWords-zero_from : (i : ℕ) (bs : List ℕ) → AllWords bs → AllWords (zero_from i bs)
unfolding zero_from
AllWords-zero_from i [] h = tt
AllWords-zero_from (suc i) (b ∷ bs) h = (h.0, AllWords-zero_from i bs h.1)
AllWords-zero_from zero (b ∷ bs) h = (omega arith, AllWords-zero_from zero bs h.1)

length-release_from : (i : ℕ) (bs used : List ℕ) → length (release_from i bs used) ≡ length used
unfolding release_from
length-release_from i [] used = refl
length-release_from (suc i) (b ∷ bs) used = length-release_from i bs used
length-release_from zero (b ∷ bs) used =
    length-release_from zero bs (if b == 0 then used else set used b 0)
    ∙ ground (arith, length-set used b 0)

-- A byte is left alone and no block is lost, or it is cleared for a block that is lost.
abbrev Drops : ℕ → List ℕ → List ℕ → ℕ → Type 0
Drops i bs used c =
    ((get_or (release_from i bs used) c 0 ≡ get_or used c 0) × (occ c (zero_from i bs) ≤ occ c bs))
    ⊎ ((get_or (release_from i bs used) c 0 ≡ 0) × (occ c (zero_from i bs) + 1 ≤ occ c bs))

release_from-Drops : (i : ℕ) (bs used : List ℕ) (c : ℕ) → c ≢ 0 → Drops i bs used c
unfolding release_from zero_from occ
release_from-Drops i [] used c nz = inl (refl, omega arith)
release_from-Drops (suc i) (b ∷ bs) used c nz = elim (release_from-Drops i bs used c nz) [
  | inl (kept, le) ↦ inl (kept, omega (arith, le))
  | inr (zeroed, lt) ↦ inr (zeroed, omega (arith, lt))
]
release_from-Drops zero (b ∷ bs) used c nz = elim (Bool-cases (b == 0)) [
  | inl e ↦ ground (arith, release_from-Drops zero bs used c nz)
  | inr e ↦ elim (Bool-cases (c == b)) [
    | inl same ↦
        ground (arith, release_from-Drops zero bs (set used b 0) c nz, get_or-set_zero used b)
    | inr differ ↦
        ground (arith, release_from-Drops zero bs (set used b 0) c nz, get_or-set_ne used b c 0 0)
  ]
]

get_or-release_from_le :
    (i : ℕ) (bs used : List ℕ) (c : ℕ) → get_or (release_from i bs used) c 0 ≤ get_or used c 0
unfolding release_from
get_or-release_from_le i [] used c = omega arith
get_or-release_from_le (suc i) (b ∷ bs) used c = get_or-release_from_le i bs used c
get_or-release_from_le zero (b ∷ bs) used c = elim (Bool-cases (b == 0)) [
  | inl e ↦ rw e (get_or-release_from_le zero bs used c)
  | inr e ↦ elim (Bool-cases (b == c)) [
    | inl same ↦
        ground (arith, get_or-release_from_le zero bs (set used b 0) c, get_or-set_zero used b)
    | inr differ ↦
        ground (arith, get_or-release_from_le zero bs (set used b 0) c, get_or-set_ne used b c 0 0)
  ]
]

-- A block that is given back is free afterwards.
get_or-released :
    (i : ℕ) (bs used : List ℕ) (j : ℕ)
    → i ≤ j
    → get_or bs j 0 ≢ 0
    → get_or (release_from i bs used) (get_or bs j 0) 0 ≡ 0
unfolding release_from
get_or-released i [] used j le nz = absurd (nz refl)
get_or-released (suc i) (b ∷ bs) used zero le nz = absurd (omega arith)
get_or-released (suc i) (b ∷ bs) used (suc j) le nz = get_or-released i bs used j (omega arith) nz
get_or-released zero (b ∷ bs) used zero le nz =
    rw (ne→== b 0 nz)
      (omega (arith, get_or-release_from_le zero bs (set used b 0) b, get_or-set_zero used b))
get_or-released zero (b ∷ bs) used (suc j) le nz =
    get_or-released zero bs (if b == 0 then used else set used b 0) j (omega arith) nz

to_u32-lt : (n : ℤ) → to_u32 n < u32_mod
to_u32-lt (pos n) = omega arith
to_u32-lt (negsuc n) = omega arith

-- The entry that `sfs_update` stores.
abbrev pub updated : ℕ → Option ℤ → Option ℤ → Option ℤ → FileEntry → FileEntry
updated block_size size timestamp perms x =
    let x' = set_fields size timestamp perms x in
    record x' { blocks = zero_from (blocks_needed x'.size block_size) x.blocks }

updated-IsEntry :
    (block_size : ℕ) (size timestamp perms : Option ℤ) (x : FileEntry)
    → IsEntry x
    → IsEntry (updated block_size size timestamp perms x)
updated-IsEntry block_size size timestamp perms x v =
    let n = blocks_needed (set_fields size timestamp perms x).size block_size in
    record {
      name_size = v.name_size;
      size_word = word size v.size_word;
      timestamp_word = word timestamp v.timestamp_word;
      perms_word = perms_word perms;
      blocks_size = length-zero_from n x.blocks ∙ v.blocks_size;
      block_words = AllWords-zero_from n x.blocks v.block_words;
    }
  where
    word :
        (o : Option ℤ) {old : ℕ}
        → old < u32_mod
        → (elim o [ none ↦ old | some n ↦ to_u32 n ]) < u32_mod
    word none h = h
    word (some n) h = to_u32-lt n

    perms_word : (o : Option ℤ) → (set_fields size timestamp o x).perms < u32_mod
    perms_word none = v.perms_word
    perms_word (some n) = ground (arith, to_u32-lt n, v.perms_word)

-- From the tracker `used` the blocks of `bs` from index `i` on are freed, and nothing else changes.
pub record Frees (i : ℕ) (bs used used' : List ℕ) : Type 0 where
  pub freed : (j : ℕ) → i ≤ j → get_or bs j 0 ≢ 0 → get_or used' (get_or bs j 0) 0 ≡ 0
  pub kept :
      (c : ℕ)
      → ((j : ℕ) → i ≤ j → j < length bs → get_or bs j 0 ≢ c)
      → get_or used' c 0 ≡ get_or used c 0

get_or-release_from_kept :
    (i : ℕ) (bs used : List ℕ) (c : ℕ)
    → ((j : ℕ) → i ≤ j → j < length bs → get_or bs j 0 ≢ c)
    → get_or (release_from i bs used) c 0 ≡ get_or used c 0
unfolding release_from
get_or-release_from_kept i [] used c h = refl
get_or-release_from_kept (suc i) (b ∷ bs) used c h =
    get_or-release_from_kept i bs used c (λ j le lt. h (suc j) (omega arith) (omega arith))
get_or-release_from_kept zero (b ∷ bs) used c h =
    let later = λ (used' : List ℕ).
      get_or-release_from_kept zero bs used' c (λ j le lt. h (suc j) (omega arith) (omega arith)) in
    elim (Bool-cases (b == 0)) [
      | inl e ↦ rw e (later used)
      | inr e ↦
          rw e (later (set used b 0) ∙ get_or-set_ne used b c 0 0 (h 0 (omega arith) (omega arith)))
    ]

release_from-Frees : (i : ℕ) (bs used : List ℕ) → Frees i bs used (release_from i bs used)
release_from-Frees i bs used = record {
  freed = get_or-released i bs used;
  kept = get_or-release_from_kept i bs used;
}

module _ {D : Type 0} ⦃cache : BufferCache D⦄ (fs : Fs D) (es : List FileEntry) (i : ℕ)
    (lt : i < length es) (size timestamp perms : Option ℤ) where
  -- In a consistent file system, for a file in use, sfs_update returns 0 and stores the new fields,
  -- with the blocks that the new size does not need zeroed in the entry; each of these blocks is free
  -- in the tracker afterwards, no other byte of the tracker changes, and the file system stays
  -- consistent.
  pub sfs_update-IsConsistent :
      IsConsistent fs es
      → in_use (get_or es i zero_entry) ≡ true
      → ((sfs_update fs (s2v_inode_num i) size timestamp perms).0 ≡ pos 0)
        × IsConsistent
            (sfs_update fs (s2v_inode_num i) size timestamp perms).1
            (set es i (updated fs.sb.block_size size timestamp perms (get_or es i zero_entry)))
        × Frees
            (blocks_needed
              (set_fields size timestamp perms (get_or es i zero_entry)).size
              fs.sb.block_size)
            (get_or es i zero_entry).blocks
            fs.used_blocks
            (sfs_update fs (s2v_inode_num i) size timestamp perms).1.used_blocks
  unfolding sfs_update
  sfs_update-IsConsistent c live =
      let (d, wrote, held) =
        write_entry-Holds (Holds-used_blocks used' c.holds) i x' lt
          (updated-IsEntry fs.sb.block_size size timestamp perms x (c.holds.entries i lt)) in
      let done = runs d wrote in
      (
        ap (λ r. r.0) done,
        rw done (record {
          holds = held;
          distinct = Distinct-same_name es i x' lt refl c.distinct;
          sound =
              IsSound-Gives c.sound i x' used' lt (length-release_from n x.blocks fs.used_blocks)
                (omega (arith, get_or-release_from_le n x.blocks fs.used_blocks 0, c.sound.bits 0))
                gives;
        }),
        rw done (release_from-Frees n x.blocks fs.used_blocks),
      )
    where
      x : FileEntry
      x = get_or es i zero_entry

      n : ℕ
      n = blocks_needed (set_fields size timestamp perms x).size fs.sb.block_size

      x' : FileEntry
      x' = updated fs.sb.block_size size timestamp perms x

      used' : List ℕ
      used' = release_from n x.blocks fs.used_blocks

      gives : (b : ℕ) → b ≢ 0 → Gives x x' fs.used_blocks used' b
      gives b nz = elim (release_from-Drops n x.blocks fs.used_blocks b nz) [
        | inl (kept, le) ↦ inl (kept, omega (arith, le, own_live b x live, own_live b x' live))
        | inr (zeroed, less) ↦
            inr (zeroed, omega (arith, less, own_live b x live, own_live b x' live))
      ]

      runs :
          (d : D)
          → write_entry (record fs { used_blocks = used' }) i x'
            ≡ (pos 0, record fs { used_blocks = used'; dev = d })
          → sfs_update fs (s2v_inode_num i) size timestamp perms
            ≡ (pos 0, record fs { used_blocks = used'; dev = d })
      runs d wrote =
          ap
            (λ (p : ℤ × FileEntry).
              if eq_ℤ p.0 minus_one
              then (minus_one, fs)
              else resize_entry fs (s2v_inode_num i) (set_fields size timestamp perms p.1))
            (get_file_entry-ok fs es i 0 lt zero_entry c.holds)
          ∙ ap
              (λ (p : List ℕ × Fs D).
                write_entry p.1 i (record (set_fields size timestamp perms x) { blocks = p.0 }))
              (truncate_blocks_lem n x.blocks fs)
          ∙ wrote
