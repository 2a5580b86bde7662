-- ===== src/Sfs/Blocks/Laws.antt =====
-- What the tracker of used blocks promises its callers.
use linuxpedia.Prelude.{
  ℕ, zero, suc, ◌+◌, ◌-◌, ◌≤◌, ◌<◌, ◌≡◌, ◌≢◌, ◌⊎◌, inl, inr, none, some, List, get_or, set, arith,
  Option-cases, Bool-cases, ◌==◌, ==→eq, ==→ne, set-set_old, ap, sym, ◌∙◌,
}
use linuxpedia.Prelude.Int.{pos, minus_one}
use linuxpedia.Sfs.BlockIo.{Fs}
use linuxpedia.Sfs.Blocks.{scan_free, sfs_get_data_block, sfs_put_data_block}

-- `b` is the first free block from `i` on, of the next `n`.
pub record IsFirstFree (n i : ℕ) (used : List ℕ) (b : ℕ) : Type 0 where
  pub low : i ≤ b
  pub high : b < i + n
  pub was_free : get_or used b 0 ≡ 0
  pub first : (c : ℕ) → i ≤ c → c < b → get_or used c 0 ≢ 0

pub scan_free-some :
    (n i : ℕ) (used : List ℕ) (b : ℕ) → scan_free n i used ≡ some b → IsFirstFree n i used b
unfolding scan_free
scan_free-some zero i used b h = absurd (cc)
scan_free-some (suc n) i used b h = elim (Bool-cases (get_or used i 0 == 0)) [
  | inl free ↦
      let e : i ≡ b = ground arith in
      rw (← e) (record {
        low = omega arith;
        high = omega arith;
        was_free = ==→eq _ _ free;
        first = λ c p q. absurd (omega arith);
      })
  | inr taken ↦
      let r = scan_free-some n (suc i) used b (ground arith) in
      record {
        low = omega (arith, r.low);
        high = omega (arith, r.high);
        was_free = r.was_free;
        first = λ c p q. elim (Bool-cases (i == c)) [
          | inl same ↦ rw (← ==→eq i c same) (==→ne _ _ taken)
          | inr differ ↦ r.first c (omega (arith, ==→ne i c differ)) q
        ];
      }
]

pub scan_free-none :
    (n i : ℕ) (used : List ℕ)
    → scan_free n i used ≡ none
    → (c : ℕ) → i ≤ c
    → c < i + n
    → get_or used c 0 ≢ 0
unfolding scan_free
scan_free-none zero i used h c p q = absurd (omega arith)
scan_free-none (suc n) i used h c p q = elim (Bool-cases (get_or used i 0 == 0)) [
  | inl free ↦ absurd (ground arith)
  | inr taken ↦ elim (Bool-cases (i == c)) [
    | inl same ↦ rw (← ==→eq i c same) (==→ne _ _ taken)
    | inr differ ↦
        scan_free-none n (suc i) used (ground arith) c (omega (arith, ==→ne i c differ))
          (omega arith)
  ]
]

module _ {D : Type 0} where
  abbrev pub data_blocks : Fs D → ℕ
  data_blocks fs = fs.sb.partition_size - fs.sb.data_block_start

  -- A block is found, or none is left and nothing changes.
  pub sfs_get_data_block-cases :
      (fs : Fs D)
      → ((b : ℕ) × (sfs_get_data_block fs
            ≡ (pos b, record fs { used_blocks = set fs.used_blocks b 1 }))
          × IsFirstFree (data_blocks fs) fs.sb.data_block_start fs.used_blocks b)
        ⊎ ((sfs_get_data_block fs ≡ (minus_one, fs))
            × ((c : ℕ)
                → fs.sb.data_block_start ≤ c
                → c < fs.sb.partition_size
                → get_or fs.used_blocks c 0 ≢ 0))
  unfolding sfs_get_data_block
  sfs_get_data_block-cases fs =
      elim (Option-cases (scan_free (data_blocks fs) fs.sb.data_block_start fs.used_blocks)) [
        | inl e ↦ inr (
          rw (e, sfs_get_data_block),
          λ c p q. scan_free-none (data_blocks fs) _ _ e c p (omega arith),
        )
        | inr (b, e) ↦ inl (b, rw (e, sfs_get_data_block), scan_free-some _ _ _ b e)
      ]

  -- Giving back the block that was just taken restores the tracker.
  pub get-put :
      (fs : Fs D) (b : ℕ)
      → get_or fs.used_blocks b 0 ≡ 0
      → (sfs_put_data_block (record fs { used_blocks = set fs.used_blocks b 1 }) b) ≡ fs
  unfolding sfs_put_data_block
  get-put fs b h =
      ap (λ u. record fs { used_blocks = u })
        (ap (set (set fs.used_blocks b 1) b) (sym h) ∙ set-set_old fs.used_blocks b 1 0)
