-- ===== src/Sfs/Ownership/Laws.antt =====
-- Soundness is kept where an entry loses blocks that are given back, and where it gains a block
-- that the tracker had free.
use linuxpedia.Prelude.{
  ℕ, zero, suc, ◌+◌, ◌≤◌, ◌<◌, ◌≡◌, ◌≢◌, ◌⊎◌, inl, inr, sym, ◌∙◌, true, List, [], ◌∷◌, get_or, set,
  length, ◌==◌, ==→eq, ==→ne, arith, Bool-cases, length-set, get_or-set_self, get_or-set_ne,
}
use linuxpedia.Sfs.Layout.{SuperBlock, FileEntry, zero_entry}
use linuxpedia.Sfs.Directory.{in_use}
use linuxpedia.Sfs.Ownership.{occ, own, refs, IsSound}
use linuxpedia.Sfs.Ownership.Change.{occ-set, refs-set, occ_one, occ_other, own_live}

-- What may happen to block `c` while entry `x` becomes `x'`: nothing, or it is given back.
abbrev pub Gives : FileEntry → FileEntry → List ℕ → List ℕ → ℕ → Type 0
Gives x x' used used' c =
    ((get_or used' c 0 ≡ get_or used c 0) × (own c x' ≤ own c x))
    ⊎ ((get_or used' c 0 ≡ 0) × (own c x' + 1 ≤ own c x))

-- One block: the bound on its owners is kept.
owned_step :
    (before after here here' old new : ℕ)
    → after + here ≡ before + here'
    → before ≤ old
    → old ≤ 1
    → ((new ≡ old) × (here' ≤ here)) ⊎ ((new ≡ 0) × (here' + 1 ≤ here))
    → (after ≤ new) × (new ≤ 1) × (after ≤ before)
owned_step before after here here' old new e h b (inl (p, q)) = omega arith
owned_step before after here here' old new e h b (inr (p, q)) = omega arith

module _ {sb : SuperBlock} {used : List ℕ} {es : List FileEntry} (s : IsSound sb used es) where
  pub IsSound-Gives :
      (i : ℕ) (x' : FileEntry) (used' : List ℕ)
      → i < length es
      → length used' ≡ length used
      → get_or used' 0 0 ≤ 1
      → ((c : ℕ) → c ≢ 0 → Gives (get_or es i zero_entry) x' used used' c)
      → IsSound sb used' (set es i x')
  IsSound-Gives i x' used' lt same first gives = record {
    size = same ∙ s.size;
    small = s.small;
    start = s.start;
    bits = bit;
    reserved = λ c nz low. omega (arith, (step c nz).2, s.reserved c nz low);
    owned = λ c nz. (step c nz).0;
  }
    where
      step :
          (c : ℕ)
          → c ≢ 0
          → (refs c (set es i x') ≤ get_or used' c 0)
            × (get_or used' c 0 ≤ 1)
            × (refs c (set es i x') ≤ refs c es)
      step c nz =
          owned_step (refs c es) (refs c (set es i x')) (own c (get_or es i zero_entry)) (own c x')
            (get_or used c 0) (get_or used' c 0) (refs-set c es i x' lt) (s.owned c nz) (s.bits c)
            (gives c nz)

      bit : (c : ℕ) → get_or used' c 0 ≤ 1
      bit zero = first
      bit (suc c) = (step (suc c) (λ e. absurd (omega arith))).1

  -- A free block of the data area goes to entry `i` at index `k`, where it has none.
  pub IsSound-takes :
      (i k b : ℕ)
      → i < length es
      → k < length (get_or es i zero_entry).blocks
      → in_use (get_or es i zero_entry) ≡ true
      → get_or (get_or es i zero_entry).blocks k 0 ≡ 0
      → sb.data_block_start ≤ b
      → b < sb.partition_size
      → get_or used b 0 ≡ 0
      → IsSound sb (set used b 1) (
          set es i
            (record (get_or es i zero_entry) { blocks = set (get_or es i zero_entry).blocks k b }))
  IsSound-takes i k b lt inside live none low high free = record {
    size = length-set used b 1 ∙ s.size;
    small = s.small;
    start = s.start;
    bits = λ c. elim (Bool-cases (b == c)) [
      | inl e ↦ rw (← ==→eq b c e) (omega (arith, marked))
      | inr ne ↦ omega (arith, s.bits c, get_or-set_ne used b c 1 0 (==→ne b c ne))
    ];
    reserved = λ c nz below.
        omega (arith, s.reserved c nz below, count c nz, occ_other b c (omega (arith, low)));
    owned = λ c nz. elim (Bool-cases (b == c)) [
      | inl e ↦
          let p : b ≡ c = ==→eq b c e in
          rw (← p) (omega (arith, marked, count b (rw p nz), s.owned b (rw p nz), occ_one b))
      | inr ne ↦ omega (
        arith,
        s.owned c nz,
        get_or-set_ne used b c 1 0 (==→ne b c ne),
        count c nz,
        occ_other b c (λ e. ==→ne b c ne (sym e)),
      )
    ];
  }
    where
      x : FileEntry
      x = get_or es i zero_entry

      x' : FileEntry
      x' = record x { blocks = set x.blocks k b }

      marked : get_or (set used b 1) b 0 ≡ 1
      marked = get_or-set_self used b 1 0 (omega (arith, s.size))

      none_other : (c : ℕ) → c ≢ 0 → occ c (get_or x.blocks k 0 ∷ []) ≡ 0
      none_other c nz = rw none (occ_other 0 c nz)

      count : (c : ℕ) → c ≢ 0 → refs c (set es i x') ≡ refs c es + occ c (b ∷ [])
      count c nz = omega (
        arith,
        refs-set c es i x' lt,
        occ-set c x.blocks k b inside,
        none_other c nz,
        own_live c x live,
        own_live c x' live,
      )
