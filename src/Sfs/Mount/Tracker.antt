-- ===== src/Sfs/Mount/Tracker.antt =====
-- The tracker of used blocks that init_browsing builds from the entry table.
use native.Mathlib.Nat.{zero-add}
use linuxpedia.Prelude.{
  ℕ, ◌+◌, ◌≤◌, ◌<◌, ◌≡◌, refl, ◌⊎◌, inl, inr, sym, ◌∙◌, List, [], ◌∷◌, get_or, set, length, arith,
  ◌==◌, ==→eq, ==→ne, Bool-cases, if◌then◌else◌, length-set, get_or-set_self, get_or-set_ne,
}
use linuxpedia.Sfs.Layout.{FileEntry, name_first}
use linuxpedia.Sfs.Directory.{in_use}
use linuxpedia.Sfs.Ownership.{occ}
use linuxpedia.Sfs.Mount.{mark_blocks}

-- The blocks of an entry before its first 0.
unfoldable pub prefix : List ℕ → List ℕ
prefix [] = []
prefix (b ∷ bs) = if b == 0 then [] else b ∷ prefix bs

-- How often the entries in use name `b` before their first 0.
unfoldable pub prefix_refs : ℕ → List FileEntry → ℕ
prefix_refs b [] = 0
prefix_refs b (x ∷ xs) = (if in_use x then occ b (prefix x.blocks) else 0) + prefix_refs b xs

unfoldable pub mark_entries : List FileEntry → List ℕ → List ℕ
mark_entries [] used = used
mark_entries (x ∷ xs) used =
    mark_entries xs (if name_first x == 0 then used else mark_blocks x.blocks used)

length-mark_blocks : (bs used : List ℕ) → length (mark_blocks bs used) ≡ length used
unfolding mark_blocks
length-mark_blocks [] used = refl
length-mark_blocks (b ∷ bs) used =
    ground (arith, length-mark_blocks bs (set used b 1), length-set used b 1)

pub length-mark_entries :
    (es : List FileEntry) (used : List ℕ) → length (mark_entries es used) ≡ length used
unfolding mark_entries
length-mark_entries [] used = refl
length-mark_entries (x ∷ xs) used =
    length-mark_entries xs (if name_first x == 0 then used else mark_blocks x.blocks used)
    ∙ ground (arith, length-mark_blocks x.blocks used)

-- A byte is marked for a count that is not 0, and left alone otherwise.
abbrev pub Marks : ℕ → List ℕ → List ℕ → ℕ → Type 0
Marks n used used' c =
    ((n ≡ 0) × (get_or used' c 0 ≡ get_or used c 0)) ⊎ ((1 ≤ n) × (get_or used' c 0 ≡ 1))

Marks-trans :
    (n m : ℕ) (used used' used'' : List ℕ) (c : ℕ)
    → Marks n used used' c
    → Marks m used' used'' c
    → Marks (n + m) used used'' c
Marks-trans n m used used' used'' c (inl p) (inl q) = inl (omega arith, q.1 ∙ p.1)
Marks-trans n m used used' used'' c (inl p) (inr q) = inr (omega arith, q.1)
Marks-trans n m used used' used'' c (inr p) (inl q) = inr (omega arith, q.1 ∙ p.1)
Marks-trans n m used used' used'' c (inr p) (inr q) = inr (omega arith, q.1)

set-Marks :
    (used : List ℕ) (b c : ℕ) → c < length used → Marks (occ c (b ∷ [])) used (set used b 1) c
unfolding occ
set-Marks used b c lt = elim (Bool-cases (c == b)) [
  | inl e ↦ inr (ground arith, rw (← ==→eq c b e) (get_or-set_self used c 1 0 lt))
  | inr e ↦ inl (ground arith, get_or-set_ne used b c 1 0 (λ p. ==→ne c b e (sym p)))
]

mark_blocks-Marks :
    (bs used : List ℕ) (c : ℕ)
    → c < length used
    → Marks (occ c (prefix bs)) used (mark_blocks bs used) c
unfolding mark_blocks prefix occ
mark_blocks-Marks [] used c lt = inl (refl, refl)
mark_blocks-Marks (b ∷ bs) used c lt = elim (Bool-cases (b == 0)) [
  | inl e ↦ rw e (inl (refl, refl))
  | inr e ↦ rw e (
      let r =
        Marks-trans (occ c (b ∷ [])) (occ c (prefix bs)) used (set used b 1)
          (mark_blocks bs (set used b 1)) c (set-Marks used b c lt)
          (mark_blocks-Marks bs (set used b 1) c (omega (arith, length-set used b 1))) in
      ground (arith, r))
]

pub mark_entries-Marks :
    (es : List FileEntry) (used : List ℕ) (c : ℕ)
    → c < length used
    → Marks (prefix_refs c es) used (mark_entries es used) c
unfolding mark_entries prefix_refs
mark_entries-Marks [] used c lt = inl (refl, refl)
mark_entries-Marks (x ∷ xs) used c lt = elim (Bool-cases (name_first x == 0)) [
  | inl e ↦ rw (e, zero-add) (mark_entries-Marks xs used c lt)
  | inr e ↦ rw e (
      Marks-trans (occ c (prefix x.blocks)) (prefix_refs c xs) used (mark_blocks x.blocks used)
        (mark_entries xs (mark_blocks x.blocks used)) c (mark_blocks-Marks x.blocks used c lt)
        (mark_entries-Marks xs (mark_blocks x.blocks used) c
          (omega (arith, length-mark_blocks x.blocks used))))
]
