-- ===== src/Sfs/Ownership/Change.antt =====
-- How ownership changes where one entry or one list of blocks is replaced, and where the blocks of
-- an entry are given back.
use linuxpedia.Prelude.{
  ℕ, zero, suc, ◌+◌, ◌≤◌, ◌<◌, ◌≡◌, refl, ◌≢◌, ◌⊎◌, inl, inr, sym, ◌∙◌, true, false, List, [], ◌∷◌,
  get_or, set, length, replicate, ◌==◌, ==→eq, ==→ne, arith, Bool-cases, length-set, get_or-set_ne,
}
use linuxpedia.Sfs.Layout.{FileEntry, zero_entry}
use linuxpedia.Sfs.Directory.{in_use}
use linuxpedia.Sfs.Ownership.{occ, own, refs}
use linuxpedia.Sfs.Entries.Refine.{release}

pub occ-set :
    (b : ℕ) (bs : List ℕ) (k v : ℕ)
    → k < length bs
    → occ b (set bs k v) + occ b (get_or bs k 0 ∷ []) ≡ occ b bs + occ b (v ∷ [])
unfolding occ
occ-set b [] k v h = absurd (omega arith)
occ-set b (x ∷ xs) zero v h = omega arith
occ-set b (x ∷ xs) (suc k) v h = omega (arith, occ-set b xs k v (omega arith))

pub occ-replicate : (b n : ℕ) → b ≢ 0 → occ b (replicate n 0) ≡ 0
unfolding occ
occ-replicate b zero h = refl
occ-replicate b (suc n) h = ground (arith, occ-replicate b n h)

pub own-zero_entry : (b : ℕ) → own b zero_entry ≡ 0
unfolding own
own-zero_entry b = refl

pub refs-set :
    (b : ℕ) (es : List FileEntry) (i : ℕ) (x : FileEntry)
    → i < length es
    → refs b (set es i x) + own b (get_or es i zero_entry) ≡ refs b es + own b x
unfolding refs
refs-set b [] i x h = absurd (omega arith)
refs-set b (y ∷ ys) zero x h = omega arith
refs-set b (y ∷ ys) (suc i) x h = omega (arith, refs-set b ys i x (omega arith))

-- A cleared byte reads 0, in the array or not.
pub get_or-set_zero : (used : List ℕ) (b : ℕ) → get_or (set used b 0) b 0 ≡ 0
get_or-set_zero [] b = refl
get_or-set_zero (x ∷ xs) zero = refl
get_or-set_zero (x ∷ xs) (suc b) = get_or-set_zero xs b

pub length-release : (bs used : List ℕ) → length (release bs used) ≡ length used
unfolding release
length-release [] used = refl
length-release (b ∷ bs) used = ground (arith, length-release bs (set used b 0), length-set used b 0)

-- A byte is left alone, or cleared for a block of the list.
abbrev pub Cleared : List ℕ → List ℕ → List ℕ → ℕ → Type 0
Cleared bs used used' c =
    (get_or used' c 0 ≡ get_or used c 0) ⊎ ((get_or used' c 0 ≡ 0) × (1 ≤ occ c bs))

pub release-Cleared : (bs used : List ℕ) (c : ℕ) → Cleared bs used (release bs used) c
unfolding release occ
release-Cleared [] used c = inl refl
release-Cleared (b ∷ bs) used c = elim (Bool-cases (b == 0)) [
  | inl stop ↦ inl (rw stop)
  | inr more ↦ elim (Bool-cases (c == b)) [
    | inl same ↦
        inr (rw more (first (release-Cleared bs (set used b 0) c) (==→eq c b same)), ground arith)
    | inr differ ↦ elim (release-Cleared bs (set used b 0) c) [
      | inl kept ↦ inl (rw more (kept ∙ get_or-set_ne used b c 0 0 (λ e. ==→ne c b differ (sym e))))
      | inr (zeroed, listed) ↦ inr (rw more zeroed, omega (arith, listed))
    ]
  ]
]
  where
    first :
        Cleared bs (set used b 0) (release bs (set used b 0)) c
        → c ≡ b
        → get_or (release bs (set used b 0)) c 0 ≡ 0
    first (inl kept) e = kept ∙ rw e (get_or-set_zero used b)
    first (inr (zeroed, listed)) e = zeroed

pub occ_one : (b : ℕ) → occ b (b ∷ []) ≡ 1
unfolding occ
occ_one b = ground arith

pub occ_other : (b c : ℕ) → c ≢ b → occ c (b ∷ []) ≡ 0
unfolding occ
occ_other b c ne = ground arith

pub own_live : (b : ℕ) (x : FileEntry) → in_use x ≡ true → own b x ≡ occ b x.blocks
unfolding own
own_live b x live = rw live

pub own_unused : (b : ℕ) (x : FileEntry) → in_use x ≡ false → own b x ≡ 0
unfolding own
own_unused b x free = rw free

pub own_le : (b : ℕ) (x : FileEntry) → own b x ≤ occ b x.blocks
unfolding own
own_le b x = ground arith
