-- ===== src/Sfs/Directory/Laws.antt =====
-- The laws of a directory: what `find` finds, and how a new and a removed entry change it.
use linuxpedia.Prelude.{
  ℕ, zero, suc, ◌+◌, ◌<◌, ◌≡◌, refl, inl, inr, ap, ◌∙◌, true, false, none, some, List, [], ◌∷◌,
  get_or, length, arith, Bool-cases,
}
use linuxpedia.Sfs.Layout.{FileEntry, zero_entry}
use linuxpedia.Sfs.Directory.{in_use, named, find_from, find, unused_from, first_unused, IsFound}

earlier_cons :
    (fn : List ℕ) (y : FileEntry) (ys : List FileEntry) (i : ℕ)
    → named fn y ≡ false
    → ((j : ℕ) → j < i → named fn (get_or ys j zero_entry) ≡ false)
    → (j : ℕ) → j < suc i
    → named fn (get_or (y ∷ ys) j zero_entry) ≡ false
earlier_cons fn y ys i miss rest zero h = miss
earlier_cons fn y ys i miss rest (suc j) h = rest j (omega arith)

find_from-some :
    (k : ℕ) (fn : List ℕ) (es : List FileEntry) (i : ℕ) (x : FileEntry)
    → find_from k fn es ≡ some (i, x)
    → (j : ℕ) × (i ≡ k + j) × IsFound j fn es x
unfolding find_from
find_from-some k fn [] i x h = absurd (cc)
find_from-some k fn (y ∷ ys) i x h = elim (Bool-cases (named fn y)) [
  | inl hit ↦
      let p : k ≡ i = ground arith in
      let q : y ≡ x = ground arith in
      (
        0,
        omega arith,
        record {
          inside = omega arith;
          here = q;
          has_name = rw (← q) hit;
          earlier = λ j r. absurd (omega arith);
        },
      )
  | inr miss ↦
      let (j, e, r) = find_from-some (suc k) fn ys i x (ground arith) in
      (
        suc j,
        omega arith,
        record {
          inside = omega (arith, r.inside);
          here = r.here;
          has_name = r.has_name;
          earlier = earlier_cons fn y ys j miss r.earlier;
        },
      )
]

-- What `find` returns is the first entry of that name, with its index.
pub find-some :
    (fn : List ℕ) (es : List FileEntry) (i : ℕ) (x : FileEntry)
    → find fn es ≡ some (i, x)
    → IsFound i fn es x
unfolding find
find-some fn es i x h =
    let (j, e, r) = find_from-some 0 fn es i x h in let same : j ≡ i = omega arith in rw (← same) r

find_from-none :
    (k : ℕ) (fn : List ℕ) (es : List FileEntry)
    → find_from k fn es ≡ none
    → (j : ℕ) → j < length es
    → named fn (get_or es j zero_entry) ≡ false
unfolding find_from
find_from-none k fn [] h j lt = absurd (omega arith)
find_from-none k fn (y ∷ ys) h zero lt = ground arith
find_from-none k fn (y ∷ ys) h (suc j) lt =
    find_from-none (suc k) fn ys (ground arith) j (omega arith)

pub find-none :
    (fn : List ℕ) (es : List FileEntry)
    → find fn es ≡ none
    → (j : ℕ) → j < length es
    → named fn (get_or es j zero_entry) ≡ false
unfolding find
find-none fn es = find_from-none 0 fn es

find_from-absent :
    (k : ℕ) (fn : List ℕ) (es : List FileEntry)
    → ((j : ℕ) → j < length es → named fn (get_or es j zero_entry) ≡ false)
    → find_from k fn es ≡ none
unfolding find_from
find_from-absent k fn [] h = refl
find_from-absent k fn (y ∷ ys) h =
    rw (h 0 (omega arith)) (find_from-absent (suc k) fn ys (λ j lt. h (suc j) (omega arith)))

-- A name that no entry has is not found.
pub find-absent :
    (fn : List ℕ) (es : List FileEntry)
    → ((j : ℕ) → j < length es → named fn (get_or es j zero_entry) ≡ false)
    → find fn es ≡ none
unfolding find
find-absent fn es = find_from-absent 0 fn es

find_from-first :
    (k : ℕ) (fn : List ℕ) (es : List FileEntry) (i : ℕ)
    → i < length es
    → named fn (get_or es i zero_entry) ≡ true
    → ((j : ℕ) → j < i → named fn (get_or es j zero_entry) ≡ false)
    → find_from k fn es ≡ some (k + i, get_or es i zero_entry)
unfolding find_from
find_from-first k fn [] i lt hit early = absurd (omega arith)
find_from-first k fn (y ∷ ys) zero lt hit early = rw hit (ap (λ n. some (n, y)) (omega arith))
find_from-first k fn (y ∷ ys) (suc i) lt hit early = rw (early 0 (omega arith)) (
    find_from-first (suc k) fn ys i (omega arith) hit (λ j q. early (suc j) (omega arith))
    ∙ ap (λ n. some (n, get_or ys i zero_entry)) (omega arith))

-- The first entry of a name is the one found.
pub find-first :
    (fn : List ℕ) (es : List FileEntry) (i : ℕ)
    → i < length es
    → named fn (get_or es i zero_entry) ≡ true
    → ((j : ℕ) → j < i → named fn (get_or es j zero_entry) ≡ false)
    → find fn es ≡ some (i, get_or es i zero_entry)
unfolding find
find-first fn es i lt hit early =
    find_from-first 0 fn es i lt hit early
    ∙ ap (λ n. some (n, get_or es i zero_entry)) (omega arith)

unused_from-some :
    (k : ℕ) (es : List FileEntry) (i : ℕ)
    → unused_from k es ≡ some i
    → (j : ℕ) × (i ≡ k + j) × (j < length es) × (in_use (get_or es j zero_entry) ≡ false)
unfolding unused_from
unused_from-some k [] i h = absurd (cc)
unused_from-some k (y ∷ ys) i h = elim (Bool-cases (in_use y)) [
  | inl live ↦
      let (j, e, lt, free) = unused_from-some (suc k) ys i (ground arith) in
      (suc j, omega arith, omega arith, free)
  | inr free ↦ (0, ground arith, omega arith, free)
]

pub first_unused-some :
    (es : List FileEntry) (i : ℕ)
    → first_unused es ≡ some i
    → (i < length es) × (in_use (get_or es i zero_entry) ≡ false)
unfolding first_unused
first_unused-some es i h =
    let (j, e, lt, free) = unused_from-some 0 es i h in
    let same : j ≡ i = omega arith in rw (← same) (lt, free)
