-- ===== src/Sfs/Directory.antt =====
-- What the entry table promises, with no device below it: a directory is the list of its entries,
-- and its operations are described by the first entry of a name and the first unused entry.
pub mod Laws
pub mod Change
use linuxpedia.Prelude.{
  ℕ, zero, suc, ◌<◌, ◌≡◌, Bool, true, false, not, ◌&&◌, Option, none, some, List, [], ◌∷◌, set,
  get_or, length, ◌==◌, if◌then◌else◌,
}
use linuxpedia.Prelude.CString.{str_eq}
use linuxpedia.Sfs.Layout.{FileEntry, name_first, zero_entry}
use linuxpedia.Sfs.Entries.{new_entry}

abbrev pub in_use : FileEntry → Bool
in_use fe = not (name_first fe == 0)

abbrev pub named : List ℕ → FileEntry → Bool
named fn fe = in_use fe && str_eq fe.name fn

-- The first entry of that name and its index, where the list starts at index `i`.
unfoldable pub find_from : ℕ → List ℕ → List FileEntry → Option (ℕ × FileEntry)
find_from i fn [] = none
find_from i fn (x ∷ xs) =
    let rest = find_from (suc i) fn xs in if named fn x then some (i, x) else rest

unfoldable pub find : List ℕ → List FileEntry → Option (ℕ × FileEntry)
unfolding find_from
find fn es = find_from 0 fn es

unfoldable pub unused_from : ℕ → List FileEntry → Option ℕ
unused_from i [] = none
unused_from i (x ∷ xs) = let rest = unused_from (suc i) xs in if in_use x then rest else some i

unfoldable pub first_unused : List FileEntry → Option ℕ
unfolding unused_from
first_unused es = unused_from 0 es

-- A new file: refused if the name is taken or no entry is left.
unfoldable pub create_in : List FileEntry → List ℕ → ℕ → ℕ → Option (ℕ × List FileEntry)
unfolding find first_unused
create_in es fn perms now = elim (find fn es) [
  | some _ ↦ none
  | none ↦ elim (first_unused es) [
    | none ↦ none
    | some i ↦ some (i, set es i (new_entry fn perms now))
  ]
]

-- The entry at an index; the first of a name.
pub record IsFound (i : ℕ) (fn : List ℕ) (es : List FileEntry) (x : FileEntry) : Type 0 where
  pub inside : i < length es
  pub here : get_or es i zero_entry ≡ x
  pub has_name : named fn x ≡ true
  pub earlier : (j : ℕ) → j < i → named fn (get_or es j zero_entry) ≡ false

-- No two entries in use have one name.
abbrev pub Distinct : List FileEntry → Type 0
Distinct es =
    (i j : ℕ)
    → i < length es
    → j < length es
    → in_use (get_or es i zero_entry) ≡ true
    → named (get_or es i zero_entry).name (get_or es j zero_entry) ≡ true
    → i ≡ j
