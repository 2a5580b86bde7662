-- ===== src/Sfs/Entries/Scan.antt =====
-- The loops of real_sfs_ops.c over the table, run on a device that holds a list of entries.
use linuxpedia.Prelude.{
  ℕ, suc, ◌+◌, ◌<◌, ◌≡◌, refl, sym, ap, ◌∙◌, Option, none, some, List, [], ◌∷◌, get_or, length,
  arith,
}
use linuxpedia.Prelude.Int.{ℤ, pos, minus_one}
use linuxpedia.Sfs.Layout.{FileEntry, zero_entry}
use linuxpedia.Sfs.Device.{BufferCache}
use linuxpedia.Sfs.BlockIo.{Fs, copied, read_entry}
use linuxpedia.Sfs.BlockIo.Table.{Holds}
use linuxpedia.Sfs.Entries.{stopped, scanned, lookup_loop, create_loop, s2v_inode_num, sfs_lookup}
use linuxpedia.Sfs.Directory.{find_from, find, unused_from}

abbrev pub last_or : List FileEntry → FileEntry → FileEntry
last_or [] fe = fe
last_or (x ∷ xs) fe = last_or xs x

-- The `int` and the entry that a lookup leaves for what it finds.
abbrev pub answer : Option (ℕ × FileEntry) → FileEntry → ℤ × FileEntry
answer none fe = (minus_one, fe)
answer (some (i, x)) fe = (s2v_inode_num i, x)

-- What `free_ino` holds after the loop.
abbrev pub free_code : Option ℕ → ℤ
free_code none = minus_one
free_code (some i) = pos i

module _ {D : Type 0} ⦃cache : BufferCache D⦄ where
  -- From entry `ino` on the device holds these.
  abbrev pub Reads : Fs D → ℕ → List FileEntry → Type 0
  Reads fs ino [] = Unit
  Reads fs ino (x ∷ xs) = (read_entry fs ino ≡ copied x) × Reads fs (suc ino) xs

  Reads-from :
      (fs : Fs D) (k : ℕ) (xs : List FileEntry)
      → ((i : ℕ) → i < length xs → read_entry fs (k + i) ≡ copied (get_or xs i zero_entry))
      → Reads fs k xs
  Reads-from fs k [] h = tt
  Reads-from fs k (x ∷ xs) h = (
    ap (read_entry fs) (omega arith) ∙ h 0 (omega arith),
    Reads-from fs (suc k) xs (λ i lt. ap (read_entry fs) (omega arith) ∙ h (suc i) (omega arith)),
  )

  pub Holds-Reads : {fs : Fs D} {es : List FileEntry} → Holds fs es → Reads fs 0 es
  Holds-Reads {fs} {es} h =
      Reads-from fs 0 es (λ i lt. ap (read_entry fs) (omega arith) ∙ h.stored i lt)

  pub lookup_loop-find :
      (fs : Fs D) (fn : List ℕ) (ino : ℕ) (xs : List FileEntry) (fe : FileEntry)
      → Reads fs ino xs
      → lookup_loop fs fn (length xs) ino fe ≡ answer (find_from ino fn xs) (last_or xs fe)
  unfolding lookup_loop find_from
  lookup_loop-find fs fn ino [] fe h = refl
  lookup_loop-find fs fn ino (x ∷ xs) fe h =
      ground (arith, h.0, lookup_loop-find fs fn (suc ino) xs x h.1)

  pub sfs_lookup-find :
      {fs : Fs D} {es : List FileEntry} (fn : List ℕ) (fe : FileEntry)
      → Holds fs es
      → sfs_lookup fs fn fe ≡ answer (find fn es) (last_or es fe)
  unfolding sfs_lookup find
  sfs_lookup-find {fs} {es} fn fe h =
      ap (λ n. lookup_loop fs fn n 0 fe) (sym h.count)
      ∙ lookup_loop-find fs fn 0 es fe (Holds-Reads h)

  create_loop-pos :
      (fs : Fs D) (fn : List ℕ) (ino i : ℕ) (xs : List FileEntry) (fe : FileEntry)
      → Reads fs ino xs
      → find_from ino fn xs ≡ none
      → create_loop fs fn (length xs) ino (pos i) fe ≡ scanned (pos i) (last_or xs fe)
  unfolding create_loop find_from
  create_loop-pos fs fn ino i [] fe h e = refl
  create_loop-pos fs fn ino i (x ∷ xs) fe h e =
      ground (arith, h.0, create_loop-pos fs fn (suc ino) i xs x h.1)

  pub create_loop-none :
      (fs : Fs D) (fn : List ℕ) (ino : ℕ) (xs : List FileEntry) (fe : FileEntry)
      → Reads fs ino xs
      → find_from ino fn xs ≡ none
      → create_loop fs fn (length xs) ino minus_one fe
        ≡ scanned (free_code (unused_from ino xs)) (last_or xs fe)
  unfolding create_loop find_from unused_from
  create_loop-none fs fn ino [] fe h e = refl
  create_loop-none fs fn ino (x ∷ xs) fe h e = ground (
    arith,
    h.0,
    create_loop-none fs fn (suc ino) xs x h.1,
    create_loop-pos fs fn (suc ino) ino xs x h.1,
  )

  pub create_loop-taken :
      (fs : Fs D) (fn : List ℕ) (ino : ℕ) (free : ℤ) (xs : List FileEntry) (fe : FileEntry)
      (p : ℕ × FileEntry)
      → Reads fs ino xs
      → find_from ino fn xs ≡ some p
      → create_loop fs fn (length xs) ino free fe ≡ stopped p.1
  unfolding create_loop find_from
  create_loop-taken fs fn ino free [] fe p h e = absurd (cc)
  create_loop-taken fs fn ino free (x ∷ xs) fe p h e = ground (
    arith,
    h.0,
    create_loop-taken fs fn (suc ino) free xs x p h.1,
    create_loop-taken fs fn (suc ino) (pos ino) xs x p h.1,
  )
