-- ===== src/Simula/First/Agree.antt =====
-- Single commands of versions 1.0 and 3.0 against each other, where `off_t` has 32 bits.
use linuxpedia.Prelude.{
  ℕ, zero, suc, ◌+◌, ◌<◌, ◌≡◌, refl, ap, ap₂, false, Option, none, some, List, [], ◌∷◌, length, set,
  arith,
}
use mathlib.Core.Path.{subst}
use linuxpedia.Sfs.Layout.{FileEntry, zero_entry}
use linuxpedia.Sfs.Entries.Refine.{release, zero_entry-IsEntry}
use linuxpedia.Sfs.Directory.{find}
use linuxpedia.Sfs.Directory.Laws.{find-some}
use linuxpedia.Browse.Handle.{Browser, lseek_cur, write_bytes, read_entry_here, read_bytes}
use linuxpedia.Browse.Table.{
  Reply, listed, already_exists, silent, doesnt_exist, Line, line_of, list_lines, sfs_list,
  create_scan, create_here, sfs_create, put_blocks, store_entry,
}
use linuxpedia.Browse.Table
use linuxpedia.Simula.First
use linuxpedia.Simula.First.Remove.{sfs_remove-Removes, Removes, sfs_remove-narrow}
use linuxpedia.Browse.Contents.Kept.{lookup_found}
use linuxpedia.Browse.Table.Scan.{HasEntries, moved, Finds, sfs_lookup-Finds}
use linuxpedia.Browse.Table.Change.{HasEntries-set, store_entry-splice, put_blocks-release}
use linuxpedia.Browse.Table.Create.{free, stop_from}
use linuxpedia.Simula.First.Alike.{other, ended}

-- Version 1.0 and version 3.0 have answered the same, and stand on the same partition with a file
-- table, where `off_t` has 32 bits.
pub record Agree {A : Type 0} (old new : A × Browser) : Type 0 where
  pub reply : old.0 ≡ new.0
  pub pos : ℕ
  pub used : List ℕ
  pub block : List ℕ
  pub same : new.1 ≡ other old.1 pos used block
  pub es : List FileEntry
  pub table : HasEntries old.1.bytes old.1.sb es
  pub narrow : old.1.wide ≡ false

-- The same of an operation that only moves.
Agree-moved :
    {A : Type 0} (b : Browser) (es : List FileEntry) (p q : ℕ) (used block : List ℕ) (a : A)
    → HasEntries b.bytes b.sb es
    → b.wide ≡ false
    → Agree (a, moved b p) (a, other b q used block)
Agree-moved b es p q used block a h narrow = record {
  reply = refl;
  pos = q;
  used = used;
  block = block;
  same = refl;
  es = es;
  table = h;
  narrow = narrow;
}

module _ (b : Browser) (es : List FileEntry) (p : ℕ) (used block : List ℕ)
    (h : HasEntries b.bytes b.sb es) (narrow : b.wide ≡ false) (fn : List ℕ) where
  pub remove-Agree_absent :
      find fn es ≡ none → Agree (First.sfs_remove b fn) (Table.sfs_remove (other b p used block) fn)
  unfolding Table.sfs_remove
  remove-Agree_absent absent =
      let c = other b p used block in
      let old =
        subst (λ o. Removes o b es (First.sfs_remove b fn)) absent (sfs_remove-Removes b es fn h) in
      let looked : Finds none c (Table.sfs_lookup c fn) =
        subst (λ o. Finds o c (Table.sfs_lookup c fn)) absent (sfs_lookup-Finds c fn h) in
      let q = (First.sfs_remove b fn).1.pos in
      let q' = (Table.sfs_lookup c fn).2.pos in
      let old_same : First.sfs_remove b fn ≡ (doesnt_exist, moved b q) =
        ap₂ (λ a d. (a, d)) old.0 old.1 in
      let new_same : Table.sfs_remove c fn ≡ (doesnt_exist, moved c q') =
        rw (looked.0, Table.sfs_remove) (ap (λ d. (doesnt_exist, d)) looked.1) in
      rw (old_same, new_same) (Agree-moved b es q q' used block doesnt_exist h narrow)

  pub remove-Agree_present :
      (j : ℕ) (x : FileEntry)
      → find fn es ≡ some (j, x)
      → Agree (First.sfs_remove b fn) (Table.sfs_remove (other b p used block) fn)
  unfolding Table.sfs_remove
  remove-Agree_present j x found =
      let c = other b p used block in
      let inside = (find-some fn es j x found).inside in
      let (q, old_same) = sfs_remove-narrow b es fn j x h narrow found in
      let (p', looked) = lookup_found c fn j x h found in
      let freed : Browser = record (moved c p') { used_blocks = release x.blocks used } in
      let (q', stored) = store_entry-splice freed j zero_entry h inside zero_entry-IsEntry in
      let new_same : Table.sfs_remove c fn ≡ (silent, store_entry freed j zero_entry) =
        rw (looked, Table.sfs_remove, looked)
          (ap (λ d. (silent, store_entry d j zero_entry))
            (put_blocks-release x.blocks (moved c p'))) in
      rw (old_same, new_same, stored)
        (record {
          reply = refl;
          pos = q';
          used = release x.blocks used;
          block = block;
          same = refl;
          es = set es j zero_entry;
          table = HasEntries-set h j zero_entry inside zero_entry-IsEntry;
          narrow = narrow;
        })

pub list_lines-moved :
    (n : ℕ) (fe : FileEntry) (b : Browser)
    → (list_lines n fe b).1 ≡ moved b (list_lines n fe b).1.pos
unfolding list_lines read_entry_here read_bytes
list_lines-moved zero fe b = refl
list_lines-moved (suc n) fe b = let (fe', b') = read_entry_here b fe in list_lines-moved n fe' b'

pub create_scan-wide :
    (fn : List ℕ) (n i : ℕ) (fe : FileEntry) (b : Browser)
    → (create_scan fn n i fe b).1.wide ≡ b.wide
unfolding create_scan read_entry_here read_bytes
create_scan-wide fn zero i fe b = refl
create_scan-wide fn (suc n) i fe b =
    let (fe', b') = read_entry_here b fe in ground (arith, create_scan-wide fn n (suc i) fe' b')

create_here-wide :
    (fn : List ℕ) (now i : ℕ) (b : Browser) → (create_here fn now i b).1.wide ≡ b.wide
unfolding create_here lseek_cur write_bytes
create_here-wide fn now i b = ground arith

pub ended-wide :
    (fn : List ℕ) (now : ℕ) (r : Option ℕ × Browser) → (ended fn now r).1.wide ≡ r.1.wide
ended-wide fn now (none, b) = refl
ended-wide fn now (some i, b) = create_here-wide fn now i b

pub stop_from-free :
    (i : ℕ) (fn : List ℕ) (es : List FileEntry) (j : ℕ)
    → stop_from i fn es ≡ free j
    → j < i + length es
unfolding stop_from
stop_from-free i fn [] j h = absurd (cc)
stop_from-free i fn (x ∷ xs) j h = ground (arith, stop_from-free (suc i) fn xs j)
