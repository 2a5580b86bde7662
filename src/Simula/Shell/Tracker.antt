-- ===== src/Simula/Shell/Tracker.antt =====
-- Sessions of versions 2.0 and 3.0 that type in and read no contents: the tracker, in which alone
-- their programs come to differ, is of no account.
use linuxpedia.Prelude.{
  ℕ, zero, suc, ◌≡◌, refl, ap, ◌∙◌, Bool, true, false, Option, none, some, List, arith,
}
use linuxpedia.Prelude.Int.{ℤ, pos}
use linuxpedia.Sfs.Layout.{FileEntry, zero_entry, encode_entry}
use linuxpedia.Sfs.Entries.{set_fields}
use linuxpedia.Sfs.Entries.Refine.{release}
use linuxpedia.Browse.Handle.{
  Browser, lseek_set, write_bytes, read_entry_here, read_bytes, table_offset, entry_offset_of,
}
use linuxpedia.Browse.Table.{
  Reply, listed, silent, doesnt_exist, list_lines, sfs_list, create_scan, sfs_create, lookup_scan,
  sfs_lookup, store_entry, put_blocks, sfs_update, sfs_chperm,
}
use linuxpedia.Browse.Table
use linuxpedia.Browse.Table.Change.{put_blocks-release}
use linuxpedia.Browse.Contents.{Input}
use linuxpedia.Browse.Shell as LastShell
use linuxpedia.Browse.Shell.{
  Command, help, quit, list, unknown, create, remove, read, write, chperm, Answer, usage_shown,
  incorrect, bye, replied, Typed, parse_command,
}
use linuxpedia.Simula
use linuxpedia.Simula.Shell
use linuxpedia.Simula.First.Alike.{
  dressed, with_dress, ended, list_lines-dressed, create_scan-dressed, create_end,
}

-- A command that is neither `read` nor `write`.
abbrev pub keeps_contents : Command → Bool
keeps_contents (read fn) = false
keeps_contents (write fn) = false
keeps_contents c = true

module _ (used block : List ℕ) where
  lseek_set-dressed :
      (b : Browser) (o : ℕ)
      → lseek_set (dressed b used block) o ≡ dressed (lseek_set b o) used block
  unfolding lseek_set
  lseek_set-dressed b o = ground arith

  sfs_list-dressed :
      (b : Browser) → sfs_list (dressed b used block) ≡ with_dress used block (sfs_list b)
  unfolding sfs_list
  sfs_list-dressed b =
      ap (λ c. let (lines, b') = list_lines b.sb.entry_count zero_entry c in (listed lines, b'))
        (lseek_set-dressed b (table_offset b.sb))
      ∙ ap (λ (r : List Table.Line × Browser). (listed r.0, r.1))
          (list_lines-dressed used block b.sb.entry_count zero_entry
            (lseek_set b (table_offset b.sb)))

  sfs_create-dressed :
      (b : Browser) (fn : List ℕ) (now : ℕ)
      → sfs_create (dressed b used block) fn now ≡ with_dress used block (sfs_create b fn now)
  unfolding sfs_create
  sfs_create-dressed b fn now =
      let n = b.sb.entry_count in
      let start = lseek_set b (table_offset b.sb) in
      ap (λ c. ended fn now (create_scan fn n 0 zero_entry c))
        (lseek_set-dressed b (table_offset b.sb))
      ∙ ap (ended fn now) (create_scan-dressed used block fn n 0 zero_entry start)
      ∙ create_end used block fn now (create_scan fn n 0 zero_entry start)

  -- The same of a lookup.
  abbrev looked : Option ℕ × FileEntry × Browser → Option ℕ × FileEntry × Browser
  looked (o, fe, b) = (o, fe, dressed b used block)

  lookup_scan-looked :
      (fn : List ℕ) (n i : ℕ) (fe : FileEntry) (b : Browser)
      → lookup_scan fn n i fe (dressed b used block) ≡ looked (lookup_scan fn n i fe b)
  unfolding lookup_scan read_entry_here read_bytes
  lookup_scan-looked fn zero i fe b = refl
  lookup_scan-looked fn (suc n) i fe b =
      let (fe', b') = read_entry_here b fe in ground (arith, lookup_scan-looked fn n (suc i) fe' b')

  sfs_lookup-looked :
      (b : Browser) (fn : List ℕ) → sfs_lookup (dressed b used block) fn ≡ looked (sfs_lookup b fn)
  unfolding sfs_lookup
  sfs_lookup-looked b fn =
      ap (lookup_scan fn b.sb.entry_count 0 zero_entry) (lseek_set-dressed b (table_offset b.sb))
      ∙ lookup_scan-looked fn b.sb.entry_count 0 zero_entry (lseek_set b (table_offset b.sb))

  store_entry-dressed :
      (b : Browser) (i : ℕ) (fe : FileEntry)
      → store_entry (dressed b used block) i fe ≡ dressed (store_entry b i fe) used block
  unfolding store_entry write_bytes
  store_entry-dressed b i fe =
      ap (λ c. write_bytes c (encode_entry fe)) (lseek_set-dressed b (entry_offset_of b.sb i))

  -- The part of sfs_update after its lookup.
  abbrev updated : (FileEntry → FileEntry) → Option ℕ × FileEntry × Browser → Reply × Browser
  updated f (found, fe, b) = elim found [
    | none ↦ (doesnt_exist, b)
    | some i ↦ (silent, store_entry b i (f fe))
  ]

  updated-looked :
      (f : FileEntry → FileEntry) (r : Option ℕ × FileEntry × Browser)
      → updated f (looked r) ≡ with_dress used block (updated f r)
  updated-looked f (none, fe, b) = refl
  updated-looked f (some i, fe, b) = ap (λ c. (silent, c)) (store_entry-dressed b i (f fe))

  sfs_chperm-dressed :
      (b : Browser) (fn : List ℕ) (perm : ℤ)
      → sfs_chperm (dressed b used block) fn perm ≡ with_dress used block (sfs_chperm b fn perm)
  unfolding sfs_chperm sfs_update
  sfs_chperm-dressed b fn perm =
      ap (updated (set_fields none none (some perm))) (sfs_lookup-looked b fn)
      ∙ updated-looked (set_fields none none (some perm)) (sfs_lookup b fn)

-- The part of sfs_remove after its lookup, in version 2.0 and in version 3.0.
abbrev kept : Option ℕ × FileEntry × Browser → Reply × Browser
kept (found, fe, b) = elim found [
  | none ↦ (doesnt_exist, b)
  | some i ↦ (silent, store_entry b i zero_entry)
]

abbrev given_back : Option ℕ × FileEntry × Browser → Reply × Browser
given_back (found, fe, b) = elim found [
  | none ↦ (doesnt_exist, b)
  | some i ↦ (silent, store_entry (put_blocks fe.blocks b) i zero_entry)
]

given_back-kept :
    (used block : List ℕ) (r : Option ℕ × FileEntry × Browser)
    → (used' : List ℕ) × (given_back (looked used block r) ≡ with_dress used' block (kept r))
given_back-kept used block (none, fe, b) = (used, refl)
given_back-kept used block (some i, fe, b) = (
  release fe.blocks used,
  ap (λ c. (silent, store_entry c i zero_entry))
        (put_blocks-release fe.blocks (dressed b used block))
      ∙ ap (λ c. (silent, c)) (store_entry-dressed (release fe.blocks used) block b i zero_entry),
)

sfs_remove-dressed :
    (used block : List ℕ) (b : Browser) (fn : List ℕ)
    → (used' : List ℕ) × (Table.sfs_remove (dressed b used block) fn
        ≡ with_dress used' block (Simula.sfs_remove b fn))
unfolding Table.sfs_remove Simula.sfs_remove
sfs_remove-dressed used block b fn =
    let (used', same) = given_back-kept used block (sfs_lookup b fn) in
    (used', ap given_back (sfs_lookup-looked used block b fn) ∙ same)

-- A command gives the same answer in both, and their programs differ in the tracker and the buffer.
abbrev pub Runs : Command → Input → ℕ → Browser → Browser → Type 0
Runs c input now b d =
    (old : Answer × Browser) × (used : List ℕ) × (block : List ℕ) × (Shell.run_command c input now b
      ≡ some old)
    × (LastShell.run_command c input now d ≡ some (with_dress used block old))

pub run_command-Runs :
    (c : Command) (input : Input) (now : ℕ) (b : Browser) (used block : List ℕ)
    → keeps_contents c ≡ true
    → Runs c input now b (dressed b used block)
unfolding Shell.run_command LastShell.run_command
run_command-Runs help input now b used block e = ((usage_shown, b), used, block, refl, refl)
run_command-Runs quit input now b used block e = ((bye, b), used, block, refl, refl)
run_command-Runs unknown input now b used block e = ((incorrect, b), used, block, refl, refl)
run_command-Runs list input now b used block e =
    (_, used, block, refl, ap (λ r. some (replied r.0, r.1)) (sfs_list-dressed used block b))
run_command-Runs (create fn) input now b used block e = (
  _,
  used,
  block,
  refl,
  ap (λ r. some (replied r.0, r.1)) (sfs_create-dressed used block b fn now),
)
run_command-Runs (remove fn) input now b used block e =
    let (used', same) = sfs_remove-dressed used block b fn in
    (_, used', block, refl, ap (λ r. some (replied r.0, r.1)) same)
run_command-Runs (chperm perm fn) input now b used block e = (
  _,
  used,
  block,
  refl,
  ap (λ r. some (replied r.0, r.1)) (sfs_chperm-dressed used block b fn (pos perm)),
)
run_command-Runs (read fn) input now b used block e = absurd (cc)
run_command-Runs (write fn) input now b used block e = absurd (cc)
