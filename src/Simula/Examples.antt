-- ===== src/Simula/Examples.antt =====
-- Examples of versions 1.0 and 2.0 of browse_sfs.c.
use linuxpedia.Prelude.{
  ℕ, zero, suc, ◌<◌, slice, get_or, arith, ◌≡◌, refl, false, true, some, drop, List, [], ◌∷◌, ◌++◌,
  replicate,
}
use linuxpedia.Sfs.Layout.{zero_entry, encode_entry, encode_super, decode_super}
use linuxpedia.Prelude.CString.{str_eq, strlen}
use linuxpedia.Browse.Handle.{Browser, read_bytes}
use linuxpedia.Browse.Small.{
  partition-IsLaidOut, entries_two, hi, small_sb, partition, two_entries, wide_browser,
  partition-HasEntries,
}
use linuxpedia.Simula.First
use linuxpedia.Browse.Table
use linuxpedia.Browse.Shell
use linuxpedia.Browse.Shell.{Typed, word_create, word_remove, word_list, word_quit}
use linuxpedia.Browse.Table.Scan.{HasEntries, BlocksBelow, slot}
use linuxpedia.Browse.Main.{started, read_super}
use linuxpedia.Browse.Main
use linuxpedia.Simula.Shell as SecondShell
use linuxpedia.Simula.Shell.Runs.{KeepsContents, IsProper, main-same}
use linuxpedia.Simula.First.Session.{IsKnown, Same, browse_sfs-Same}

abbrev narrow_browser : Browser
narrow_browser = record wide_browser { wide = false }

abbrev typed : List ℕ → Typed
typed l = record { line = l; input = []; now = 9 }

abbrev session : List Typed
session =
    typed (word_create ++ (32 ∷ hi))
    ∷ typed (word_remove ++ (32 ∷ hi))
    ∷ typed word_list
    ∷ typed word_quit
    ∷ []

two_entries-BlocksBelow : BlocksBelow 4 two_entries
two_entries-BlocksBelow = omega arith

session-IsKnown : IsKnown session
unfolding IsKnown Shell.parse_command str_eq strlen
session-IsKnown =
    (omega arith, refl, (omega arith, refl, (omega arith, refl, (omega arith, refl, tt))))

browse_sfs-Same_example :
    Same session narrow_browser
      (record narrow_browser { pos = 77; used_blocks = replicate 4 1; block = replicate 512 1 })
browse_sfs-Same_example =
    browse_sfs-Same session narrow_browser two_entries 77 (replicate 4 1) (replicate 512 1)
      session-IsKnown partition-HasEntries two_entries-BlocksBelow refl refl

-- The partition has no super block, so this one is put in its place.
abbrev formatted : List ℕ
formatted = encode_super small_sb ++ drop 512 partition

session-KeepsContents : KeepsContents session
unfolding KeepsContents Shell.parse_command str_eq strlen
session-KeepsContents =
    (omega arith, refl, (omega arith, refl, (omega arith, refl, (omega arith, refl, tt))))

formatted-stored :
    (i : ℕ)
    → i < 2
    → slice formatted (slot small_sb i) 64 ≡ encode_entry (get_or two_entries i zero_entry)
unfolding encode_entry encode_super
formatted-stored zero h = refl
formatted-stored (suc zero) h = refl
formatted-stored (suc (suc i)) h = absurd (omega arith)

formatted-HasEntries : HasEntries formatted small_sb two_entries
unfolding encode_super
formatted-HasEntries = record {
  layout = partition-IsLaidOut;
  count = refl;
  stored = formatted-stored;
  entries = entries_two;
}

formatted-super : (read_super (started true formatted)).sb ≡ small_sb
unfolding read_super encode_super decode_super read_bytes
formatted-super = refl

formatted-IsProper : IsProper true (some formatted)
formatted-IsProper h =
    rw formatted-super (two_entries, formatted-HasEntries, two_entries-BlocksBelow)

main-same_example :
    SecondShell.main 2 (some formatted) true true session
    ≡ Main.main 2 (some formatted) true true session
main-same_example =
    main-same (some formatted) true true session formatted-IsProper session-KeepsContents
