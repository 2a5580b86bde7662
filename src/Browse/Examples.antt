-- ===== src/Browse/Examples.antt =====
-- A partition of four blocks with one file, and the theorems about browse_sfs.c at it.
use linuxpedia.Prelude.{ℕ, true, false, List, ◌≡◌, refl, some, [], ◌∷◌, length, arith}
use linuxpedia.Prelude.CString.{c_str, str_eq}
use linuxpedia.Sfs.Entries.Refine.{release}
use linuxpedia.Sfs.Directory.{find}
use linuxpedia.Browse.Handle.{Browser}
use linuxpedia.Browse.Table.{silent, printed}
use linuxpedia.Browse.Contents.{sfs_read, sfs_write}
use linuxpedia.Browse.Contents.Input.{typed}
use linuxpedia.Browse.Contents.Pieces.{free_count}
use linuxpedia.Browse.Contents.ReadBack.{IsReady, sfs_read-sfs_write}
use linuxpedia.Browse.Small.{
  two_reads, hi-IsName, device, length-device, partition-HasEntries, hi, hi_entry, two_entries,
  wide_browser,
}
use linuxpedia.Sfs.Format.{format_main}
use linuxpedia.Browse.Shell.Session.{typing}
use linuxpedia.Browse.Main.{main}
use linuxpedia.Browse.Main.Lifetime.{ended_with, main-format_main}
use linuxpedia.Browse.Shell.{create, read, write, replied, chperm, parse_command}
use linuxpedia.Browse.Shell.Parse.{print_command, parse_command-print_command}

wide_browser-IsReady : IsReady wide_browser two_entries hi 1 hi_entry (length (typed two_reads))
unfolding find str_eq c_str free_count release
wide_browser-IsReady = record {
  table = partition-HasEntries;
  found = refl;
  tracked = omega arith;
  buffer = refl;
  readable = refl;
  writable = refl;
  fits = omega arith;
  free = omega arith;
}

sfs_read-sfs_write_example :
    (b' : Browser) × (sfs_write wide_browser hi two_reads 9 ≡ some (silent, b'))
    × ((sfs_read b' hi).0 ≡ printed (typed two_reads))
sfs_read-sfs_write_example =
    sfs_read-sfs_write wide_browser two_entries hi 1 hi_entry two_reads 9 wide_browser-IsReady

parse_command-print_command_example : parse_command (print_command 2 (chperm 6 hi)) ≡ chperm 6 hi
parse_command-print_command_example =
    parse_command-print_command 2 (chperm 6 hi) (omega arith, hi-IsName) (omega arith)

main-format_main_example :
    (fresh partition : List ℕ) × (format_main 2 (some device) true ≡ (0, some fresh))
    × (main 2 (some fresh) true true (typing (create hi) [] 1 ∷ typing (write hi) two_reads 2 ∷ [])
        ≡ ended_with (replied silent ∷ replied silent ∷ []) partition)
    × (main 2 (some partition) false true (typing (read hi) [] 3 ∷ [])
        ≡ ended_with (replied (printed (typed two_reads)) ∷ []) partition)
main-format_main_example =
    main-format_main device true false hi two_reads 1 2 3 (omega (arith, length-device))
      (omega (arith, length-device)) hi-IsName (omega arith) (omega arith)
