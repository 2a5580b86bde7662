-- ===== src/Browse/Main/Lifetime.antt =====
-- The life of a file: a device is formatted, one run of the program makes a file and writes to it,
-- and another reads it.
use linuxpedia.Prelude.{
  ℕ, ◌-◌, ◌*◌, ◌^◌, ◌≤◌, ◌<◌, ◌≡◌, refl, ap, ap₂, ◌∙◌, Bool, true, Option, some, List, [], ◌∷◌,
  length, take, arith,
}
use mathlib.Core.Path.{subst}
use linuxpedia.Sfs.Layout.{SuperBlock, FileEntry}
use linuxpedia.Sfs.Layout.{SuperBlock}
use linuxpedia.Sfs.Format.{format_super, format_main}
use linuxpedia.Sfs.Format.Laws.{fresh_entries}
use linuxpedia.Browse.Handle.{Browser}
use linuxpedia.Browse.Table.{silent, printed, sfs_create}
use linuxpedia.Browse.Contents.{Input}
use linuxpedia.Browse.Contents.Input.{typed}
use linuxpedia.Browse.Contents.Kept.{IsKept, sfs_read-IsKept, sfs_read-bytes}
use linuxpedia.Browse.Contents.ReadBack.{sfs_write-HasWritten}
use linuxpedia.Browse.Shell.{create, read, write, Answer, replied, browse_lines}
use linuxpedia.Browse.Shell.Parse.{IsName}
use linuxpedia.Browse.Fresh.First.{
  mark_entries-fresh, IsEmpty, sfs_create-HasFirst, HasFirst-IsReady,
}
use linuxpedia.Browse.Shell.Session.{
  typing, answered, create-answered, read-answered, write-answered,
}
use linuxpedia.Browse.Main.{Ended, main}
use linuxpedia.Browse.Main.Start.{IsPartition, ready, end_of, main-ready}
use linuxpedia.Browse.Fresh.{formatted, fresh-HasEntries, fresh-IsSuper, fresh-head}

-- A formatted device is a partition with an empty table.
module _ (device : List ℕ) (low : 5120 ≤ length device) (high : length device < 2 ^ 31) where
  pub formatted-IsPartition :
      IsPartition
        (formatted device)
        (format_super (length device))
        (fresh_entries (format_super (length device)).entry_count)
  unfolding format_super
  formatted-IsPartition = record {
    head = fresh-head device low high;
    words = fresh-IsSuper device low high;
    magic = refl;
    table = fresh-HasEntries device low high;
  }

  fresh-IsEmpty :
      (wide : Bool)
      → let sb = format_super (length device) in
        IsEmpty (ready wide (formatted device) sb (fresh_entries sb.entry_count)) sb.entry_count
  unfolding format_super
  fresh-IsEmpty wide = record {
    table = fresh-HasEntries device low high;
    entries = omega (arith, low, high);
    unmarked = mark_entries-fresh _ _;
    buffer = refl;
  }

-- What a run that opened a partition ends with, if nothing fails.
abbrev pub ended_with : List Answer → List ℕ → Option Ended
ended_with answers bytes = some (record { code = 0; answers = answers; partition = some bytes })

-- What the two lines of the first session leave on an empty partition.
record HasLeft (b b' : Browser) (fn text : List ℕ) : Type 0 where
  pub kept : IsKept b'.bytes b.sb fn text
  pub head : take 512 b'.bytes ≡ take 512 b.bytes

first_session :
    (b : Browser) (n : ℕ) (fn : List ℕ) (input : Input) (made now : ℕ)
    → IsEmpty b n
    → IsName fn
    → length fn ≤ 15
    → length (typed input) ≤ 4608
    → 4608 ≤ 512 * (b.sb.partition_size - b.sb.data_block_start)
    → (b' : Browser) × (browse_lines
          (typing (create fn) [] made ∷ typing (write fn) input now ∷ [])
          b
        ≡ some (replied silent ∷ replied silent ∷ [], b'))
      × HasLeft b b' fn (typed input)
unfolding browse_lines
first_session b n fn input made now e name short fits room =
    let r = sfs_create b fn made in
    let f = sfs_create-HasFirst b fn made n e in
    let (b', runs, w) = sfs_write-HasWritten r.1 _ fn _ _ input now (
      HasFirst-IsReady b fn made n (length (typed input)) r e f name short fits
        (omega (arith, fits, room))) in
    let write_line = typing (write fn) input now ∷ [] in
    (
      b',
      create-answered fn name short [] made write_line b
          ∙ ap (λ q. answered q (browse_lines write_line r.1)) f.reply
          ∙ ap (answered silent) (write-answered fn name short input now [] r.1 b' silent runs),
      record {
        kept = subst (λ sb. IsKept b'.bytes sb fn (typed input)) (w.sb ∙ f.sb) w.kept;
        head = w.head ∙ f.head;
      },
    )

-- The file system on the partition, which keeps this file.
pub record IsWritten (partition fn text : List ℕ) : Type 0 where
  pub sb : SuperBlock
  pub kept : IsKept partition sb fn text
  pub start : IsPartition partition sb kept.es

pub first_run :
    (device : List ℕ) (wide : Bool) (fn : List ℕ) (input : Input) (made now : ℕ)
    → 5632 ≤ length device
    → length device < 2 ^ 31
    → IsName fn
    → length fn ≤ 15
    → length (typed input) ≤ 4608
    → (partition : List ℕ) × (main 2
          (some (formatted device))
          wide
          true
          (typing (create fn) [] made ∷ typing (write fn) input now ∷ [])
        ≡ ended_with (replied silent ∷ replied silent ∷ []) partition)
      × IsWritten partition fn (typed input)
unfolding format_super
first_run device wide fn input made now low high name short fits =
    let sb = format_super (length device) in
    let start = formatted-IsPartition device (omega (arith, low)) high in
    let b = ready wide (formatted device) sb (fresh_entries sb.entry_count) in
    let (b', runs, left) =
      first_session b sb.entry_count fn input made now
        (fresh-IsEmpty device (omega (arith, low)) high wide) name short fits
        (omega (arith, low, high)) in
    let lines = typing (create fn) [] made ∷ typing (write fn) input now ∷ [] in
    (
      b'.bytes,
      main-ready start wide lines ∙ ap end_of runs,
      record {
        sb = sb;
        kept = left.kept;
        start = record {
          head = left.head ∙ start.head;
          words = start.words;
          magic = start.magic;
          table = left.kept.table;
        };
      },
    )

-- A session that reads a file which the partition keeps.
read_session :
    (wide : Bool) {bytes : List ℕ} {sb : SuperBlock} {es : List FileEntry} (fn text : List ℕ)
    (now : ℕ)
    → IsPartition bytes sb es
    → IsKept bytes sb fn text
    → IsName fn
    → length fn ≤ 15
    → main 2 (some bytes) wide true (typing (read fn) [] now ∷ [])
      ≡ ended_with (replied (printed text) ∷ []) bytes
unfolding browse_lines
read_session wide {bytes} {sb} {es} fn text now h kept name short =
    let b = ready wide bytes sb es in
    main-ready h wide (typing (read fn) [] now ∷ [])
    ∙ ap end_of (read-answered fn name short [] now [] b)
    ∙ ap₂ (λ r xs. ended_with (replied r ∷ []) xs) (sfs_read-IsKept b fn text kept refl)
        (sfs_read-bytes b fn text kept)

-- Take a device of at least 11 blocks and less than 2 GB, formatted. A run of browse_sfs in which a
-- file of a name of at most 15 bytes that can be typed is created, and at most 9 blocks are typed into it, answers
-- nothing to both and exits with 0; a second run on the partition that the first has left, on a
-- machine with the same or another width of `off_t`, prints for this file exactly what was typed,
-- and leaves the partition as it is.
pub main-format_main :
    (device : List ℕ) (wide wide' : Bool) (fn : List ℕ) (input : Input) (made now now' : ℕ)
    → 5632 ≤ length device
    → length device < 2 ^ 31
    → IsName fn
    → length fn ≤ 15
    → length (typed input) ≤ 4608
    → (fresh partition : List ℕ) × (format_main 2 (some device) true ≡ (0, some fresh))
      × (main 2
            (some fresh)
            wide
            true
            (typing (create fn) [] made ∷ typing (write fn) input now ∷ [])
          ≡ ended_with (replied silent ∷ replied silent ∷ []) partition)
      × (main 2 (some partition) wide' true (typing (read fn) [] now' ∷ [])
          ≡ ended_with (replied (printed (typed input)) ∷ []) partition)
unfolding formatted format_main
main-format_main device wide wide' fn input made now now' low high name short fits =
    let (partition, runs, w) = first_run device wide fn input made now low high name short fits in
    (
      formatted device,
      partition,
      refl,
      runs,
      read_session wide' fn (typed input) now' w.start w.kept name short,
    )
