-- ===== src/Simula/Shell.antt =====
-- browse_sfs and main of version 2.0. A line is taken apart as in version 3.0, whose text that is.
pub mod Tracker
pub mod Runs
use linuxpedia.Prelude.{
  ℕ, length, Bool, true, false, Option, none, some, List, [], ◌∷◌, ◌==◌, ltb, not, if◌then◌else◌,
}
use linuxpedia.Prelude.Int.{pos}
use linuxpedia.Prelude.CString.{strlen}
use linuxpedia.Sfs.Layout.{simula_fs_type}
use linuxpedia.Browse.Handle.{Browser}
use linuxpedia.Browse.Table.{sfs_list, sfs_create, sfs_chperm, init_browsing}
use linuxpedia.Browse.Contents.{Input}
use linuxpedia.Browse.Shell.{
  Command, help, quit, list, unknown, create, remove, read, write, chperm, Answer, usage_shown,
  incorrect, bye, replied, Typed, parse_command,
}
use linuxpedia.Browse.Main.{Ended, started, read_super}
use linuxpedia.Simula.{sfs_remove, sfs_read, sfs_write}

unfoldable pub run_command : Command → Input → ℕ → Browser → Option (Answer × Browser)
run_command help input now b = some (usage_shown, b)
run_command quit input now b = some (bye, b)
run_command list input now b = let (r, b') = sfs_list b in some (replied r, b')
run_command (create fn) input now b = let (r, b') = sfs_create b fn now in some (replied r, b')
run_command (remove fn) input now b = let (r, b') = sfs_remove b fn in some (replied r, b')
run_command (chperm perm fn) input now b =
    let (r, b') = sfs_chperm b fn (pos perm) in some (replied r, b')
run_command (read fn) input now b = let (r, b') = sfs_read b fn in some (replied r, b')
run_command (write fn) input now b = elim (sfs_write b fn input now) [
  | none ↦ none
  | some (r, b') ↦ some (replied r, b')
]
run_command unknown input now b = some (incorrect, b)

-- The loop of browse_sfs.
unfoldable pub browse_lines : List Typed → Browser → Option (List Answer × Browser)
browse_lines [] b = some ([], b)
browse_lines (t ∷ ts) b = elim (length t.line == 0) [
  | true ↦ browse_lines ts b
  | false ↦ elim (run_command (parse_command t.line) t.input t.now b) [
    | none ↦ none
    | some (bye, b') ↦ some (bye ∷ [], b')
    | some (a, b') ↦ elim (browse_lines ts b') [
      | none ↦ none
      | some (answers, b'') ↦ some (a ∷ answers, b'')
    ]
  ]
]

unfoldable pub browse_sfs : (calloc : Bool) → List Typed → Browser → Option Ended
browse_sfs calloc lines b = elim (init_browsing calloc b) [
  | none ↦ some (record { code = 1; answers = []; partition = some b.bytes })
  | some b' ↦ elim (browse_lines lines b') [
    | none ↦ none
    | some (answers, b'') ↦
        some (record { code = 0; answers = answers; partition = some b''.bytes })
  ]
]

-- `opened` is what open gives for the argument, or for the default file where there is none.
unfoldable pub main :
    (argc : ℕ) → (opened : Option (List ℕ)) → (wide calloc : Bool) → List Typed → Option Ended
unfolding browse_sfs
main argc opened wide calloc lines =
    if ltb 2 argc
    then some (record { code = 1; answers = []; partition = opened })
    else elim opened [
      | none ↦ some (record { code = 2; answers = []; partition = none })
      | some partition ↦
          let b = read_super (started wide partition) in
          if not (b.sb.type == simula_fs_type)
          then some (record { code = 3; answers = []; partition = some partition })
          else browse_sfs calloc lines b
    ]
