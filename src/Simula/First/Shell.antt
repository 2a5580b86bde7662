-- ===== src/Simula/First/Shell.antt =====
-- The shell of version 1.0: browse_sfs and main of part19.c. Its sfs_list and sfs_create have the
-- text of version 3.0.
pub mod Known
use linuxpedia.Prelude.{
  ℕ, length, Bool, true, false, Option, none, some, List, [], ◌∷◌, get_or, drop, ◌==◌, ltb, not,
  if◌then◌else◌,
}
use linuxpedia.Prelude.CString.{strlen, str_eq}
use linuxpedia.Sfs.Layout.{simula_fs_type}
use linuxpedia.Browse.Handle.{Browser}
use linuxpedia.Browse.Table.{sfs_list, sfs_create}
use linuxpedia.Browse.Shell.{
  Command, help, quit, list, unknown, create, remove, read, write, chperm, word_quit, word_list,
  word_create, word_remove, starts_with, with_name, Answer, usage_shown, incorrect, bye, replied,
  Typed,
}
use linuxpedia.Browse.Main.{Ended, started, read_super}
use linuxpedia.Simula.First.{sfs_remove}

unfoldable pub parse_command : List ℕ → Command
unfolding with_name
parse_command cmd =
    if str_eq cmd (b'?' ∷ [])
    then help
    else if str_eq cmd word_quit
    then quit
    else if str_eq cmd word_list
    then list
    else if starts_with word_create cmd
    then (if get_or cmd 6 0 == 32 then with_name create (drop 7 cmd) else unknown)
    else if starts_with word_remove cmd
    then (if get_or cmd 6 0 == 32 then with_name remove (drop 7 cmd) else unknown)
    else unknown

unfoldable pub run_command : Command → ℕ → Browser → Answer × Browser
run_command help now b = (usage_shown, b)
run_command quit now b = (bye, b)
run_command list now b = let (r, b') = sfs_list b in (replied r, b')
run_command (create fn) now b = let (r, b') = sfs_create b fn now in (replied r, b')
run_command (remove fn) now b = let (r, b') = sfs_remove b fn in (replied r, b')
run_command _ now b = (incorrect, b)

-- The loop, which an empty line continues, and `quit` or the end of the lines ends.
unfoldable pub browse_sfs : List Typed → Browser → List Answer × Browser
browse_sfs [] b = ([], b)
browse_sfs (t ∷ ts) b = elim (length t.line == 0) [
  | true ↦ browse_sfs ts b
  | false ↦
      let (a, b') = run_command (parse_command t.line) t.now b in
      let (answers, b'') = browse_sfs ts b' in
      elim a [ bye ↦ (bye ∷ [], b') | a' ↦ (a' ∷ answers, b'') ]
]

-- `opened` is what open gives for the argument, or for the default file where there is none.
unfoldable pub main : (argc : ℕ) → (opened : Option (List ℕ)) → (wide : Bool) → List Typed → Ended
unfolding browse_sfs
main argc opened wide lines =
    if ltb 2 argc then record { code = 1; answers = []; partition = opened } else elim opened [
      | none ↦ record { code = 2; answers = []; partition = none }
      | some partition ↦
          let b = read_super (started wide partition) in
          let (answers, b') = browse_sfs lines b in
          if not (b.sb.type == simula_fs_type)
          then record { code = 3; answers = []; partition = some partition }
          else record { code = 0; answers = answers; partition = some b'.bytes }
    ]
