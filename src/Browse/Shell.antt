-- ===== src/Browse/Shell.antt =====
-- The commands of browse_sfs.c: how a line is taken apart and what is run for it.
pub mod Parse
pub mod Session
use linuxpedia.Prelude.{
  ℕ, length, zero, suc, ◌+◌, ◌-◌, Bool, true, false, ◌&&◌, Option, none, some, List, [], ◌∷◌, ◌++◌,
  get_or, drop, ◌==◌, leb, not, if◌then◌else◌,
}
use linuxpedia.Prelude.Int.{pos}
use linuxpedia.Prelude.CString.{c_str, str_eq, strlen}
use linuxpedia.Browse.Handle.{Browser}
use linuxpedia.Browse.Table.{Reply, silent, sfs_list, sfs_create, sfs_remove, sfs_chperm}
use linuxpedia.Browse.Contents.{Input, sfs_read, sfs_write}

pub data Command : Type 0 where
  help quit list unknown : Command
  create remove read write : List ℕ → Command
  chperm : ℕ → List ℕ → Command

abbrev pub word_quit : List ℕ
word_quit = b'q' ∷ b'u' ∷ b'i' ∷ b't' ∷ []

abbrev pub word_list : List ℕ
word_list = b'l' ∷ b'i' ∷ b's' ∷ b't' ∷ []

abbrev pub word_create : List ℕ
word_create = b'c' ∷ b'r' ∷ b'e' ∷ b'a' ∷ b't' ∷ b'e' ∷ []

abbrev pub word_remove : List ℕ
word_remove = b'r' ∷ b'e' ∷ b'm' ∷ b'o' ∷ b'v' ∷ b'e' ∷ []

abbrev pub word_chperm : List ℕ
word_chperm = b'c' ∷ b'h' ∷ b'p' ∷ b'e' ∷ b'r' ∷ b'm' ∷ []

abbrev pub word_read : List ℕ
word_read = b'r' ∷ b'e' ∷ b'a' ∷ b'd' ∷ []

abbrev pub word_write : List ℕ
word_write = b'w' ∷ b'r' ∷ b'i' ∷ b't' ∷ b'e' ∷ []

-- strncmp(cmd, word, strlen(word)) == 0
abbrev pub starts_with : List ℕ → List ℕ → Bool
starts_with [] cmd = true
starts_with (x ∷ word) [] = false
starts_with (x ∷ word) (c ∷ cmd) = (x == c) && starts_with word cmd

-- while (*fn == ' ') fn++;
pub skip_spaces : List ℕ → List ℕ
skip_spaces [] = []
skip_spaces (c ∷ cs) = if c == 32 then skip_spaces cs else c ∷ cs

-- The command on the file name that follows, if there is one.
unfoldable pub with_name : (List ℕ → Command) → List ℕ → Command
unfolding skip_spaces
with_name make rest =
    let fn = c_str (skip_spaces rest) in if strlen fn == 0 then unknown else make fn

unfoldable pub chperm_command : List ℕ → Command
chperm_command cmd =
    let digit = get_or cmd 7 0 in
    if leb b'0' digit && leb digit b'7' && (get_or cmd 8 0 == 32)
    then with_name (chperm (digit - b'0')) (drop 9 cmd)
    else unknown

unfoldable pub parse_command : List ℕ → Command
unfolding with_name chperm_command
parse_command cmd =
    if str_eq cmd (b'?' ∷ [])
    then help
    else if str_eq cmd word_quit
    then quit
    else if str_eq cmd word_list
    then list
    else if starts_with word_create cmd
    then (if get_or cmd 6 0 == 32 then with_name create (drop 7 cmd) else unknown)
    else if starts_with word_remove cmd
    then (if get_or cmd 6 0 == 32 then with_name remove (drop 7 cmd) else unknown)
    else if starts_with word_chperm cmd
    then (if get_or cmd 6 0 == 32 then chperm_command cmd else unknown)
    else if starts_with word_read cmd
    then (if get_or cmd 4 0 == 32 then with_name read (drop 5 cmd) else unknown)
    else if starts_with word_write cmd
    then (if get_or cmd 5 0 == 32 then with_name write (drop 6 cmd) else unknown)
    else unknown

-- What one turn of the loop of browse_sfs prints besides its prompt.
pub data Answer : Type 0 where
  usage_shown incorrect bye : Answer
  replied : Reply → Answer

-- A line with the input that a write command reads after it, at this time. `none` is a write that
-- ran out of fuel.
unfoldable pub run_command : Command → Input → ℕ → Browser → Option (Answer × Browser)
run_command help input now b = some (usage_shown, b)
run_command unknown input now b = some (incorrect, b)
run_command quit input now b = some (bye, b)
run_command list input now b = let (r, b') = sfs_list b in some (replied r, b')
run_command (create fn) input now b = let (r, b') = sfs_create b fn now in some (replied r, b')
run_command (remove fn) input now b = let (r, b') = sfs_remove b fn in some (replied r, b')
run_command (chperm perm fn) input now b =
    let (r, b') = sfs_chperm b fn (pos perm) in some (replied r, b')
run_command (read fn) input now b = let (r, b') = sfs_read b fn in some (replied r, b')
run_command (write fn) input now b = elim (sfs_write b fn input now) [
  | none ↦ none
  | some (r, b') ↦ some (replied r, b')
]

-- The lines of a session, each with the input after it and its time. scanf puts a line into the 256
-- bytes of `cmd` without a bound, so what follows holds of the program for shorter lines.
pub record Typed : Type 0 where
  pub line : List ℕ
  pub input : Input
  pub now : ℕ

-- The loop of browse_sfs, which a line without any byte continues, and `quit` or the end of the lines ends.
unfoldable pub browse_lines : List Typed → Browser → Option (List Answer × Browser)
browse_lines [] b = some ([], b)
browse_lines (t ∷ ts) b = elim (length t.line == 0) [
  | true ↦ browse_lines ts b
  | false ↦ elim (run_command (parse_command t.line) t.input t.now b) [
    | none ↦ none
    | some (bye, b') ↦ some (bye ∷ [], b')
    | some (a, b') ↦ elim (browse_lines ts b') [
      | none ↦ none
      | some (answers, b'') ↦ some (a ∷ answers, b'')
    ]
  ]
]
