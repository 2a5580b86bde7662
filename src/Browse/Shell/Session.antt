-- ===== src/Browse/Shell/Session.antt =====
-- Sessions of browse_sfs.c line by line: what a typed command is answered.
use linuxpedia.Prelude.{
  ℕ, length, ◌≤◌, ◌<◌, ◌≡◌, refl, ap, ◌∙◌, Option, none, some, List, ◌∷◌, arith, ne→==,
}
use linuxpedia.Prelude.CString.{c_str, strlen}
use linuxpedia.Browse.Handle.{Browser}
use linuxpedia.Browse.Table.{Reply, sfs_create}
use linuxpedia.Browse.Contents.{Input, sfs_read, sfs_write}
use linuxpedia.Browse.Shell.{
  Command, create, read, write, Answer, replied, Typed, parse_command, run_command, browse_lines,
}
use linuxpedia.Browse.Shell.Parse.{IsName, print_command, parse_command-print_command}

-- What is typed for a command, with what is typed after it.
abbrev pub typing : Command → Input → ℕ → Typed
typing c input now = record { line = print_command 0 c; input = input; now = now }

-- The rest of a session after a line that was answered so.
abbrev pub answered : Reply → Option (List Answer × Browser) → Option (List Answer × Browser)
answered r none = none
answered r (some (answers, b)) = some (replied r ∷ answers, b)

answered-elim :
    (r : Reply) (o : Option (List Answer × Browser))
    → elim o [ none ↦ none | some (answers, b'') ↦ some (replied r ∷ answers, b'') ] ≡ answered r o
answered-elim r none = refl
answered-elim r (some (answers, b)) = refl

browse_lines-answered :
    (t : Typed) (ts : List Typed) (b b' : Browser) (r : Reply)
    → 0 < length t.line
    → run_command (parse_command t.line) t.input t.now b ≡ some (replied r, b')
    → browse_lines (t ∷ ts) b ≡ answered r (browse_lines ts b')
unfolding browse_lines
browse_lines-answered t ts b b' r h g =
    rw (ne→== (length t.line) 0 (λ e. omega arith), browse_lines, g, browse_lines)
      (answered-elim r (browse_lines ts b'))

module _ (fn : List ℕ) (name : IsName fn) (short : length fn ≤ 15) (input : Input) (now : ℕ)
    (ts : List Typed) (b : Browser) where
  pub create-answered :
      browse_lines (typing (create fn) input now ∷ ts) b
      ≡ answered (sfs_create b fn now).0 (browse_lines ts (sfs_create b fn now).1)
  unfolding run_command strlen c_str
  create-answered =
      browse_lines-answered (typing (create fn) input now) ts b (sfs_create b fn now).1
        (sfs_create b fn now).0 (omega arith)
        (ap (λ c. run_command c input now b)
          (parse_command-print_command 0 (create fn) name (omega (arith, short))))

  pub read-answered :
      browse_lines (typing (read fn) input now ∷ ts) b
      ≡ answered (sfs_read b fn).0 (browse_lines ts (sfs_read b fn).1)
  unfolding run_command strlen c_str
  read-answered =
      browse_lines-answered (typing (read fn) input now) ts b (sfs_read b fn).1 (sfs_read b fn).0
        (omega arith)
        (ap (λ c. run_command c input now b)
          (parse_command-print_command 0 (read fn) name (omega (arith, short))))

  pub write-answered :
      (b' : Browser) (r : Reply)
      → sfs_write b fn input now ≡ some (r, b')
      → browse_lines (typing (write fn) input now ∷ ts) b ≡ answered r (browse_lines ts b')
  unfolding run_command strlen c_str
  write-answered b' r written =
      browse_lines-answered (typing (write fn) input now) ts b b' r (omega arith) (
        ap (λ c. run_command c input now b)
          (parse_command-print_command 0 (write fn) name (omega (arith, short)))
        ∙ rw (written, run_command) refl)
