-- ===== src/Simula/Shell/Runs.antt =====
-- Runs of versions 2.0 and 3.0 that type in and read no contents.
use linuxpedia.Prelude.{
  ℕ, length, ◌<◌, ◌≡◌, refl, sym, ap, ◌∙◌, Bool, true, false, Option, none, some, List, [], ◌∷◌,
  ◌==◌, inl, inr, Bool-cases, not, if◌then◌else◌,
}
use linuxpedia.Sfs.Layout.{FileEntry, simula_fs_type}
use linuxpedia.Browse.Table.Scan.{HasEntries, BlocksBelow}
use linuxpedia.Browse.Handle.{Browser}
use linuxpedia.Browse.Table.{init_browsing}
use linuxpedia.Browse.Shell as LastShell
use linuxpedia.Browse.Shell.{Answer, usage_shown, incorrect, bye, replied, Typed, parse_command}
use linuxpedia.Browse.Main
use linuxpedia.Browse.Main.{Ended, started, read_super}
use linuxpedia.Simula.Shell
use linuxpedia.Simula.Shell.Tracker.{keeps_contents, run_command-Runs}
use linuxpedia.Simula.First.Alike.{dressed}

-- Lines that `cmd` has room for, without a `read` or a `write`.
unfoldable pub KeepsContents : List Typed → Type 0
KeepsContents [] = Unit
KeepsContents (t ∷ ts) =
    (length t.line < 256) × (keeps_contents (parse_command t.line) ≡ true) × KeepsContents ts

abbrev Session : Type 0
Session = Option (List Answer × Browser)

-- The same answers, and the same bytes on the partition.
abbrev pub EndAlike : Session → Session → Type 0
EndAlike old new =
    (answers : List Answer) × (end : Browser) × (end' : Browser) × (old ≡ some (answers, end))
    × (new ≡ some (answers, end'))
    × (end'.bytes ≡ end.bytes)

-- What the loop makes of the result of a command, where this is the rest of the session.
abbrev turn : (Browser → Session) → Option (Answer × Browser) → Session
turn rest o = elim o [
  | none ↦ none
  | some (bye, b) ↦ some (bye ∷ [], b)
  | some (a, b) ↦ elim (rest b) [ none ↦ none | some (answers, end) ↦ some (a ∷ answers, end) ]
]

turn-EndAlike :
    (f g : Browser → Session) (a : Answer) (b d : Browser)
    → d.bytes ≡ b.bytes
    → EndAlike (f b) (g d)
    → EndAlike (turn f (some (a, b))) (turn g (some (a, d)))
turn-EndAlike f g bye b d e h = (bye ∷ [], b, d, refl, refl, e)
turn-EndAlike f g usage_shown b d e (answers, x, y, p, q, r) =
    (usage_shown ∷ answers, x, y, rw (turn, p) refl, rw (turn, q) refl, r)
turn-EndAlike f g incorrect b d e (answers, x, y, p, q, r) =
    (incorrect ∷ answers, x, y, rw (turn, p) refl, rw (turn, q) refl, r)
turn-EndAlike f g (replied s) b d e (answers, x, y, p, q, r) =
    (replied s ∷ answers, x, y, rw (turn, p) refl, rw (turn, q) refl, r)

module _ (t : Typed) (ts : List Typed) (b : Browser) where
  old_skip : (length t.line == 0) ≡ true → Shell.browse_lines (t ∷ ts) b ≡ Shell.browse_lines ts b
  unfolding Shell.browse_lines
  old_skip e = rw (e, Shell.browse_lines) refl

  new_skip :
      (length t.line == 0) ≡ true → LastShell.browse_lines (t ∷ ts) b ≡ LastShell.browse_lines ts b
  unfolding LastShell.browse_lines
  new_skip e = rw (e, LastShell.browse_lines) refl

  old_turn :
      (length t.line == 0) ≡ false
      → Shell.browse_lines (t ∷ ts) b
        ≡ turn (Shell.browse_lines ts) (Shell.run_command (parse_command t.line) t.input t.now b)
  unfolding Shell.browse_lines
  old_turn e = rw (e, Shell.browse_lines) refl

  new_turn :
      (length t.line == 0) ≡ false
      → LastShell.browse_lines (t ∷ ts) b
        ≡ turn
            (LastShell.browse_lines ts)
            (LastShell.run_command (parse_command t.line) t.input t.now b)
  unfolding LastShell.browse_lines
  new_turn e = rw (e, LastShell.browse_lines) refl

browse_lines-EndAlike :
    (ts : List Typed) (b : Browser) (used block : List ℕ)
    → KeepsContents ts
    → EndAlike (Shell.browse_lines ts b) (LastShell.browse_lines ts (dressed b used block))
unfolding KeepsContents Shell.browse_lines LastShell.browse_lines
browse_lines-EndAlike [] b used block k = ([], b, dressed b used block, refl, refl, refl)
browse_lines-EndAlike (t ∷ ts) b used block k = elim (Bool-cases (length t.line == 0)) [
  | inl e ↦
      rw (old_skip t ts b e, new_skip t ts (dressed b used block) e)
        (browse_lines-EndAlike ts b used block k.2)
  | inr e ↦
      let (old, used', block', ran, ran') =
        run_command-Runs (parse_command t.line) t.input t.now b used block k.1 in
      let f = Shell.browse_lines ts in
      let g = LastShell.browse_lines ts in
      let d = dressed old.1 used' block' in
      let (answers, x, y, p, q, r) =
        turn-EndAlike f g old.0 old.1 d refl (browse_lines-EndAlike ts old.1 used' block' k.2) in
      (
        answers,
        x,
        y,
        old_turn t ts b e ∙ ap (turn f) ran ∙ p,
        new_turn t ts (dressed b used block) e ∙ ap (turn g) ran' ∙ q,
        r,
      )
]

-- The part of browse_sfs after init_browsing.
abbrev finish : (Browser → Session) → Browser → Option Browser → Option Ended
finish lines b o = elim o [
  | none ↦ some (record { code = 1; answers = []; partition = some b.bytes })
  | some b' ↦ elim (lines b') [
    | none ↦ none
    | some (answers, end) ↦
        some (record { code = 0; answers = answers; partition = some end.bytes })
  ]
]

finish-finish :
    (f g : Browser → Session) (b : Browser) (o : Option Browser)
    → ((b' : Browser) → EndAlike (f b') (g b'))
    → finish f b o ≡ finish g b o
finish-finish f g b none h = refl
finish-finish f g b (some b') h =
    let (answers, x, y, p, q, r) = h b' in
    rw (finish, p, q)
      (ap (λ bytes. some (record { code = 0; answers = answers; partition = some bytes })) (sym r))

browse_sfs-browse_sfs :
    (calloc : Bool) (ts : List Typed) (b : Browser)
    → KeepsContents ts
    → Shell.browse_sfs calloc ts b ≡ Main.browse_sfs calloc ts b
unfolding Shell.browse_sfs Main.browse_sfs
browse_sfs-browse_sfs calloc ts b k =
    finish-finish (Shell.browse_lines ts) (LastShell.browse_lines ts) b (init_browsing calloc b)
      (λ b'. browse_lines-EndAlike ts b' b'.used_blocks b'.block k)

-- If there is a partition and it has the file system's number, it has a file table, and its entries
-- name no block outside of it.
abbrev pub IsProper : (wide : Bool) → Option (List ℕ) → Type 0
IsProper wide none = Unit
IsProper wide (some partition) =
    let sb = (read_super (started wide partition)).sb in
    (sb.type == simula_fs_type) ≡ true
    → (es : List FileEntry) × HasEntries partition sb es × BlocksBelow sb.partition_size es

-- A run of version 2.0 and one of version 3.0, both with the partition as the argument, end with the
-- same exit code and the same bytes on the partition and have given the same answers to lines of
-- less than 256 bytes without a `read` or a `write`, whether or not the partition can be opened and
-- memory can be had, and where it is not the file system's or is of less than 2 GB with a file table
-- whose entries name no block outside of it: it is of no account that sfs_remove of version 2.0 gives
-- no blocks back.
pub main-same :
    (opened : Option (List ℕ)) (wide calloc : Bool) (ts : List Typed)
    → IsProper wide opened
    → KeepsContents ts
    → Shell.main 2 opened wide calloc ts ≡ Main.main 2 opened wide calloc ts
unfolding Shell.main Main.main
main-same none wide calloc ts proper k = refl
main-same (some partition) wide calloc ts proper k =
    let b = read_super (started wide partition) in
    ap
      (λ ended.
        if not (b.sb.type == simula_fs_type)
        then some (record { code = 3; answers = []; partition = some partition })
        else ended)
      (browse_sfs-browse_sfs calloc ts b k)
