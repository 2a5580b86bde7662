-- ===== src/Simula/First/Session.antt =====
-- Sessions of version 1.0 and of version 3.0, where `off_t` has 32 bits.
use linuxpedia.Prelude.{
  ℕ, length, ◌<◌, ◌≡◌, refl, sym, ap, ap₂, ◌∙◌, true, false, Option, none, some, List, [], ◌∷◌,
  ◌==◌, Bool-cases, inl, inr,
}
use linuxpedia.Sfs.Layout.{FileEntry}
use linuxpedia.Browse.Handle.{Browser}
use linuxpedia.Browse.Table.Scan.{HasEntries, BlocksBelow}
use linuxpedia.Browse.Shell
use linuxpedia.Browse.Shell.{Answer, usage_shown, incorrect, bye, replied, Typed, browse_lines}
use linuxpedia.Simula.First.Alike.{other}
use linuxpedia.Simula.First.Agree.{Agree}
use linuxpedia.Simula.First.Commands.{run_command-Runs}
use linuxpedia.Simula.First.Shell as FirstShell
use linuxpedia.Simula.First.Shell.{browse_sfs}
use linuxpedia.Simula.First.Shell.Known.{known, parse_command-known}

-- Lines that `cmd` has room for, with commands that version 1.0 has, or that no version has.
unfoldable pub IsKnown : List Typed → Type 0
IsKnown [] = Unit
IsKnown (t ∷ ts) =
    (length t.line < 256)
    × (known (Shell.parse_command t.line) ≡ Shell.parse_command t.line)
    × IsKnown ts

-- Version 3.0, started at `d`, ends the session with the answers and the partition of version 1.0,
-- started at `b`.
abbrev pub Same : List Typed → Browser → Browser → Type 0
Same ts b d =
    (end : Browser) × (browse_lines ts d ≡ some ((browse_sfs ts b).0, end))
    × (end.bytes ≡ (browse_sfs ts b).1.bytes)

-- The rest of the session is the same wherever the two agree.
abbrev Later : List Typed → Type 0
Later ts =
    (b : Browser) (es : List FileEntry) (p : ℕ) (used block : List ℕ)
    → HasEntries b.bytes b.sb es
    → b.wide ≡ false
    → Same ts b (other b p used block)

-- What the loop makes of the result of a command.
abbrev turn : List Typed → Answer × Browser → List Answer × Browser
turn ts r =
    let (answers, end) = browse_sfs ts r.1 in
    elim r.0 [ bye ↦ (bye ∷ [], r.1) | a ↦ (a ∷ answers, end) ]

abbrev lines_turn : List Typed → Option (Answer × Browser) → Option (List Answer × Browser)
lines_turn ts o = elim o [
  | none ↦ none
  | some (bye, b') ↦ some (bye ∷ [], b')
  | some (a, b') ↦ elim (browse_lines ts b') [
    | none ↦ none
    | some (answers, b'') ↦ some (a ∷ answers, b'')
  ]
]

module _ (t : Typed) (ts : List Typed) (b : Browser) where
  browse_sfs_skip : (length t.line == 0) ≡ true → browse_sfs (t ∷ ts) b ≡ browse_sfs ts b
  unfolding browse_sfs
  browse_sfs_skip e = rw (e, browse_sfs) refl

  browse_lines_skip : (length t.line == 0) ≡ true → browse_lines (t ∷ ts) b ≡ browse_lines ts b
  unfolding browse_lines
  browse_lines_skip e = rw (e, browse_lines) refl

  browse_sfs-turn :
      (length t.line == 0) ≡ false
      → browse_sfs (t ∷ ts) b
        ≡ turn ts (FirstShell.run_command (FirstShell.parse_command t.line) t.now b)
  unfolding browse_sfs
  browse_sfs-turn e = rw (e, browse_sfs) refl

  browse_lines-lines_turn :
      (length t.line == 0) ≡ false
      → browse_lines (t ∷ ts) b
        ≡ lines_turn ts (Shell.run_command (Shell.parse_command t.line) t.input t.now b)
  unfolding browse_lines
  browse_lines-lines_turn e = rw (e, browse_lines) refl

-- A turn after which the two still agree.
EndsAlike : List Typed → Answer × Browser → Answer × Browser → Type 0
EndsAlike ts old new =
    (end : Browser) × (lines_turn ts (some new) ≡ some ((turn ts old).0, end))
    × (end.bytes ≡ (turn ts old).1.bytes)

Same-EndsAlike :
    (ts : List Typed) (a : Answer) (b d : Browser)
    → d.bytes ≡ b.bytes
    → Same ts b d
    → EndsAlike ts (a, b) (a, d)
unfolding EndsAlike
Same-EndsAlike ts bye b d e h = (d, refl, e)
Same-EndsAlike ts usage_shown b d e h = (h.0, rw (lines_turn, h.1) refl, h.2)
Same-EndsAlike ts incorrect b d e h = (h.0, rw (lines_turn, h.1) refl, h.2)
Same-EndsAlike ts (replied r) b d e h = (h.0, rw (lines_turn, h.1) refl, h.2)

Agree-EndsAlike :
    (ts : List Typed) (old new : Answer × Browser) → Later ts → Agree old new → EndsAlike ts old new
Agree-EndsAlike ts (a, b) new later agree =
    let at : new ≡ (a, other b agree.pos agree.used agree.block) =
      ap₂ (λ a c. (a, c)) (sym agree.reply) agree.same in
    rw at (
      Same-EndsAlike ts a b _ refl
        (later b agree.es agree.pos agree.used agree.block agree.table agree.narrow))

Same-other : (ts : List Typed) → IsKnown ts → Later ts
unfolding IsKnown EndsAlike browse_sfs browse_lines
Same-other [] k b es p used block h narrow = (_, refl, refl)
Same-other (t ∷ ts) k b es p used block h narrow =
    let d = other b p used block in
    elim (Bool-cases (length t.line == 0)) [
      | inl e ↦
          let (end, ran, same) = Same-other ts k.2 b es p used block h narrow in
          rw (browse_sfs_skip t ts b e, browse_lines_skip t ts d e) (end, ran, same)
      | inr e ↦
          let c = Shell.parse_command t.line in
          let (new, ran, agree) = run_command-Runs b es p used block h narrow c t.input t.now k.1 in
          let old = FirstShell.run_command c t.now b in
          let read : FirstShell.parse_command t.line ≡ c = parse_command-known t.line ∙ k.1 in
          let old_turn : browse_sfs (t ∷ ts) b ≡ turn ts old =
            browse_sfs-turn t ts b e ∙ ap (λ c. turn ts (FirstShell.run_command c t.now b)) read in
          let new_turn : browse_lines (t ∷ ts) d ≡ lines_turn ts (some new) =
            browse_lines-lines_turn t ts d e ∙ ap (lines_turn ts) ran in
          let (end, last, same) = Agree-EndsAlike ts old new (Same-other ts k.2) agree in
          (
            end,
            new_turn ∙ last ∙ ap (λ r. some (r.0, end)) (sym old_turn),
            same ∙ ap (λ r. r.1.bytes) (sym old_turn),
          )
    ]

-- Where `off_t` has 32 bits, on a partition of less than 2 GB with a file table whose entries name no
-- block outside of it, a session of lines of less than 256 bytes with commands that version 1.0 has,
-- or that no version has, gets the same answers from version 3.0 as from version 1.0, the texts of
-- the usage and of the prompt aside, whatever the bytes of the tracker of version 3.0, one for each
-- block of the partition, and leaves the same bytes on the partition.
pub browse_sfs-Same :
    (ts : List Typed) (b : Browser) (es : List FileEntry) (p : ℕ) (used block : List ℕ)
    → IsKnown ts
    → HasEntries b.bytes b.sb es
    → BlocksBelow b.sb.partition_size es
    → length used ≡ b.sb.partition_size
    → b.wide ≡ false
    → Same ts b (record b { pos = p; used_blocks = used; block = block })
browse_sfs-Same ts b es p used block k h below tracker narrow =
    Same-other ts k b es p used block h narrow
