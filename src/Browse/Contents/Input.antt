-- ===== src/Browse/Contents/Input.antt =====
-- Standard input as sfs_write reads it, piece by piece.
use linuxpedia.Prelude.{
  ℕ, ◌+◌, ◌≤◌, ◌<◌, ◌≡◌, refl, sym, ap, ◌∙◌, List, [], ◌∷◌, ◌++◌, length, take, drop, length-take,
  length-drop, take-append-drop, arith, ◌==◌, ltb, ltb→lt, ltb→ge, if◌then◌else◌, inl, inr,
  Bool-cases, ne→==, eq→==,
}
use mathlib.Core.List.{append_assoc}
use linuxpedia.Browse.Contents.{Input, read_input, input_size}

-- What is typed before the end of the input.
abbrev pub typed : Input → List ℕ
typed [] = []
typed (piece ∷ input) = if length piece == 0 then [] else piece ++ typed input

-- What one read of at most `n` bytes, with this result, takes away from the input.
pub record Takes (n : ℕ) (input : Input) (r : List ℕ × Input) : Type 0 where
  pub short : length r.0 ≤ n
  pub whole : 0 < length r.0 → r.0 ++ typed r.1 ≡ typed input
  pub size : length r.0 + input_size r.1 ≤ input_size input
  pub ends : length r.0 ≡ 0 → typed input ≡ []

typed_nonempty :
    (piece : List ℕ) (input : Input)
    → 0 < length piece
    → typed (piece ∷ input) ≡ piece ++ typed input
typed_nonempty piece input h = rw (ne→== (length piece) 0 (λ e. omega arith))

pub read_input-Takes : (n : ℕ) (input : Input) → 0 < n → Takes n input (read_input n input)
unfolding read_input
read_input-Takes n [] h = record {
  short = omega arith;
  whole = λ e. refl;
  size = omega arith;
  ends = λ e. refl;
}
read_input-Takes n (piece ∷ input) h = elim (Bool-cases (ltb n (length piece))) [
  | inl more ↦
      let lt = ltb→lt n (length piece) more in
      let some_left : 0 < length (drop n piece) = omega (arith, length-drop n piece) in
      rw more (record {
        short = omega (arith, length-take n piece);
        whole = λ e.
            ap (◌++◌ (take n piece)) (typed_nonempty (drop n piece) input some_left)
            ∙ sym (append_assoc (take n piece) (drop n piece) (typed input))
            ∙ ap (λ xs. xs ++ typed input) (take-append-drop n piece)
            ∙ sym (typed_nonempty piece input (omega arith));
        size = omega (arith, length-take n piece, length-drop n piece);
        ends = λ e. absurd (omega (arith, length-take n piece));
      })
  | inr all ↦ rw all (record {
    short = ltb→ge n (length piece) all;
    whole = λ e. sym (typed_nonempty piece input e);
    size = omega arith;
    ends = λ e. rw (eq→== (length piece) 0 e);
  })
]
