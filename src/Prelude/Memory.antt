-- ===== src/Prelude/Memory.antt =====
-- `memcpy` out of an array and into one.
use Prim.Native.Nat.{ℕ, zero, suc, ◌+◌, ◌≤◌}
use mathlib.Core.Path.{◌≡◌, refl, ap, ◌∙◌}
use mathlib.Core.List.{List, [], ◌∷◌, ◌++◌}
use native.Mathlib.Omega.{arith}
use linuxpedia.Prelude.Lists.{length, take, drop}

module _ {ℓ} {A : Type ℓ} where
  -- `n` elements from index `o` on
  abbrev pub slice : List A → ℕ → ℕ → List A
  slice xs o n = take n (drop o xs)

  abbrev pub overwrite : List A → List A → List A
  overwrite [] ys = []
  overwrite (x ∷ xs) [] = x ∷ xs
  overwrite (x ∷ xs) (y ∷ ys) = y ∷ overwrite xs ys

  -- `ys` stored at index `o` on; the array keeps its size.
  abbrev pub splice : List A → ℕ → List A → List A
  splice xs zero ys = overwrite xs ys
  splice [] (suc o) ys = []
  splice (x ∷ xs) (suc o) ys = x ∷ splice xs o ys

  pub length-overwrite : (xs ys : List A) → length (overwrite xs ys) ≡ length xs
  length-overwrite [] ys = refl
  length-overwrite (x ∷ xs) [] = refl
  length-overwrite (x ∷ xs) (y ∷ ys) = ap suc (length-overwrite xs ys)

  pub length-splice : (xs : List A) (o : ℕ) (ys : List A) → length (splice xs o ys) ≡ length xs
  length-splice xs zero ys = length-overwrite xs ys
  length-splice [] (suc o) ys = refl
  length-splice (x ∷ xs) (suc o) ys = ap suc (length-splice xs o ys)

  pub overwrite-all : (xs ys : List A) → length xs ≡ length ys → overwrite xs ys ≡ ys
  overwrite-all [] [] h = refl
  overwrite-all [] (y ∷ ys) h = absurd (omega arith)
  overwrite-all (x ∷ xs) [] h = absurd (omega arith)
  overwrite-all (x ∷ xs) (y ∷ ys) h = ap (◌∷◌ y) (overwrite-all xs ys (omega arith))

  pub take-overwrite :
      (xs ys : List A) → length ys ≤ length xs → take (length ys) (overwrite xs ys) ≡ ys
  take-overwrite [] [] h = refl
  take-overwrite [] (y ∷ ys) h = absurd (omega arith)
  take-overwrite (x ∷ xs) [] h = refl
  take-overwrite (x ∷ xs) (y ∷ ys) h = ap (◌∷◌ y) (take-overwrite xs ys (omega arith))

  drop-overwrite : (xs ys : List A) (n : ℕ) → length ys ≤ n → drop n (overwrite xs ys) ≡ drop n xs
  drop-overwrite [] ys n h = refl
  drop-overwrite (x ∷ xs) [] n h = refl
  drop-overwrite (x ∷ xs) (y ∷ ys) zero h = absurd (omega arith)
  drop-overwrite (x ∷ xs) (y ∷ ys) (suc n) h = drop-overwrite xs ys n (omega arith)

  pub slice-splice_self :
      (xs : List A) (o : ℕ) (ys : List A) (n : ℕ)
      → n ≡ length ys
      → o + n ≤ length xs
      → slice (splice xs o ys) o n ≡ ys
  slice-splice_self xs zero ys n e h = rw e (take-overwrite xs ys (omega arith))
  slice-splice_self [] (suc o) ys n e h = absurd (omega arith)
  slice-splice_self (x ∷ xs) (suc o) ys n e h = slice-splice_self xs o ys n e (omega arith)

  take_nil : (n : ℕ) → take {A = A} n [] ≡ []
  take_nil zero = refl
  take_nil (suc n) = refl

  pub take-splice_below :
      (xs : List A) (o : ℕ) (ys : List A) (n : ℕ) → n ≤ o → take n (splice xs o ys) ≡ take n xs
  take-splice_below xs o ys zero h = refl
  take-splice_below xs zero ys (suc n) h = absurd (omega arith)
  take-splice_below [] (suc o) ys (suc n) h = refl
  take-splice_below (x ∷ xs) (suc o) ys (suc n) h =
      ap (◌∷◌ x) (take-splice_below xs o ys n (omega arith))

  pub slice-splice_before :
      (xs : List A) (o : ℕ) (ys : List A) (p n : ℕ)
      → p + n ≤ o
      → slice (splice xs o ys) p n ≡ slice xs p n
  slice-splice_before xs o ys zero n h = take-splice_below xs o ys n (omega arith)
  slice-splice_before xs zero ys (suc p) n h = absurd (omega arith)
  slice-splice_before [] (suc o) ys (suc p) n h = refl
  slice-splice_before (x ∷ xs) (suc o) ys (suc p) n h =
      slice-splice_before xs o ys p n (omega arith)

  drop-splice :
      (xs : List A) (o : ℕ) (ys : List A) (p : ℕ)
      → o + length ys ≤ p
      → drop p (splice xs o ys) ≡ drop p xs
  drop-splice xs zero ys p h = drop-overwrite xs ys p (omega arith)
  drop-splice [] (suc o) ys p h = refl
  drop-splice (x ∷ xs) (suc o) ys zero h = absurd (omega arith)
  drop-splice (x ∷ xs) (suc o) ys (suc p) h = drop-splice xs o ys p (omega arith)

  pub slice-splice_after :
      (xs : List A) (o : ℕ) (ys : List A) (p n : ℕ)
      → o + length ys ≤ p
      → slice (splice xs o ys) p n ≡ slice xs p n
  slice-splice_after xs o ys p n h = ap (take n) (drop-splice xs o ys p h)

  pub take-splice :
      (xs : List A) (o : ℕ) (ys : List A)
      → o + length ys ≤ length xs
      → take (o + length ys) (splice xs o ys) ≡ take o xs ++ ys
  take-splice xs zero ys h =
      ap (λ n. take n (overwrite xs ys)) (omega arith) ∙ take-overwrite xs ys (omega arith)
  take-splice [] (suc o) ys h = absurd (omega arith)
  take-splice (x ∷ xs) (suc o) ys h =
      ap (λ n. take n (x ∷ splice xs o ys)) (add o (length ys))
      ∙ ap (◌∷◌ x) (take-splice xs o ys (omega arith))
    where
      add : (a b : ℕ) → suc a + b ≡ suc (a + b)
      add a b = omega arith
