-- ===== src/Prelude/Appended.antt =====
-- `memcpy` of one piece after another.
use Prim.Native.Nat.{ℕ, zero, suc, ◌+◌, ◌≤◌}
use mathlib.Core.Path.{◌≡◌, refl, ap, ◌∙◌}
use mathlib.Core.List.{List, [], ◌∷◌, ◌++◌}
use native.Mathlib.Omega.{arith}
use linuxpedia.Prelude.Lists.{length, take}
use linuxpedia.Prelude.Memory.{slice, overwrite, splice}

module _ {ℓ} {A : Type ℓ} where
  pub splice-nil : (xs : List A) (o : ℕ) → splice xs o [] ≡ xs
  splice-nil [] zero = refl
  splice-nil (x ∷ xs) zero = refl
  splice-nil [] (suc o) = refl
  splice-nil (x ∷ xs) (suc o) = ap (◌∷◌ x) (splice-nil xs o)

  overwrite-append :
      (dev xs ys : List A)
      → length xs + length ys ≤ length dev
      → splice (overwrite dev xs) (length xs) ys ≡ overwrite dev (xs ++ ys)
  overwrite-append [] [] ys h = refl
  overwrite-append [] (x ∷ xs) ys h = absurd (omega arith)
  overwrite-append (d ∷ dev) [] ys h = refl
  overwrite-append (d ∷ dev) (x ∷ xs) ys h = ap (◌∷◌ x) (overwrite-append dev xs ys (omega arith))

  pub splice-append :
      (dev : List A) (at : ℕ) (xs ys : List A)
      → at + length xs + length ys ≤ length dev
      → splice (splice dev at xs) (at + length xs) ys ≡ splice dev at (xs ++ ys)
  splice-append dev zero xs ys h =
      ap (λ n. splice (overwrite dev xs) n ys) (omega arith)
      ∙ overwrite-append dev xs ys (omega arith)
  splice-append [] (suc at) xs ys h = absurd (omega arith)
  splice-append (d ∷ dev) (suc at) xs ys h =
      ap (λ n. splice (d ∷ splice dev at xs) n ys) (add at (length xs))
      ∙ ap (◌∷◌ d) (splice-append dev at xs ys (omega arith))
    where
      add : (a b : ℕ) → suc a + b ≡ suc (a + b)
      add a b = omega arith

  pub take-overwrite_short :
      (xs ys : List A) (n : ℕ)
      → n ≤ length ys
      → length ys ≤ length xs
      → take n (overwrite xs ys) ≡ take n ys
  take-overwrite_short xs ys zero h g = refl
  take-overwrite_short xs [] (suc n) h g = absurd (omega arith)
  take-overwrite_short [] (y ∷ ys) (suc n) h g = absurd (omega arith)
  take-overwrite_short (x ∷ xs) (y ∷ ys) (suc n) h g =
      ap (◌∷◌ y) (take-overwrite_short xs ys n (omega arith) (omega arith))

  pub slice-overwrite :
      (xs ys : List A) (o n : ℕ)
      → o + n ≤ length ys
      → length ys ≤ length xs
      → slice (overwrite xs ys) o n ≡ slice ys o n
  slice-overwrite xs ys zero n h g = take-overwrite_short xs ys n (omega arith) g
  slice-overwrite xs [] (suc o) n h g = absurd (omega arith)
  slice-overwrite [] (y ∷ ys) (suc o) n h g = absurd (omega arith)
  slice-overwrite (x ∷ xs) (y ∷ ys) (suc o) n h g =
      slice-overwrite xs ys o n (omega arith) (omega arith)

  pub slice-append : (xs ys : List A) (o n : ℕ) → slice (xs ++ ys) (length xs + o) n ≡ slice ys o n
  slice-append [] ys o n = ap (λ k. slice ys k n) (omega arith)
  slice-append (x ∷ xs) ys o n =
      ap (λ k. slice (x ∷ xs ++ ys) k n) (add (length xs) o) ∙ slice-append xs ys o n
    where
      add : (a b : ℕ) → suc a + b ≡ suc (a + b)
      add a b = omega arith
