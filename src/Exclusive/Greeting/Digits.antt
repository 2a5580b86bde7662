-- ===== src/Exclusive/Greeting/Digits.antt =====
-- The decimal digits of the message of lkm3_char/chardev.c are those of the number.
use native.Mathlib.Nat.{pow-suc}
use linuxpedia.Prelude.{
  ℕ, zero, suc, ◌+◌, ◌-◌, ◌*◌, ◌/◌, ◌%◌, ◌^◌, ◌<◌, ◌≡◌, refl, ap, ◌∙◌, List, [], ◌∷◌, ◌++◌, ltb,
  arith, Bool-cases, inl, inr,
}
use linuxpedia.Exclusive.Greeting.{digits}

-- The number that digits stand for, behind digits that stand for `before`.
abbrev pub value : (before : ℕ) → List ℕ → ℕ
value before [] = before
value before (d ∷ ds) = value (before * 10 + (d - 48)) ds

value-append :
    (before d : ℕ) (ds : List ℕ) → value before (ds ++ (d ∷ [])) ≡ value before ds * 10 + (d - 48)
value-append before d [] = refl
value-append before d (c ∷ ds) = value-append (before * 10 + (c - 48)) d ds

-- With enough fuel, 10 for a number below 2 ^ 31, no digit is missing.
pub value-digits : (fuel n : ℕ) → n < 10 ^ fuel → value 0 (digits fuel n) ≡ n
unfolding digits
value-digits zero n h = omega arith
value-digits (suc fuel) n h = elim (Bool-cases (ltb n 10)) [
  | inl e ↦ rw e (omega arith)
  | inr e ↦ rw e (
      value-append 0 (48 + n % 10) (digits fuel (n / 10))
      ∙ ap (λ q. q * 10 + (48 + n % 10 - 48))
          (value-digits fuel (n / 10) (omega (arith, h, pow-suc 10 fuel)))
      ∙ omega arith)
]
