-- ===== src/Exclusive/Greeting/Told.antt =====
-- What the first read after an open of lkm3_char/chardev.c gives.
use mathlib.Core.List.{append-nil, append_assoc}
use linuxpedia.Prelude.{
  ℕ, zero, suc, ◌+◌, ◌/◌, ◌%◌, ◌≤◌, ◌≡◌, refl, ap, ◌∙◌, Bool, true, ◌&&◌, List, [], ◌∷◌, ◌++◌,
  length, overwrite, drop, take, ◌==◌, ltb, not, arith, Bool-cases, inl, inr, length-append,
}
use linuxpedia.Prelude.CString.{c_str}
use linuxpedia.Chardev.Reads.{device_read-read_loop, read_loop-take}
use linuxpedia.Exclusive.Greeting.{
  Greeter, digits, told_before, told_after, greeting, greeting_open, greeting_read,
}

abbrev no_zero : List ℕ → Bool
no_zero [] = true
no_zero (x ∷ xs) = not (x == 0) && no_zero xs

c_str-append : (xs ys : List ℕ) → no_zero xs ≡ true → c_str (xs ++ ys) ≡ xs ++ c_str ys
unfolding c_str
c_str-append [] ys h = refl
c_str-append (x ∷ xs) ys h = ground (arith, c_str-append xs ys)

no_zero-append :
    (xs ys : List ℕ) → no_zero xs ≡ true → no_zero ys ≡ true → no_zero (xs ++ ys) ≡ true
no_zero-append [] ys h g = g
no_zero-append (x ∷ xs) ys h g = ground (arith, no_zero-append xs ys)

overwrite-append :
    (xs ys : List ℕ) → length ys ≤ length xs → overwrite xs ys ≡ ys ++ drop (length ys) xs
overwrite-append [] [] h = refl
overwrite-append [] (y ∷ ys) h = absurd (omega arith)
overwrite-append (x ∷ xs) [] h = refl
overwrite-append (x ∷ xs) (y ∷ ys) h = ap (◌∷◌ y) (overwrite-append xs ys (omega arith))

digits-no_zero : (fuel n : ℕ) → no_zero (digits fuel n) ≡ true
unfolding digits
digits-no_zero zero n = refl
digits-no_zero (suc fuel) n = elim (Bool-cases (ltb n 10)) [
  | inl e ↦ rw e (ground arith)
  | inr e ↦
      rw e (no_zero-append (digits fuel (n / 10)) _ (digits-no_zero fuel (n / 10)) (ground arith))
]

length-digits : (fuel n : ℕ) → length (digits fuel n) ≤ fuel
unfolding digits
length-digits zero n = omega arith
length-digits (suc fuel) n = elim (Bool-cases (ltb n 10)) [
  | inl e ↦ rw e (omega arith)
  | inr e ↦ rw e (
      omega (
        arith,
        length-digits fuel (n / 10),
        length-append (digits fuel (n / 10)) ((48 + n % 10) ∷ []),
      ))
]

greeting-no_zero : (n : ℕ) → no_zero (greeting n) ≡ true
unfolding greeting
greeting-no_zero n =
    no_zero-append (told_before ++ digits 10 n) told_after
      (no_zero-append told_before (digits 10 n) refl (digits-no_zero 10 n)) refl

length-greeting : (n : ℕ) → length (greeting n) ≤ 49
unfolding greeting
length-greeting n = omega (
  arith,
  length-append (told_before ++ digits 10 n) told_after,
  length-append told_before (digits 10 n),
  length-digits 10 n,
)

c_str-overwrite :
    (msg text behind : List ℕ)
    → no_zero text ≡ true
    → length (text ++ (0 ∷ [])) ≤ length msg
    → c_str (overwrite msg (text ++ (0 ∷ [])) ++ behind) ≡ text
unfolding c_str
c_str-overwrite msg text behind h fits =
    let left = drop (length (text ++ (0 ∷ []))) msg in
    ap (λ s. c_str (s ++ behind)) (overwrite-append msg (text ++ (0 ∷ [])) fits)
    ∙ ap (λ s. c_str (s ++ behind)) (append_assoc text (0 ∷ []) left)
    ∙ ap c_str (append_assoc text (0 ∷ left) behind)
    ∙ c_str-append text (0 ∷ left ++ behind) h
    ∙ append-nil text

-- The message fits its array, and a read after an open gives its first `len` bytes.
pub greeting_read-greeting_open :
    (g : Greeter) (len : ℕ)
    → g.device.device_open ≡ 0
    → length g.device.message ≡ 80
    → (length (greeting g.counter) + 1 ≤ 80)
      × ((greeting_read (greeting_open g).1 len).0 ≡ take len (greeting g.counter))
unfolding greeting_open greeting_read c_str
greeting_read-greeting_open g len free size =
    let text = greeting g.counter in
    let fits : length (text ++ (0 ∷ [])) ≤ length g.device.message =
      omega (arith, length-greeting g.counter, length-append text (0 ∷ []), size) in
    rw free (
      omega (arith, length-greeting g.counter),
      ap (λ p. p.0) (device_read-read_loop _ len)
          ∙ read_loop-take len _
          ∙ ap (take len) (
              c_str-overwrite g.device.message text g.device.behind (greeting-no_zero g.counter)
                fits),
    )
