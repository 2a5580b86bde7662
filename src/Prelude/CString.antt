-- ===== src/Prelude/CString.antt =====
-- Byte arrays that hold NUL-terminated strings: what the sources use of <string.h>.
use Prim.Native.Nat.{ℕ, zero, suc, ◌≤◌}
use mathlib.Core.Path.{◌≡◌, refl, ap}
use mathlib.Core.Bool.{Bool, true, false, ◌&&◌}
use mathlib.Core.List.{List, [], ◌∷◌, ◌++◌}
use native.Mathlib.Omega.{arith}
use linuxpedia.Prelude.Tests.{◌==◌, if◌then◌else◌}
use linuxpedia.Prelude.Lists.{length, replicate, length-replicate}

-- The string that an array holds: its bytes before the first 0, or all of them where none is 0; the
-- source would then read on behind the array.
unfoldable pub c_str : List ℕ → List ℕ
c_str [] = []
c_str (x ∷ xs) = if x == 0 then [] else x ∷ c_str xs

-- `strlen`
unfoldable pub strlen : List ℕ → ℕ
unfolding c_str
strlen s = length (c_str s)

pub bytes_eq : List ℕ → List ℕ → Bool
bytes_eq [] [] = true
bytes_eq [] (y ∷ ys) = false
bytes_eq (x ∷ xs) [] = false
bytes_eq (x ∷ xs) (y ∷ ys) = (x == y) && bytes_eq xs ys

-- `strcmp(a, b) == 0`
unfoldable pub str_eq : List ℕ → List ℕ → Bool
unfolding c_str bytes_eq
str_eq a b = bytes_eq (c_str a) (c_str b)

-- `strncpy(dest, s, n)`: the bytes of `s` up to its end, filled up with 0 to `n`.
unfoldable pub strncpy : ℕ → List ℕ → List ℕ
strncpy zero s = []
strncpy (suc n) [] = 0 ∷ replicate n 0
strncpy (suc n) (x ∷ s) = if x == 0 then 0 ∷ replicate n 0 else x ∷ strncpy n s

pub bytes_eq→eq : (xs ys : List ℕ) → bytes_eq xs ys ≡ true → xs ≡ ys
unfolding bytes_eq
bytes_eq→eq [] [] h = refl
bytes_eq→eq [] (y ∷ ys) h = ground arith
bytes_eq→eq (x ∷ xs) [] h = ground arith
bytes_eq→eq (x ∷ xs) (y ∷ ys) h = ground (arith, bytes_eq→eq xs ys)

pub bytes_eq_self : (xs : List ℕ) → bytes_eq xs xs ≡ true
unfolding bytes_eq
bytes_eq_self [] = refl
bytes_eq_self (x ∷ xs) = ground (arith, bytes_eq_self xs)

pub str_eq→eq : (a b : List ℕ) → str_eq a b ≡ true → c_str a ≡ c_str b
unfolding str_eq
str_eq→eq a b h = bytes_eq→eq (c_str a) (c_str b) h

pub eq→str_eq : (a b : List ℕ) → c_str a ≡ c_str b → str_eq a b ≡ true
unfolding str_eq
eq→str_eq a b h = ground (arith, bytes_eq_self (c_str a))

pub length-strncpy : (n : ℕ) (s : List ℕ) → length (strncpy n s) ≡ n
unfolding strncpy
length-strncpy zero s = refl
length-strncpy (suc n) [] = ap suc (length-replicate n 0)
length-strncpy (suc n) (x ∷ s) = ground (arith, length-strncpy n s, length-replicate {A = ℕ} n 0)

-- A string that fits is copied whole.
pub c_str-strncpy : (n : ℕ) (s : List ℕ) → strlen s ≤ n → c_str (strncpy n s ++ (0 ∷ [])) ≡ c_str s
unfolding strncpy strlen c_str
c_str-strncpy zero [] h = refl
c_str-strncpy zero (x ∷ s) h = ground arith
c_str-strncpy (suc n) [] h = refl
c_str-strncpy (suc n) (x ∷ s) h = ground (arith, c_str-strncpy n s)

-- A string that does not fit is cut at `n` bytes.
pub strlen-strncpy : (n : ℕ) (s : List ℕ) → n ≤ strlen s → strlen (strncpy n s ++ (0 ∷ [])) ≡ n
unfolding strncpy strlen c_str
strlen-strncpy zero s h = refl
strlen-strncpy (suc n) [] h = absurd (omega arith)
strlen-strncpy (suc n) (x ∷ s) h = ground (arith, strlen-strncpy n s)

pub str_eq-strlen : (a b : List ℕ) → str_eq a b ≡ true → strlen a ≡ strlen b
unfolding strlen
str_eq-strlen a b h = ap length (str_eq→eq a b h)
