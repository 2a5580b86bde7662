-- ===== src/Prelude/Int.antt =====
-- Signed C integers over the native numbers, as the result codes of kernel functions use them.
use Prim.Native.Nat.{ℕ}
use mathlib.Core.Path.{◌≡◌}
use mathlib.Core.Bool.{Bool, true, false}
use native.Mathlib.Omega.{arith}
use linuxpedia.Prelude.Tests.{◌==◌}

-- `negsuc n` is -(n + 1).
pub data ℤ : Type 0 where
  pos : ℕ → ℤ
  negsuc : ℕ → ℤ

-- `code < 0`
abbrev pub is_neg : ℤ → Bool
is_neg (pos n) = false
is_neg (negsuc n) = true

-- `a == b`
abbrev pub eq_ℤ : ℤ → ℤ → Bool
eq_ℤ (pos a) (pos b) = a == b
eq_ℤ (pos a) (negsuc b) = false
eq_ℤ (negsuc a) (pos b) = false
eq_ℤ (negsuc a) (negsuc b) = a == b

pub eq_ℤ→eq : (a b : ℤ) → eq_ℤ a b ≡ true → a ≡ b
eq_ℤ→eq (pos a) (pos b) h = ground arith
eq_ℤ→eq (pos a) (negsuc b) h = ground arith
eq_ℤ→eq (negsuc a) (pos b) h = ground arith
eq_ℤ→eq (negsuc a) (negsuc b) h = ground arith

abbrev pub minus_one : ℤ
minus_one = negsuc 0

-- The negated error numbers of <linux/errno.h>.
abbrev pub neg_enoent : ℤ
neg_enoent = negsuc 1

abbrev pub neg_eio : ℤ
neg_eio = negsuc 4

abbrev pub neg_efault : ℤ
neg_efault = negsuc 13

abbrev pub neg_enomem : ℤ
neg_enomem = negsuc 11

abbrev pub neg_eacces : ℤ
neg_eacces = negsuc 12

abbrev pub neg_ebusy : ℤ
neg_ebusy = negsuc 15

abbrev pub neg_enodev : ℤ
neg_enodev = negsuc 18

abbrev pub neg_einval : ℤ
neg_einval = negsuc 21

abbrev pub neg_enospc : ℤ
neg_enospc = negsuc 27
