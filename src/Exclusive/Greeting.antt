-- ===== src/Exclusive/Greeting.antt =====
-- The device of device_driver_examples/lkm3_char/chardev.c, which says how often it was opened.
pub mod Told
pub mod Digits
use linuxpedia.Prelude.{
  ℕ, zero, suc, ◌+◌, ◌-◌, ◌/◌, ◌%◌, ◌^◌, ◌≤◌, ◌<◌, ◌≡◌, refl, List, [], ◌∷◌, ◌++◌, length,
  overwrite, drop, take, ◌==◌, ltb, if◌then◌else◌, not, arith,
}
use linuxpedia.Prelude.Int.{ℤ, pos, neg_ebusy, neg_einval}
use linuxpedia.Chardev.{Device, device_read, device_release}

-- The decimal digits of a number below 10 ^ `fuel`.
unfoldable pub digits : (fuel n : ℕ) → List ℕ
digits zero n = []
digits (suc fuel) n =
    let rest = digits fuel (n / 10) in
    if ltb n 10 then (48 + n) ∷ [] else rest ++ ((48 + n % 10) ∷ [])

abbrev pub told_before : List ℕ
told_before =
    b'I' ∷ 32 ∷ b'a' ∷ b'l' ∷ b'r' ∷ b'e' ∷ b'a' ∷ b'd' ∷ b'y' ∷ 32 ∷ b't' ∷ b'o' ∷ b'l' ∷ b'd' ∷ 32
    ∷ b'y' ∷ b'o' ∷ b'u' ∷ 32 ∷ []

abbrev pub told_after : List ℕ
told_after =
    32 ∷ b't' ∷ b'i' ∷ b'm' ∷ b'e' ∷ b's' ∷ 32 ∷ b'H' ∷ b'e' ∷ b'l' ∷ b'l' ∷ b'o' ∷ 32 ∷ b'w' ∷ b'o'
    ∷ b'r' ∷ b'l' ∷ b'd' ∷ 33 ∷ 10 ∷ []

-- "I already told you %d times Hello world!\n"
unfoldable pub greeting : ℕ → List ℕ
unfolding digits
greeting counter = told_before ++ digits 10 counter ++ told_after

-- The globals, as those of charexample/chardev.c, and the `counter` of device_open, which is below
-- 2 ^ 31.
pub record Greeter : Type 0 where
  pub device : Device
  pub counter : ℕ

unfoldable pub greeting_open : Greeter → ℤ × Greeter
greeting_open g = if not (g.device.device_open == 0) then (neg_ebusy, g) else (
  pos 0,
  record {
    device = record g.device {
      device_open = g.device.device_open + 1;
      message = overwrite g.device.message (greeting g.counter ++ (0 ∷ []));
      message_ptr = 0;
      uses = g.device.uses + 1;
    };
    counter = g.counter + 1;
  },
)

unfoldable pub greeting_release : Greeter → ℤ × Greeter
unfolding device_release
greeting_release g = let (code, d) = device_release g.device in (code, record g { device = d })

-- device_read is the function of charexample/chardev.c.
unfoldable pub greeting_read : Greeter → ℕ → List ℕ × Greeter
greeting_read g len = let (bytes, d) = device_read g.device len in (bytes, record g { device = d })

unfoldable pub greeting_write : Greeter → ℤ × Greeter
greeting_write g = (neg_einval, g)
