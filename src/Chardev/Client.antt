-- ===== src/Chardev/Client.antt =====
-- device_driver_examples/charexample/ioctl.c, a user program of the device of chardev.c.
pub mod Loop
pub mod Runs
use linuxpedia.Prelude.{
  ℕ, zero, suc, ◌+◌, Bool, true, false, Option, none, some, List, [], ◌∷◌, ◌++◌, length, ◌==◌,
  if◌then◌else◌,
}
use linuxpedia.Prelude.Int.{pos, negsuc, is_neg}
use linuxpedia.Prelude.CString.{c_str}
use linuxpedia.Chardev.{
  Device, device_open, device_release, device_ioctl, ioctl_set_msg, ioctl_get_msg,
  ioctl_get_nth_byte,
}

-- What the program prints; the text after `get_nth_byte message:` is what putchar is given.
pub data Line : Type 0 where
  cant_open : Line
  get_nth_byte_message : List ℕ → Line
  get_nth_byte_failed : List ℕ → (i : ℕ) → Line
  get_msg_message : List ℕ → Line
  get_msg_failed set_msg_failed : Line

-- The line of the get_nth_byte loop with one more byte at its start.
abbrev pub putchar : ℕ → Line → Line
putchar c (get_nth_byte_message text) = get_nth_byte_message (c ∷ text)
putchar c (get_nth_byte_failed text i) = get_nth_byte_failed (c ∷ text) i
putchar c line = line

-- The do-while loop of ioctl_get_nth_byte, on fuel. A result below 0 stays below 0 as a `char`, as
-- the -1 that the C library makes of it too; one from 0 to 127 stays as it is.
unfoldable pub nth_byte_loop : (fuel i : ℕ) → Device → Option Line
nth_byte_loop zero i d = none
nth_byte_loop (suc fuel) i d =
    let rest = nth_byte_loop fuel (i + 1) d in
    elim (device_ioctl d (ioctl_get_nth_byte i)).0 [
      | negsuc _ ↦ some (get_nth_byte_failed [] (i + 1))
      | pos c ↦
          if c == 0
          then some (get_nth_byte_message (0 ∷ []))
          else elim rest [ none ↦ none | some line ↦ some (putchar c line) ]
    ]

-- The loop asks for one byte after the other, so it ends where the kernel's memory has a 0.
unfoldable pub get_nth_byte : Device → Option Line
unfolding nth_byte_loop
get_nth_byte d = nth_byte_loop (length d.message + length d.behind + 1) 0 d

-- ioctl_get_msg: the line, whether the program goes on, and the device
unfoldable pub get_msg : Device → Line × Bool × Device
get_msg d =
    let (ret_val, message, d') = device_ioctl d ioctl_get_msg in
    if is_neg ret_val
    then (get_msg_failed, false, d')
    else (get_msg_message (c_str message), true, d')

-- "Message passed by ioctl\n", with its end mark
abbrev pub msg : List ℕ
msg =
    b'M' ∷ b'e' ∷ b's' ∷ b's' ∷ b'a' ∷ b'g' ∷ b'e' ∷ 32 ∷ b'p' ∷ b'a' ∷ b's' ∷ b's' ∷ b'e' ∷ b'd'
    ∷ 32 ∷ b'b' ∷ b'y' ∷ 32 ∷ b'i' ∷ b'o' ∷ b'c' ∷ b't' ∷ b'l' ∷ 10 ∷ 0 ∷ []

-- ioctl_set_msg, whose ioctl fails or not
unfoldable pub set_msg : Device → List Line × Device
set_msg d =
    let (ret_val, _, d') = device_ioctl d (ioctl_set_msg msg) in
    (if is_neg ret_val then set_msg_failed ∷ [] else [], d')

-- main once the file is open; the end of the program closes it, however it ends. `none` is a loop
-- that ran out of fuel.
unfoldable pub run_open : Device → Option (List Line × Device)
unfolding get_nth_byte get_msg set_msg
run_open d = elim (get_nth_byte d) [
  | none ↦ none
  | some (get_nth_byte_failed text i) ↦ some (get_nth_byte_failed text i ∷ [], (device_release d).1)
  | some line ↦
      let (line', goes_on, d') = get_msg d in
      let (lines, d'') = set_msg d' in
      if goes_on
      then some (line ∷ line' ∷ lines, (device_release d'').1)
      else some (line ∷ line' ∷ [], (device_release d').1)
]

unfoldable pub main : Device → Option (List Line × Device)
unfolding run_open
main d =
    let (file_desc, d') = device_open d in
    if is_neg file_desc then some (cant_open ∷ [], d') else run_open d'
