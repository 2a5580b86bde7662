-- ===== src/Chardev.antt =====
-- The character device of device_driver_examples/charexample/chardev.c: the device state, open and
-- release, and the message that read, write and ioctl share. A byte array of the user is the list
-- of its readable bytes: `get_user` stores 0 where it cannot read.
pub mod Reads
pub mod Messages
pub mod Users
pub mod Client
mod Examples
use linuxpedia.Prelude.{
  ℕ, zero, suc, ◌+◌, ◌-◌, ◌≡◌, List, [], ◌∷◌, ◌++◌, get_or, drop, take, length, ◌==◌, ltb,
  if◌then◌else◌, min, not,
}
use linuxpedia.Prelude.Int.{ℤ, pos, negsuc, neg_ebusy}

abbrev pub buf_len : ℕ
buf_len = 80

-- `Message_Ptr` is the index of the byte that it points to, `behind` the kernel's bytes after the
-- array `Message`, which the driver does not own, and `uses` the module's use count.
pub record Device : Type 0 where
  pub device_open : ℕ
  pub message : List ℕ
  pub message_ptr : ℕ
  pub behind : List ℕ
  pub uses : ℕ

unfoldable pub device_open : Device → ℤ × Device
device_open d =
    if not (d.device_open == 0)
    then (neg_ebusy, d)
    else (pos 0, record d { device_open = d.device_open + 1; message_ptr = 0; uses = d.uses + 1 })

unfoldable pub device_release : Device → ℤ × Device
device_release d = (pos 0, record d { device_open = d.device_open - 1; uses = d.uses - 1 })

-- The while loop of device_read, on the bytes from `Message_Ptr` on: the bytes for the user.
unfoldable pub read_loop : (n : ℕ) → List ℕ → List ℕ
read_loop zero xs = []
read_loop (suc n) [] = []
read_loop (suc n) (x ∷ xs) = let rest = read_loop n xs in if x == 0 then [] else x ∷ rest

-- The bytes that the user receives; their number is the result.
unfoldable pub device_read : Device → (len : ℕ) → List ℕ × Device
unfolding read_loop
device_read d len =
    let from = drop d.message_ptr (d.message ++ d.behind) in
    if get_or from 0 0 == 0
    then ([], d)
    else let bytes = read_loop len from in
      (bytes, record d { message_ptr = d.message_ptr + length bytes })

-- The loop of device_write over the first `n` bytes of `buffer`.
abbrev pub write_loop : (n : ℕ) → (buffer message : List ℕ) → List ℕ
write_loop zero buffer message = message
write_loop (suc n) buffer [] = []
write_loop (suc n) [] (c ∷ message) = 0 ∷ write_loop n [] message
write_loop (suc n) (b ∷ buffer) (c ∷ message) = b ∷ write_loop n buffer message

unfoldable pub device_write : Device → (buffer : List ℕ) → (len : ℕ) → ℤ × Device
device_write d buffer len =
    let i = min len buf_len in
    (pos i, record d { message = write_loop i buffer d.message; message_ptr = 0 })

-- The for loop of IOCTL_SET_MSG, whose bound leaves `left` turns: the final `i`.
unfoldable pub set_msg_loop : (left i ch : ℕ) → (temp : List ℕ) → ℕ
set_msg_loop zero i ch temp = i
set_msg_loop (suc k) i ch temp =
    let rest = set_msg_loop k (suc i) (get_or temp 0 0) (drop 1 temp) in if ch == 0 then i else rest

-- A `char` as the `int` that it is returned as.
abbrev pub char_to_int : ℕ → ℤ
char_to_int c = if ltb c 128 then pos c else negsuc (255 - c)

pub data Ioctl : Type 0 where
  ioctl_set_msg : List ℕ → Ioctl
  ioctl_get_msg : Ioctl
  ioctl_get_nth_byte : ℕ → Ioctl
  ioctl_other : Ioctl

-- The result, the bytes that are put at `ioctl_param`, and the device.
unfoldable pub device_ioctl : Device → Ioctl → ℤ × List ℕ × Device
unfolding device_read device_write
device_ioctl d (ioctl_set_msg temp) =
    let i = set_msg_loop buf_len 0 (get_or temp 0 0) temp in
    let (_, d') = device_write d temp i in (pos 0, [], d')
device_ioctl d ioctl_get_msg = let (bytes, d') = device_read d 99 in (pos 0, bytes ++ (0 ∷ []), d')
device_ioctl d (ioctl_get_nth_byte n) = (char_to_int (get_or (d.message ++ d.behind) n 0), [], d)
device_ioctl d ioctl_other = (pos 0, [], d)
