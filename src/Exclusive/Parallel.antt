-- ===== src/Exclusive/Parallel.antt =====
-- The parallel-port drivers device_driver_examples/mod4/module4.c and mod5/module5_fops.c: their
-- file operations.
use linuxpedia.Prelude.{
  ℕ, ◌+◌, ◌-◌, ◌/◌, ◌%◌, ◌^◌, Bool, Option, none, some, List, [], ◌∷◌, ◌++◌, ◌==◌, leb,
  if◌then◌else◌, not, replicate, get_or,
}
use linuxpedia.Prelude.Int.{ℤ, pos, negsuc, neg_ebusy, neg_efault}

-- `flagopen`, `lastbytewritten`, and the bytes that went out on the port, in their order.
pub record Port : Type 0 where
  pub flagopen : ℕ
  pub lastbytewritten : ℕ
  pub port : List ℕ

unfoldable pub module4_open : Port → ℤ × Port
module4_open p =
    if not (p.flagopen == 0)
    then (neg_ebusy, p)
    else (pos 0, record p { flagopen = p.flagopen + 1; lastbytewritten = 0 })

-- The result and the byte for the user, whatever the length that is asked for.
unfoldable pub module4_read : Port → ℤ × ℕ
module4_read p = (pos 1, p.lastbytewritten)

-- The byte at `buffer + len - 1`, where `before` is the byte before the buffer.
abbrev pub last_byte : ℕ → List ℕ → ℕ
last_byte before [] = before
last_byte before (x ∷ xs) = last_byte x xs

-- copy_from_user gives 0 for a byte that it cannot read.
unfoldable pub module4_write : Port → (before : ℕ) (buffer : List ℕ) (readable : Bool) → ℤ × Port
module4_write p before buffer readable =
    let ch = if readable then last_byte before buffer else 0 in
    (pos 1, record p { lastbytewritten = ch; port = p.port ++ (ch ∷ []) })

unfoldable pub module4_release : Port → ℤ × Port
module4_release p = (pos 0, record p { flagopen = p.flagopen - 1 })

unfoldable pub module5_open : Port → ℤ × Port
module5_open p =
    if not (p.flagopen == 0)
    then (neg_ebusy, p)
    else (pos 0, record p { flagopen = p.flagopen + 1; lastbytewritten = 0 })

-- _IOC_NR, _IOC_TYPE and _IOC_DIR, where 1 is _IOC_WRITE and 2 is _IOC_READ
abbrev ioc_nr : ℕ → ℕ
ioc_nr cmd = cmd % 256

abbrev ioc_type : ℕ → ℕ
ioc_type cmd = cmd / 256 % 256

abbrev ioc_dir : ℕ → ℕ
ioc_dir cmd = cmd / 2 ^ 30 % 4

abbrev pub module5_magic : ℕ
module5_magic = 0xC0

abbrev pub module5_iocreset : ℕ
module5_iocreset = 0xC000

abbrev pub module5_iocspattern : ℕ
module5_iocspattern = 0x4004C001

abbrev pub module5_iocsglyph : ℕ
module5_iocsglyph = 0x4004C002

abbrev pub module5_iocgvalue : ℕ
module5_iocgvalue = 0x8004C003

abbrev neg_enotty : ℤ
neg_enotty = negsuc 24

-- `val | 0x80` as the byte that goes out.
abbrev pub with_high_bit : ℕ → ℕ
with_high_bit val = val % 128 + 128

abbrev pub glyphs : List ℕ
glyphs = replicate 16 0

abbrev pub put_out : Port → ℕ → ℤ × Option ℕ × Port
put_out p b = (pos 0, none, record p { port = p.port ++ (b ∷ []) })

-- The switch.
unfoldable pub module5_command : Port → (cmd val : ℕ) → ℤ × Option ℕ × Port
module5_command p cmd val =
    if cmd == module5_iocreset
    then put_out p 0x80
    else if cmd == module5_iocspattern
    then put_out p (with_high_bit val)
    else if cmd == module5_iocsglyph
    then put_out p (with_high_bit (get_or glyphs (val % 16) 0))
    else if cmd == module5_iocgvalue
    then (pos 0, some p.lastbytewritten, p)
    else (neg_enotty, none, p)

-- The result, what is put at `arg`, and the driver. `unset` says whether the stack happens to hold
-- other than 0 for the variable `err`, `accessible` whether `arg` can be accessed, where `val` is.
unfoldable pub module5_ioctl :
    Port → (cmd val : ℕ) → (accessible unset : Bool) → ℤ × Option ℕ × Port
unfolding module5_command
module5_ioctl p cmd val accessible unset =
    if not (ioc_type cmd == module5_magic)
    then (neg_enotty, none, p)
    else if leb 4 (ioc_nr cmd)
    then (neg_enotty, none, p)
    else let err = if ioc_dir cmd == 0 then unset else not accessible in
      if err then (neg_efault, none, p) else module5_command p cmd val

unfoldable pub module5_release : Port → ℤ × Port
module5_release p = (pos 0, record p { flagopen = p.flagopen - 1 })
