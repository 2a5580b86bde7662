-- ===== src/Drivers/Resources.antt =====
-- What a driver holds of the kernel, as a stack, and what the kernel answers to its requests.
use linuxpedia.Prelude.{
  ℕ, Bool, true, false, Option, none, some, List, [], ◌∷◌, ◌==◌, if◌then◌else◌,
}
use linuxpedia.Prelude.Int.{ℤ, pos, negsuc}

pub data Resource : Type 0 where
  region cdev class device mapping ports : Resource
  proc_dir proc_jiffies proc_foo proc_bar proc_symlink proc_file chrdev : Resource

abbrev number : Resource → ℕ
number region = 0
number cdev = 1
number class = 2
number device = 3
number mapping = 4
number ports = 5
number proc_dir = 6
number proc_jiffies = 7
number proc_foo = 8
number proc_bar = 9
number proc_symlink = 10
number proc_file = 11
number chrdev = 12

-- The last acquired resource comes first.
abbrev pub Stack : Type 0
Stack = List Resource

-- `none` is a release of what is not held, or not acquired last.
abbrev pub release : Resource → Stack → Option Stack
release r [] = none
release r (x ∷ s) = if number r == number x then some s else none

-- Calls that release these, one after the other.
abbrev pub releases : List Resource → Stack → Option Stack
releases [] s = some s
releases (r ∷ rs) s = elim (release r s) [ none ↦ none | some s' ↦ releases rs s' ]

-- remove_proc_entry does nothing where there is no such entry.
abbrev pub remove_file : Stack → Stack
remove_file s = elim (release proc_file s) [ none ↦ s | some s' ↦ s' ]

-- The result of an init function with what is then held.
abbrev pub Init : Type 0
Init = Option (ℤ × Stack)

abbrev pub fail : ℤ → List Resource → Stack → Init
fail code rs s = elim (releases rs s) [ none ↦ none | some s' ↦ some (code, s') ]

-- The `int` of a request: 0, or a negated error number, -1 - e.
pub data Code : Type 0 where
  done : Code
  errno : ℕ → Code

abbrev pub to_int : Code → ℤ
to_int done = pos 0
to_int (errno e) = negsuc e

-- The pointer of a request: `err_ptr` is a value for which IS_ERR holds.
pub data Pointer : Type 0 where
  object null : Pointer
  err_ptr : ℕ → Pointer

abbrev pub is_null : Pointer → Bool
is_null null = true
is_null object = false
is_null (err_ptr e) = false

abbrev pub is_err : Pointer → Bool
is_err (err_ptr e) = true
is_err object = false
is_err null = false

-- PTR_ERR
abbrev pub ptr_err : Pointer → ℤ
ptr_err (err_ptr e) = negsuc e
ptr_err object = pos 0
ptr_err null = pos 0

-- A request that has been answered with an object, or with 0, is held.
abbrev pub hold : Pointer → Resource → Stack → Stack
hold object r s = r ∷ s
hold null r s = s
hold (err_ptr e) r s = s

abbrev pub hold_code : Code → Resource → Stack → Stack
hold_code done r s = r ∷ s
hold_code (errno e) r s = s

-- What the kernel answers to the requests of a driver.
pub record Kernel : Type 0 where
  pub alloc_chrdev_region : Code
  pub cdev_add : Code
  pub class_create : Pointer
  pub device_create : Pointer
  pub ioremap : Pointer
  pub request_region : Pointer
  pub proc_mkdir : Pointer
  pub proc_jiffies_entry : Pointer
  pub proc_foo_entry : Pointer
  pub proc_bar_entry : Pointer
  pub proc_symlink_entry : Pointer
  pub proc_file_entry : Pointer
  pub register_chrdev : Code
