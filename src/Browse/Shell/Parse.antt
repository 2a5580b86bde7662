-- ===== src/Browse/Shell/Parse.antt =====
-- Every command of the shell of browse_sfs.c can be typed.
use linuxpedia.Prelude.{
  ℕ, zero, suc, ◌+◌, ◌-◌, ◌<◌, ◌≡◌, ◌≢◌, refl, true, List, [], ◌∷◌, ◌++◌, length, get_or, replicate,
  arith, leb, ne→==, le→leb,
}
use linuxpedia.Prelude.CString.{c_str, strlen, str_eq}
use linuxpedia.Browse.Shell.{
  Command, help, quit, list, unknown, create, remove, read, write, chperm, word_quit, word_list,
  word_create, word_remove, word_chperm, word_read, word_write, skip_spaces, with_name,
  chperm_command, parse_command,
}

-- A file name that can be typed: not empty, with no byte 0, and not beginning with a space.
pub record IsName (fn : List ℕ) : Type 0 where
  pub whole : c_str fn ≡ fn
  pub some_byte : 0 < length fn
  pub first : get_or fn 0 0 ≢ 32

-- The commands other than `unknown`, with a name and a digit that can be typed.
abbrev pub IsTyped : Command → Type 0
IsTyped help = Unit
IsTyped quit = Unit
IsTyped list = Unit
IsTyped unknown = ⊥
IsTyped (create fn) = IsName fn
IsTyped (remove fn) = IsName fn
IsTyped (read fn) = IsName fn
IsTyped (write fn) = IsName fn
IsTyped (chperm perm fn) = (perm < 8) × IsName fn

abbrev spaced : ℕ → List ℕ → List ℕ
spaced n fn = 32 ∷ replicate n 32 ++ fn

-- The line for a command, with `n` more spaces than needed.
abbrev pub print_command : ℕ → Command → List ℕ
print_command n help = b'?' ∷ []
print_command n quit = word_quit
print_command n list = word_list
print_command n unknown = []
print_command n (create fn) = word_create ++ spaced n fn
print_command n (remove fn) = word_remove ++ spaced n fn
print_command n (read fn) = word_read ++ spaced n fn
print_command n (write fn) = word_write ++ spaced n fn
print_command n (chperm perm fn) = word_chperm ++ (32 ∷ (b'0' + perm) ∷ spaced n fn)

skip_spaces-name :
    (n : ℕ) (fn : List ℕ) → get_or fn 0 0 ≢ 32 → skip_spaces (replicate n 32 ++ fn) ≡ fn
unfolding skip_spaces
skip_spaces-name zero [] h = refl
skip_spaces-name zero (c ∷ fn) h = rw (ne→== c 32 h)
skip_spaces-name (suc n) fn h = skip_spaces-name n fn h

with_name-name :
    (make : List ℕ → Command) (n : ℕ) (fn : List ℕ)
    → IsName fn
    → with_name make (replicate n 32 ++ fn) ≡ make fn
unfolding with_name strlen
with_name-name make n fn h = rw (
  skip_spaces-name n fn h.first,
  h.whole,
  h.whole,
  ne→== (length fn) 0 (λ e. omega (arith, h.some_byte)),
)

-- What is typed for a command, with any number of spaces before a name that `cmd` has room for, is
-- taken for that command.
pub parse_command-print_command :
    (n : ℕ) (c : Command)
    → IsTyped c
    → length (print_command n c) < 256
    → parse_command (print_command n c) ≡ c
unfolding parse_command str_eq c_str chperm_command
parse_command-print_command n help h fits = refl
parse_command-print_command n quit h fits = refl
parse_command-print_command n list h fits = refl
parse_command-print_command n unknown h fits = absurd h
parse_command-print_command n (create fn) h fits = with_name-name create n fn h
parse_command-print_command n (remove fn) h fits = with_name-name remove n fn h
parse_command-print_command n (read fn) h fits = with_name-name read n fn h
parse_command-print_command n (write fn) h fits = with_name-name write n fn h
parse_command-print_command n (chperm perm fn) h fits =
    let low : leb b'0' (b'0' + perm) ≡ true = le→leb b'0' (b'0' + perm) (omega arith) in
    let high : leb (b'0' + perm) b'7' ≡ true = le→leb (b'0' + perm) b'7' (omega (arith, h.0)) in
    let digit : (b'0' + perm) - b'0' ≡ perm = omega arith in
    rw (low, high, digit) (with_name-name (chperm perm) n fn h.1)
