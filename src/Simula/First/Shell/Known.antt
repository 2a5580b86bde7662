-- ===== src/Simula/First/Shell/Known.antt =====
-- The commands of version 1.0 among those of version 3.0.
use linuxpedia.Prelude.{
  Bool, true, false, leb, ◌&&◌, ◌-◌, sym, ℕ, ◌≡◌, refl, List, [], ◌∷◌, get_or, drop, ◌==◌, inl, inr,
  Bool-cases, if◌then◌else◌,
}
use linuxpedia.Prelude.CString.{c_str, strlen, str_eq}
use linuxpedia.Browse.Shell
use linuxpedia.Browse.Shell.{
  Command, help, quit, list, unknown, create, remove, read, write, chperm, word_quit, word_list,
  word_create, word_remove, word_chperm, word_read, word_write, starts_with, skip_spaces, with_name,
  chperm_command,
}
use linuxpedia.Simula.First.Shell.{parse_command}

-- What version 1.0 makes of a command.
abbrev pub known : Command → Command
known (chperm perm fn) = unknown
known (read fn) = unknown
known (write fn) = unknown
known c = c

known-with_name :
    (make : List ℕ → Command) (rest : List ℕ)
    → ((fn : List ℕ) → known (make fn) ≡ unknown)
    → known (with_name make rest) ≡ unknown
unfolding with_name
known-with_name make rest h = elim (Bool-cases (strlen (c_str (skip_spaces rest)) == 0)) [
  | inl e ↦ rw e refl
  | inr e ↦ rw e (h (c_str (skip_spaces rest)))
]

known-with_name_same :
    (make : List ℕ → Command) (rest : List ℕ)
    → ((fn : List ℕ) → known (make fn) ≡ make fn)
    → with_name make rest ≡ known (with_name make rest)
unfolding with_name
known-with_name_same make rest h = elim (Bool-cases (strlen (c_str (skip_spaces rest)) == 0)) [
  | inl e ↦ rw e refl
  | inr e ↦ rw e (sym (h (c_str (skip_spaces rest))))
]

known-if :
    (b : Bool) (x y x' y' : Command)
    → x' ≡ known x
    → y' ≡ known y
    → (if b then x' else y') ≡ known (if b then x else y)
known-if true x y x' y' h g = h
known-if false x y x' y' h g = g

unknown-if :
    (b : Bool) (x y : Command)
    → known x ≡ unknown
    → known y ≡ unknown
    → known (if b then x else y) ≡ unknown
unknown-if true x y h g = h
unknown-if false x y h g = g

known-chperm_command : (cmd : List ℕ) → known (chperm_command cmd) ≡ unknown
unfolding chperm_command
known-chperm_command cmd =
    let digit = get_or cmd 7 0 in
    unknown-if (leb b'0' digit && leb digit b'7' && (get_or cmd 8 0 == 32))
      (with_name (chperm (digit - b'0')) (drop 9 cmd)) unknown
      (known-with_name (chperm (digit - b'0')) (drop 9 cmd) (λ fn. refl)) refl

-- What version 1.0 makes of a line is what it makes of the command that version 3.0 takes it for.
pub parse_command-known : (cmd : List ℕ) → parse_command cmd ≡ known (Shell.parse_command cmd)
unfolding parse_command Shell.parse_command
parse_command-known cmd =
    let rest = drop 7 cmd in
    let spaced = get_or cmd 6 0 == 32 in
    known-if (str_eq cmd (b'?' ∷ [])) _ _ _ _ refl (
      known-if (str_eq cmd word_quit) _ _ _ _ refl (
        known-if (str_eq cmd word_list) _ _ _ _ refl (
          known-if (starts_with word_create cmd) _ _ _ _
            (known-if spaced _ _ _ _ (known-with_name_same create rest (λ fn. refl)) refl)
            (known-if (starts_with word_remove cmd) _ _ _ _
              (known-if spaced _ _ _ _ (known-with_name_same remove rest (λ fn. refl)) refl)
              (sym (
                unknown-if (starts_with word_chperm cmd) _ _
                  (unknown-if spaced _ _ (known-chperm_command cmd) refl)
                  (unknown-if (starts_with word_read cmd) _ _
                    (unknown-if (get_or cmd 4 0 == 32) _ _
                      (known-with_name read (drop 5 cmd) (λ fn. refl)) refl)
                    (unknown-if (starts_with word_write cmd) _ _
                      (unknown-if (get_or cmd 5 0 == 32) _ _
                        (known-with_name write (drop 6 cmd) (λ fn. refl)) refl)
                      refl))))))))
