-- ===== src/Chardev/Client/Loop.antt =====
-- The loop of ioctl.c over the bytes of the message.
use linuxpedia.Prelude.{
  ℕ, zero, suc, ◌+◌, ◌<◌, ◌≡◌, refl, ap, ◌∙◌, false, Option, none, some, List, [], ◌∷◌, ◌++◌,
  length, length-append, get_or, drop, ◌==◌, ltb, if◌then◌else◌, arith, inl, inr, Bool-cases,
  lt→ltb, ==→eq,
}
use mathlib.Core.Path.{subst}
use linuxpedia.Prelude.Int.{ℤ, pos, negsuc}
use linuxpedia.Prelude.CString.{c_str}
use linuxpedia.Chardev.{Device, device_ioctl, char_to_int}
use linuxpedia.Chardev.Client.{
  Line, get_nth_byte_message, get_nth_byte_failed, putchar, nth_byte_loop, get_nth_byte,
}

-- What the loop prints of these bytes of kernel memory, the first of which has number `i`.
unfoldable pub said : ℕ → List ℕ → Line
said i [] = get_nth_byte_message (0 ∷ [])
said i (c ∷ cs) =
    let rest = said (i + 1) cs in
    if ltb c 128
    then (if c == 0 then get_nth_byte_message (0 ∷ []) else putchar c rest)
    else get_nth_byte_failed [] (i + 1)

get_or-drop : (xs : List ℕ) (i : ℕ) → get_or xs i 0 ≡ get_or (drop i xs) 0 0
get_or-drop [] zero = refl
get_or-drop [] (suc i) = refl
get_or-drop (x ∷ xs) zero = refl
get_or-drop (x ∷ xs) (suc i) = get_or-drop xs i

drop-suc : (xs : List ℕ) (i : ℕ) → drop (suc i) xs ≡ drop 1 (drop i xs)
drop-suc [] zero = refl
drop-suc [] (suc i) = refl
drop-suc (x ∷ xs) zero = refl
drop-suc (x ∷ xs) (suc i) = drop-suc xs i

drop-next : (xs : List ℕ) (i : ℕ) → drop (i + 1) xs ≡ drop 1 (drop i xs)
drop-next xs i = ap (λ n. drop n xs) (add i) ∙ drop-suc xs i
  where
    add : (i : ℕ) → i + 1 ≡ suc i
    add i = omega arith

-- The loop at byte `i`, given what the ioctl answers.
abbrev turn : Option Line → ℕ → ℤ → Option Line
turn rest i (negsuc _) = some (get_nth_byte_failed [] (i + 1))
turn rest i (pos c) =
    if c == 0
    then some (get_nth_byte_message (0 ∷ []))
    else elim rest [ none ↦ none | some line ↦ some (putchar c line) ]

turn-elim :
    (rest : Option Line) (i : ℕ) (z : ℤ)
    → elim z [
      | negsuc _ ↦ some (get_nth_byte_failed [] (i + 1))
      | pos c ↦
          if c == 0
          then some (get_nth_byte_message (0 ∷ []))
          else elim rest [ none ↦ none | some line ↦ some (putchar c line) ]
    ]
      ≡ turn rest i z
turn-elim rest i (pos c) = refl
turn-elim rest i (negsuc n) = refl

turn-byte :
    (i c : ℕ) (cs : List ℕ)
    → turn (some (said (i + 1) cs)) i (char_to_int c) ≡ some (said i (c ∷ cs))
unfolding said
turn-byte i c cs = elim (Bool-cases (ltb c 128)) [ inl e ↦ rw e (ground arith) | inr e ↦ rw e refl ]

nth_byte_loop-turn :
    (fuel i : ℕ) (d : Device) (xs : List ℕ)
    → drop i (d.message ++ d.behind) ≡ xs
    → nth_byte_loop (suc fuel) i d
      ≡ turn (nth_byte_loop fuel (i + 1) d) i (char_to_int (get_or xs 0 0))
unfolding nth_byte_loop device_ioctl
nth_byte_loop-turn fuel i d xs e =
    let rest = nth_byte_loop fuel (i + 1) d in
    turn-elim rest i (char_to_int (get_or (d.message ++ d.behind) i 0))
    ∙ ap (λ c. turn rest i (char_to_int c))
        (get_or-drop (d.message ++ d.behind) i ∙ ap (λ ys. get_or ys 0 0) e)

nth_byte_loop-said :
    (fuel i : ℕ) (d : Device) (xs : List ℕ)
    → drop i (d.message ++ d.behind) ≡ xs
    → length xs < fuel
    → nth_byte_loop fuel i d ≡ some (said i xs)
unfolding said
nth_byte_loop-said zero i d xs e h = absurd (omega arith)
nth_byte_loop-said (suc fuel) i d [] e h = nth_byte_loop-turn fuel i d [] e
nth_byte_loop-said (suc fuel) i d (c ∷ cs) e h =
    let later =
      nth_byte_loop-said fuel (i + 1) d cs (drop-next (d.message ++ d.behind) i ∙ ap (drop 1) e)
        (omega (arith, h)) in
    nth_byte_loop-turn fuel i d (c ∷ cs) e
    ∙ ap (λ rest. turn rest i (char_to_int c)) later
    ∙ turn-byte i c cs

-- The loop of ioctl_get_nth_byte ends: it prints the bytes of the kernel's memory from the start of
-- the message up to the first 0, which it prints too, or up to the first byte of 128 or more, at
-- which it fails.
pub get_nth_byte-said : (d : Device) → get_nth_byte d ≡ some (said 0 (d.message ++ d.behind))
unfolding get_nth_byte
get_nth_byte-said d =
    nth_byte_loop-said (length d.message + length d.behind + 1) 0 d (d.message ++ d.behind) refl
      (omega (arith, length-append d.message d.behind))

abbrev pub AllAscii : List ℕ → Type 0
AllAscii [] = Unit
AllAscii (c ∷ cs) = (c < 128) × AllAscii cs

c_str-cons : (c : ℕ) (cs : List ℕ) → (c == 0) ≡ false → c_str (c ∷ cs) ≡ c ∷ c_str cs
unfolding c_str
c_str-cons c cs e = rw e refl

pub said-ascii :
    (i : ℕ) (xs : List ℕ)
    → AllAscii (c_str xs)
    → said i xs ≡ get_nth_byte_message (c_str xs ++ (0 ∷ []))
unfolding said c_str
said-ascii i [] h = refl
said-ascii i (c ∷ cs) h = elim (Bool-cases (c == 0)) [
  | inl e ↦ rw (lt→ltb c 128 (omega (arith, ==→eq c 0 e)), e) refl
  | inr e ↦
      let rest_too : AllAscii (c ∷ c_str cs) = subst AllAscii (c_str-cons c cs e) h in
      rw (lt→ltb c 128 rest_too.0, e) (ap (putchar c) (said-ascii (i + 1) cs rest_too.1))
]
