-- ===== src/Chardev/Reads.antt =====
-- What device_read of chardev.c gives, whatever the pieces in which the message is read.
use linuxpedia.Prelude.{
  ℕ, zero, suc, ◌+◌, ◌≡◌, refl, ◌∙◌, sym, ap, ap₂, length-append, inl, inr, List, [], ◌∷◌, ◌++◌,
  get_or, drop, take, length, ◌==◌, arith, Bool-cases, true,
}
use linuxpedia.Prelude.CString.{c_str}
use linuxpedia.Chardev.{Device, read_loop, device_read}

pub read_loop-take : (n : ℕ) (xs : List ℕ) → read_loop n xs ≡ take n (c_str xs)
unfolding read_loop c_str
read_loop-take zero xs = refl
read_loop-take (suc n) [] = refl
read_loop-take (suc n) (x ∷ xs) = ground (arith, read_loop-take n xs)

read_loop-nul : (n : ℕ) (xs : List ℕ) → (get_or xs 0 0 == 0) ≡ true → read_loop n xs ≡ []
unfolding read_loop
read_loop-nul zero xs h = refl
read_loop-nul (suc n) [] h = refl
read_loop-nul (suc n) (x ∷ xs) h = ground arith

read_loop-nil : (n : ℕ) → read_loop n [] ≡ []
unfolding read_loop
read_loop-nil zero = refl
read_loop-nil (suc n) = refl

pub drop-nil : (n : ℕ) → drop {A = ℕ} n [] ≡ []
drop-nil zero = refl
drop-nil (suc n) = refl

read_loop-append :
    (n m : ℕ) (xs : List ℕ)
    → read_loop (n + m) xs ≡ read_loop n xs ++ read_loop m (drop (length (read_loop n xs)) xs)
unfolding read_loop
read_loop-append zero m xs = ap (λ k. read_loop k xs) (omega arith)
read_loop-append (suc n) m [] = read_loop-nil (suc n + m) ∙ sym (read_loop-nil m)
read_loop-append (suc n) m (x ∷ xs) =
    ap (λ k. read_loop k (x ∷ xs)) (e n m) ∙ elim (Bool-cases (x == 0)) [
      | inl z ↦ rw z (sym (read_loop-nul m (x ∷ xs) z))
      | inr z ↦ rw z (ap (◌∷◌ x) (read_loop-append n m xs))
    ]
  where
    e : (n m : ℕ) → suc n + m ≡ suc (n + m)
    e n m = omega arith

drop-add : (a b : ℕ) (xs : List ℕ) → drop b (drop a xs) ≡ drop (a + b) xs
drop-add zero b xs = ap (λ k. drop k xs) (omega arith)
drop-add (suc a) b [] = drop-nil b ∙ sym (drop-nil (suc a + b))
drop-add (suc a) b (x ∷ xs) = drop-add a b xs ∙ ap (λ k. drop k (x ∷ xs)) (e a b)
  where
    e : (a b : ℕ) → suc (a + b) ≡ suc a + b
    e a b = omega arith

-- The bytes from the read position on.
abbrev pub rest : Device → List ℕ
rest d = drop d.message_ptr (d.message ++ d.behind)

-- A read moves the position by what it gives, and changes nothing else.
pub device_read-read_loop :
    (d : Device) (n : ℕ)
    → device_read d n ≡ (
      read_loop n (rest d),
      record d { message_ptr = d.message_ptr + length (read_loop n (rest d)) },
    )
unfolding device_read
device_read-read_loop d n = elim (Bool-cases (get_or (rest d) 0 0 == 0)) [
  | inl e ↦
      rw (e, read_loop-nul n (rest d) e)
        (ap (λ k. ([], record d { message_ptr = k })) (omega arith))
  | inr e ↦ rw e
]

device_read-twice :
    (d : Device) (n m : ℕ)
    → (let bytes = read_loop n (rest d) in
        let more = read_loop m (drop (length bytes) (rest d)) in
        device_read (device_read d n).1 m
        ≡ (more, record d { message_ptr = d.message_ptr + length bytes + length more }))
device_read-twice d n m =
    let l = length (read_loop n (rest d)) in
    ap (λ p. device_read p.1 m) (device_read-read_loop d n)
    ∙ device_read-read_loop (record d { message_ptr = d.message_ptr + l }) m
    ∙ ap
        (λ ys.
          (read_loop m ys, record d { message_ptr = d.message_ptr + l + length (read_loop m ys) }))
        (sym (drop-add d.message_ptr l (d.message ++ d.behind)))

-- Reading `n` bytes and then `m` gives the bytes that one read of `n + m` gives, and leaves the
-- device as that read does: a message comes out whole however it is cut into reads.
pub device_read-append :
    (d : Device) (n m : ℕ)
    → ((device_read d (n + m)).0 ≡ (device_read d n).0 ++ (device_read (device_read d n).1 m).0)
      × ((device_read (device_read d n).1 m).1.message_ptr
          ≡ d.message_ptr + length (device_read d (n + m)).0)
device_read-append d n m =
    let bytes = read_loop n (rest d) in
    let more = read_loop m (drop (length bytes) (rest d)) in
    let whole : (device_read d (n + m)).0 ≡ bytes ++ more =
      ap (λ p. p.0) (device_read-read_loop d (n + m)) ∙ read_loop-append n m (rest d) in
    (
      whole ∙ sym (ap₂ (λ p q. p.0 ++ q.0) (device_read-read_loop d n) (device_read-twice d n m)),
      ap (λ p. p.1.message_ptr) (device_read-twice d n m)
          ∙ omega (arith, length-append bytes more)
          ∙ ap (λ ys. d.message_ptr + length ys) (sym whole),
    )
