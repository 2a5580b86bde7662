-- ===== src/Exclusive.antt =====
-- A character device that one file can have open, as the drivers that keep a flag for it are used:
-- their operations as an interface, and what a sequence of calls then answers.
pub mod Parallel
pub mod Greeting
pub mod Drivers
mod Examples
use linuxpedia.Prelude.{
  ℕ, zero, suc, ◌+◌, ◌-◌, ◌≡◌, refl, Bool, true, false, List, [], ◌∷◌, ◌==◌, ap, ap₂, arith,
}
use linuxpedia.Prelude.Int.{ℤ, pos, neg_ebusy}

-- `uses` is the flag of the driver, and `on_call` is any call but open and release.
pub record Exclusive (S Call : Type 0) : Type 0 where
  pub on_open : S → ℤ × S
  pub on_release : S → ℤ × S
  pub on_call : Call → S → S
  pub uses : S → ℕ
  pub open-free : (s : S) → uses s ≡ 0 → ((on_open s).0 ≡ pos 0) × (uses (on_open s).1 ≡ 1)
  pub open-busy : (s : S) → (uses s == 0) ≡ false → on_open s ≡ (neg_ebusy, s)
  pub release-uses : (s : S) → uses (on_release s).1 ≡ uses s - 1
  pub call-uses : (c : Call) (s : S) → uses (on_call c s) ≡ uses s

-- What reaches the driver: an open that is tried, the release of an open file, another call.
pub data Event (Call : Type 0) : Type 0 where
  opens releases : Event Call
  calls : Call → Event Call

-- The kernel releases only a file that is open; `held` says whether there is one.
abbrev pub AreFair : {Call : Type 0} → Bool → List (Event Call) → Type 0
AreFair held [] = Unit
AreFair held (opens ∷ es) = AreFair true es
AreFair true (releases ∷ es) = AreFair false es
AreFair false (releases ∷ es) = ⊥
AreFair held (calls c ∷ es) = AreFair held es

-- What the opens answer where there is nothing but a lock.
abbrev pub lock_codes : {Call : Type 0} → Bool → List (Event Call) → List ℤ
lock_codes held [] = []
lock_codes true (opens ∷ es) = neg_ebusy ∷ lock_codes true es
lock_codes false (opens ∷ es) = pos 0 ∷ lock_codes true es
lock_codes held (releases ∷ es) = lock_codes false es
lock_codes held (calls c ∷ es) = lock_codes held es

-- 1 for a lock that is held.
abbrev pub holders : Bool → ℕ
holders true = 1
holders false = 0

module _ {S Call : Type 0} (e : Exclusive S Call) where
  -- What the driver answers to the opens.
  abbrev pub open_codes : S → List (Event Call) → List ℤ
  open_codes s [] = []
  open_codes s (opens ∷ es) = (e.on_open s).0 ∷ open_codes (e.on_open s).1 es
  open_codes s (releases ∷ es) = open_codes (e.on_release s).1 es
  open_codes s (calls c ∷ es) = open_codes (e.on_call c s) es

  pub open_codes-lock_codes_of :
      (held : Bool) (s : S) (es : List (Event Call))
      → e.uses s ≡ holders held
      → AreFair held es
      → open_codes s es ≡ lock_codes held es
  open_codes-lock_codes_of held s [] h fair = refl
  open_codes-lock_codes_of true s (opens ∷ es) h fair =
      let busy = e.open-busy s (ap (λ n. n == 0) h) in
      ap₂ (◌∷◌) (ap (λ p. p.0) busy)
        (open_codes-lock_codes_of true (e.on_open s).1 es (rw busy h) fair)
  open_codes-lock_codes_of false s (opens ∷ es) h fair =
      let (code, used) = e.open-free s h in
      ap₂ (◌∷◌) code (open_codes-lock_codes_of true (e.on_open s).1 es used fair)
  open_codes-lock_codes_of true s (releases ∷ es) h fair =
      open_codes-lock_codes_of false (e.on_release s).1 es (omega (arith, e.release-uses s, h)) fair
  open_codes-lock_codes_of false s (releases ∷ es) h fair = elim fair [ ]
  open_codes-lock_codes_of held s (calls c ∷ es) h fair =
      open_codes-lock_codes_of held (e.on_call c s) es (rw (e.call-uses c s) h) fair
