-- ===== src/Sfs/Directory/Change.antt =====
-- How a directory answers after a file has been created or removed.
use linuxpedia.Prelude.{
  ℕ, zero, suc, ◌≤◌, ◌<◌, ◌≡◌, refl, ◌≢◌, inl, inr, ap, sym, ◌∙◌, Bool, true, false, none, some,
  List, [], ◌∷◌, ◌++◌, set, get_or, length, ◌==◌, ==→eq, ==→ne, arith, Bool-cases, Option-cases,
  length-set, get_or-set_self, get_or-set_ne,
}
use linuxpedia.Prelude.CString.{
  c_str, strlen, strncpy, c_str-strncpy, eq→str_eq, str_eq→eq, strlen-strncpy, str_eq-strlen,
}
use linuxpedia.Sfs.Layout.{FileEntry, name_first, zero_entry}
use linuxpedia.Sfs.Entries.{new_entry}
use linuxpedia.Sfs.Directory.{
  in_use, named, find_from, find, first_unused, create_in, IsFound, Distinct,
}
use linuxpedia.Sfs.Directory.Laws.{find-none, find-absent, find-first, first_unused-some}

find_from-set :
    (k : ℕ) (fn : List ℕ) (es : List FileEntry) (i : ℕ) (x : FileEntry)
    → named fn (get_or es i zero_entry) ≡ false
    → named fn x ≡ false
    → find_from k fn (set es i x) ≡ find_from k fn es
unfolding find_from
find_from-set k fn [] i x h g = refl
find_from-set k fn (y ∷ ys) zero x h g = rw (h, g) refl
find_from-set k fn (y ∷ ys) (suc i) x h g = ground (arith, find_from-set (suc k) fn ys i x h g)

-- Replacing an entry that has another name by one that has another name.
pub find-set :
    (fn : List ℕ) (es : List FileEntry) (i : ℕ) (x : FileEntry)
    → named fn (get_or es i zero_entry) ≡ false
    → named fn x ≡ false
    → find fn (set es i x) ≡ find fn es
unfolding find
find-set fn es i x h g = find_from-set 0 fn es i x h g

-- A name that the 16 bytes of an entry can hold, and that does not mark it unused.
pub record Fits (fn : List ℕ) : Type 0 where
  pub nonempty : 0 < strlen fn
  pub short : strlen fn ≤ 15

name_first-new_entry :
    (fn : List ℕ) (perms now : ℕ)
    → 0 < strlen fn
    → (name_first (new_entry fn perms now) == 0) ≡ false
unfolding strlen strncpy c_str
name_first-new_entry [] perms now h = absurd (omega arith)
name_first-new_entry (x ∷ s) perms now h = ground arith

pub named-new_entry :
    (fn : List ℕ) (perms now : ℕ) → Fits fn → named fn (new_entry fn perms now) ≡ true
named-new_entry fn perms now f =
    rw (name_first-new_entry fn perms now f.nonempty)
      (eq→str_eq (strncpy 15 fn ++ (0 ∷ [])) fn (c_str-strncpy 15 fn f.short))

pub record Created (es : List FileEntry) (fn : List ℕ) (perms now i : ℕ) (es' : List FileEntry)
    : Type 0 where
  pub absent : find fn es ≡ none
  pub inside : i < length es
  pub unused : in_use (get_or es i zero_entry) ≡ false
  pub changed : es' ≡ set es i (new_entry fn perms now)

pub create_in-Created :
    (es : List FileEntry) (fn : List ℕ) (perms now i : ℕ) (es' : List FileEntry)
    → create_in es fn perms now ≡ some (i, es')
    → Created es fn perms now i es'
unfolding create_in
create_in-Created es fn perms now i es' h = elim (Option-cases (find fn es)) [
  | inr (p, e) ↦ absurd (ground arith)
  | inl e ↦ elim (Option-cases (first_unused es)) [
    | inl full ↦ absurd (ground arith)
    | inr (j, free) ↦
        let p : j ≡ i = ground arith in
        let r = first_unused-some es i (free ∙ ap some p) in
        record { absent = e; inside = r.0; unused = r.1; changed = ground arith }
  ]
]

module _ {es : List FileEntry} {fn : List ℕ} {perms now i : ℕ} {es' : List FileEntry}
    (c : Created es fn perms now i es') where
  -- A new file is found under its name, at the entry that it was given.
  pub find-create : Fits fn → find fn es' ≡ some (i, new_entry fn perms now)
  find-create f = rw c.changed (
      find-first fn (set es i (new_entry fn perms now)) i
        (omega (arith, length-set es i (new_entry fn perms now), c.inside))
        (rw self (named-new_entry fn perms now f))
        (λ j lt.
          rw (get_or-set_ne es i j (new_entry fn perms now) zero_entry (omega arith))
            (find-none fn es c.absent j (omega (arith, c.inside))))
      ∙ ap (λ x. some (i, x)) self)
    where
      self : get_or (set es i (new_entry fn perms now)) i zero_entry ≡ new_entry fn perms now
      self = get_or-set_self es i (new_entry fn perms now) zero_entry c.inside

named→c_str : (fn : List ℕ) (x : FileEntry) → named fn x ≡ true → c_str x.name ≡ c_str fn
named→c_str fn x h = str_eq→eq x.name fn (ground arith)

pub named→in_use : (fn : List ℕ) (x : FileEntry) → named fn x ≡ true → in_use x ≡ true
named→in_use fn x h = ground arith

c_str→named :
    (fn : List ℕ) (x : FileEntry) → in_use x ≡ true → c_str x.name ≡ c_str fn → named fn x ≡ true
c_str→named fn x h e = rw h (eq→str_eq x.name fn e)

unused→named : (fn : List ℕ) (x : FileEntry) → in_use x ≡ false → named fn x ≡ false
unused→named fn x h = rw h

not_true : (b : Bool) → ¬ (b ≡ true) → b ≡ false
not_true true h = absurd (h refl)
not_true false h = refl

module _ {es : List FileEntry} {fn : List ℕ} {perms now i : ℕ} {es' : List FileEntry}
    (c : Created es fn perms now i es') where
  -- Every other name is found as before.
  pub find-create_ne : (fn' : List ℕ) → Fits fn → c_str fn ≢ c_str fn' → find fn' es' ≡ find fn' es
  find-create_ne fn' f ne = rw c.changed (
      find-set fn' es i (new_entry fn perms now)
        (unused→named fn' (get_or es i zero_entry) c.unused)
        (not_true _
          λ h. ne (sym (c_str-strncpy 15 fn f.short) ∙ named→c_str fn' (new_entry fn perms now) h)))

  -- A name of more than 15 bytes is stored cut off, and is not found afterwards.
  pub find-create_long : 15 < strlen fn → find fn es' ≡ none
  find-create_long long = rw c.changed (
      find-set fn es i (new_entry fn perms now) (unused→named fn (get_or es i zero_entry) c.unused)
        (not_true _ λ h. absurd (
          omega (
            arith,
            str_eq-strlen (strncpy 15 fn ++ (0 ∷ [])) fn (ground arith),
            strlen-strncpy 15 fn (omega arith),
          )))
      ∙ c.absent)

-- Replacing an entry by one whose name no other entry in use has.
pub set-Distinct :
    (es : List FileEntry) (i : ℕ) (x : FileEntry)
    → i < length es
    → Distinct es
    → ((b : ℕ)
        → b < length es
        → i ≢ b
        → in_use x ≡ true
        → named x.name (get_or es b zero_entry) ≡ false)
    → ((a : ℕ)
        → a < length es
        → i ≢ a
        → in_use (get_or es a zero_entry) ≡ true
        → named (get_or es a zero_entry).name x ≡ false)
    → Distinct (set es i x)
set-Distinct es i x lt d first second a b la lb live same =
    let size = length-set es i x in
    elim (Bool-cases (i == a)) [
      | inl ea ↦ elim (Bool-cases (i == b)) [
        | inl eb ↦ sym (==→eq i a ea) ∙ ==→eq i b eb
        | inr nb ↦
            let live' : in_use x ≡ true =
              rw (← ==→eq i a ea, get_or-set_self es i x zero_entry lt) at live in
            let same' : named x.name (get_or es b zero_entry) ≡ true =
              rw
                (
                  ← ==→eq i a ea,
                  get_or-set_self es i x zero_entry lt,
                  get_or-set_ne es i b x zero_entry (==→ne i b nb),
                )
                at same in
            absurd (clash (first b (omega (arith, size)) (==→ne i b nb) live') same')
      ]
      | inr na ↦
          let live' : in_use (get_or es a zero_entry) ≡ true =
            rw (get_or-set_ne es i a x zero_entry (==→ne i a na)) at live in
          elim (Bool-cases (i == b)) [
            | inl eb ↦
                let same' : named (get_or es a zero_entry).name x ≡ true =
                  rw
                    (
                      ← ==→eq i b eb,
                      get_or-set_self es i x zero_entry lt,
                      get_or-set_ne es i a x zero_entry (==→ne i a na),
                    )
                    at same in
                absurd (clash (second a (omega (arith, size)) (==→ne i a na) live') same')
            | inr nb ↦
                let same' : named (get_or es a zero_entry).name (get_or es b zero_entry) ≡ true =
                  rw
                    (
                      get_or-set_ne es i b x zero_entry (==→ne i b nb),
                      get_or-set_ne es i a x zero_entry (==→ne i a na),
                    )
                    at same in
                d a b (omega (arith, size)) (omega (arith, size)) live' same'
          ]
    ]
  where
    clash : {b : Bool} → b ≡ false → b ≡ true → ⊥
    clash p q = cc

module _ {es : List FileEntry} {fn : List ℕ} {perms now i : ℕ} {es' : List FileEntry}
    (c : Created es fn perms now i es') where
  -- A created file does not give two entries one name.
  pub create-Distinct : Fits fn → Distinct es → Distinct es'
  create-Distinct f d = rw c.changed (
      set-Distinct es i new c.inside d
        (λ b lt ne live. not_true _ λ h. absurd (
          cc (
            find-none fn es c.absent b lt,
            c_str→named fn (get_or es b zero_entry)
                (named→in_use new.name (get_or es b zero_entry) h)
                (named→c_str new.name (get_or es b zero_entry) h ∙ c_str-strncpy 15 fn f.short),
          )))
        (λ a lt ne live. not_true _ λ h. absurd (
          cc (
            find-none fn es c.absent a lt,
            c_str→named fn (get_or es a zero_entry) live (
                sym (named→c_str (get_or es a zero_entry).name new h)
                ∙ c_str-strncpy 15 fn f.short),
          ))))
    where
      new : FileEntry
      new = new_entry fn perms now

module _ {es : List FileEntry} {fn : List ℕ} {i : ℕ} {x : FileEntry} (r : IsFound i fn es x) where
  -- Where no two entries have one name, a removed name is not found any more.
  pub find-remove : Distinct es → find fn (set es i zero_entry) ≡ none
  find-remove d = find-absent fn (set es i zero_entry) (λ j lt. elim (Bool-cases (i == j)) [
    | inl e ↦ rw (← ==→eq i j e, get_or-set_self es i zero_entry zero_entry r.inside) refl
    | inr ne ↦ rw (get_or-set_ne es i j zero_entry zero_entry (==→ne i j ne)) (
        not_true _ λ h. ==→ne i j ne (
          d i j r.inside (omega (arith, length-set es i zero_entry))
            (rw r.here (named→in_use fn x r.has_name))
            (rw r.here (
              c_str→named x.name (get_or es j zero_entry)
                (named→in_use fn (get_or es j zero_entry) h)
                (named→c_str fn (get_or es j zero_entry) h ∙ sym (named→c_str fn x r.has_name))))))
  ])

  -- Every other name is found as before.
  pub find-remove_ne :
      (fn' : List ℕ) → c_str fn ≢ c_str fn' → find fn' (set es i zero_entry) ≡ find fn' es
  find-remove_ne fn' ne =
      find-set fn' es i zero_entry
        (rw r.here (not_true _ λ h. ne (sym (named→c_str fn x r.has_name) ∙ named→c_str fn' x h)))
        refl

  pub remove-Distinct : Distinct es → Distinct (set es i zero_entry)
  remove-Distinct d =
      set-Distinct es i zero_entry r.inside d (λ b lt ne live. absurd (cc)) (λ a lt ne live. refl)

-- Replacing an entry by one of the same name.
pub Distinct-same_name :
    (es : List FileEntry) (i : ℕ) (x : FileEntry)
    → i < length es
    → x.name ≡ (get_or es i zero_entry).name
    → Distinct es
    → Distinct (set es i x)
Distinct-same_name es i x lt e d =
    set-Distinct es i x lt d
      (λ b lb ne live. not_true _ λ h. ne (d i b lt lb (rw (← e) live) (rw (← e) h)))
      (λ a la ne live. not_true _ λ h. ne (sym (d a i la lt live (rw (← e) h))))
