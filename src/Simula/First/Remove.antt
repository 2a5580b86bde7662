-- ===== src/Simula/First/Remove.antt =====
-- sfs_remove of part19.c, on machines with a 32-bit and with a 64-bit `off_t`.
use linuxpedia.Prelude.{
  ℕ, suc, ◌+◌, ◌-◌, ◌*◌, ◌≤◌, ◌<◌, ◌≡◌, refl, sym, ap, ◌∙◌, true, Option, none, some, List, [], ◌∷◌,
  length, splice, set, arith, ◌==◌, inl, inr, Bool-cases, eq→==, ne→==, min, false, if◌then◌else◌,
}
use mathlib.Core.Path.{subst}
use linuxpedia.Prelude.CString.{str_eq}
use linuxpedia.Sfs.Layout.{FileEntry, IsEntry, zero_entry, name_first, encode_entry}
use linuxpedia.Sfs.Entries.Refine.{zero_entry-IsEntry}
use linuxpedia.Sfs.Directory.{find_from, find}
use linuxpedia.Browse.Handle.{Browser, lseek_set, table_offset, write_bytes}
use linuxpedia.Browse.Table.{Reply, silent, doesnt_exist}
use linuxpedia.Browse.Table.Scan.{
  HasEntries, Spells, HasEntries-Spells, read_entry_here-entry, moved, slot, seek_table,
}
use linuxpedia.Browse.Table.Change.{HasEntries-set, HasEntries-after}
use linuxpedia.Browse.Table.Create.{target, back_one}
use linuxpedia.Simula.First.{remove_scan, remove_here, sfs_remove}

abbrev Ends : Option (ℕ × FileEntry) → ℕ → ℕ → Browser → ℕ × Browser → Type 0
Ends none i n b (e, b') = (e ≡ i + n) × (b' ≡ moved b b'.pos)
Ends (some (j, x)) i n b (e, b') =
    (e ≡ j) × (i ≤ j) × (j < i + n) × (b' ≡ moved b (b.pos + (suc j - i) * 64))

Ends-later :
    (o : Option (ℕ × FileEntry)) (i n : ℕ) (b : Browser) (r : ℕ × Browser)
    → Ends o (suc i) n (moved b (b.pos + 64)) r
    → Ends o i (suc n) b r
Ends-later none i n b r h = (h.0 ∙ omega arith, h.1)
Ends-later (some (j, x)) i n b r h =
    (h.0, omega (arith, h.1), omega (arith, h.2), h.3 ∙ ap (moved b) (omega (arith, h.1)))

remove_scan-Ends :
    (fn : List ℕ) (i : ℕ) (xs : List FileEntry) (fe : FileEntry) (b : Browser)
    → Spells b.bytes b.pos xs
    → IsEntry fe
    → Ends (find_from i fn xs) i (length xs) b (remove_scan fn (length xs) i fe b)
unfolding remove_scan find_from
remove_scan-Ends fn i [] fe b h v = (omega arith, refl)
remove_scan-Ends fn i (x ∷ xs) fe b h v =
    let ih =
      Ends-later (find_from (suc i) fn xs) i (length xs) b _
        (remove_scan-Ends fn (suc i) xs x (moved b (b.pos + 64)) h.2 h.1) in
    rw (read_entry_here-entry b fe x v h.1 h.0) (elim (Bool-cases (name_first x == 0)) [
      | inl e ↦ rw e ih
      | inr e ↦ elim (Bool-cases (str_eq x.name fn)) [
        | inl s ↦ rw (e, s) (refl, omega arith, omega arith, ap (λ p. moved b p) (omega arith))
        | inr s ↦ rw (e, s) ih
      ]
    ])

scan_count :
    (b : Browser) (es : List FileEntry) (fn : List ℕ) (n : ℕ)
    → length es ≡ n
    → Spells b.bytes b.pos es
    → Ends (find_from 0 fn es) 0 n b (remove_scan fn n 0 zero_entry b)
scan_count b es fn n e h = rw (← e) (remove_scan-Ends fn 0 es zero_entry b h zero_entry-IsEntry)

remove_here-stored :
    (b : Browser) (es : List FileEntry) (j : ℕ)
    → HasEntries b.bytes b.sb es
    → j < length es
    → (p : ℕ) × (remove_here j (moved b (slot b.sb (j + 1))) ≡ (
      silent,
      record b {
        bytes = splice b.bytes (slot b.sb (target b j)) (encode_entry zero_entry);
        pos = p;
      },
    ))
unfolding remove_here write_bytes
remove_here-stored b es j h lt =
    let place = slot b.sb (target b j) in
    (
      place + min (length (encode_entry zero_entry)) (length b.bytes - place),
      rw (
        ne→== j b.sb.entry_count (λ e. omega (arith, h.count)),
        back_one b j h.layout (omega (arith, h.count)),
      ),
    )

-- What sfs_remove must do where the directory finds this.
abbrev pub Removes : Option (ℕ × FileEntry) → Browser → List FileEntry → Reply × Browser → Type 0
Removes none b es (reply, b') = (reply ≡ doesnt_exist) × (b' ≡ moved b b'.pos)
Removes (some (j, x)) b es (reply, b') =
    (reply ≡ silent)
    × (b'.used_blocks ≡ b.used_blocks)
    × (b'.sb ≡ b.sb)
    × (target b j < length es → HasEntries b'.bytes b.sb (set es (target b j) zero_entry))
    × (target b j ≡ length es → HasEntries b'.bytes b.sb es)

sfs_remove-ended :
    (b : Browser) (es : List FileEntry) (o : Option (ℕ × FileEntry)) (r : ℕ × Browser)
    → HasEntries b.bytes b.sb es
    → Ends o 0 b.sb.entry_count (moved b (slot b.sb 0)) r
    → Removes o b es (remove_here r.0 r.1)
unfolding remove_here
sfs_remove-ended b es none r h ends =
    let at_end : r.0 ≡ b.sb.entry_count = ends.0 ∙ omega arith in
    let same : (r.0 == r.1.sb.entry_count) ≡ true =
      eq→== _ _ (at_end ∙ ap (λ c. c.sb.entry_count) (sym ends.1)) in
    rw same (refl, ends.1)
sfs_remove-ended b es (some (j, x)) r h ends =
    let (p, stored) = remove_here-stored b es j h (omega (arith, ends.2, h.count)) in
    let place : r.1 ≡ moved b (slot b.sb (j + 1)) = ends.3 ∙ ap (moved b) (omega arith) in
    subst (Removes (some (j, x)) b es)
      (sym (ap (λ i. remove_here i r.1) ends.0 ∙ ap (remove_here j) place ∙ stored))
      (
        refl,
        refl,
        refl,
        λ inside. HasEntries-set h (target b j) zero_entry inside zero_entry-IsEntry,
        λ past.
            subst (λ n. HasEntries (splice b.bytes (slot b.sb n) (encode_entry zero_entry)) b.sb es)
              (sym past) (HasEntries-after (encode_entry zero_entry) h),
      )

sfs_remove-Ends :
    (b : Browser) (es : List FileEntry) (fn : List ℕ)
    → HasEntries b.bytes b.sb es
    → Ends
        (find fn es)
        0
        b.sb.entry_count
        (moved b (slot b.sb 0))
        (remove_scan fn b.sb.entry_count 0 zero_entry (lseek_set b (table_offset b.sb)))
unfolding find
sfs_remove-Ends b es fn h =
    let n = b.sb.entry_count in
    let start = moved b (slot b.sb 0) in
    subst (λ c. Ends (find_from 0 fn es) 0 n start (remove_scan fn n 0 zero_entry c))
      (sym (seek_table b h.layout)) (scan_count start es fn n h.count (HasEntries-Spells h))

pub sfs_remove-Removes :
    (b : Browser) (es : List FileEntry) (fn : List ℕ)
    → HasEntries b.bytes b.sb es
    → Removes (find fn es) b es (sfs_remove b fn)
unfolding sfs_remove
sfs_remove-Removes b es fn h =
    let n = b.sb.entry_count in
    sfs_remove-ended b es (find fn es)
      (remove_scan fn n 0 zero_entry (lseek_set b (table_offset b.sb))) h
      (sfs_remove-Ends b es fn h)

-- Where `off_t` has 32 bits, it clears the entry of the file.
pub sfs_remove-narrow :
    (b : Browser) (es : List FileEntry) (fn : List ℕ) (j : ℕ) (x : FileEntry)
    → HasEntries b.bytes b.sb es
    → b.wide ≡ false
    → find fn es ≡ some (j, x)
    → (p : ℕ) × (sfs_remove b fn ≡ (
      silent,
      record b { bytes = splice b.bytes (slot b.sb j) (encode_entry zero_entry); pos = p },
    ))
unfolding sfs_remove
sfs_remove-narrow b es fn j x h narrow found =
    let start = lseek_set b (table_offset b.sb) in
    let r = remove_scan fn b.sb.entry_count 0 zero_entry start in
    let ends =
      subst (λ o. Ends o 0 b.sb.entry_count (moved b (slot b.sb 0)) r) found
        (sfs_remove-Ends b es fn h) in
    let (p, stored) = remove_here-stored b es j h (omega (arith, ends.2, h.count)) in
    let place : r.1 ≡ moved b (slot b.sb (j + 1)) = ends.3 ∙ ap (moved b) (omega arith) in
    let here : target b j ≡ j = ap (λ w. if w then j + 1 else j) narrow in
    (
      p,
      ap (λ i. remove_here i r.1) ends.0
          ∙ ap (remove_here j) place
          ∙ stored
          ∙ ap
              (λ i. (
                silent,
                record b {
                  bytes = splice b.bytes (slot b.sb i) (encode_entry zero_entry);
                  pos = p;
                },
              ))
              here,
    )
