-- ===== src/Browse/Table/Create.antt =====
-- sfs_create of browse_sfs.c, on machines with a 32-bit and with a 64-bit `off_t`.
use linuxpedia.Prelude.{
  ℕ, suc, ◌+◌, ◌-◌, ◌*◌, ◌%◌, ◌≤◌, ◌<◌, ◌≡◌, refl, sym, ap, ◌∙◌, true, Option, none, some, List, [],
  ◌∷◌, length, splice, set, arith, ◌==◌, if◌then◌else◌, inl, inr, Bool-cases, eq→==, ne→==, min,
  take, take-splice_below,
}
use mathlib.Core.Path.{subst}
use linuxpedia.Prelude.CString.{str_eq}
use linuxpedia.Sfs.Layout.{FileEntry, IsEntry, u32_mod, zero_entry, name_first, encode_entry}
use linuxpedia.Sfs.Entries.{new_entry}
use linuxpedia.Sfs.Entries.Refine.{zero_entry-IsEntry, new_entry-IsEntry}
use linuxpedia.Browse.Handle.{Browser, lseek_cur, write_bytes}
use linuxpedia.Browse.Table.{
  Reply, silent, already_exists, no_entries_left, create_scan, create_here, sfs_create,
}
use linuxpedia.Browse.Table.Scan.{
  IsLaidOut, HasEntries, Spells, HasEntries-Spells, read_entry_here-entry, moved, slot, seek_table,
}
use linuxpedia.Browse.Table.Change.{HasEntries-set, HasEntries-after}

-- Where the scan for a new file stops: at the name, at an unused entry, or at the end.
pub data Stop : Type 0 where
  taken : Stop
  free : ℕ → Stop
  full : Stop

unfoldable pub stop_from : ℕ → List ℕ → List FileEntry → Stop
stop_from i fn [] = full
stop_from i fn (x ∷ xs) =
    let rest = stop_from (suc i) fn xs in
    if name_first x == 0 then free i else if str_eq x.name fn then taken else rest

abbrev Stops : Stop → ℕ → ℕ → Browser → Option ℕ × Browser → Type 0
Stops taken i n b (o, b') = (o ≡ none) × (b' ≡ moved b b'.pos)
Stops (free j) i n b (o, b') =
    (o ≡ some j) × (i ≤ j) × (j < i + n) × (b' ≡ moved b (b.pos + (suc j - i) * 64))
Stops full i n b (o, b') = (o ≡ some (i + n)) × (b' ≡ moved b b'.pos)

Stops-later :
    (s : Stop) (i n : ℕ) (b : Browser) (r : Option ℕ × Browser)
    → Stops s (suc i) n (moved b (b.pos + 64)) r
    → Stops s i (suc n) b r
Stops-later taken i n b r h = h
Stops-later (free j) i n b r h =
    (h.0, omega (arith, h.1), omega (arith, h.2), h.3 ∙ ap (moved b) (omega (arith, h.1)))
Stops-later full i n b r h = (h.0 ∙ ap some (omega arith), h.1)

create_scan-Stops :
    (fn : List ℕ) (i : ℕ) (xs : List FileEntry) (fe : FileEntry) (b : Browser)
    → Spells b.bytes b.pos xs
    → IsEntry fe
    → Stops (stop_from i fn xs) i (length xs) b (create_scan fn (length xs) i fe b)
unfolding create_scan stop_from
create_scan-Stops fn i [] fe b h v = (ap some (omega arith), refl)
create_scan-Stops fn i (x ∷ xs) fe b h v =
    let ih = create_scan-Stops fn (suc i) xs x (moved b (b.pos + 64)) h.2 h.1 in
    rw (read_entry_here-entry b fe x v h.1 h.0) (elim (Bool-cases (name_first x == 0)) [
      | inl e ↦ rw e (refl, omega arith, omega arith, ap (λ p. moved b p) (omega arith))
      | inr e ↦ elim (Bool-cases (str_eq x.name fn)) [
        | inl s ↦ rw (e, s) (refl, refl)
        | inr s ↦ rw (e, s) (Stops-later (stop_from (suc i) fn xs) i (length xs) b _ ih)
      ]
    ])

scan_count :
    (b : Browser) (es : List FileEntry) (fn : List ℕ) (n : ℕ)
    → length es ≡ n
    → Spells b.bytes b.pos es
    → Stops (stop_from 0 fn es) 0 n b (create_scan fn n 0 zero_entry b)
scan_count b es fn n e h = rw (← e) (create_scan-Stops fn 0 es zero_entry b h zero_entry-IsEntry)

-- The entry that a new file goes to if the scan has stopped at unused entry `j`: `-sb.entry_size`
-- is unsigned, so a 64-bit `off_t` makes it a step of 2 ^ 32 - 64, which is refused.
abbrev pub target : Browser → ℕ → ℕ
target b j = if b.wide then j + 1 else j

pub back_one :
    (b : Browser) (j : ℕ)
    → IsLaidOut b.sb (length b.bytes)
    → j < b.sb.entry_count
    → lseek_cur (moved b (slot b.sb (j + 1))) ((u32_mod - b.sb.entry_size) % u32_mod)
      ≡ moved b (slot b.sb (target b j))
unfolding lseek_cur
back_one b j l lt =
    let step : (u32_mod - b.sb.entry_size) % u32_mod ≡ 4294967232 =
      ap (λ n. (u32_mod - n) % u32_mod) l.entry in
    let near : slot b.sb (j + 1) ≤ length b.bytes = omega (arith, l.table, l.area, l.inside) in
    ap (lseek_cur (moved b (slot b.sb (j + 1)))) step ∙ elim (Bool-cases b.wide) [
      | inl e ↦ rw (e, lseek_cur) (ground arith)
      | inr e ↦ rw (e, lseek_cur) (ground arith)
    ]

create_here-stored :
    (b : Browser) (es : List FileEntry) (fn : List ℕ) (now j : ℕ)
    → HasEntries b.bytes b.sb es
    → j < length es
    → (p : ℕ) × (create_here fn now j (moved b (slot b.sb (j + 1))) ≡ (
      silent,
      record b {
        bytes = splice b.bytes (slot b.sb (target b j)) (encode_entry (new_entry fn 7 now));
        pos = p;
      },
    ))
unfolding create_here write_bytes
create_here-stored b es fn now j h lt =
    let place = slot b.sb (target b j) in
    (
      place + min (length (encode_entry (new_entry fn 7 now))) (length b.bytes - place),
      rw (
        ne→== j b.sb.entry_count (λ e. omega (arith, h.count)),
        back_one b j h.layout (omega (arith, h.count)),
      ),
    )

-- What sfs_create must do where the scan stops like this.
abbrev pub Creates : Stop → Browser → List FileEntry → List ℕ → ℕ → Reply × Browser → Type 0
Creates taken b es fn now (reply, b') = (reply ≡ already_exists) × (b' ≡ moved b b'.pos)
Creates full b es fn now (reply, b') = (reply ≡ no_entries_left) × (b' ≡ moved b b'.pos)
Creates (free j) b es fn now (reply, b') =
    (reply ≡ silent)
    × (b'.used_blocks ≡ b.used_blocks)
    × (b'.sb ≡ b.sb)
    × (b'.block ≡ b.block)
    × (take 512 b'.bytes ≡ take 512 b.bytes)
    × (target b j < length es → HasEntries b'.bytes b.sb (set es (target b j) (new_entry fn 7 now)))
    × (target b j ≡ length es → HasEntries b'.bytes b.sb es)

sfs_create-stopped :
    (b : Browser) (es : List FileEntry) (fn : List ℕ) (now : ℕ) (s : Stop) (r : Option ℕ × Browser)
    → HasEntries b.bytes b.sb es
    → Stops s 0 b.sb.entry_count (moved b (slot b.sb 0)) r
    → Creates s b es fn now
        (elim r.0 [ none ↦ (already_exists, r.1) | some i ↦ create_here fn now i r.1 ])
unfolding create_here
sfs_create-stopped b es fn now taken r h stops = rw stops.0 (refl, stops.1)
sfs_create-stopped b es fn now full r h stops =
    let at_end : r.0 ≡ some b.sb.entry_count = stops.0 ∙ ap some (omega arith) in
    let same : (b.sb.entry_count == r.1.sb.entry_count) ≡ true =
      eq→== _ _ (ap (λ c. c.sb.entry_count) (sym stops.1)) in
    rw (at_end, same) (refl, stops.1)
sfs_create-stopped b es fn now (free j) r h stops =
    let (p, stored) = create_here-stored b es fn now j h (omega (arith, stops.2, h.count)) in
    let place : r.1 ≡ moved b (slot b.sb (j + 1)) = stops.3 ∙ ap (moved b) (omega arith) in
    rw (stops.0, place, stored)
      (
        refl,
        refl,
        refl,
        refl,
        take-splice_below b.bytes (slot b.sb (target b j)) (encode_entry (new_entry fn 7 now)) 512
            (omega (arith, h.layout.first)),
        λ inside.
            HasEntries-set h (target b j) (new_entry fn 7 now) inside (new_entry-IsEntry fn 7 now),
        λ past.
            subst
              (λ n.
                HasEntries (splice b.bytes (slot b.sb n) (encode_entry (new_entry fn 7 now))) b.sb
                  es)
              (sym past) (HasEntries-after (encode_entry (new_entry fn 7 now)) h),
      )

pub sfs_create-Creates :
    (b : Browser) (es : List FileEntry) (fn : List ℕ) (now : ℕ)
    → HasEntries b.bytes b.sb es
    → Creates (stop_from 0 fn es) b es fn now (sfs_create b fn now)
unfolding sfs_create
sfs_create-Creates b es fn now h =
    let n = b.sb.entry_count in
    let start = moved b (slot b.sb 0) in
    let stops =
      subst (λ c. Stops (stop_from 0 fn es) 0 n start (create_scan fn n 0 zero_entry c))
        (sym (seek_table b h.layout)) (scan_count start es fn n h.count (HasEntries-Spells h)) in
    sfs_create-stopped b es fn now (stop_from 0 fn es) _ h stops
