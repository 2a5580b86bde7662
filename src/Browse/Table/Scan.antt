-- ===== src/Browse/Table/Scan.antt =====
-- A partition that holds a file table, and the scans of browse_sfs.c over it.
use linuxpedia.Prelude.{
  ℕ, suc, ◌+◌, ◌*◌, ◌%◌, ◌^◌, ◌≤◌, ◌<◌, ◌≡◌, refl, sym, ap, ap₂, ◌∙◌, Option, none, some, List, [],
  ◌∷◌, length, get_or, slice, overwrite-all, arith, ◌==◌, inl, inr, Bool-cases,
}
use linuxpedia.Prelude.CString.{str_eq}
use linuxpedia.Sfs.Layout.{
  SuperBlock, FileEntry, IsEntry, u32_mod, zero_entry, name_first, encode_entry, decode_entry,
}
use linuxpedia.Sfs.Layout.RoundTrip.{length-encode_entry, decode_entry-encode_entry}
use linuxpedia.Sfs.Entries.Refine.{zero_entry-IsEntry}
use linuxpedia.Sfs.Directory.{find_from, find}
use linuxpedia.Browse.Handle.{Browser, lseek_set, read_entry_here, table_offset, entry_offset_of}
use linuxpedia.Browse.Table.{lookup_scan, sfs_lookup}

-- A layout as mkfs makes it, on a partition of `size` bytes, less than 2 GB.
pub record IsLaidOut (sb : SuperBlock) (size : ℕ) : Type 0 where
  pub block : sb.block_size ≡ 512
  pub entry : sb.entry_size ≡ 64
  pub first : 0 < sb.entry_table_block_start
  pub table : sb.entry_table_block_start * 512 + sb.entry_count * 64 ≤ sb.data_block_start * 512
  pub area : sb.data_block_start ≤ sb.partition_size
  pub inside : sb.partition_size * 512 ≤ size
  pub small : size < 2 ^ 31

-- The place of entry `i`.
abbrev pub slot : SuperBlock → ℕ → ℕ
slot sb i = sb.entry_table_block_start * 512 + i * 64

pub record HasEntries (bytes : List ℕ) (sb : SuperBlock) (es : List FileEntry) : Type 0 where
  pub layout : IsLaidOut sb (length bytes)
  pub count : length es ≡ sb.entry_count
  pub stored :
      (i : ℕ) → i < length es → slice bytes (slot sb i) 64 ≡ encode_entry (get_or es i zero_entry)
  pub entries : (i : ℕ) → i < length es → IsEntry (get_or es i zero_entry)

-- Every block number in these entries is below `n`.
abbrev pub AllBelow : ℕ → List ℕ → Type 0
AllBelow n [] = Unit
AllBelow n (b ∷ bs) = (b < n) × AllBelow n bs

abbrev pub BlocksBelow : ℕ → List FileEntry → Type 0
BlocksBelow n [] = Unit
BlocksBelow n (x ∷ xs) = AllBelow n x.blocks × BlocksBelow n xs

abbrev pub moved : Browser → ℕ → Browser
moved b p = record b { pos = p }

pub lseek_set-moved :
    (b : Browser) (p : ℕ) → p ≤ length b.bytes → p < 2 ^ 31 → lseek_set b p ≡ moved b p
unfolding lseek_set
lseek_set-moved b p h small = elim (Bool-cases b.wide) [
  | inl e ↦ rw e (ground arith)
  | inr e ↦ rw e (ground arith)
]

-- From position `p` on the bytes are those of these entries.
abbrev pub Spells : List ℕ → ℕ → List FileEntry → Type 0
Spells bytes p [] = Unit
Spells bytes p (x ∷ xs) = (slice bytes p 64 ≡ encode_entry x) × IsEntry x × Spells bytes (p + 64) xs

Spells-from :
    (bytes : List ℕ) (p : ℕ) (xs : List FileEntry)
    → ((i : ℕ)
        → i < length xs
        → (slice bytes (p + i * 64) 64 ≡ encode_entry (get_or xs i zero_entry))
          × IsEntry (get_or xs i zero_entry))
    → Spells bytes p xs
Spells-from bytes p [] h = tt
Spells-from bytes p (x ∷ xs) h = (
  ap (λ q. slice bytes q 64) (omega arith) ∙ (h 0 (omega arith)).0,
  (h 0 (omega arith)).1,
  Spells-from bytes (p + 64) xs (λ i lt. (
    ap (λ q. slice bytes q 64) (omega arith) ∙ (h (suc i) (omega arith)).0,
    (h (suc i) (omega arith)).1,
  )),
)

pub HasEntries-Spells :
    {bytes : List ℕ} {sb : SuperBlock} {es : List FileEntry}
    → HasEntries bytes sb es
    → Spells bytes (slot sb 0) es
HasEntries-Spells {bytes} {sb} {es} h =
    Spells-from bytes (slot sb 0) es
      (λ i lt. (ap (λ q. slice bytes q 64) (omega arith) ∙ h.stored i lt, h.entries i lt))

pub read_entry_here-entry :
    (b : Browser) (fe x : FileEntry)
    → IsEntry fe
    → IsEntry x
    → slice b.bytes b.pos 64 ≡ encode_entry x
    → read_entry_here b fe ≡ (x, moved b (b.pos + 64))
unfolding read_entry_here
read_entry_here-entry b fe x v w e = rw e (
    ap₂ (λ y n. (y, moved b (b.pos + n)))
      (ap decode_entry (
          overwrite-all (encode_entry fe) (encode_entry x)
            (length-encode_entry fe v ∙ sym (length-encode_entry x w)))
        ∙ decode_entry-encode_entry x w)
      (length-encode_entry x w))

-- The results of a lookup for what the directory finds; only the position changes.
abbrev pub Finds : Option (ℕ × FileEntry) → Browser → Option ℕ × FileEntry × Browser → Type 0
Finds none b (found, fe, b') = (found ≡ none) × (b' ≡ moved b b'.pos)
Finds (some (i, x)) b (found, fe, b') = (found ≡ some i) × (fe ≡ x) × (b' ≡ moved b b'.pos)

Finds-moved :
    (o : Option (ℕ × FileEntry)) (b : Browser) (p : ℕ) (r : Option ℕ × FileEntry × Browser)
    → Finds o (moved b p) r
    → Finds o b r
Finds-moved none b p r h = h
Finds-moved (some (i, x)) b p r h = h

lookup_scan-Finds :
    (fn : List ℕ) (i : ℕ) (xs : List FileEntry) (fe : FileEntry) (b : Browser)
    → Spells b.bytes b.pos xs
    → IsEntry fe
    → Finds (find_from i fn xs) b (lookup_scan fn (length xs) i fe b)
unfolding lookup_scan find_from
lookup_scan-Finds fn i [] fe b h v = (refl, refl)
lookup_scan-Finds fn i (x ∷ xs) fe b h v =
    let ih = lookup_scan-Finds fn (suc i) xs x (moved b (b.pos + 64)) h.2 h.1 in
    rw (read_entry_here-entry b fe x v h.1 h.0) (elim (Bool-cases (name_first x == 0)) [
      | inl e ↦ rw e (Finds-moved (find_from (suc i) fn xs) b (b.pos + 64) _ ih)
      | inr e ↦ elim (Bool-cases (str_eq x.name fn)) [
        | inl s ↦ rw (e, s) (refl, refl, refl)
        | inr s ↦ rw (e, s) (Finds-moved (find_from (suc i) fn xs) b (b.pos + 64) _ ih)
      ]
    ])

pub table_offset-slot :
    {sb : SuperBlock} {size : ℕ} → IsLaidOut sb size → table_offset sb ≡ slot sb 0
table_offset-slot {sb} l =
    ap (λ k. sb.entry_table_block_start * k % u32_mod) l.block
    ∙ omega (arith, l.table, l.area, l.inside, l.small)

pub entry_offset_of-slot :
    {sb : SuperBlock} {size : ℕ}
    → IsLaidOut sb size
    → (i : ℕ) → i < sb.entry_count
    → entry_offset_of sb i ≡ slot sb i
entry_offset_of-slot {sb} l i lt =
    ap₂ (λ k n. (sb.entry_table_block_start * k + i * n) % u32_mod) l.block l.entry
    ∙ omega (arith, l.table, l.area, l.inside, l.small)

-- The scan starts at the first entry.
pub seek_table :
    (b : Browser)
    → IsLaidOut b.sb (length b.bytes)
    → lseek_set b (table_offset b.sb) ≡ moved b (slot b.sb 0)
seek_table b l =
    ap (lseek_set b) (table_offset-slot l)
    ∙ lseek_set-moved b (slot b.sb 0) (omega (arith, l.table, l.area, l.inside))
        (omega (arith, l.table, l.area, l.inside, l.small))

scan_count :
    (b : Browser) (es : List FileEntry) (fn : List ℕ) (n : ℕ)
    → length es ≡ n
    → Spells b.bytes b.pos es
    → Finds (find_from 0 fn es) b (lookup_scan fn n 0 zero_entry b)
scan_count b es fn n e h = rw (← e) (lookup_scan-Finds fn 0 es zero_entry b h zero_entry-IsEntry)

-- Only the position of the partition moves in a lookup, which finds what the directory finds.
pub sfs_lookup-Finds :
    (b : Browser) {es : List FileEntry} (fn : List ℕ)
    → HasEntries b.bytes b.sb es
    → Finds (find fn es) b (sfs_lookup b fn)
unfolding sfs_lookup find
sfs_lookup-Finds b {es} fn h = rw (seek_table b h.layout) (
    Finds-moved (find_from 0 fn es) b (slot b.sb 0) _
      (scan_count (moved b (slot b.sb 0)) es fn b.sb.entry_count h.count (HasEntries-Spells h)))
