-- ===== src/Partition/Sectors.antt =====
-- partition.c sector by sector: which sectors it writes, and with what.
use linuxpedia.Prelude.{
  ℕ, zero, suc, ◌+◌, ◌*◌, ◌/◌, ◌==◌, false, Bool-cases, ltb, ltb→lt, ltb→ge, ==→ne, ◌≤◌, ◌≡◌, refl,
  sym, ap, ◌∙◌, List, [], ◌∷◌, length, replicate, take, slice, splice, overwrite, inl, inr,
  length-splice, slice-splice_self, slice-splice_before, slice-splice_after, length-take, arith,
}
use linuxpedia.Partition.{
  sector_size, PartTable, encode_number, encode_table, def_part_table, def_log_parts, signature,
  copy_mbr, copy_br, copy_brs, copy_mbr_n_br,
}

-- The boot record of a table.
abbrev pub boot_record : (long : ℕ) → PartTable → List ℕ
boot_record long table =
    splice (splice (replicate sector_size 0) 446 (take 64 (encode_table long table))) 510 signature

-- The master boot record.
abbrev pub master_record : (long : ℕ) → List ℕ
master_record long =
    let signed = splice (replicate sector_size 0) 440 (encode_number long 0x36E5756D) in
    splice (splice signed 446 (take 64 (encode_table long def_part_table))) 510 signature

overwrite-splice :
    (disk xs : List ℕ) (o : ℕ) (ys : List ℕ)
    → o + length ys ≤ length xs
    → length xs ≤ length disk
    → splice (overwrite disk xs) o ys ≡ overwrite disk (splice xs o ys)
overwrite-splice [] [] zero ys h g = refl
overwrite-splice [] [] (suc o) ys h g = refl
overwrite-splice [] (x ∷ xs) o ys h g = absurd (omega arith)
overwrite-splice (d ∷ disk) [] zero [] h g = refl
overwrite-splice (d ∷ disk) [] zero (y ∷ ys) h g = absurd (omega arith)
overwrite-splice (d ∷ disk) [] (suc o) ys h g = absurd (omega arith)
overwrite-splice (d ∷ disk) (x ∷ xs) zero [] h g = refl
overwrite-splice (d ∷ disk) (x ∷ xs) zero (y ∷ ys) h g =
    ap (◌∷◌ y) (overwrite-splice disk xs zero ys (omega arith) (omega arith))
overwrite-splice (d ∷ disk) (x ∷ xs) (suc o) ys h g =
    ap (◌∷◌ x) (overwrite-splice disk xs o ys (omega arith) (omega arith))

-- What is stored inside a block that was stored before.
splice-splice_inside :
    (disk : List ℕ) (at : ℕ) (xs : List ℕ) (o : ℕ) (ys : List ℕ)
    → o + length ys ≤ length xs
    → at + length xs ≤ length disk
    → splice (splice disk at xs) (at + o) ys ≡ splice disk at (splice xs o ys)
splice-splice_inside disk zero xs o ys h g =
    ap (λ n. splice (overwrite disk xs) n ys) (omega arith)
    ∙ overwrite-splice disk xs o ys h (omega arith)
splice-splice_inside [] (suc at) xs o ys h g = absurd (omega arith)
splice-splice_inside (d ∷ disk) (suc at) xs o ys h g =
    ap (λ n. splice (d ∷ splice disk at xs) n ys) (add at o)
    ∙ ap (◌∷◌ d) (splice-splice_inside disk at xs o ys h (omega arith))
  where
    add : (a b : ℕ) → suc a + b ≡ suc (a + b)
    add a b = omega arith

copy_br-splice :
    (long : ℕ) (disk : List ℕ) (cylinder : ℕ) (table : PartTable)
    → cylinder * 32 * sector_size + sector_size ≤ length disk
    → copy_br long disk cylinder table
      ≡ splice disk (cylinder * 32 * sector_size) (boot_record long table)
unfolding copy_br
copy_br-splice long disk cylinder table inside =
    let at = cylinder * 32 * sector_size in
    let bytes = take 64 (encode_table long table) in
    let small : 446 + length bytes ≤ 512 =
      omega (arith, length-take 64 (encode_table long table)) in
    let tabled = splice (replicate sector_size 0) 446 bytes in
    ap (λ d. splice d (at + 510) signature)
      (splice-splice_inside disk at (replicate sector_size 0) 446 bytes small (omega arith))
    ∙ splice-splice_inside disk at tabled 510 signature
        (omega (arith, length-splice (replicate sector_size 0) 446 bytes))
        (omega (arith, length-splice (replicate sector_size 0) 446 bytes))

length-encode_number : (n number : ℕ) → length (encode_number n number) ≡ n
length-encode_number zero number = refl
length-encode_number (suc n) number = ap suc (length-encode_number n (number / 256))

copy_mbr-splice :
    (long : ℕ) (disk : List ℕ)
    → long ≤ 8
    → sector_size ≤ length disk
    → copy_mbr long disk ≡ splice disk 0 (master_record long)
unfolding copy_mbr
copy_mbr-splice long disk fits inside =
    let name = encode_number long 0x36E5756D in
    let bytes = take 64 (encode_table long def_part_table) in
    let clear = replicate sector_size 0 in
    let signed = splice clear 440 name in
    let tabled = splice signed 446 bytes in
    let size₁ : length signed ≡ 512 = length-splice clear 440 name in
    let size₂ : length tabled ≡ 512 = length-splice signed 446 bytes ∙ size₁ in
    let small₁ : 440 + length name ≤ 512 = omega (arith, length-encode_number long 0x36E5756D) in
    let small₂ : 446 + length bytes ≤ 512 =
      omega (arith, length-take 64 (encode_table long def_part_table)) in
    ap (λ d. splice (splice d 446 bytes) 510 signature)
      (splice-splice_inside disk 0 clear 440 name small₁ (omega arith))
    ∙ ap (λ d. splice d 510 signature)
        (splice-splice_inside disk 0 signed 446 bytes (omega (arith, size₁, small₂))
          (omega (arith, size₁)))
    ∙ splice-splice_inside disk 0 tabled 510 signature (omega (arith, size₂)) (omega (arith, size₂))

pub length-boot_record : (long : ℕ) (table : PartTable) → length (boot_record long table) ≡ 512
length-boot_record long table =
    let bytes = take 64 (encode_table long table) in
    let clear = replicate sector_size 0 in
    length-splice (splice clear 446 bytes) 510 signature ∙ length-splice clear 446 bytes

pub length-master_record : (long : ℕ) → length (master_record long) ≡ 512
length-master_record long =
    let clear = replicate sector_size 0 in
    let signed = splice clear 440 (encode_number long 0x36E5756D) in
    let bytes = take 64 (encode_table long def_part_table) in
    length-splice (splice signed 446 bytes) 510 signature
    ∙ length-splice signed 446 bytes
    ∙ length-splice clear 440 (encode_number long 0x36E5756D)

-- The bytes of a sector.
abbrev pub sector : List ℕ → ℕ → List ℕ
sector disk n = slice disk (n * sector_size) sector_size

-- The disk after the sectors `writes` have been written.
abbrev pub write_sectors : List ℕ → List (ℕ × List ℕ) → List ℕ
write_sectors disk [] = disk
write_sectors disk ((n, block) ∷ writes) =
    write_sectors (splice disk (n * sector_size) block) writes

-- The boot records that copy_brs writes.
abbrev pub record_sectors : (long : ℕ) → List (ℕ × PartTable) → List (ℕ × List ℕ)
record_sectors long [] = []
record_sectors long ((cylinder, table) ∷ parts) =
    (cylinder * 32, boot_record long table) ∷ record_sectors long parts

-- The sectors that copy_mbr_n_br writes.
abbrev pub table_sectors : (long : ℕ) → List (ℕ × List ℕ)
table_sectors long = (0, master_record long) ∷ record_sectors long def_log_parts

abbrev AreInside : ℕ → List (ℕ × PartTable) → Type 0
AreInside size [] = Unit
AreInside size ((cylinder, table) ∷ parts) =
    (cylinder * 32 * sector_size + sector_size ≤ size) × AreInside size parts

copy_brs-write_sectors :
    (long : ℕ) (disk : List ℕ) (parts : List (ℕ × PartTable))
    → AreInside (length disk) parts
    → copy_brs long disk parts ≡ write_sectors disk (record_sectors long parts)
copy_brs-write_sectors long disk [] inside = refl
copy_brs-write_sectors long disk ((cylinder, table) ∷ parts) (first, inside) =
    let at = cylinder * 32 * sector_size in
    let disk' = splice disk at (boot_record long table) in
    ap (λ d. copy_brs long d parts) (copy_br-splice long disk cylinder table first)
    ∙ copy_brs-write_sectors long disk' parts
        (rw (length-splice disk at (boot_record long table)) inside)

pub copy_mbr_n_br-write_sectors :
    (long : ℕ) (disk : List ℕ)
    → long ≤ 8
    → length disk ≡ 1024 * sector_size
    → copy_mbr_n_br long disk ≡ write_sectors disk (table_sectors long)
unfolding copy_mbr_n_br
copy_mbr_n_br-write_sectors long disk fits size =
    ap (λ d. copy_brs long d def_log_parts) (copy_mbr-splice long disk fits (omega (arith, size)))
    ∙ copy_brs-write_sectors long (splice disk 0 (master_record long)) def_log_parts (
        rw (length-splice disk 0 (master_record long), size)
          (omega arith, (omega arith, (omega arith, _))))

-- None of the writes, which are all of whole sectors, is to sector `n`.
abbrev pub AreElsewhere : (n : ℕ) → List (ℕ × List ℕ) → Type 0
AreElsewhere n [] = Unit
AreElsewhere n ((m, block) ∷ writes) =
    ((n == m) ≡ false) × (length block ≡ sector_size) × AreElsewhere n writes

sector-splice_other :
    (disk : List ℕ) (n m : ℕ) (block : List ℕ)
    → (n == m) ≡ false
    → length block ≡ sector_size
    → sector (splice disk (m * sector_size) block) n ≡ sector disk n
sector-splice_other disk n m block other size = elim (Bool-cases (ltb n m)) [
  | inl e ↦
      slice-splice_before disk (m * sector_size) block (n * sector_size) sector_size
        (ground (arith, ltb→lt n m e))
  | inr e ↦
      slice-splice_after disk (m * sector_size) block (n * sector_size) sector_size
        (ground (arith, size, ltb→ge n m e, ==→ne n m other))
]

pub sector-write_sectors_other :
    (disk : List ℕ) (n : ℕ) (writes : List (ℕ × List ℕ))
    → AreElsewhere n writes
    → sector (write_sectors disk writes) n ≡ sector disk n
sector-write_sectors_other disk n [] h = refl
sector-write_sectors_other disk n ((m, block) ∷ writes) (other, size, h) =
    sector-write_sectors_other (splice disk (m * sector_size) block) n writes h
    ∙ sector-splice_other disk n m block other size

pub sector-write_sectors_first :
    (disk : List ℕ) (n : ℕ) (block : List ℕ) (writes : List (ℕ × List ℕ))
    → length block ≡ sector_size
    → n * sector_size + sector_size ≤ length disk
    → AreElsewhere n writes
    → sector (write_sectors disk ((n, block) ∷ writes)) n ≡ block
sector-write_sectors_first disk n block writes size inside h =
    sector-write_sectors_other (splice disk (n * sector_size) block) n writes h
    ∙ slice-splice_self disk (n * sector_size) block sector_size (sym size) inside
