-- ===== src/Partition/Reader.antt =====
-- A reader of partition tables, as a system that finds the disk has it.
use linuxpedia.Prelude.{
  ℕ, zero, suc, ◌+◌, ◌-◌, ◌*◌, ◌/◌, ◌%◌, Bool, true, false, ◌&&◌, List, [], ◌∷◌, ◌++◌, get_or, ◌==◌,
}

-- An entry that is in use, with its sectors by their numbers and by cylinder and sector.
pub record Found : Type 0 where
  pub part_type : ℕ
  pub first : ℕ
  pub last : ℕ
  pub chs_first : ℕ
  pub chs_last : ℕ

-- The number in 4 bytes from `o` on.
abbrev pub number_at : List ℕ → ℕ → ℕ
number_at b o =
    get_or b o 0
    + 256 * get_or b (o + 1) 0
    + 65536 * get_or b (o + 2) 0
    + 16777216 * get_or b (o + 3) 0

-- One head, 32 sectors on a cylinder, counted from 1; the upper bits of `sec` belong to `cyl`.
abbrev pub chs : (sec cyl : ℕ) → ℕ
chs sec cyl = (cyl + 256 * (sec / 64)) * 32 + sec % 64 - 1

-- The entry at `o` of a boot record, whose first sector counts from `base`.
abbrev pub found_at : (b : List ℕ) (base o : ℕ) → Found
found_at b base o = record {
  part_type = get_or b (o + 4) 0;
  first = base + number_at b (o + 8);
  last = base + number_at b (o + 8) + number_at b (o + 12) - 1;
  chs_first = chs (get_or b (o + 2) 0) (get_or b (o + 3) 0);
  chs_last = chs (get_or b (o + 6) 0) (get_or b (o + 7) 0);
}

abbrev pub is_signed : List ℕ → Bool
is_signed b = (get_or b 510 0 == 0x55) && (get_or b 511 0 == 0xAA)

-- The chain of an extended partition that begins at `ext`, from the boot record `b` at `at` on: its
-- first entry counts from there, the second one, the link, from `ext`.
abbrev pub read_chain :
    (fuel : ℕ) → (sector_of : ℕ → List ℕ) → (b : List ℕ) (ext at : ℕ) → List Found
read_chain zero sector_of b ext at = []
read_chain (suc fuel) sector_of b ext at = elim (is_signed b) [
  | false ↦ []
  | true ↦ found_at b at 446 ∷ elim (get_or b 466 0 == 5) [
    | false ↦ []
    | true ↦
        let next = ext + number_at b 470 in
        found_at b ext 462 ∷ read_chain fuel sector_of (sector_of next) ext next
  ]
]

-- The entries of the master boot record `b` from `o` on, each followed by its chain.
abbrev pub read_entries : (left : ℕ) → (sector_of : ℕ → List ℕ) → (b : List ℕ) (o : ℕ) → List Found
read_entries zero sector_of b o = []
read_entries (suc left) sector_of b o = elim (get_or b (o + 4) 0 == 0) [
  | true ↦ read_entries left sector_of b (o + 16)
  | false ↦
      found_at b 0 o ∷ elim (get_or b (o + 4) 0 == 5) [
        | true ↦ let ext = number_at b (o + 8) in read_chain 8 sector_of (sector_of ext) ext ext
        | false ↦ []
      ]
      ++ read_entries left sector_of b (o + 16)
]

abbrev pub read_master : (sector_of : ℕ → List ℕ) → List ℕ → List Found
read_master sector_of b = elim (is_signed b) [ true ↦ read_entries 4 sector_of b 446 | false ↦ [] ]

abbrev pub read_table : (sector_of : ℕ → List ℕ) → List Found
read_table sector_of = read_master sector_of (sector_of 0)

abbrev pub part : (part_type first last : ℕ) → Found
part part_type first last = record {
  part_type = part_type;
  first = first;
  last = last;
  chs_first = first;
  chs_last = last;
}

-- Two partitions, and between them an extended one with three more, linked.
abbrev pub disk_layout : List Found
disk_layout =
    part 0x83 1 319
    ∷ part 0x05 320 639
    ∷ part 0x83 321 447
    ∷ part 0x05 448 575
    ∷ part 0x83 449 575
    ∷ part 0x05 576 639
    ∷ part 0x83 577 639
    ∷ part 0x83 640 1023
    ∷ []
