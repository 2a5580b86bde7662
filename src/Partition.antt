-- ===== src/Partition.antt =====
-- lfy_dd_series/15_diskonrom/partition.c: the partition tables that a new RAM disk gets.
pub mod Reader
pub mod Layout
pub mod Sectors
mod Examples
use linuxpedia.Prelude.{
  ℕ, zero, suc, ◌+◌, ◌*◌, ◌/◌, ◌%◌, List, [], ◌∷◌, ◌++◌, replicate, take, splice,
}

abbrev pub sector_size : ℕ
sector_size = 512

-- Bit fields of one byte are packed from the lowest bit on.
pub record PartEntry : Type 0 where
  pub boot_type : ℕ
  pub start_head : ℕ
  pub start_sec : ℕ
  pub start_cyl_hi : ℕ
  pub start_cyl : ℕ
  pub part_type : ℕ
  pub end_head : ℕ
  pub end_sec : ℕ
  pub end_cyl_hi : ℕ
  pub end_cyl : ℕ
  pub abs_start_sec : ℕ
  pub sec_in_part : ℕ

-- A number in `n` bytes, the lowest first.
abbrev pub encode_number : (n number : ℕ) → List ℕ
encode_number zero number = []
encode_number (suc n) number = number % 256 ∷ encode_number n (number / 256)

-- An entry in memory, where an `unsigned long` has `long` bytes.
abbrev pub encode_part_entry : (long : ℕ) → PartEntry → List ℕ
encode_part_entry long e =
    (e.boot_type
      ∷ e.start_head
      ∷ (e.start_sec + 64 * e.start_cyl_hi)
      ∷ e.start_cyl
      ∷ e.part_type
      ∷ e.end_head
      ∷ (e.end_sec + 64 * e.end_cyl_hi)
      ∷ e.end_cyl
      ∷ [])
    ++ encode_number long e.abs_start_sec
    ++ encode_number long e.sec_in_part

-- `PartTable`, an array of 4 entries
abbrev pub PartTable : Type 0
PartTable = List PartEntry

abbrev pub encode_table : (long : ℕ) → PartTable → List ℕ
encode_table long [] = []
encode_table long (e ∷ es) = encode_part_entry long e ++ encode_table long es

-- An entry from cylinder `from`, sector `sec`, to the last sector of cylinder `upto`.
abbrev entry : (from sec type upto start count : ℕ) → PartEntry
entry from sec type upto start count = record {
  boot_type = 0;
  start_head = 0;
  start_sec = sec;
  start_cyl_hi = 0;
  start_cyl = from;
  part_type = type;
  end_head = 0;
  end_sec = 0x20;
  end_cyl_hi = 0;
  end_cyl = upto;
  abs_start_sec = start;
  sec_in_part = count;
}

-- An entry without an initialiser is all 0.
abbrev empty_entry : PartEntry
empty_entry = record {
  boot_type = 0;
  start_head = 0;
  start_sec = 0;
  start_cyl_hi = 0;
  start_cyl = 0;
  part_type = 0;
  end_head = 0;
  end_sec = 0;
  end_cyl_hi = 0;
  end_cyl = 0;
  abs_start_sec = 0;
  sec_in_part = 0;
}

abbrev pub def_part_table : PartTable
def_part_table =
    entry 0x00 0x2 0x83 0x09 0x001 0x13F
    ∷ entry 0x0A 0x1 0x05 0x13 0x140 0x140
    ∷ entry 0x14 0x1 0x83 0x1F 0x280 0x180
    ∷ empty_entry
    ∷ []

-- `def_log_part_br_cyl` and `def_log_part_table`, element by element.
abbrev pub def_log_parts : List (ℕ × PartTable)
def_log_parts =
    (
      0x0A,
      entry 0x0A 0x2 0x83 0x0D 0x01 0x7F
          ∷ entry 0x0E 0x1 0x05 0x11 0x80 0x80
          ∷ empty_entry
          ∷ empty_entry
          ∷ [],
    )
    ∷ (
      0x0E,
      entry 0x0E 0x2 0x83 0x11 0x01 0x7F
          ∷ entry 0x12 0x1 0x05 0x13 0x100 0x40
          ∷ empty_entry
          ∷ empty_entry
          ∷ [],
    )
    ∷ (0x12, entry 0x12 0x2 0x83 0x13 0x01 0x3F ∷ empty_entry ∷ empty_entry ∷ empty_entry ∷ [])
    ∷ []

-- MBR_SIGNATURE and BR_SIGNATURE as 2 bytes
abbrev pub signature : List ℕ
signature = 0x55 ∷ 0xAA ∷ []

-- memcpy copies PARTITION_TABLE_SIZE bytes of the table.
unfoldable pub copy_mbr : (long : ℕ) → (disk : List ℕ) → List ℕ
copy_mbr long disk =
    let cleared = splice disk 0 (replicate sector_size 0) in
    let signed = splice cleared 440 (encode_number long 0x36E5756D) in
    let tabled = splice signed 446 (take 64 (encode_table long def_part_table)) in
    splice tabled 510 signature

unfoldable pub copy_br : (long : ℕ) → (disk : List ℕ) → (start_cylinder : ℕ) → PartTable → List ℕ
copy_br long disk start_cylinder part_table =
    let at = start_cylinder * 32 * sector_size in
    let cleared = splice disk at (replicate sector_size 0) in
    let tabled = splice cleared (at + 446) (take 64 (encode_table long part_table)) in
    splice tabled (at + 510) signature

-- The loop of copy_mbr_n_br over the two arrays.
abbrev pub copy_brs : (long : ℕ) → (disk : List ℕ) → List (ℕ × PartTable) → List ℕ
copy_brs long disk [] = disk
copy_brs long disk ((cylinder, table) ∷ parts) =
    copy_brs long (copy_br long disk cylinder table) parts

unfoldable pub copy_mbr_n_br : (long : ℕ) → (disk : List ℕ) → List ℕ
copy_mbr_n_br long disk = copy_brs long (copy_mbr long disk) def_log_parts
