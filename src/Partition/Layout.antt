-- ===== src/Partition/Layout.antt =====
-- What a system that reads the partition tables of partition.c finds on the disk.
use linuxpedia.Prelude.{
  ℕ, ◌*◌, ◌≡◌, refl, ap, ◌∙◌, false, List, [], ◌∷◌, ◌++◌, get_or, length, splice, length-splice,
  ◌==◌, arith,
}
use linuxpedia.Partition.{sector_size, PartTable, def_log_parts, copy_mbr_n_br}
use linuxpedia.Partition.Sectors.{
  sector, boot_record, master_record, record_sectors, table_sectors, write_sectors, AreElsewhere,
  length-boot_record, length-master_record, copy_mbr_n_br-write_sectors, sector-write_sectors_other,
  sector-write_sectors_first,
}
use linuxpedia.Partition.Reader.{read_chain, read_master, read_table, part, disk_layout}

-- The table and the boot record of logical partition `i`.
abbrev pub log_table : ℕ → PartTable
log_table i = (get_or def_log_parts i (0, [])).1

abbrev pub log_record : ℕ → List ℕ
log_record i = boot_record 4 (log_table i)

module _ (sector_of : ℕ → List ℕ) where
  chain_third :
      sector_of 576 ≡ log_record 2
      → read_chain 6 sector_of (sector_of 576) 320 576 ≡ part 0x83 577 639 ∷ []
  chain_third h = ap (λ b. read_chain 6 sector_of b 320 576) h

  chain_second :
      sector_of 448 ≡ log_record 1
      → sector_of 576 ≡ log_record 2
      → read_chain 7 sector_of (sector_of 448) 320 448
        ≡ part 0x83 449 575 ∷ part 0x05 576 639 ∷ part 0x83 577 639 ∷ []
  chain_second h₂ h₃ =
      ap (λ b. read_chain 7 sector_of b 320 448) h₂
      ∙ ap (λ rest. part 0x83 449 575 ∷ part 0x05 576 639 ∷ rest) (chain_third h₃)

  chain_first :
      sector_of 320 ≡ log_record 0
      → sector_of 448 ≡ log_record 1
      → sector_of 576 ≡ log_record 2
      → read_chain 8 sector_of (sector_of 320) 320 320
        ≡ part 0x83 321 447
          ∷ part 0x05 448 575
          ∷ part 0x83 449 575
          ∷ part 0x05 576 639
          ∷ part 0x83 577 639
          ∷ []
  chain_first h₁ h₂ h₃ =
      ap (λ b. read_chain 8 sector_of b 320 320) h₁
      ∙ ap (λ rest. part 0x83 321 447 ∷ part 0x05 448 575 ∷ rest) (chain_second h₂ h₃)

  read_table-disk_layout :
      sector_of 0 ≡ master_record 4
      → sector_of 320 ≡ log_record 0
      → sector_of 448 ≡ log_record 1
      → sector_of 576 ≡ log_record 2
      → read_table sector_of ≡ disk_layout
  read_table-disk_layout h₀ h₁ h₂ h₃ =
      ap (read_master sector_of) h₀
      ∙ ap (λ logical. part 0x83 1 319 ∷ part 0x05 320 639 ∷ logical ++ (part 0x83 640 1023 ∷ []))
          (chain_first h₁ h₂ h₃)

elsewhere :
    (n : ℕ)
    → (n == 320) ≡ false
    → (n == 448) ≡ false
    → (n == 576) ≡ false
    → AreElsewhere n (record_sectors 4 def_log_parts)
elsewhere n e₁ e₂ e₃ = (
  e₁,
  length-boot_record 4 (log_table 0),
  (e₂, length-boot_record 4 (log_table 1), (e₃, length-boot_record 4 (log_table 2), _)),
)

-- The four sectors of the tables.
pub record HasTables (disk : List ℕ) : Type 0 where
  pub master : sector disk 0 ≡ master_record 4
  pub first : sector disk 320 ≡ log_record 0
  pub second : sector disk 448 ≡ log_record 1
  pub third : sector disk 576 ≡ log_record 2

pub read_table-HasTables : (disk : List ℕ) → HasTables disk → read_table (sector disk) ≡ disk_layout
read_table-HasTables disk h = read_table-disk_layout (sector disk) h.master h.first h.second h.third

write_sectors-HasTables :
    (disk : List ℕ)
    → length disk ≡ 1024 * sector_size
    → HasTables (write_sectors disk (table_sectors 4))
write_sectors-HasTables disk size =
    let d₀ = splice disk 0 (master_record 4) in
    let d₁ = splice d₀ (320 * sector_size) (log_record 0) in
    let d₂ = splice d₁ (448 * sector_size) (log_record 1) in
    let size₀ : length d₀ ≡ 1024 * 512 = length-splice disk 0 (master_record 4) ∙ size in
    let size₁ : length d₁ ≡ 1024 * 512 = length-splice d₀ 163840 (log_record 0) ∙ size₀ in
    let size₂ : length d₂ ≡ 1024 * 512 = length-splice d₁ 229376 (log_record 1) ∙ size₁ in
    record {
      master =
          sector-write_sectors_first disk 0 (master_record 4) (record_sectors 4 def_log_parts)
            (length-master_record 4) (omega (arith, size)) (elsewhere 0 refl refl refl);
      first =
          sector-write_sectors_first d₀ 320 (log_record 0)
            ((448, log_record 1) ∷ (576, log_record 2) ∷ []) (length-boot_record 4 (log_table 0))
            (omega (arith, size₀))
            (
              refl,
              length-boot_record 4 (log_table 1),
              (refl, length-boot_record 4 (log_table 2), _),
            );
      second =
          sector-write_sectors_first d₁ 448 (log_record 1) ((576, log_record 2) ∷ [])
            (length-boot_record 4 (log_table 1)) (omega (arith, size₁))
            (refl, length-boot_record 4 (log_table 2), _);
      third =
          sector-write_sectors_first d₂ 576 (log_record 2) [] (length-boot_record 4 (log_table 2))
            (omega (arith, size₂)) _;
    }

pub copy_mbr_n_br-HasTables :
    (disk : List ℕ) → length disk ≡ 1024 * sector_size → HasTables (copy_mbr_n_br 4 disk)
copy_mbr_n_br-HasTables disk size =
    rw (copy_mbr_n_br-write_sectors 4 disk (omega arith) size) (write_sectors-HasTables disk size)

-- For an `unsigned long` of 4 bytes, whatever the 1024 sectors of the disk held: the tables that
-- copy_mbr_n_br leaves are read as `disk_layout`, whose sectors by number and by cylinder agree,
-- and no sector changes but 0, 320, 448 and 576.
pub read_table-copy_mbr_n_br :
    (disk : List ℕ)
    → length disk ≡ 1024 * sector_size
    → (read_table (sector (copy_mbr_n_br 4 disk)) ≡ disk_layout)
      × ((n : ℕ)
          → (n == 0) ≡ false
          → (n == 320) ≡ false
          → (n == 448) ≡ false
          → (n == 576) ≡ false
          → sector (copy_mbr_n_br 4 disk) n ≡ sector disk n)
read_table-copy_mbr_n_br disk size = (
  read_table-HasTables (copy_mbr_n_br 4 disk) (copy_mbr_n_br-HasTables disk size),
  λ n e₀ e₁ e₂ e₃.
      ap (λ d. sector d n) (copy_mbr_n_br-write_sectors 4 disk (omega arith) size)
      ∙ sector-write_sectors_other disk n (table_sectors 4)
          (e₀, length-master_record 4, elsewhere n e₁ e₂ e₃),
)
