-- ===== src/Partition/Examples.antt =====
-- Tests and examples of the partition tables.
use linuxpedia.Prelude.{
  ◌+◌, ◌||◌, if◌then◌else◌, ℕ, ◌*◌, ◌≡◌, refl, Bool, true, false, List, [], ◌∷◌, ◌&&◌, ◌==◌, leb,
  length, replicate, length-replicate,
}
use linuxpedia.Partition.{sector_size, copy_mbr_n_br}
use linuxpedia.Partition.Sectors.{sector, master_record}
use linuxpedia.Partition.Reader.{Found, found_at, disk_layout, read_table}
use linuxpedia.Partition.Layout.{read_table-copy_mbr_n_br}

-- The partitions that hold files lie one after the other, and by cylinders where they lie by number.
abbrev are_in_order : (from : ℕ) → List Found → Bool
are_in_order from [] = leb from 1024
are_in_order from (f ∷ fs) =
    let agree = (f.first == f.chs_first) && (f.last == f.chs_last) in
    let rest = are_in_order (if f.part_type == 5 then from else f.last + 1) fs in
    agree && (f.part_type == 5 || leb from f.first && leb f.first f.last) && rest

disk_layout_in_order : are_in_order 1 disk_layout ≡ true
disk_layout_in_order = refl

-- With 8 bytes for an `unsigned long` the first partition is read with no sectors.
master_record_long : (found_at (master_record 8) 0 446).last ≡ 0
master_record_long = refl

unfoldable empty_disk : List ℕ
empty_disk = replicate (1024 * sector_size) 0

length-empty_disk : length empty_disk ≡ 1024 * sector_size
unfolding empty_disk
length-empty_disk = length-replicate {A = ℕ} (1024 * sector_size) 0

read_table-copy_mbr_n_br_example :
    (read_table (sector (copy_mbr_n_br 4 empty_disk)) ≡ disk_layout)
    × ((n : ℕ)
        → (n == 0) ≡ false
        → (n == 320) ≡ false
        → (n == 448) ≡ false
        → (n == 576) ≡ false
        → sector (copy_mbr_n_br 4 empty_disk) n ≡ sector empty_disk n)
read_table-copy_mbr_n_br_example = read_table-copy_mbr_n_br empty_disk length-empty_disk
