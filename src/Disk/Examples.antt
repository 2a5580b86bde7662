-- ===== src/Disk/Examples.antt =====
-- A disk of two sectors and the kernel's answers to rb_init, and the theorems at them.
use linuxpedia.Prelude.{
  ℕ, ◌≡◌, refl, ◌⊎◌, ◌≤◌, ◌+◌, ◌*◌, true, false, List, [], ◌∷◌, replicate, length, length-replicate,
  inl, inr, arith,
}
use linuxpedia.Prelude.Int.{pos, negsuc, is_neg}
use linuxpedia.Disk.{nothing_held, Answers, rb_transfer, rb_init, rb_cleanup}
use linuxpedia.Disk.Transfers.{sector_count, Alike, alike_nil, alike_cons, rb_transfer-written}
use linuxpedia.Disk.Requests.{Request, rb_request, read_table-rb_request}
use linuxpedia.Partition.{copy_mbr_n_br}
use linuxpedia.Partition.Sectors.{sector}
use linuxpedia.Partition.Reader.{read_table, disk_layout}
use linuxpedia.Disk.Setup.{rb_init-frees, rb_init-unregistered}

abbrev disk : List ℕ
disk = replicate 1024 0

abbrev written_segments : List (List ℕ)
written_segments = replicate 512 7 ∷ []

abbrev read_segments : List (List ℕ)
read_segments = replicate 512 0 ∷ []

segments-Alike : Alike written_segments read_segments
segments-Alike = alike_cons refl refl alike_nil

inside_disk : (1 + sector_count written_segments) * 512 ≤ length disk
inside_disk = omega arith

rb_transfer-written_example :
    let written = rb_transfer true 1 (sector_count written_segments) written_segments disk in
    let read = rb_transfer false 1 (sector_count written_segments) read_segments written.2 in
    (written.0 ≡ pos 0) × (read.0 ≡ pos 0) × (read.1 ≡ written_segments)
rb_transfer-written_example =
    rb_transfer-written 1 written_segments read_segments disk segments-Alike inside_disk

abbrev no_major : Answers
no_major = record {
  vmalloc = true;
  register_blkdev = negsuc 15;
  init_queue = true;
  alloc_disk = true;
}

rb_init-frees_example :
    (((rb_init no_major).0 ≡ pos 0) × (rb_cleanup (rb_init no_major).1 ≡ nothing_held))
    ⊎ ((is_neg (rb_init no_major).0 ≡ true) × ((rb_init no_major).1 ≡ nothing_held))
rb_init-frees_example = rb_init-frees no_major

rb_init-unregistered_example : ((rb_init no_major).0 ≡ pos 0) × ((rb_init no_major).1.major ≡ false)
rb_init-unregistered_example = rb_init-unregistered no_major 15 refl (omega arith) refl refl refl

unfoldable large_disk : List ℕ
large_disk = replicate (1024 * 512) 0

length-large_disk : length large_disk ≡ 1024 * 512
unfolding large_disk
length-large_disk = length-replicate {A = ℕ} (1024 * 512) 0

-- A request that writes sector 1, and one that reads the tables.
abbrev two_requests : List Request
two_requests =
    record { write = true; start_sector = 1; sector_cnt = 1; segments = replicate 512 7 ∷ [] }
    ∷ record { write = false; start_sector = 0; sector_cnt = 1; segments = replicate 512 0 ∷ [] }
    ∷ []

read_table-rb_request_example :
    let (ended, after) = rb_request two_requests (copy_mbr_n_br 4 large_disk) in
    (read_table (sector after) ≡ disk_layout) × (length ended ≡ length two_requests)
read_table-rb_request_example =
    read_table-rb_request two_requests large_disk length-large_disk (inl (omega arith), (_, _))
      (inr (omega arith), (_, _)) (inr (omega arith), (_, _)) (inr (omega arith), (_, _))
