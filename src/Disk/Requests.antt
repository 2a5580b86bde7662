-- ===== src/Disk/Requests.antt =====
-- rb_open and rb_request of ram_block.c, and a queue of requests against the partition tables that
-- ramdevice_init has put on the disk.
use linuxpedia.Prelude.{
  ℕ, suc, ◌+◌, ◌*◌, ◌/◌, ◌≤◌, ◌<◌, ◌≡◌, ◌⊎◌, inl, inr, refl, ◌∙◌, ap, Bool, true, false, List, [],
  ◌∷◌, length, take, length-take, slice-splice_before, slice-splice_after, arith, if◌then◌else◌,
  ltb,
}
use linuxpedia.Prelude.Int.{ℤ, pos, neg_enodev}
use linuxpedia.Disk.{ramdevice_write, transfer_loop, rb_transfer}
use linuxpedia.Disk.Transfers.{sector_count}
use linuxpedia.Partition.{sector_size, copy_mbr_n_br}
use linuxpedia.Partition.Sectors.{sector}
use linuxpedia.Partition.Reader.{read_table, disk_layout}
use linuxpedia.Partition.Layout.{copy_mbr_n_br-HasTables, read_table-HasTables}

abbrev pub rb_minor_cnt : ℕ
rb_minor_cnt = 16

abbrev pub rb_open : (unit : ℕ) → ℤ
rb_open unit = if ltb rb_minor_cnt unit then neg_enodev else pos 0

-- A request: its direction, the sectors that it is about, and the segments' buffers.
pub record Request : Type 0 where
  pub write : Bool
  pub start_sector : ℕ
  pub sector_cnt : ℕ
  pub segments : List (List ℕ)

-- What a request is ended with, and its buffers then.
pub record Ended : Type 0 where
  pub ret : ℤ
  pub segments : List (List ℕ)

-- The requests that blk_fetch_request gives until the queue is empty.
abbrev pub rb_request : List Request → (dev_data : List ℕ) → List Ended × List ℕ
rb_request [] dev = ([], dev)
rb_request (r ∷ requests) dev =
    let (ret, segments, dev') = rb_transfer r.write r.start_sector r.sector_cnt r.segments dev in
    let (ended, dev'') = rb_request requests dev' in
    (record { ret = ret; segments = segments } ∷ ended, dev'')

-- Sector `n` is not among `count` sectors from `first` on.
abbrev IsOutside : (n first count : ℕ) → Type 0
IsOutside n first count = (n < first) ⊎ (first + count ≤ n)

ramdevice_write-outside :
    (n first : ℕ) (a dev : List ℕ)
    → IsOutside n first (length a / 512)
    → sector (ramdevice_write dev first a (length a / 512)) n ≡ sector dev n
ramdevice_write-outside n first a dev (inl below) =
    slice-splice_before dev (first * 512) (take (length a / 512 * 512) a) (n * 512) 512
      (omega arith)
ramdevice_write-outside n first a dev (inr above) =
    slice-splice_after dev (first * 512) (take (length a / 512 * 512) a) (n * 512) 512
      (omega (arith, length-take (length a / 512 * 512) a))

head-IsOutside : (n first here rest : ℕ) → IsOutside n first (here + rest) → IsOutside n first here
head-IsOutside n first here rest (inl below) = inl below
head-IsOutside n first here rest (inr above) = inr (omega arith)

tail-IsOutside :
    (n start off here rest : ℕ)
    → IsOutside n (start + off) (here + rest)
    → IsOutside n (start + (off + here)) rest
tail-IsOutside n start off here rest (inl below) = inl (omega arith)
tail-IsOutside n start off here rest (inr above) = inr (omega arith)

transfer_loop-outside :
    (n start off : ℕ) (ret : ℤ) (xss : List (List ℕ)) (dev : List ℕ)
    → IsOutside n (start + off) (sector_count xss)
    → sector (transfer_loop true start off ret xss dev).dev_data n ≡ sector dev n
unfolding transfer_loop
transfer_loop-outside n start off ret [] dev h = refl
transfer_loop-outside n start off ret (a ∷ xss) dev h =
    let s = length a / 512 in
    transfer_loop-outside n start (off + s) _ xss (ramdevice_write dev (start + off) a s)
      (tail-IsOutside n start off s (sector_count xss) h)
    ∙ ramdevice_write-outside n (start + off) a dev
        (head-IsOutside n (start + off) s (sector_count xss) h)

transfer_loop-reads :
    (start off : ℕ) (ret : ℤ) (xss : List (List ℕ)) (dev : List ℕ)
    → (transfer_loop false start off ret xss dev).dev_data ≡ dev
unfolding transfer_loop
transfer_loop-reads start off ret [] dev = refl
transfer_loop-reads start off ret (a ∷ xss) dev =
    transfer_loop-reads start (off + length a / 512) _ xss dev

-- What a request writes does not reach sector `n`.
abbrev pub DoesSpare : (n : ℕ) → (write : Bool) → (start count : ℕ) → Type 0
DoesSpare n false start count = Unit
DoesSpare n true start count = (n < start) ⊎ (start + count ≤ n)

abbrev pub AreSparing : (n : ℕ) → List Request → Type 0
AreSparing n [] = Unit
AreSparing n (r ∷ requests) =
    DoesSpare n r.write r.start_sector (sector_count r.segments) × AreSparing n requests

transfer_loop-DoesSpare :
    (write : Bool) (n start : ℕ) (xss : List (List ℕ)) (dev : List ℕ)
    → DoesSpare n write start (sector_count xss)
    → sector (transfer_loop write start 0 (pos 0) xss dev).dev_data n ≡ sector dev n
transfer_loop-DoesSpare false n start xss dev h =
    ap (λ d. sector d n) (transfer_loop-reads start 0 (pos 0) xss dev)
transfer_loop-DoesSpare true n start xss dev (inl below) =
    transfer_loop-outside n start 0 (pos 0) xss dev (inl (omega arith))
transfer_loop-DoesSpare true n start xss dev (inr above) =
    transfer_loop-outside n start 0 (pos 0) xss dev (inr (omega arith))

rb_request-AreSparing :
    (n : ℕ) (requests : List Request) (dev : List ℕ)
    → AreSparing n requests
    → sector (rb_request requests dev).1 n ≡ sector dev n
unfolding rb_transfer
rb_request-AreSparing n [] dev h = refl
rb_request-AreSparing n (r ∷ requests) dev (here, h) =
    let t = transfer_loop r.write r.start_sector 0 (pos 0) r.segments dev in
    rb_request-AreSparing n requests t.dev_data h
    ∙ transfer_loop-DoesSpare r.write n r.start_sector r.segments dev here

length-ended :
    (requests : List Request) (dev : List ℕ) → length (rb_request requests dev).0 ≡ length requests
length-ended [] dev = refl
length-ended (r ∷ requests) dev = ap suc (length-ended requests _)

-- Where an `unsigned long` has 4 bytes, and whatever vmalloc found for the 1024 sectors: after a
-- queue of requests of which none writes to sector 0, 320, 448 or 576, the disk is still
-- partitioned as ramdevice_init has it, and each request has been ended once.
pub read_table-rb_request :
    (requests : List Request) (dev : List ℕ)
    → length dev ≡ 1024 * sector_size
    → AreSparing 0 requests
    → AreSparing 320 requests
    → AreSparing 448 requests
    → AreSparing 576 requests
    → (let (ended, disk) = rb_request requests (copy_mbr_n_br 4 dev) in
        (read_table (sector disk) ≡ disk_layout) × (length ended ≡ length requests))
read_table-rb_request requests dev size o₀ o₁ o₂ o₃ =
    let new = copy_mbr_n_br 4 dev in
    let h = copy_mbr_n_br-HasTables dev size in
    (
      read_table-HasTables (rb_request requests new).1 (record {
        master = rb_request-AreSparing 0 requests new o₀ ∙ h.master;
        first = rb_request-AreSparing 320 requests new o₁ ∙ h.first;
        second = rb_request-AreSparing 448 requests new o₂ ∙ h.second;
        third = rb_request-AreSparing 576 requests new o₃ ∙ h.third;
      }),
      length-ended requests new,
    )
