-- ===== src/Disk.antt =====
-- The RAM disk of lfy_dd_series/15_diskonrom: ram_device.c, and rb_transfer, rb_init and
-- rb_cleanup of ram_block.c. The kernel gives no request beyond the capacity that is set.
pub mod Transfers
pub mod Setup
pub mod Requests
mod Examples
use linuxpedia.Prelude.{
  ℕ, ◌+◌, ◌*◌, ◌/◌, ◌%◌, Bool, true, false, ◌&&◌, not, List, [], ◌∷◌, length, take, slice, splice,
  overwrite, ◌==◌, if◌then◌else◌,
}
use linuxpedia.Prelude.Int.{ℤ, pos, is_neg, eq_ℤ, neg_eio, neg_enomem, neg_ebusy}
use linuxpedia.Sfs.Entries.{to_u32}

abbrev pub rb_sector_size : ℕ
rb_sector_size = 512

abbrev pub rb_device_size : ℕ
rb_device_size = 1024

-- `dev_data` after the call.
abbrev pub ramdevice_write :
    (dev_data : List ℕ) (sector_off : ℕ) (buffer : List ℕ) (sectors : ℕ) → List ℕ
ramdevice_write dev_data sector_off buffer sectors =
    splice dev_data (sector_off * rb_sector_size) (take (sectors * rb_sector_size) buffer)

-- `buffer` after the call.
abbrev pub ramdevice_read :
    (dev_data : List ℕ) (sector_off : ℕ) (buffer : List ℕ) (sectors : ℕ) → List ℕ
ramdevice_read dev_data sector_off buffer sectors =
    overwrite buffer (slice dev_data (sector_off * rb_sector_size) (sectors * rb_sector_size))

-- What the loop of rb_transfer leaves: `ret`, `sector_offset`, the segments' buffers and the disk.
pub record Transferred : Type 0 where
  pub ret : ℤ
  pub sector_offset : ℕ
  pub segments : List (List ℕ)
  pub dev_data : List ℕ

-- A segment is its buffer, of `bv_len` bytes.
unfoldable pub transfer_loop :
    (write : Bool) (start_sector sector_offset : ℕ) (ret : ℤ)
    → List (List ℕ)
    → (dev_data : List ℕ) → Transferred
transfer_loop write start offset ret [] dev = record {
  ret = ret;
  sector_offset = offset;
  segments = [];
  dev_data = dev;
}
transfer_loop write start offset ret (buffer ∷ segments) dev =
    let sectors = length buffer / rb_sector_size in
    let ret' = if length buffer % rb_sector_size == 0 then ret else neg_eio in
    let dev' = if write then ramdevice_write dev (start + offset) buffer sectors else dev in
    let buffer' = if write then buffer else ramdevice_read dev (start + offset) buffer sectors in
    let rest = transfer_loop write start (offset + sectors) ret' segments dev' in
    record rest { segments = buffer' ∷ rest.segments }

unfoldable pub rb_transfer :
    (write : Bool) (start_sector sector_cnt : ℕ)
    → List (List ℕ)
    → (dev_data : List ℕ) → ℤ × List (List ℕ) × List ℕ
unfolding transfer_loop
rb_transfer write start sector_cnt segments dev =
    let t = transfer_loop write start 0 (pos 0) segments dev in
    (if t.sector_offset == sector_cnt then t.ret else neg_eio, t.segments, t.dev_data)

-- What the driver holds.
pub record Held : Type 0 where
  pub memory : Bool
  pub major : Bool
  pub queue : Bool
  pub disk : Bool

abbrev pub nothing_held : Held
nothing_held = record { memory = false; major = false; queue = false; disk = false }

-- The answers of the kernel to vmalloc, register_blkdev, blk_init_queue and alloc_disk.
pub record Answers : Type 0 where
  pub vmalloc : Bool
  pub register_blkdev : ℤ
  pub init_queue : Bool
  pub alloc_disk : Bool

abbrev pub ramdevice_cleanup : Held → Held
ramdevice_cleanup h = record h { memory = false }

abbrev unregister_blkdev : Held → Held
unregister_blkdev h = record h { major = false }

abbrev blk_cleanup_queue : Held → Held
blk_cleanup_queue h = record h { queue = false }

abbrev pub ramdevice_init : Answers → Held → ℤ × Held
ramdevice_init a h =
    if not a.vmalloc then (neg_enomem, h) else (pos rb_device_size, record h { memory = true })

-- The part of rb_init after `rb_major`, an unsigned number, has passed its test.
unfoldable pub init_queue_disk : Answers → Held → ℤ × Held
init_queue_disk a h =
    if not a.init_queue
    then (neg_enomem, ramdevice_cleanup (unregister_blkdev h))
    else if not a.alloc_disk
    then (
      neg_enomem,
      ramdevice_cleanup (unregister_blkdev (blk_cleanup_queue (record h { queue = true }))),
    )
    else (pos 0, record h { queue = true; disk = true })

unfoldable pub rb_init : Answers → ℤ × Held
unfolding init_queue_disk
rb_init a =
    let (ret, h) = ramdevice_init a nothing_held in
    if is_neg ret
    then (ret, h)
    else let h' = record h { major = not (is_neg a.register_blkdev) } in
      if to_u32 a.register_blkdev == 0
      then (neg_ebusy, ramdevice_cleanup h)
      else init_queue_disk a h'

abbrev pub rb_cleanup : Held → Held
rb_cleanup h = ramdevice_cleanup (unregister_blkdev (blk_cleanup_queue (record h { disk = false })))
