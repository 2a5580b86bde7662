-- ===== src/Browse/Fresh/First.antt =====
-- The first file on a partition that mkfs has made.
use linuxpedia.Prelude.{
  ℕ, suc, ◌+◌, ◌-◌, ◌*◌, ◌≤◌, ◌<◌, ◌≡◌, refl, sym, ap, ◌∙◌, some, List, length, length-replicate,
  take, set, get_or, get_or-set_self, get_or-set_ne, arith, Bool-cases, inl, inr, length-set, zero,
}
use mathlib.Core.Path.{subst}
use linuxpedia.Prelude.CString.{c_str, strlen}
use linuxpedia.Sfs.Layout.{SuperBlock, zero_entry}
use linuxpedia.Sfs.Entries.{new_entry}
use linuxpedia.Sfs.Entries.Refine.{release}
use linuxpedia.Sfs.Directory.{find, named}
use linuxpedia.Sfs.Directory.Laws.{find-first}
use linuxpedia.Sfs.Directory.Change.{Fits, named-new_entry}
use linuxpedia.Sfs.Mount.{initial_map}
use linuxpedia.Sfs.Mount.Tracker.{mark_entries}
use linuxpedia.Sfs.Mount.Sound.{get_or-initial, length-initial_map}
use linuxpedia.Sfs.Format.Laws.{fresh_entries, get_or-fresh}
use linuxpedia.Browse.Handle.{Browser}
use linuxpedia.Browse.Table.{Reply, silent, sfs_create}
use linuxpedia.Browse.Table.Scan.{IsLaidOut, HasEntries}
use linuxpedia.Browse.Table.Create.{Creates, free, stop_from, target, sfs_create-Creates}
use linuxpedia.Browse.Contents.Pieces.{free_count}
use linuxpedia.Browse.Contents.ReadBack.{IsReady}
use linuxpedia.Browse.Shell.Parse.{IsName}

pub mark_entries-fresh : (n : ℕ) (used : List ℕ) → mark_entries (fresh_entries n) used ≡ used
unfolding mark_entries
mark_entries-fresh zero used = refl
mark_entries-fresh (suc n) used = mark_entries-fresh n used

free_count-all :
    (n i : ℕ) (used : List ℕ)
    → ((j : ℕ) → i ≤ j → j < i + n → get_or used j 0 ≡ 0)
    → free_count n i used ≡ n
unfolding free_count
free_count-all zero i used h = refl
free_count-all (suc n) i used h =
    rw (h i (omega arith) (omega arith))
      (omega (arith, free_count-all n (suc i) used (λ j low high. h j (omega arith) (omega arith))))

-- Every block of the data area is free at first.
pub free_count-initial :
    {size : ℕ} (sb : SuperBlock)
    → IsLaidOut sb size
    → free_count (sb.partition_size - sb.data_block_start) sb.data_block_start (initial_map sb)
      ≡ sb.partition_size - sb.data_block_start
free_count-initial sb l =
    free_count-all (sb.partition_size - sb.data_block_start) sb.data_block_start (initial_map sb)
      (λ j low high.
        get_or-initial sb.data_block_start (sb.partition_size - sb.data_block_start) j
        ∙ ground arith)

pub IsName-Fits : (fn : List ℕ) → IsName fn → length fn ≤ 15 → Fits fn
unfolding strlen
IsName-Fits fn h short =
    let whole : length (c_str fn) ≡ length fn = ap length h.whole in
    record { nonempty = omega (arith, whole, h.some_byte); short = omega (arith, whole) }

-- In a table whose entries are all unused but for a new file, that file is found.
pub find-new_entry :
    (n t now : ℕ) (fn : List ℕ)
    → Fits fn
    → t < n
    → find fn (set (fresh_entries n) t (new_entry fn 7 now)) ≡ some (t, new_entry fn 7 now)
find-new_entry n t now fn f lt =
    let es = fresh_entries n in
    let x = new_entry fn 7 now in
    let inside : t < length es = omega (arith, length-replicate n zero_entry) in
    let self = get_or-set_self es t x zero_entry inside in
    find-first fn (set es t x) t (omega (arith, length-set es t x))
      (ap (named fn) self ∙ named-new_entry fn 7 now f)
      (λ j less.
        ap (named fn) (get_or-set_ne es t j x zero_entry (λ q. omega arith) ∙ get_or-fresh n j))
    ∙ ap (λ y. some (t, y)) self

stop_from-fresh : (n : ℕ) (fn : List ℕ) → 0 < n → stop_from 0 fn (fresh_entries n) ≡ free 0
unfolding stop_from
stop_from-fresh zero fn h = absurd (omega arith)
stop_from-fresh (suc n) fn h = refl

-- The program stands on a partition with an empty table of two entries or more, and has only its
-- reserved blocks marked.
pub record IsEmpty (b : Browser) (n : ℕ) : Type 0 where
  pub table : HasEntries b.bytes b.sb (fresh_entries n)
  pub entries : 2 ≤ n
  pub unmarked : b.used_blocks ≡ initial_map b.sb
  pub buffer : length b.block ≡ 512

-- A file of that name has been made there.
pub record HasFirst (b : Browser) (fn : List ℕ) (now n : ℕ) (r : Reply × Browser) : Type 0 where
  pub reply : r.0 ≡ silent
  pub unmarked : r.1.used_blocks ≡ initial_map r.1.sb
  pub sb : r.1.sb ≡ b.sb
  pub buffer : length r.1.block ≡ 512
  pub head : take 512 r.1.bytes ≡ take 512 b.bytes
  pub table : HasEntries r.1.bytes r.1.sb (set (fresh_entries n) (target b 0) (new_entry fn 7 now))

first-HasFirst :
    (b : Browser) (fn : List ℕ) (now n : ℕ) (r : Reply × Browser)
    → IsEmpty b n
    → target b 0 < n
    → Creates (free 0) b (fresh_entries n) fn now r
    → HasFirst b fn now n r
first-HasFirst b fn now n r h inside (reply, used, sb, block, head, table, _) = record {
  reply = reply;
  unmarked = used ∙ h.unmarked ∙ ap initial_map (sym sb);
  sb = sb;
  buffer = ap length block ∙ h.buffer;
  head = head;
  table = rw sb (table (omega (arith, length-replicate n zero_entry)));
}

target_inside : (b : Browser) (n : ℕ) → 2 ≤ n → target b 0 < n
target_inside b n h = elim (Bool-cases b.wide) [
  | inl e ↦ rw e (omega arith)
  | inr e ↦ rw e (omega arith)
]

pub sfs_create-HasFirst :
    (b : Browser) (fn : List ℕ) (now n : ℕ)
    → IsEmpty b n
    → HasFirst b fn now n (sfs_create b fn now)
sfs_create-HasFirst b fn now n h =
    first-HasFirst b fn now n (sfs_create b fn now) h (target_inside b n h.entries) (
      subst (λ s. Creates s b (fresh_entries n) fn now (sfs_create b fn now))
        (stop_from-fresh n fn (omega (arith, h.entries)))
        (sfs_create-Creates b (fresh_entries n) fn now h.table))

-- The file can be written to, up to 9 blocks and what the data area has.
pub HasFirst-IsReady :
    (b : Browser) (fn : List ℕ) (now n size : ℕ) (r : Reply × Browser)
    → IsEmpty b n
    → HasFirst b fn now n r
    → IsName fn
    → length fn ≤ 15
    → size ≤ 4608
    → size ≤ 512 * (b.sb.partition_size - b.sb.data_block_start)
    → IsReady r.1
        (set (fresh_entries n) (target b 0) (new_entry fn 7 now))
        fn
        (target b 0)
        (new_entry fn 7 now)
        size
unfolding release
HasFirst-IsReady b fn now n size r h f name short fits room =
    let l = f.table.layout in
    let free_blocks = free_count-initial r.1.sb l in
    record {
      table = f.table;
      found =
          find-new_entry n (target b 0) now fn (IsName-Fits fn name short)
            (target_inside b n h.entries);
      tracked = rw f.unmarked (omega (arith, length-initial_map r.1.sb l.area));
      buffer = f.buffer;
      readable = refl;
      writable = refl;
      fits = fits;
      free = rw (f.unmarked, free_blocks, f.sb) room;
    }
