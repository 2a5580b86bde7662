-- ===== src/Interop/Examples.antt =====
-- The theorems at a device of eleven blocks, which a buffer cache in memory shows to the kernel.
use linuxpedia.Prelude.{
  ℕ, zero, suc, ◌<◌, ◌+◌, ◌*◌, ◌≤◌, ◌≡◌, refl, ap, true, false, some, none, List, [], ◌∷◌, length,
  length-take, length-drop, drop, take, slice, leb, le→leb, if◌then◌else◌, arith,
}
use linuxpedia.Prelude.Int.{pos}
use linuxpedia.Sfs.Layout.{FileEntry}
use linuxpedia.Sfs.BlockIo.{Fs}
use linuxpedia.Sfs.Format.{format_super, format_main}
use linuxpedia.Sfs.Format.Laws.{fresh_entries}
use linuxpedia.Sfs.Inode.{Inode, fresh, found, sfs_inode_lookup, sfs_get_block}
use linuxpedia.Sfs.Mount
use linuxpedia.Sfs.Small.{Disk, bread, disk, fit-length}
use linuxpedia.Browse.Handle.{Browser}
use linuxpedia.Browse.Table
use linuxpedia.Browse.Table.{silent}
use linuxpedia.Browse.Contents.Input.{typed}
use linuxpedia.Browse.Fresh.{formatted}
use linuxpedia.Browse.Table.Scan.{BlocksBelow}
use linuxpedia.Browse.Shell.{create, write, replied}
use linuxpedia.Browse.Shell.Session.{typing}
use linuxpedia.Browse.Small.{hi, hi-IsName, two_reads, device, length-device}
use linuxpedia.Browse.Main.{main}
use linuxpedia.Browse.Main.Start.{ready}
use linuxpedia.Browse.Main.Lifetime.{ended_with, formatted-IsPartition}
use linuxpedia.Interop.Bytes.{Shows}
use linuxpedia.Interop.Mount.{init_browsing-same}
use linuxpedia.Interop.Lifetime.{sfs_get_block-main}

-- These bytes as a device in memory.
unfoldable load : List ℕ → Disk
load bytes k = if leb (k * 512 + 512) (length bytes) then some (slice bytes (k * 512) 512) else none

shown_in_memory :
    (bytes : List ℕ) (k : ℕ)
    → k * 512 + 512 ≤ length bytes
    → bread (load bytes) k ≡ some (slice bytes (k * 512) 512)
unfolding bread load
shown_in_memory bytes k h =
    let block = slice bytes (k * 512) 512 in
    rw (le→leb (k * 512 + 512) (length bytes) h) (
      ap some (
        fit-length 512 block
          (omega (arith, length-take 512 (drop (k * 512) bytes), length-drop (k * 512) bytes))))

loads : (bytes : List ℕ) → Shows (load bytes) bytes
loads bytes = record { block = refl; shown = shown_in_memory bytes }

abbrev es : List FileEntry
es = fresh_entries (format_super (length device)).entry_count

abbrev b : Browser
b = ready true (formatted device) (format_super (length device)) es

fresh-BlocksBelow : (m n : ℕ) → 0 < m → BlocksBelow m (fresh_entries n)
fresh-BlocksBelow m zero h = tt
fresh-BlocksBelow m (suc n) h =
    ((h, (h, (h, (h, (h, (h, (h, (h, (h, tt))))))))), fresh-BlocksBelow m n h)

init_browsing-same_example :
    (fs : Fs Disk) × (b' : Browser) × (Mount.init_browsing (load (formatted device)) true
      ≡ (pos 0, some fs))
    × (Table.init_browsing true b ≡ some b')
    × (fs.sb ≡ b'.sb)
    × (fs.used_blocks ≡ b'.used_blocks)
unfolding format_super
init_browsing-same_example =
    init_browsing-same (load (formatted device)) b es (loads (formatted device))
      (formatted-IsPartition device (omega (arith, length-device)) (omega (arith, length-device)))
      (fresh-BlocksBelow _ _ (omega (arith, length-device)))

-- The second block of the file.
sfs_get_block-main_example :
    let text = slice (typed two_reads) (1 * 512) 512 in
    (disk partition : List ℕ) × (format_main 2 (some device) true ≡ (0, some disk))
    × (main 2 (some disk) true true (typing (create hi) [] 1 ∷ typing (write hi) two_reads 2 ∷ [])
        ≡ ended_with (replied silent ∷ replied silent ∷ []) partition)
    × (fs : Fs Disk) × (Mount.init_browsing (load partition) true ≡ (pos 0, some fs))
    × (inode : Inode) × (sfs_inode_lookup fs true hi (λ _. fresh) ≡ found inode)
    × (inode.i_size ≡ length (typed two_reads))
    × (k : ℕ) × (block : List ℕ) × (sfs_get_block fs inode.i_ino 1 false ≡ (pos 0, some k, fs))
    × (bread fs.dev k ≡ some block)
    × (text ≡ take (length text) block)
sfs_get_block-main_example =
    sfs_get_block-main load loads device true hi two_reads 1 2 1 (omega (arith, length-device))
      (omega (arith, length-device)) hi-IsName (omega arith) (omega arith) (omega arith)
