-- ===== src/Interop/Mount.antt =====
-- A partition that browse_sfs.c opens is one that the kernel module mounts, with the same tracker.
use linuxpedia.Prelude.{ℕ, ◌*◌, ◌≡◌, refl, ap, ◌∙◌, true, some, List, [], take, slice, arith}
use linuxpedia.Prelude.Int.{pos}
use linuxpedia.Sfs.Layout.{SuperBlock, FileEntry, encode_super, decode_super}
use linuxpedia.Sfs.Layout.RoundTrip.{decode_super-encode_super}
use linuxpedia.Sfs.Device.{BufferCache}
use linuxpedia.Sfs.BlockIo.{Fs, copied, read_sb_from_real_sfs}
use linuxpedia.Sfs.Mount
use linuxpedia.Sfs.Mount.Sound.{mounted, init_browsing-mounted}
use linuxpedia.Browse.Handle.{Browser}
use linuxpedia.Browse.Table
use linuxpedia.Browse.Table.Init.{init_browsing-tracker}
use linuxpedia.Browse.Table.Scan.{BlocksBelow}
use linuxpedia.Browse.Main.Start.{IsPartition}
use linuxpedia.Interop.Bytes.{Shows, shown-Holds, slice-slice}

module _ {D : Type 0} ⦃cache : BufferCache D⦄ {d : D} {bytes : List ℕ} {sb : SuperBlock}
    {es : List FileEntry} (s : Shows d bytes) (h : IsPartition bytes sb es) where
  first_block : take 512 (slice bytes (0 * 512) 512) ≡ encode_super sb
  first_block = slice-slice bytes (0 * 512) 512 0 512 (omega arith) ∙ h.head

  read_sb-shown : read_sb_from_real_sfs d ≡ copied sb
  unfolding read_sb_from_real_sfs
  read_sb-shown =
      let l = h.table.layout in
      rw (s.shown 0 (omega (arith, l.first, l.table, l.area, l.inside)), read_sb_from_real_sfs)
        (ap copied (ap decode_super first_block ∙ decode_super-encode_super sb h.words))

  pub init_browsing-shown : Mount.init_browsing d true ≡ (pos 0, some (mounted d sb es))
  init_browsing-shown =
      init_browsing-mounted d sb es read_sb-shown h.magic (shown-Holds s h.table [])

module _ {D : Type 0} ⦃cache : BufferCache D⦄ where
  -- On a partition of less than 2 GB with the file system, whose entries name no block outside of it,
  -- shown by the buffer cache in blocks of 512 bytes, and where both get the memory for their tracker,
  -- the init_browsing of the program and that of the kernel module both succeed, and end with the same
  -- super block and the same tracker of used blocks.
  pub init_browsing-same :
      (d : D) (b : Browser) (es : List FileEntry)
      → Shows d b.bytes
      → IsPartition b.bytes b.sb es
      → BlocksBelow b.sb.partition_size es
      → (fs : Fs D) × (b' : Browser) × (Mount.init_browsing d true ≡ (pos 0, some fs))
        × (Table.init_browsing true b ≡ some b')
        × (fs.sb ≡ b'.sb)
        × (fs.used_blocks ≡ b'.used_blocks)
  init_browsing-same d b es s h below = (
    mounted d b.sb es,
    _,
    init_browsing-shown s h,
    init_browsing-tracker b es h.table,
    refl,
    refl,
  )
