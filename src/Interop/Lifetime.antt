-- ===== src/Interop/Lifetime.antt =====
-- A file from mkfs and browse_sfs.c to the kernel module.
use linuxpedia.Prelude.{
  ℕ, ◌*◌, ◌^◌, ◌≤◌, ◌<◌, ◌≡◌, refl, Bool, true, false, some, List, [], ◌∷◌, length, take, slice,
}
use linuxpedia.Prelude.Int.{pos}
use linuxpedia.Sfs.Device.{BufferCache}
use linuxpedia.Sfs.BlockIo.{Fs}
use linuxpedia.Sfs.Format.{format_main}
use linuxpedia.Sfs.Inode.{Inode, fresh, found, sfs_inode_lookup, sfs_get_block}
use linuxpedia.Sfs.Mount.{init_browsing}
use linuxpedia.Browse.Table.{silent}
use linuxpedia.Browse.Contents.{Input}
use linuxpedia.Browse.Contents.Input.{typed}
use linuxpedia.Browse.Fresh.{formatted}
use linuxpedia.Browse.Shell.{create, write, replied}
use linuxpedia.Browse.Shell.Parse.{IsName}
use linuxpedia.Browse.Shell.Session.{typing}
use linuxpedia.Browse.Main.{main}
use linuxpedia.Browse.Main.Lifetime.{ended_with, first_run}
use linuxpedia.Interop.Bytes.{Shows}
use linuxpedia.Interop.Mount.{init_browsing-shown}
use linuxpedia.Interop.Files.{mounted_here, inode_of, kept-looked, kept-mapped}

-- Take a device of at least 11 blocks and less than 2 GB, formatted, and a run of browse_sfs in
-- which a file of a name of at most 15 bytes is created, and at most 9 blocks are typed into it. If
-- the buffer cache shows the partition that this run leaves in blocks of 512 bytes, the kernel
-- module mounts it, its lookup finds the file with the size of what was typed, and sfs_get_block
-- maps each block of the file, in full or in part, to a block that begins with what was typed there.
pub sfs_get_block-main :
    {D : Type 0} ⦃cache : BufferCache D⦄ (load : List ℕ → D)
    (loads : (bytes : List ℕ) → Shows (load bytes) bytes) (device : List ℕ) (wide : Bool)
    (fn : List ℕ) (input : Input) (made now j : ℕ)
    → 5632 ≤ length device
    → length device < 2 ^ 31
    → IsName fn
    → length fn ≤ 15
    → length (typed input) ≤ 4608
    → j * 512 < length (typed input)
    → let text = slice (typed input) (j * 512) 512 in
      (disk partition : List ℕ) × (format_main 2 (some device) true ≡ (0, some disk))
      × (main 2
            (some disk)
            wide
            true
            (typing (create fn) [] made ∷ typing (write fn) input now ∷ [])
          ≡ ended_with (replied silent ∷ replied silent ∷ []) partition)
      × (fs : Fs D) × (init_browsing (load partition) true ≡ (pos 0, some fs))
      × (inode : Inode) × (sfs_inode_lookup fs true fn (λ _. fresh) ≡ found inode)
      × (inode.i_size ≡ length (typed input))
      × (k : ℕ) × (block : List ℕ) × (sfs_get_block fs inode.i_ino j false ≡ (pos 0, some k, fs))
      × (cache.sb_bread fs.dev k ≡ some block)
      × (text ≡ take (length text) block)
unfolding formatted format_main
sfs_get_block-main load loads device wide fn input made now j low high name short fits lt =
    let (partition, runs, w) = first_run device wide fn input made now low high name short fits in
    let s = loads partition in
    let (k, block, mapped, shown, same) = kept-mapped s w.kept j false lt in
    (
      formatted device,
      partition,
      refl,
      runs,
      mounted_here s w.kept,
      init_browsing-shown s w.start,
      inode_of s w.kept,
      kept-looked s w.kept,
      refl,
      k,
      block,
      mapped,
      shown,
      same,
    )
