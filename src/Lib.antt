-- ===== src/Lib.antt =====
-- Models and proofs for the C code of this repository: example drivers and a small file system.
--
-- The Simula File System, lfy_dd_series/18-25-Filesystem/7_nov12/RealSFSInAction:
--   Sfs/Layout     real_sfs_ds.h: the super block and the file entry, and their bytes
--   Sfs/Device     the kernel's buffer cache (sb_bread, mark_buffer_dirty), a parameter with its law
--   Sfs/BlockIo    real_sfs_ops.c: reads and writes through the cache; Table shows them as a list
--   Sfs/Blocks     real_sfs_ops.c: the tracker of used blocks
--   Sfs/Entries    real_sfs_ops.c: sfs_list, sfs_create, sfs_lookup, sfs_remove, sfs_update
--   Sfs/Directory  what the entry table promises, with no device below it
--   Sfs/Ownership  which file owns which block
--   Sfs/Consistent names, entries and blocks together, and sequences of operations; Data what the kernel
--   stores in the blocks of files, with Sfs/TwoBlocks a device for it
--   Sfs/Inode      real_sfs.c: sfs_get_block, sfs_readdir and the inode callbacks
--   Sfs/Mount      init_browsing and get_bit_pos;  Sfs/Super the memory of a mount
--   Sfs/OnBlockDevice  6_oct12/RealSFSOnBlockDevice, the module before it, its reads and init_browsing; Same both
--   Sfs/Format     format_real_sfs.c;  Sfs/Small and Examples a device of eight blocks
-- `Fs` is sfs_info_t with the device below it, and a function that changes it returns the new one.
-- Numbers are natural numbers with the wrap of `byte4_t` written out; result codes are integers.
--
-- The user program for such a partition, lfy_dd_series/18-25-Filesystem/4_aug12/RealFS/browse_sfs.c:
--   Browse/Handle   the open partition, lseek, read and write
--   Browse/Table    the file table: Scan and Create run over it, Change stores an entry
--   Browse/Contents sfs_read and sfs_write: Input what is typed, Pieces where it is kept, Read, Write,
--   Loop and Finish the parts of the code, Kept and ReadBack what is read of a file;  Browse/Shell the
--   commands, Parse their text, Session what is answered;  Table/Init the tracker of a start
--   Browse/Main     main and browse_sfs, a run of the program; Start its first prompt, Lifetime two runs
--   Browse/Fresh    the partition that format_real_sfs.c leaves; First the first file on it
--   Interop         one partition under the program and the kernel module: Bytes the buffer cache
--   over its bytes, Mount the trackers, Files and Lifetime a file of the program in the kernel
-- Simula is version 2.0 of the program, 3_july12/SimulaFS/browse_sfs.c, in Versions against 3.0;
-- Simula/Shell its loop and main, Shell/Tracker and Shell/Runs its runs against those of 3.0.
-- Simula/First version 1.0, 2_june12/device-part19/part19.c, and Remove what it removes; Shell its
-- commands, loop and main, Shell/Known the commands that it has; Alike, Agree, Commands and Session the
-- two versions on the same lines.
-- The loop of sfs_write runs on fuel, one more than the bytes typed: each turn but the last takes one.
--
-- A file that one process may open, device_driver_examples/lkm5/sleep.c:
--   Sleep           one access of shared state at a time, and the message; Count the module's use
--   count; Exclusion who has the file open; Message what is read back; Examples two processes.
--
-- A character device with a message, device_driver_examples/charexample/chardev.c:
--   Chardev         its state and file operations; Reads the message in pieces; Messages what ioctl
--   sets and gets; Users who has the device open; Client the user program ioctl.c, Client/Loop its loop
--   over the message, Client/Runs two runs; Examples a device with data behind its array.
--
-- The RAM disk, lfy_dd_series/15_diskonrom (ram_device.c, ram_block.c):
--   Disk            the disk's bytes, rb_transfer, and what rb_init and rb_cleanup hold; Transfers
--   what is written and read; Setup the error paths; Requests a queue of requests; Examples two disks.
--   Partition       partition.c, with the size of an `unsigned long` as a parameter; Sectors what it
--   writes sector by sector; Reader a reader of partition tables, written from their
--   format; Layout what it finds.
--
-- Small drivers, of device_driver_examples and of lfy_dd_series/05_character-device-files-creation-operations:
--   Drivers         Resources what a driver holds of the kernel and what the kernel answers, both
--   parameters; Ofcd ofcd.c, Query lfy4_ioctl/query_ioctl.c, Vram lfy3_video_ra/vdrv.c, Procex
--   bfin1/procex.c, Port the init of mod4 and mod5, Entry that of sleep.c, lkm4_procfs/procfs1.c and
--   the two chardev.c; Unwind all against their exit functions.
--   Exclusive       the drivers of which one file can be open, as an interface; Parallel mod4/module4.c
--   and mod5/module5_fops.c; Greeting lkm3_char/chardev.c, Told its first read, Digits the
--   number in it; Drivers all four.
-- Fuel: get_bit_pos runs on it, 33 turns, since an `unsigned int` is 0 after 32 shifts, and so do the
-- digits of a counter below 2 ^ 31, 10 turns, and the reader of partition tables, 8 linked records.
-- Not modelled: SimulaFS on a regular file, which can grow, and the drivers that only call the kernel;
-- opens that overlap in the drivers of Exclusive, which have no lock between their test and their
-- increment; and what an access outside of an array does: a block number outside of the tracker changes
-- nothing in the models, and lines and names may have any length there, so the results state bounds
-- where they need them.
pub mod Prelude
pub mod Browse
pub mod Chardev
pub mod Disk
pub mod Drivers
pub mod Sfs
pub mod Sleep
pub mod Exclusive
pub mod Partition
pub mod Simula
pub mod Interop
