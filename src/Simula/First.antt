-- ===== src/Simula/First.antt =====
-- lfy_dd_series/18-25-Filesystem/2_june12/device-part19/part19.c, version 1.0 of browse_sfs.c: its
-- sfs_remove, on a block device. Its sfs_list and sfs_create have the text of version 3.0.
pub mod Remove
pub mod Alike
pub mod Agree
pub mod Commands
pub mod Session
pub mod Shell
use linuxpedia.Prelude.{ℕ, zero, suc, ◌-◌, ◌%◌, List, ◌==◌, if◌then◌else◌}
use linuxpedia.Prelude.CString.{str_eq}
use linuxpedia.Sfs.Layout.{FileEntry, u32_mod, zero_entry, name_first, encode_entry}
use linuxpedia.Browse.Handle.{
  Browser, lseek_set, lseek_cur, write_bytes, read_entry_here, table_offset,
}
use linuxpedia.Browse.Table.{Reply, silent, doesnt_exist}

-- The loop of sfs_remove: the final `i`.
unfoldable pub remove_scan : List ℕ → (left i : ℕ) → FileEntry → Browser → ℕ × Browser
remove_scan fn zero i fe b = (i, b)
remove_scan fn (suc n) i fe b =
    let (fe', b') = read_entry_here b fe in
    let rest = remove_scan fn n (suc i) fe' b' in
    if name_first fe' == 0 then rest else if str_eq fe'.name fn then (i, b') else rest

-- The part after the loop.
unfoldable pub remove_here : (i : ℕ) → Browser → Reply × Browser
remove_here i b = if i == b.sb.entry_count then (doesnt_exist, b) else (
  silent,
  write_bytes (lseek_cur b ((u32_mod - b.sb.entry_size) % u32_mod)) (encode_entry zero_entry),
)

unfoldable pub sfs_remove : Browser → List ℕ → Reply × Browser
unfolding remove_scan remove_here
sfs_remove b fn =
    let (i, b') = remove_scan fn b.sb.entry_count 0 zero_entry (lseek_set b (table_offset b.sb)) in
    remove_here i b'
