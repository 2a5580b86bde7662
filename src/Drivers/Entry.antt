-- ===== src/Drivers/Entry.antt =====
-- Modules of device_driver_examples that register one thing: lkm5/sleep.c and lkm4_procfs/procfs1.c
-- a file below /proc, charexample/chardev.c and lkm3_char/chardev.c a device number.
use linuxpedia.Prelude.{ℕ, Option, some, List, [], ◌∷◌, if◌then◌else◌, ltb}
use linuxpedia.Prelude.Int.{pos, is_neg, neg_enomem}
use linuxpedia.Drivers.Resources.{
  proc_file, chrdev, Stack, releases, remove_file, Init, to_int, is_null, hold, hold_code, Kernel,
}

-- init_module and cleanup_module of sleep.c
unfoldable pub sleep_init : Kernel → Init
sleep_init k =
    let s = hold k.proc_file_entry proc_file [] in
    if is_null k.proc_file_entry then some (neg_enomem, remove_file s) else some (pos 0, s)

unfoldable pub sleep_exit : Stack → Option Stack
sleep_exit s = some (remove_file s)

-- init_module and cleanup_module of procfs1.c
unfoldable pub procfs_init : Kernel → Init
procfs_init k =
    let s = hold k.proc_file_entry proc_file [] in
    if is_null k.proc_file_entry then some (neg_enomem, remove_file s) else some (pos 0, s)

unfoldable pub procfs_exit : Stack → Option Stack
procfs_exit s = some (remove_file s)

-- "HelloWorld!\n"
abbrev pub hello_world : List ℕ
hello_world = b'H' ∷ b'e' ∷ b'l' ∷ b'l' ∷ b'o' ∷ b'W' ∷ b'o' ∷ b'r' ∷ b'l' ∷ b'd' ∷ 33 ∷ 10 ∷ []

-- What is put into the buffer; the number of bytes is the result.
abbrev pub procfile_read : (offset : ℕ) → List ℕ
procfile_read offset = if ltb 0 offset then [] else hello_world

-- init_module and cleanup_module of charexample/chardev.c, with a fixed major number
unfoldable pub chardev_init : Kernel → Init
chardev_init k =
    let ret_val = to_int k.register_chrdev in
    if is_neg ret_val
    then some (ret_val, [])
    else some (pos 0, hold_code k.register_chrdev chrdev [])

unfoldable pub chardev_exit : Stack → Option Stack
chardev_exit s = releases (chrdev ∷ []) s

-- char_init and char_exit of lkm3_char/chardev.c, with a major number of the kernel's choice
unfoldable pub char_init : Kernel → Init
char_init k =
    let major = to_int k.register_chrdev in
    if is_neg major then some (major, []) else some (pos 0, hold_code k.register_chrdev chrdev [])

unfoldable pub char_exit : Stack → Option Stack
char_exit s = releases (chrdev ∷ []) s
