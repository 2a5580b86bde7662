-- ===== src/Drivers/Unwind.antt =====
-- The init functions of the drivers against their exit functions: what is held when one fails,
-- and that exit gives everything back, last acquired first.
pub mod Cases
use linuxpedia.Prelude.{
  zero, suc, ◌≡◌, refl, Bool, true, false, Option, none, some, [], ◌∷◌, ◌&&◌, not, if◌then◌else◌,
}
use linuxpedia.Prelude.Int.{pos, negsuc}
use linuxpedia.Drivers.Resources.{
  region, mapping, Stack, Init, Code, done, errno, Pointer, object, null, err_ptr, is_null, is_err,
  Kernel,
}
use linuxpedia.Drivers.Ofcd.{ofcd_init, ofcd_exit}
use linuxpedia.Drivers.Query.{query_ioctl_init, query_ioctl_exit}
use linuxpedia.Drivers.Vram.{vram_init, vram_exit}
use linuxpedia.Drivers.Procex.{init_procfs_example, cleanup_procfs_example}
use linuxpedia.Drivers.Port.{
  initialize_module4, cleanup_module4, initialize_module5, cleanup_module5,
}
use linuxpedia.Drivers.Entry.{
  sleep_init, sleep_exit, procfs_init, procfs_exit, chardev_init, chardev_exit, char_init,
  char_exit,
}

pub data Driver : Type 0 where
  ofcd query_driver vram procex module4 module5 sleep procfs chardev char : Driver

-- module_init
abbrev pub init : Driver → Kernel → Init
init ofcd k = ofcd_init k
init query_driver k = query_ioctl_init k
init vram k = vram_init k
init procex k = init_procfs_example k
init module4 k = initialize_module4 k
init module5 k = initialize_module5 k
init sleep k = sleep_init k
init procfs k = procfs_init k
init chardev k = chardev_init k
init char k = char_init k

-- module_exit
abbrev pub exit : Driver → Kernel → Stack → Option Stack
exit ofcd k s = ofcd_exit s
exit query_driver k s = query_ioctl_exit s
exit vram k s = vram_exit s
exit procex k s = cleanup_procfs_example s
exit module4 k s = cleanup_module4 k s
exit module5 k s = cleanup_module5 k s
exit sleep k s = sleep_exit s
exit procfs k s = procfs_exit s
exit chardev k s = chardev_exit s
exit char k s = char_exit s

-- ofcd.c and vdrv.c know only -1 as an error of cdev_add.
abbrev pub one_error : Code → Bool
one_error done = true
one_error (errno zero) = true
one_error (errno (suc e)) = false

-- The driver's test for an error recognises what the kernel answers as an error: a comparison with
-- NULL does not know error pointers, and IS_ERR does not know NULL.
abbrev pub answers_known : Driver → Kernel → Bool
answers_known ofcd k =
    not (is_err k.class_create) && not (is_err k.device_create) && one_error k.cdev_add
answers_known query_driver k = not (is_null k.class_create) && not (is_null k.device_create)
answers_known vram k =
    not (is_err k.ioremap)
    && not (is_err k.class_create)
    && not (is_err k.device_create)
    && one_error k.cdev_add
answers_known procex k =
    not (is_err k.proc_mkdir)
    && not (is_err k.proc_jiffies_entry)
    && not (is_err k.proc_foo_entry)
    && not (is_err k.proc_bar_entry)
    && not (is_err k.proc_symlink_entry)
answers_known module4 k = not (is_err k.request_region)
answers_known module5 k = not (is_err k.request_region)
answers_known sleep k = not (is_err k.proc_file_entry)
answers_known procfs k = not (is_err k.proc_file_entry)
answers_known chardev k = true
answers_known char k = true

-- What a failed init leaves behind.
abbrev pub leaked : Driver → Kernel → Stack
leaked ofcd k = []
leaked query_driver k = elim k.alloc_chrdev_region [
  | done ↦ elim k.cdev_add [ done ↦ [] | errno e ↦ region ∷ [] ]
  | errno e ↦ []
]
leaked vram k = if is_null k.ioremap then [] else mapping ∷ []
leaked procex k = []
leaked module4 k = []
leaked module5 k = []
leaked sleep k = []
leaked procfs k = []
leaked chardev k = []
leaked char k = []

-- The init gave nothing back out of order; with an error it holds just `left`, and with 0 `exit`
-- gives back all it holds.
abbrev pub Unwinds : (exit : Stack → Option Stack) (left : Stack) → Init → Type 0
Unwinds exit left none = ⊥
Unwinds exit left (some (pos n, s)) = (n ≡ 0) × (exit s ≡ some [])
Unwinds exit left (some (negsuc e, s)) = s ≡ left
