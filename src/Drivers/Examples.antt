-- ===== src/Drivers/Examples.antt =====
-- Tests and examples of the small drivers.
use linuxpedia.Prelude.{◌≡◌, refl, some, [], ◌∷◌}
use linuxpedia.Prelude.Int.{negsuc}
use linuxpedia.Drivers.Resources.{done, object, null, mapping, Kernel}
use linuxpedia.Drivers.Unwind.{Unwinds, init, exit, leaked, vram}
use linuxpedia.Drivers.Unwind.Cases.{init-Unwinds}
use linuxpedia.Drivers.Vram.{vram_init}

-- Everything is answered, but there is no memory for a device.
abbrev no_device : Kernel
no_device = record {
  alloc_chrdev_region = done;
  cdev_add = done;
  class_create = object;
  device_create = null;
  ioremap = object;
  request_region = object;
  proc_mkdir = object;
  proc_jiffies_entry = object;
  proc_foo_entry = object;
  proc_bar_entry = object;
  proc_symlink_entry = object;
  proc_file_entry = object;
  register_chrdev = done;
}

vram_init_mapped : vram_init no_device ≡ some (negsuc 0, mapping ∷ [])
unfolding vram_init
vram_init_mapped = refl

init-Unwinds_example : Unwinds (exit vram no_device) (leaked vram no_device) (init vram no_device)
init-Unwinds_example = init-Unwinds vram no_device refl
