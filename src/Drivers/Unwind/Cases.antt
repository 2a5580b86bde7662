-- ===== src/Drivers/Unwind/Cases.antt =====
-- Every driver's init against its exit, by cases on what the kernel answers.
use linuxpedia.Prelude.{zero, suc, ◌≡◌, refl, true}
use linuxpedia.Drivers.Resources.{Code, done, errno, Pointer, object, null, err_ptr, Kernel}
use linuxpedia.Drivers.Ofcd.{ofcd_init, ofcd_exit}
use linuxpedia.Drivers.Query.{query_ioctl_init, query_ioctl_exit}
use linuxpedia.Drivers.Vram.{vram_init, vram_exit}
use linuxpedia.Drivers.Procex.{init_procfs_example, cleanup_procfs_example}
use linuxpedia.Drivers.Port.{
  initialize_module4, cleanup_module4, initialize_module5, cleanup_module5,
}
use linuxpedia.Drivers.Entry.{
  sleep_init, sleep_exit, procfs_init, procfs_exit, chardev_init, chardev_exit, char_init,
  char_exit,
}
use linuxpedia.Drivers.Unwind.{
  Driver, ofcd, query_driver, vram, procex, module4, module5, sleep, procfs, chardev, char, init,
  exit, answers_known, leaked, Unwinds,
}

ofcd-Unwinds :
    (k : Kernel) (a : Code) (c d : Pointer) (b : Code)
    → let k' = record k {
      alloc_chrdev_region = a;
      class_create = c;
      device_create = d;
      cdev_add = b;
    } in
      answers_known ofcd k' ≡ true → Unwinds (exit ofcd k') (leaked ofcd k') (init ofcd k')
unfolding ofcd_init ofcd_exit
ofcd-Unwinds k (errno e) c d b known = refl
ofcd-Unwinds k done null d b known = refl
ofcd-Unwinds k done object null b known = refl
ofcd-Unwinds k done object object done known = (refl, refl)
ofcd-Unwinds k done object object (errno zero) known = refl
ofcd-Unwinds k done object object (errno (suc e)) known = absurd (cc)
ofcd-Unwinds k done object (err_ptr e) b known = absurd (cc)
ofcd-Unwinds k done (err_ptr e) d b known = absurd (cc)

query-Unwinds :
    (k : Kernel) (a : Code) (c d : Pointer) (b : Code)
    → let k' = record k {
      alloc_chrdev_region = a;
      class_create = c;
      device_create = d;
      cdev_add = b;
    } in
      answers_known query_driver k' ≡ true
      → Unwinds (exit query_driver k') (leaked query_driver k') (init query_driver k')
unfolding query_ioctl_init query_ioctl_exit
query-Unwinds k (errno e) c d b known = refl
query-Unwinds k done c d (errno e) known = refl
query-Unwinds k done (err_ptr e) d done known = refl
query-Unwinds k done object (err_ptr e) done known = refl
query-Unwinds k done object object done known = (refl, refl)
query-Unwinds k done object null done known = absurd (cc)
query-Unwinds k done null d done known = absurd (cc)

vram-Unwinds :
    (k : Kernel) (m : Pointer) (a : Code) (c d : Pointer) (b : Code)
    → let k' = record k {
      ioremap = m;
      alloc_chrdev_region = a;
      class_create = c;
      device_create = d;
      cdev_add = b;
    } in
      answers_known vram k' ≡ true → Unwinds (exit vram k') (leaked vram k') (init vram k')
unfolding vram_init vram_exit
vram-Unwinds k null a c d b known = refl
vram-Unwinds k object (errno e) c d b known = refl
vram-Unwinds k object done null d b known = refl
vram-Unwinds k object done object null b known = refl
vram-Unwinds k object done object object done known = (refl, refl)
vram-Unwinds k object done object object (errno zero) known = refl
vram-Unwinds k object done object object (errno (suc e)) known = absurd (cc)
vram-Unwinds k object done object (err_ptr e) b known = absurd (cc)
vram-Unwinds k object done (err_ptr e) d b known = absurd (cc)
vram-Unwinds k (err_ptr e) a c d b known = absurd (cc)

procex-Unwinds :
    (k : Kernel) (dir jiffies foo bar link : Pointer)
    → let k' = record k {
      proc_mkdir = dir;
      proc_jiffies_entry = jiffies;
      proc_foo_entry = foo;
      proc_bar_entry = bar;
      proc_symlink_entry = link;
    } in
      answers_known procex k' ≡ true → Unwinds (exit procex k') (leaked procex k') (init procex k')
unfolding init_procfs_example cleanup_procfs_example
procex-Unwinds k null jiffies foo bar link known = refl
procex-Unwinds k object null foo bar link known = refl
procex-Unwinds k object object null bar link known = refl
procex-Unwinds k object object object null link known = refl
procex-Unwinds k object object object object null known = refl
procex-Unwinds k object object object object object known = (refl, refl)
procex-Unwinds k (err_ptr e) jiffies foo bar link known = absurd (cc)
procex-Unwinds k object (err_ptr e) foo bar link known = absurd (cc)
procex-Unwinds k object object (err_ptr e) bar link known = absurd (cc)
procex-Unwinds k object object object (err_ptr e) link known = absurd (cc)
procex-Unwinds k object object object object (err_ptr e) known = absurd (cc)

module4-Unwinds :
    (k : Kernel) (a b : Code) (p : Pointer)
    → let k' = record k { alloc_chrdev_region = a; cdev_add = b; request_region = p } in
      answers_known module4 k' ≡ true
      → Unwinds (exit module4 k') (leaked module4 k') (init module4 k')
unfolding initialize_module4 cleanup_module4
module4-Unwinds k (errno e) b p known = refl
module4-Unwinds k done (errno e) p known = refl
module4-Unwinds k done done null known = (refl, refl)
module4-Unwinds k done done object known = (refl, refl)
module4-Unwinds k done done (err_ptr e) known = absurd (cc)

module5-Unwinds :
    (k : Kernel) (a b : Code) (p : Pointer)
    → let k' = record k { alloc_chrdev_region = a; cdev_add = b; request_region = p } in
      answers_known module5 k' ≡ true
      → Unwinds (exit module5 k') (leaked module5 k') (init module5 k')
unfolding initialize_module5 cleanup_module5
module5-Unwinds k (errno e) b p known = refl
module5-Unwinds k done (errno e) p known = refl
module5-Unwinds k done done null known = (refl, refl)
module5-Unwinds k done done object known = (refl, refl)
module5-Unwinds k done done (err_ptr e) known = absurd (cc)

sleep-Unwinds :
    (k : Kernel) (p : Pointer)
    → let k' = record k { proc_file_entry = p } in
      answers_known sleep k' ≡ true → Unwinds (exit sleep k') (leaked sleep k') (init sleep k')
unfolding sleep_init sleep_exit
sleep-Unwinds k null known = refl
sleep-Unwinds k object known = (refl, refl)
sleep-Unwinds k (err_ptr e) known = absurd (cc)

procfs-Unwinds :
    (k : Kernel) (p : Pointer)
    → let k' = record k { proc_file_entry = p } in
      answers_known procfs k' ≡ true → Unwinds (exit procfs k') (leaked procfs k') (init procfs k')
unfolding procfs_init procfs_exit
procfs-Unwinds k null known = refl
procfs-Unwinds k object known = (refl, refl)
procfs-Unwinds k (err_ptr e) known = absurd (cc)

chardev-Unwinds :
    (k : Kernel) (c : Code)
    → let k' = record k { register_chrdev = c } in
      Unwinds (exit chardev k') (leaked chardev k') (init chardev k')
unfolding chardev_init chardev_exit
chardev-Unwinds k (errno e) = refl
chardev-Unwinds k done = (refl, refl)

char-Unwinds :
    (k : Kernel) (c : Code)
    → let k' = record k { register_chrdev = c } in
      Unwinds (exit char k') (leaked char k') (init char k')
unfolding char_init char_exit
char-Unwinds k (errno e) = refl
char-Unwinds k done = (refl, refl)

-- Where the driver's tests know the errors that the kernel answers with, an init that fails gives
-- an error number and holds just what is `leaked`: nothing, but for the region of query_ioctl.c
-- when cdev_add fails and the mapping of vdrv.c. An init that succeeds gives 0, and the exit
-- function then gives all back, each resource while it is held and the last acquired first.
pub init-Unwinds :
    (d : Driver) (k : Kernel)
    → answers_known d k ≡ true
    → Unwinds (exit d k) (leaked d k) (init d k)
init-Unwinds ofcd k known =
    ofcd-Unwinds k k.alloc_chrdev_region k.class_create k.device_create k.cdev_add known
init-Unwinds query_driver k known =
    query-Unwinds k k.alloc_chrdev_region k.class_create k.device_create k.cdev_add known
init-Unwinds vram k known =
    vram-Unwinds k k.ioremap k.alloc_chrdev_region k.class_create k.device_create k.cdev_add known
init-Unwinds procex k known =
    procex-Unwinds k k.proc_mkdir k.proc_jiffies_entry k.proc_foo_entry k.proc_bar_entry
      k.proc_symlink_entry known
init-Unwinds module4 k known =
    module4-Unwinds k k.alloc_chrdev_region k.cdev_add k.request_region known
init-Unwinds module5 k known =
    module5-Unwinds k k.alloc_chrdev_region k.cdev_add k.request_region known
init-Unwinds sleep k known = sleep-Unwinds k k.proc_file_entry known
init-Unwinds procfs k known = procfs-Unwinds k k.proc_file_entry known
init-Unwinds chardev k known = chardev-Unwinds k k.register_chrdev
init-Unwinds char k known = char-Unwinds k k.register_chrdev
