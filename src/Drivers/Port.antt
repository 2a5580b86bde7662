-- ===== src/Drivers/Port.antt =====
-- The parallel-port drivers device_driver_examples/mod4/module4.c and mod5/module5_init.c: set up
-- and taken down.
use linuxpedia.Prelude.{Option, some, [], ◌∷◌, if◌then◌else◌, not}
use linuxpedia.Prelude.Int.{pos, is_neg, eq_ℤ}
use linuxpedia.Drivers.Resources.{
  region, cdev, ports, Stack, releases, Init, fail, to_int, is_null, hold, hold_code, Kernel,
}

-- Without the ports the driver goes on and uses them anyway.
unfoldable pub initialize_module4 : Kernel → Init
initialize_module4 k =
    if is_neg (to_int k.alloc_chrdev_region)
    then some (to_int k.alloc_chrdev_region, [])
    else let s₁ = hold_code k.alloc_chrdev_region region [] in
      if not (eq_ℤ (to_int k.cdev_add) (pos 0))
      then fail (to_int k.cdev_add) (region ∷ []) s₁
      else some (pos 0, hold k.request_region ports (hold_code k.cdev_add cdev s₁))

-- `module4_region` is what request_region returned.
unfoldable pub cleanup_module4 : Kernel → Stack → Option Stack
cleanup_module4 k s =
    if not (is_null k.request_region)
    then releases (ports ∷ cdev ∷ region ∷ []) s
    else releases (cdev ∷ region ∷ []) s

unfoldable pub initialize_module5 : Kernel → Init
initialize_module5 k =
    if is_neg (to_int k.alloc_chrdev_region)
    then some (to_int k.alloc_chrdev_region, [])
    else let s₁ = hold_code k.alloc_chrdev_region region [] in
      if not (eq_ℤ (to_int k.cdev_add) (pos 0))
      then fail (to_int k.cdev_add) (region ∷ []) s₁
      else some (pos 0, hold k.request_region ports (hold_code k.cdev_add cdev s₁))

unfoldable pub cleanup_module5 : Kernel → Stack → Option Stack
cleanup_module5 k s =
    if not (is_null k.request_region)
    then releases (ports ∷ cdev ∷ region ∷ []) s
    else releases (cdev ∷ region ∷ []) s
