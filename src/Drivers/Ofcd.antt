-- ===== src/Drivers/Ofcd.antt =====
-- lfy_dd_series/05_character-device-files-creation-operations/ofcd.c: a driver whose device reads
-- as empty and takes whatever is written.
use linuxpedia.Prelude.{ℕ, Option, some, [], ◌∷◌, if◌then◌else◌}
use linuxpedia.Prelude.Int.{ℤ, pos, minus_one, is_neg, eq_ℤ}
use linuxpedia.Drivers.Resources.{
  region, cdev, class, device, Stack, releases, Init, fail, to_int, is_null, hold, hold_code,
  Kernel,
}

unfoldable pub ofcd_init : Kernel → Init
ofcd_init k =
    if is_neg (to_int k.alloc_chrdev_region)
    then some (minus_one, [])
    else let s₁ = hold_code k.alloc_chrdev_region region [] in
      if is_null k.class_create
      then fail minus_one (region ∷ []) s₁
      else let s₂ = hold k.class_create class s₁ in
        if is_null k.device_create
        then fail minus_one (class ∷ region ∷ []) s₂
        else let s₃ = hold k.device_create device s₂ in
          if eq_ℤ (to_int k.cdev_add) minus_one
          then fail minus_one (device ∷ class ∷ region ∷ []) s₃
          else some (pos 0, hold_code k.cdev_add cdev s₃)

unfoldable pub ofcd_exit : Stack → Option Stack
ofcd_exit s = releases (cdev ∷ device ∷ class ∷ region ∷ []) s

-- my_read gives no bytes, and my_write says that all `len` bytes are written.
abbrev pub ofcd_read : (len : ℕ) → ℤ
ofcd_read len = pos 0

abbrev pub ofcd_write : (len : ℕ) → ℤ
ofcd_write len = pos len
