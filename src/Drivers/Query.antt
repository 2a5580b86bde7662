-- ===== src/Drivers/Query.antt =====
-- device_driver_examples/lfy4_ioctl/query_ioctl.c: three variables that ioctl gets, clears and sets.
use linuxpedia.Prelude.{◌≡◌, refl, Bool, true, Option, none, some, [], ◌∷◌, not, if◌then◌else◌}
use linuxpedia.Prelude.Int.{ℤ, pos, is_neg, neg_eacces, neg_einval}
use linuxpedia.Drivers.Resources.{
  region, cdev, class, device, Stack, releases, Init, fail, to_int, is_err, ptr_err, hold,
  hold_code, Kernel,
}

unfoldable pub query_ioctl_init : Kernel → Init
query_ioctl_init k =
    if is_neg (to_int k.alloc_chrdev_region)
    then some (to_int k.alloc_chrdev_region, [])
    else let s₁ = hold_code k.alloc_chrdev_region region [] in
      if is_neg (to_int k.cdev_add)
      then some (to_int k.cdev_add, s₁)
      else let s₂ = hold_code k.cdev_add cdev s₁ in
        if is_err k.class_create
        then fail (ptr_err k.class_create) (cdev ∷ region ∷ []) s₂
        else let s₃ = hold k.class_create class s₂ in
          if is_err k.device_create
          then fail (ptr_err k.device_create) (class ∷ cdev ∷ region ∷ []) s₃
          else some (pos 0, hold k.device_create device s₃)

unfoldable pub query_ioctl_exit : Stack → Option Stack
query_ioctl_exit s = releases (device ∷ class ∷ cdev ∷ region ∷ []) s

-- `status`, `dignity` and `ego`, and `query_arg_t`
pub record QueryArg : Type 0 where
  pub status : ℤ
  pub dignity : ℤ
  pub ego : ℤ

abbrev pub first_variables : QueryArg
first_variables = record { status = pos 1; dignity = pos 3; ego = pos 5 }

pub data QueryCommand : Type 0 where
  query_get_variables query_clr_variables other_query : QueryCommand
  query_set_variables : QueryArg → QueryCommand

-- The result, what is copied to the user, and the variables; `copies` says whether the user's
-- memory can be copied to and from.
unfoldable pub query_ioctl :
    (copies : Bool) → QueryCommand → QueryArg → ℤ × Option QueryArg × QueryArg
query_ioctl copies query_get_variables v =
    if not copies then (neg_eacces, none, v) else (pos 0, some v, v)
query_ioctl copies query_clr_variables v =
    (pos 0, none, record { status = pos 0; dignity = pos 0; ego = pos 0 })
query_ioctl copies (query_set_variables q) v =
    if not copies then (neg_eacces, none, v) else (pos 0, none, q)
query_ioctl copies other_query v = (neg_einval, none, v)

-- What is set is what is got, as long as nothing else is set in between.
pub query_ioctl-set_get :
    (q v : QueryArg)
    → (query_ioctl true query_get_variables (query_ioctl true (query_set_variables q) v).2).1
      ≡ some q
unfolding query_ioctl
query_ioctl-set_get q v = refl
