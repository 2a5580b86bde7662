-- ===== src/Chardev/Examples.antt =====
-- A device with a message and three bytes of other data behind it, and the theorems at it.
use linuxpedia.Prelude.{some, ℕ, ◌≡◌, refl, List, [], ◌∷◌, ◌++◌, replicate, length, arith}
use linuxpedia.Prelude.CString.{c_str, strlen}
use linuxpedia.Chardev.{Device, ioctl_set_msg, ioctl_get_msg, device_ioctl}
use linuxpedia.Chardev.Messages.{get_msg-set_msg}
use linuxpedia.Chardev.Client.{main, msg}
use linuxpedia.Chardev.Client.Runs.{IsIdle, both, main-main}

-- "hello"
abbrev hello : List ℕ
hello = 104 ∷ 101 ∷ 108 ∷ 108 ∷ 111 ∷ 0 ∷ []

abbrev device : Device
device = record {
  device_open = 0;
  message = hello ++ replicate 74 0;
  message_ptr = 0;
  behind = 1 ∷ 2 ∷ 0 ∷ [];
  uses = 0;
}

length-device : length device.message ≡ 80
length-device = refl

strlen-hello : strlen hello ≡ 5
unfolding strlen c_str
strlen-hello = refl

get_msg-set_msg_example :
    (device_ioctl (device_ioctl device (ioctl_set_msg hello)).2 ioctl_get_msg).1
    ≡ c_str hello ++ (0 ∷ [])
get_msg-set_msg_example =
    get_msg-set_msg device hello length-device (omega (arith, strlen-hello))
      (omega (arith, strlen-hello))

device-IsIdle : IsIdle device
unfolding strlen c_str
device-IsIdle = omega arith

main-main_example :
    (d' d'' : Device) × (main device ≡ some (both (c_str device.message), d'))
    × (main d' ≡ some (both (c_str msg), d''))
    × IsIdle d''
main-main_example = main-main device device-IsIdle
