-- ===== src/Exclusive/Examples.antt =====
-- Tests and examples of the drivers of which one file can be open.
use linuxpedia.Prelude.{◌≡◌, refl, true, false, none, List, [], ◌∷◌, length}
use linuxpedia.Prelude.Int.{pos, negsuc}
use linuxpedia.Exclusive.{Event, opens, releases, calls, open_codes, lock_codes}
use linuxpedia.Exclusive.Greeting.{greeting}
use linuxpedia.Exclusive.Parallel.{
  Port, module4_read, module4_write, module5_ioctl, module5_iocreset, module5_iocspattern,
  module5_command,
}
use linuxpedia.Exclusive.Drivers.{
  module4_device, Module4Call, module4_reads, module4_writes, module4, fops, open_codes-lock_codes,
}

abbrev idle : Port
idle = record { flagopen = 0; lastbytewritten = 0; port = [] }

-- Two who open the port, the second too early and then again.
abbrev two_users : List (Event Module4Call)
two_users =
    opens
    ∷ calls (module4_writes 0 (7 ∷ 9 ∷ []) true)
    ∷ opens
    ∷ calls module4_reads
    ∷ releases
    ∷ opens
    ∷ []

module4_write_last : module4_read (module4_write idle 0 (7 ∷ 9 ∷ []) true).1 ≡ (pos 1, 9)
unfolding module4_read module4_write
module4_write_last = refl

-- The reset fails where the stack holds other than 0 for `err`.
module5_ioctl_reset_unset : (module5_ioctl idle module5_iocreset 0 true true).0 ≡ negsuc 13
unfolding module5_ioctl
module5_ioctl_reset_unset = refl

module5_ioctl_pattern :
    module5_ioctl idle module5_iocspattern 5 true true
    ≡ (pos 0, none, record idle { port = 133 ∷ [] })
unfolding module5_ioctl module5_command
module5_ioctl_pattern = refl

greeting_first : length (greeting 12) ≡ 41
unfolding greeting
greeting_first = refl

open_codes-lock_codes_example :
    open_codes (fops module4) idle two_users ≡ lock_codes false two_users
unfolding module4_device
open_codes-lock_codes_example = open_codes-lock_codes module4 false idle two_users refl _
