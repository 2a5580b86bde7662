-- ===== src/Exclusive/Drivers.antt =====
-- The drivers of which one file can be open: charexample/chardev.c, lkm3_char/chardev.c,
-- mod4/module4.c and mod5/module5_fops.c of device_driver_examples.
use linuxpedia.Prelude.{ℕ, ◌≡◌, refl, Bool, List, arith}
use linuxpedia.Chardev.{
  Device, device_open, device_release, device_read, device_write, Ioctl, device_ioctl,
}
use linuxpedia.Chardev.Users.{device_read-Keeps, device_write-Keeps, device_ioctl-Keeps}
use linuxpedia.Exclusive.{
  Exclusive, Event, AreFair, lock_codes, holders, open_codes, open_codes-lock_codes_of,
}
use linuxpedia.Exclusive.Greeting.{
  Greeter, greeting_open, greeting_release, greeting_read, greeting_write,
}
use linuxpedia.Exclusive.Parallel.{
  Port, module4_open, module4_write, module4_release, module5_open, module5_command, module5_ioctl,
  module5_release,
}

pub data MessageCall : Type 0 where
  message_reads : ℕ → MessageCall
  message_writes : List ℕ → ℕ → MessageCall
  message_ioctls : Ioctl → MessageCall

abbrev pub message_call : MessageCall → Device → Device
message_call (message_reads n) d = (device_read d n).1
message_call (message_writes buffer n) d = (device_write d buffer n).1
message_call (message_ioctls command) d = (device_ioctl d command).2

pub message_call-device_open :
    (c : MessageCall) (d : Device) → (message_call c d).device_open ≡ d.device_open
message_call-device_open (message_reads n) d = (device_read-Keeps d n).count
message_call-device_open (message_writes buffer n) d = (device_write-Keeps d buffer n).count
message_call-device_open (message_ioctls command) d = (device_ioctl-Keeps d command).count

-- open is one step here: the source has no lock between its test and increment of the count, so this is
-- the driver where no two calls overlap.
unfoldable pub message_device : Exclusive Device MessageCall
unfolding device_open device_release
message_device = record {
  on_open = device_open;
  on_release = device_release;
  on_call = message_call;
  uses = λ d. d.device_open;
  open-free = λ d h. rw h (refl, refl);
  open-busy = λ d h. rw h refl;
  release-uses = λ d. refl;
  call-uses = message_call-device_open;
}

pub data GreetingCall : Type 0 where
  greeting_reads : ℕ → GreetingCall
  greeting_writes : GreetingCall

abbrev pub greeting_call : GreetingCall → Greeter → Greeter
greeting_call (greeting_reads n) g = (greeting_read g n).1
greeting_call greeting_writes g = (greeting_write g).1

pub greeting_call-device_open :
    (c : GreetingCall) (g : Greeter) → (greeting_call c g).device.device_open ≡ g.device.device_open
unfolding greeting_read greeting_write
greeting_call-device_open (greeting_reads n) g = (device_read-Keeps g.device n).count
greeting_call-device_open greeting_writes g = refl

-- open is one step here: the source has no lock between its test and increment of the count, so this is
-- the driver where no two calls overlap.
unfoldable pub greeting_device : Exclusive Greeter GreetingCall
unfolding greeting_open greeting_release device_release
greeting_device = record {
  on_open = greeting_open;
  on_release = greeting_release;
  on_call = greeting_call;
  uses = λ g. g.device.device_open;
  open-free = λ g h. rw h (refl, refl);
  open-busy = λ g h. rw h refl;
  release-uses = λ g. refl;
  call-uses = greeting_call-device_open;
}

pub data Module4Call : Type 0 where
  module4_reads : Module4Call
  module4_writes : (before : ℕ) → (buffer : List ℕ) → (readable : Bool) → Module4Call

abbrev pub module4_call : Module4Call → Port → Port
module4_call module4_reads p = p
module4_call (module4_writes before buffer readable) p = (module4_write p before buffer readable).1

pub module4_call-flagopen : (c : Module4Call) (p : Port) → (module4_call c p).flagopen ≡ p.flagopen
unfolding module4_write
module4_call-flagopen module4_reads p = refl
module4_call-flagopen (module4_writes before buffer readable) p = refl

-- open is one step here: the source has no lock between its test and set of the count, so this is
-- the driver where no two calls overlap.
unfoldable pub module4_device : Exclusive Port Module4Call
unfolding module4_open module4_release
module4_device = record {
  on_open = module4_open;
  on_release = module4_release;
  on_call = module4_call;
  uses = λ p. p.flagopen;
  open-free = λ p h. rw h (refl, refl);
  open-busy = λ p h. rw h refl;
  release-uses = λ p. refl;
  call-uses = module4_call-flagopen;
}

pub data Module5Call : Type 0 where
  module5_ioctls : (cmd val : ℕ) → (accessible unset : Bool) → Module5Call

abbrev pub module5_call : Module5Call → Port → Port
module5_call (module5_ioctls cmd val accessible unset) p =
    (module5_ioctl p cmd val accessible unset).2

pub module5_call-flagopen : (c : Module5Call) (p : Port) → (module5_call c p).flagopen ≡ p.flagopen
unfolding module5_ioctl module5_command
module5_call-flagopen (module5_ioctls cmd val accessible unset) p = ground arith

-- open is one step here: the source has no lock between its test and set of the count, so this is
-- the driver where no two calls overlap.
unfoldable pub module5_device : Exclusive Port Module5Call
unfolding module5_open module5_release
module5_device = record {
  on_open = module5_open;
  on_release = module5_release;
  on_call = module5_call;
  uses = λ p. p.flagopen;
  open-free = λ p h. rw h (refl, refl);
  open-busy = λ p h. rw h refl;
  release-uses = λ p. refl;
  call-uses = module5_call-flagopen;
}

pub data Driver : Type 0 where
  chardev greeting_chardev module4 module5 : Driver

abbrev pub StateOf : Driver → Type 0
StateOf chardev = Device
StateOf greeting_chardev = Greeter
StateOf module4 = Port
StateOf module5 = Port

abbrev pub Call : Driver → Type 0
Call chardev = MessageCall
Call greeting_chardev = GreetingCall
Call module4 = Module4Call
Call module5 = Module5Call

-- What each driver registers with the kernel.
abbrev pub fops : (d : Driver) → Exclusive (StateOf d) (Call d)
fops chardev = message_device
fops greeting_chardev = greeting_device
fops module4 = module4_device
fops module5 = module5_device

-- Where no two calls overlap, the driver's flag is 1 if a file is open and 0 if none is, and a release
-- comes only for an open file, the opens among any calls of the driver answer as a lock does: 0 to the one who finds
-- it free, who then holds it up to the release, and EBUSY to all who come meanwhile, whatever
-- reads, writes and ioctls come in between.
pub open_codes-lock_codes :
    (d : Driver) (held : Bool) (s : StateOf d) (es : List (Event (Call d)))
    → (fops d).uses s ≡ holders held
    → AreFair held es
    → open_codes (fops d) s es ≡ lock_codes held es
open_codes-lock_codes d held s es h fair = open_codes-lock_codes_of (fops d) held s es h fair
