-- ===== src/Chardev/Users.antt =====
-- Who has the device of chardev.c open, over any sequence of calls.
use linuxpedia.Prelude.{
  ℕ, zero, suc, ◌+◌, ◌-◌, ◌≤◌, ◌≡◌, refl, ◌∙◌, ap, List, [], ◌∷◌, length, arith, if◌then◌else◌, min,
  inl, inr, Bool-cases, ◌==◌,
}
use linuxpedia.Prelude.Int.{eq_ℤ, pos}
use linuxpedia.Chardev.{
  Device, device_open, device_release, device_read, write_loop, device_write, Ioctl, ioctl_set_msg,
  ioctl_get_msg, ioctl_get_nth_byte, ioctl_other, device_ioctl,
}
use linuxpedia.Chardev.Reads.{device_read-read_loop}

-- The device and the number of opened files that are not released yet.
pub record Session : Type 0 where
  pub device : Device
  pub holders : ℕ

abbrev pub open_file : Session → Session
open_file s =
    let (code, device') = device_open s.device in
    record { device = device'; holders = if eq_ℤ code (pos 0) then s.holders + 1 else s.holders }

abbrev pub release_file : Session → Session
release_file s = record { device = (device_release s.device).1; holders = s.holders - 1 }

-- The kernel releases a file that has been opened, and otherwise calls in any order.
pub data Calls (s : Session) : Session → Type 0 where
  begin : Calls s s
  opens : {s' : Session} → Calls s s' → Calls s (open_file s')
  releases : {s' : Session} → Calls s s' → 1 ≤ s'.holders → Calls s (release_file s')
  reads :
      {s' : Session} (n : ℕ)
      → Calls s s'
      → Calls s (record s' { device = (device_read s'.device n).1 })
  writes :
      {s' : Session} (buffer : List ℕ) (n : ℕ)
      → Calls s s'
      → Calls s (record s' { device = (device_write s'.device buffer n).1 })
  ioctls :
      {s' : Session} (command : Ioctl)
      → Calls s s'
      → Calls s (record s' { device = (device_ioctl s'.device command).2 })

-- The counts of the driver and of the module are those of the opened files, of which there is at
-- most one, and the message has not left its array.
pub record IsHeld (s : Session) : Type 0 where
  pub count : s.device.device_open ≡ s.holders
  pub uses : s.device.uses ≡ s.holders
  pub one : s.holders ≤ 1
  pub inside : length s.device.message ≡ 80

pub length-write_loop :
    (n : ℕ) (buffer message : List ℕ) → length (write_loop n buffer message) ≡ length message
length-write_loop zero buffer message = refl
length-write_loop (suc n) buffer [] = refl
length-write_loop (suc n) [] (c ∷ message) = ap suc (length-write_loop n [] message)
length-write_loop (suc n) (b ∷ buffer) (c ∷ message) = ap suc (length-write_loop n buffer message)

-- What reads, writes and ioctls leave alone.
pub record Keeps (d d' : Device) : Type 0 where
  pub count : d'.device_open ≡ d.device_open
  pub uses : d'.uses ≡ d.uses
  pub size : length d'.message ≡ length d.message

pub device_read-Keeps : (d : Device) (n : ℕ) → Keeps d (device_read d n).1
device_read-Keeps d n =
    rw (device_read-read_loop d n) (record { count = refl; uses = refl; size = refl })

pub device_write-Keeps :
    (d : Device) (buffer : List ℕ) (n : ℕ) → Keeps d (device_write d buffer n).1
unfolding device_write
device_write-Keeps d buffer n = record {
  count = refl;
  uses = refl;
  size = length-write_loop (min n 80) buffer d.message;
}

pub device_ioctl-Keeps : (d : Device) (command : Ioctl) → Keeps d (device_ioctl d command).2
unfolding device_ioctl
device_ioctl-Keeps d (ioctl_set_msg temp) = device_write-Keeps d temp _
device_ioctl-Keeps d ioctl_get_msg = device_read-Keeps d 99
device_ioctl-Keeps d (ioctl_get_nth_byte n) = record { count = refl; uses = refl; size = refl }
device_ioctl-Keeps d ioctl_other = record { count = refl; uses = refl; size = refl }

Keeps-IsHeld :
    (s : Session) (d : Device) → Keeps s.device d → IsHeld s → IsHeld (record s { device = d })
Keeps-IsHeld s d k h = record {
  count = k.count ∙ h.count;
  uses = k.uses ∙ h.uses;
  one = h.one;
  inside = k.size ∙ h.inside;
}

open_file-IsHeld : (s : Session) → IsHeld s → IsHeld (open_file s)
unfolding device_open
open_file-IsHeld s h = elim (Bool-cases (s.device.device_open == 0)) [
  | inl e ↦ rw e (record {
    count = ap suc_of h.count;
    uses = ap suc_of h.uses;
    one = ground (arith, h.count);
    inside = h.inside;
  })
  | inr e ↦ rw e h
]
  where
    suc_of : ℕ → ℕ
    suc_of n = n + 1

release_file-IsHeld : (s : Session) → 1 ≤ s.holders → IsHeld s → IsHeld (release_file s)
unfolding device_release
release_file-IsHeld s some_holder h = record {
  count = ap (λ n. n - 1) h.count;
  uses = ap (λ n. n - 1) h.uses;
  one = omega (arith, h.one);
  inside = h.inside;
}

-- Whatever calls come in whatever order, if at the start the driver's count and the module's use count are the
-- number of opened files, at most one file is open and the message has 80 bytes, it stays so.
pub Calls-IsHeld : {s s' : Session} → Calls s s' → IsHeld s → IsHeld s'
Calls-IsHeld begin h = h
Calls-IsHeld (opens {s'} r) h = open_file-IsHeld s' (Calls-IsHeld r h)
Calls-IsHeld (releases {s'} r one) h = release_file-IsHeld s' one (Calls-IsHeld r h)
Calls-IsHeld (reads {s'} n r) h =
    Keeps-IsHeld s' _ (device_read-Keeps s'.device n) (Calls-IsHeld r h)
Calls-IsHeld (writes {s'} buffer n r) h =
    Keeps-IsHeld s' _ (device_write-Keeps s'.device buffer n) (Calls-IsHeld r h)
Calls-IsHeld (ioctls {s'} command r) h =
    Keeps-IsHeld s' _ (device_ioctl-Keeps s'.device command) (Calls-IsHeld r h)
