-- ===== src/Chardev/Client/Runs.antt =====
-- What ioctl.c prints of the message of chardev.c, and leaves for its next run.
use linuxpedia.Prelude.{
  ℕ, ◌+◌, ◌<◌, ◌≡◌, refl, sym, ap, ap₂, ◌∙◌, true, some, List, [], ◌∷◌, ◌++◌, length, take, arith,
  take-all,
}
use mathlib.Core.List.{append-nil}
use mathlib.Core.Path.{subst}
use linuxpedia.Prelude.CString.{c_str, strlen}
use linuxpedia.Chardev.{
  Device, device_open, device_release, device_ioctl, ioctl_get_msg, device_read, write_loop,
}
use linuxpedia.Chardev.Messages.{get_msg-bytes, set_msg-device, c_str-write_loop, length-c_str}
use linuxpedia.Chardev.Users.{length-write_loop}
use linuxpedia.Chardev.Client.{
  Line, get_nth_byte_message, get_msg_message, get_nth_byte, get_msg, msg, set_msg, run_open, main,
}
use linuxpedia.Chardev.Client.Loop.{get_nth_byte-said, AllAscii, said-ascii}

-- A closed device whose message ends in its array and has no byte of 128 or more.
pub record IsIdle (d : Device) : Type 0 where
  pub closed : d.device_open ≡ 0
  pub size : length d.message ≡ 80
  pub short : strlen d.message < 80
  pub ascii : AllAscii (c_str d.message)

c_str-append : (m behind : List ℕ) → strlen m < length m → c_str (m ++ behind) ≡ c_str m
unfolding strlen c_str
c_str-append [] behind h = absurd (omega arith)
c_str-append (c ∷ m) behind h = ground (arith, c_str-append m behind)

c_str-ended : (m : List ℕ) → c_str (c_str m ++ (0 ∷ [])) ≡ c_str m
unfolding c_str
c_str-ended [] = refl
c_str-ended (c ∷ m) = ground (arith, c_str-ended m)

device_read-moved :
    (d : Device) (n : ℕ)
    → (device_read d n).1 ≡ record d { message_ptr = (device_read d n).1.message_ptr }
unfolding device_read
device_read-moved d n = ground arith

msg-AllAscii : AllAscii (c_str msg)
unfolding c_str
msg-AllAscii = omega arith

strlen-msg : strlen msg ≡ 24
unfolding strlen c_str
strlen-msg = refl

-- What a run prints of a message.
abbrev pub both : List ℕ → List Line
both text = get_nth_byte_message (text ++ (0 ∷ [])) ∷ get_msg_message text ∷ []

module _ (d : Device) (size : length d.message ≡ 80) (short : strlen d.message < 80) where
  text_here : c_str (d.message ++ d.behind) ≡ c_str d.message
  text_here = c_str-append d.message d.behind (omega (arith, size, short))

  get_nth_byte-text :
      AllAscii (c_str d.message)
      → get_nth_byte d ≡ some (get_nth_byte_message (c_str d.message ++ (0 ∷ [])))
  get_nth_byte-text ascii =
      get_nth_byte-said d
      ∙ ap some (
          said-ascii 0 (d.message ++ d.behind) (subst AllAscii (sym text_here) ascii)
          ∙ ap (λ t. get_nth_byte_message (t ++ (0 ∷ []))) text_here)

  get_msg-text :
      d.message_ptr ≡ 0
      → (p : ℕ) × (get_msg d
          ≡ (get_msg_message (c_str d.message), true, record d { message_ptr = p }))
  unfolding get_msg device_ioctl
  get_msg-text start =
      let bytes : (device_ioctl d ioctl_get_msg).1 ≡ c_str d.message ++ (0 ∷ []) =
        get_msg-bytes d start
        ∙ ap (λ t. take 99 t ++ (0 ∷ [])) text_here
        ∙ ap (λ t. t ++ (0 ∷ []))
            (take-all 99 (c_str d.message) (omega (arith, short, length-c_str d.message))) in
      (
        (device_read d 99).1.message_ptr,
        ap₂ (λ t d'. (get_msg_message t, true, d')) (ap c_str bytes ∙ c_str-ended d.message)
            (device_read-moved d 99),
      )

  set_msg-text :
      (p : ℕ)
      → set_msg (record d { message_ptr = p })
        ≡ ([], record d { message = write_loop 25 msg d.message; message_ptr = 0 })
  unfolding set_msg strlen c_str device_ioctl
  set_msg-text p =
      ap (λ d'. ([], d')) (set_msg-device (record d { message_ptr = p }) msg (omega arith))

  next_message : c_str (write_loop 25 msg d.message) ≡ c_str msg
  unfolding strlen c_str
  next_message =
      ap c_str (sym (append-nil (write_loop 25 msg d.message)))
      ∙ c_str-write_loop 25 msg d.message [] (omega arith) (omega (arith, size))

  -- The device that a run leaves open.
  abbrev after : Device
  after = record d { message = write_loop 25 msg d.message; message_ptr = 0 }

  next-IsIdle : d.device_open ≡ 1 → IsIdle (device_release after).1
  unfolding strlen device_release
  next-IsIdle one = record {
    closed = omega (arith, one);
    size = length-write_loop 25 msg d.message ∙ size;
    short = omega (arith, ap length next_message, strlen-msg);
    ascii = subst AllAscii (sym next_message) msg-AllAscii;
  }

open-idle :
    (d : Device)
    → d.device_open ≡ 0
    → main d
      ≡ run_open (record d { device_open = d.device_open + 1; message_ptr = 0; uses = d.uses + 1 })
unfolding main device_open
open-idle d closed = rw closed refl

run_open-both :
    (d : Device)
    → (size : length d.message ≡ 80) → (short : strlen d.message < 80) → AllAscii (c_str d.message)
    → d.message_ptr ≡ 0
    → run_open d ≡ some (both (c_str d.message), (device_release (after d size short)).1)
unfolding run_open
run_open-both d size short ascii start =
    let (p, got) = get_msg-text d size short start in
    rw (get_nth_byte-text d size short ascii, run_open, got)
      (ap
        (λ (r : List Line × Device). some (
          get_nth_byte_message (c_str d.message ++ (0 ∷ []))
              ∷ get_msg_message (c_str d.message)
              ∷ r.0,
          (device_release r.1).1,
        ))
        (set_msg-text d size short p))

main-IsIdle :
    (d : Device)
    → IsIdle d
    → (d' : Device) × (main d ≡ some (both (c_str d.message), d'))
      × (c_str d'.message ≡ c_str msg)
      × IsIdle d'
unfolding device_release
main-IsIdle d h =
    let opened : Device = record d {
      device_open = d.device_open + 1;
      message_ptr = 0;
      uses = d.uses + 1;
    } in
    (
      (device_release (after opened h.size h.short)).1,
      open-idle d h.closed ∙ run_open-both opened h.size h.short h.ascii refl,
      next_message opened h.size h.short,
      next-IsIdle opened h.size h.short (omega (arith, h.closed)),
    )

-- On a closed device whose message ends in its array and has no byte of 128 or more, a run of the
-- program prints the message twice, byte by byte and as a whole, and closes the device; the next
-- run prints the message that this one has set.
pub main-main :
    (d : Device)
    → IsIdle d
    → (d' d'' : Device) × (main d ≡ some (both (c_str d.message), d'))
      × (main d' ≡ some (both (c_str msg), d''))
      × IsIdle d''
main-main d h =
    let (d', first, text, idle) = main-IsIdle d h in
    let (d'', second, _, idle'') = main-IsIdle d' idle in
    (d', d'', first, second ∙ ap (λ t. some (both t, d'')) text, idle'')
