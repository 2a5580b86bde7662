-- ===== src/Chardev/Messages.antt =====
-- The message of chardev.c as ioctl and write set it and as ioctl and read give it back.
use linuxpedia.Prelude.{
  ℕ, zero, suc, ◌+◌, ◌≤◌, ◌<◌, ◌≡◌, refl, ◌∙◌, sym, ap, take-all, take-append_add, length-take,
  List, [], ◌∷◌, ◌++◌, get_or, drop, take, length, ◌==◌, if◌then◌else◌, min, arith, true, false,
}
use linuxpedia.Prelude.CString.{c_str, strlen}
use linuxpedia.Chardev.{
  Device, write_loop, device_write, set_msg_loop, ioctl_set_msg, ioctl_get_msg, device_ioctl,
}
use linuxpedia.Chardev.Reads.{read_loop-take, rest, device_read-read_loop}

set_msg_loop-strlen :
    (k i ch : ℕ) (temp : List ℕ)
    → set_msg_loop k i ch temp ≡ (if ch == 0 then i else i + min k (strlen temp + 1))
unfolding set_msg_loop strlen c_str
set_msg_loop-strlen zero i ch temp = ground arith
set_msg_loop-strlen (suc k) i ch [] = ground (arith, set_msg_loop-strlen k (suc i) 0 [])
set_msg_loop-strlen (suc k) i ch (c ∷ temp) = ground (arith, set_msg_loop-strlen k (suc i) c temp)

-- A string that fits with its 0 is what the array then holds.
pub c_str-write_loop :
    (n : ℕ) (mem msg behind : List ℕ)
    → n ≡ strlen mem + 1
    → n ≤ length msg
    → c_str (write_loop n mem msg ++ behind) ≡ c_str mem
unfolding strlen c_str
c_str-write_loop zero mem msg behind e h = absurd (omega arith)
c_str-write_loop (suc n) mem [] behind e h = absurd (omega arith)
c_str-write_loop (suc n) [] (c ∷ msg) behind e h = refl
c_str-write_loop (suc n) (b ∷ mem) (c ∷ msg) behind e h =
    ground (arith, c_str-write_loop n mem msg behind)

-- Of a string that does not fit, the array holds the first bytes and no 0.
c_str-write_full :
    (mem msg behind : List ℕ)
    → length msg ≤ strlen mem
    → c_str (write_loop (length msg) mem msg ++ behind) ≡ take (length msg) mem ++ c_str behind
unfolding strlen c_str
c_str-write_full mem [] behind h = refl
c_str-write_full [] (c ∷ msg) behind h = absurd (omega arith)
c_str-write_full (b ∷ mem) (c ∷ msg) behind h = ground (arith, c_str-write_full mem msg behind)

pub length-c_str : (mem : List ℕ) → length (c_str mem) ≡ strlen mem
unfolding strlen
length-c_str mem = refl

strlen-head : (mem : List ℕ) → 1 ≤ strlen mem → (get_or mem 0 0 == 0) ≡ false
unfolding strlen c_str
strlen-head [] h = absurd (omega arith)
strlen-head (b ∷ mem) h = ground arith

strlen-le-length : (mem : List ℕ) → strlen mem ≤ length mem
unfolding strlen c_str
strlen-le-length [] = omega arith
strlen-le-length (b ∷ mem) = ground (arith, strlen-le-length mem)

-- What the get ioctl gives once the position is at the start.
pub get_msg-bytes :
    (d : Device)
    → d.message_ptr ≡ 0
    → (device_ioctl d ioctl_get_msg).1 ≡ take 99 (c_str (d.message ++ d.behind)) ++ (0 ∷ [])
unfolding device_ioctl
get_msg-bytes d h =
    ap (λ p. p.0 ++ (0 ∷ [])) (device_read-read_loop d 99)
    ∙ ap (λ xs. xs ++ (0 ∷ [])) (read_loop-take 99 (rest d))
    ∙ ap (λ k. take 99 (c_str (drop k (d.message ++ d.behind))) ++ (0 ∷ [])) h

pub set_msg-device :
    (d : Device) (mem : List ℕ)
    → 1 ≤ strlen mem
    → (device_ioctl d (ioctl_set_msg mem)).2
      ≡ record d { message = write_loop (min 80 (strlen mem + 1)) mem d.message; message_ptr = 0 }
unfolding device_ioctl device_write
set_msg-device d mem h =
    ap (λ i. record d { message = write_loop (min i 80) mem d.message; message_ptr = 0 })
      (set_msg_loop-strlen 80 0 (get_or mem 0 0) mem)
    ∙ rw (strlen-head mem h)
        (ap (λ i. record d { message = write_loop i mem d.message; message_ptr = 0 }) (omega arith))

strlen-nul : (mem : List ℕ) → strlen mem ≡ 0 → (get_or mem 0 0 == 0) ≡ true
unfolding strlen c_str
strlen-nul [] h = refl
strlen-nul (b ∷ mem) h = ground arith

set_msg_empty-device :
    (d : Device) (mem : List ℕ)
    → strlen mem ≡ 0
    → (device_ioctl d (ioctl_set_msg mem)).2 ≡ record d { message_ptr = 0 }
unfolding device_ioctl device_write
set_msg_empty-device d mem h =
    ap (λ i. record d { message = write_loop (min i 80) mem d.message; message_ptr = 0 })
      (set_msg_loop-strlen 80 0 (get_or mem 0 0) mem)
    ∙ rw (strlen-nul mem h)

-- A string of 1 to 79 bytes that IOCTL_SET_MSG sets is what IOCTL_GET_MSG then gives, with a 0
-- after it.
pub get_msg-set_msg :
    (d : Device) (mem : List ℕ)
    → length d.message ≡ 80
    → 1 ≤ strlen mem
    → strlen mem < 80
    → (device_ioctl (device_ioctl d (ioctl_set_msg mem)).2 ioctl_get_msg).1 ≡ c_str mem ++ (0 ∷ [])
get_msg-set_msg d mem full some_bytes fits =
    ap (λ e. (device_ioctl e ioctl_get_msg).1) (set_msg-device d mem some_bytes)
    ∙ get_msg-bytes _ refl
    ∙ ap (λ xs. take 99 xs ++ (0 ∷ []))
        (c_str-write_loop (min 80 (strlen mem + 1)) mem d.message d.behind (omega arith)
          (omega arith))
    ∙ ap (λ xs. xs ++ (0 ∷ [])) (take-all 99 (c_str mem) (omega (arith, length-c_str mem)))

-- Of a string of 80 bytes or more IOCTL_SET_MSG keeps 80 and no 0, and IOCTL_GET_MSG then gives
-- these and up to 19 bytes of the kernel memory behind the array.
pub get_msg-set_msg_long :
    (d : Device) (mem : List ℕ)
    → length d.message ≡ 80
    → 80 ≤ strlen mem
    → (device_ioctl (device_ioctl d (ioctl_set_msg mem)).2 ioctl_get_msg).1
      ≡ take 80 mem ++ take 19 (c_str d.behind) ++ (0 ∷ [])
get_msg-set_msg_long d mem full long =
    let min_full : min 80 (strlen mem + 1) ≡ 80 = omega arith in
    ap (λ e. (device_ioctl e ioctl_get_msg).1) (set_msg-device d mem (omega arith))
    ∙ get_msg-bytes _ refl
    ∙ ap (λ i. take 99 (c_str (write_loop i mem d.message ++ d.behind)) ++ (0 ∷ []))
        (min_full ∙ sym full)
    ∙ ap (λ xs. take 99 xs ++ (0 ∷ [])) (c_str-write_full mem d.message d.behind (omega arith))
    ∙ ap (λ i. take 99 (take i mem ++ c_str d.behind) ++ (0 ∷ [])) full
    ∙ take-append_add 99 19 (take 80 mem) (c_str d.behind) (0 ∷ [])
        (omega (arith, length-take 80 mem, strlen-le-length mem))

-- IOCTL_SET_MSG with an empty string does not clear the message: IOCTL_GET_MSG gives the string
-- that the array held before.
pub get_msg-set_msg_empty :
    (d : Device) (mem : List ℕ)
    → strlen mem ≡ 0
    → (device_ioctl (device_ioctl d (ioctl_set_msg mem)).2 ioctl_get_msg).1
      ≡ take 99 (c_str (d.message ++ d.behind)) ++ (0 ∷ [])
get_msg-set_msg_empty d mem h =
    ap (λ e. (device_ioctl e ioctl_get_msg).1) (set_msg_empty-device d mem h) ∙ get_msg-bytes _ refl
