-- ===== src/Sleep.antt =====
-- The sleeping file of device_driver_examples/lkm5/sleep.c: `Already_Open`, the wait queue and the
-- module's use count as the processes that open and close the file see them, one access of shared
-- state after the other, and the message that the file holds. `try_module_get` succeeds, since the
-- call comes through the operations of a module that is in use.
pub mod Count
pub mod Exclusion
pub mod Message
mod Examples
use linuxpedia.Prelude.{
  ℕ, zero, suc, ◌+◌, ◌-◌, ◌*◌, ◌≡◌, Bool, true, false, ◌&&◌, ◌||◌, not, Option, none, some, List,
  get_elem?, set, take, length, ◌++◌, [], ◌∷◌, ◌==◌, if◌then◌else◌, min,
}
use linuxpedia.Prelude.Int.{ℤ, pos, negsuc, neg_eacces}
use linuxpedia.Prelude.CString.{c_str}

abbrev pub neg_eintr : ℤ
neg_eintr = negsuc 3

abbrev pub neg_eagain : ℤ
neg_eagain = negsuc 10

-- The static variables that processes share, with the module's use count.
pub record Shared : Type 0 where
  pub already_open : Bool
  pub uses : ℕ

-- Where a process stands: `entering` holds whether the flags include O_NONBLOCK, `testing` is the
-- head of the while loop, `waiting` is inside wait_event_interruptible about to test its condition,
-- `asleep` is there after a test that failed, `woken` after it, `setting` after the loop, `waking` and
-- `putting` are inside module_close before and after its wake_up, and `returned` is a process whose
-- open failed.
pub data Process : Type 0 where
  entering : Bool → Process
  testing waiting asleep woken setting opened waking putting closed : Process
  returned : ℤ → Process

-- One access of shared state by a process in module_open or, once opened, in module_close.
-- `is_sig` says whether a signal that is not blocked is pending.
abbrev pub advance : (is_sig : Bool) → Process → Shared → Process × Shared
advance is_sig (entering nonblock) s =
    if nonblock && s.already_open
    then (returned neg_eagain, s)
    else (testing, record s { uses = s.uses + 1 })
advance is_sig testing s = if s.already_open then (waiting, s) else (setting, s)
advance is_sig waiting s = if s.already_open && not is_sig then (asleep, s) else (woken, s)
advance is_sig asleep s = if is_sig then (woken, s) else (asleep, s)
advance is_sig woken s =
    if is_sig then (returned neg_eintr, record s { uses = s.uses - 1 }) else (testing, s)
advance is_sig setting s = (opened, record s { already_open = true })
advance is_sig opened s = (waking, record s { already_open = false })
advance is_sig waking s = (putting, s)
advance is_sig putting s = (closed, record s { uses = s.uses - 1 })
advance is_sig closed s = (closed, s)
advance is_sig (returned e) s = (returned e, s)

abbrev pub wake : Process → Process
wake asleep = waiting
wake (entering nonblock) = entering nonblock
wake testing = testing
wake waiting = waiting
wake woken = woken
wake setting = setting
wake opened = opened
wake waking = waking
wake putting = putting
wake closed = closed
wake (returned e) = returned e

-- wake_up(&WaitQ): every process that sleeps there tests its condition again.
abbrev pub wake_up : List Process → List Process
wake_up [] = []
wake_up (p ∷ ps) = wake p ∷ wake_up ps

abbrev pub wakes : Process → Bool
wakes waking = true
wakes (entering nonblock) = false
wakes testing = false
wakes waiting = false
wakes asleep = false
wakes woken = false
wakes setting = false
wakes opened = false
wakes putting = false
wakes closed = false
wakes (returned e) = false

-- What the access of a process does to all of them, if it calls wake_up.
abbrev pub notify : Process → List Process → List Process
notify p ps = if wakes p then wake_up ps else ps

pub record State : Type 0 where
  pub shared : Shared
  pub processes : List Process

-- Process `i` makes one access.
unfoldable pub run : (i : ℕ) (is_sig : Bool) → State → State
run i is_sig s = elim (get_elem? s.processes i) [
  | none ↦ s
  | some p ↦
      let (p', shared') = advance is_sig p s.shared in
      record { shared = shared'; processes = notify p (set s.processes i p') }
]

-- As `advance`, where no other process runs between the test that ends the while loop and the
-- assignment after it.
abbrev pub advance_whole : (is_sig : Bool) → Process → Shared → Process × Shared
advance_whole is_sig testing s = if s.already_open then (waiting, s) else advance is_sig setting s
advance_whole is_sig p s = advance is_sig p s

unfoldable pub run_whole : (i : ℕ) (is_sig : Bool) → State → State
run_whole i is_sig s = elim (get_elem? s.processes i) [
  | none ↦ s
  | some p ↦
      let (p', shared') = advance_whole is_sig p s.shared in
      record { shared = shared'; processes = notify p (set s.processes i p') }
]

-- The scheduler runs any process at any time, with any signals.
pub data Runs (s : State) : State → Type 0 where
  start : Runs s s
  then_run : {s' : State} (i : ℕ) (is_sig : Bool) → Runs s s' → Runs s (run i is_sig s')

pub data RunsWhole (s : State) : State → Type 0 where
  start_whole : RunsWhole s s
  then_whole :
      {s' : State} (i : ℕ) (is_sig : Bool) → RunsWhole s s' → RunsWhole s (run_whole i is_sig s')

-- A process between its try_module_get and its module_put.
abbrev pub holds : Process → ℕ
holds (entering nonblock) = 0
holds closed = 0
holds (returned e) = 0
holds testing = 1
holds waiting = 1
holds asleep = 1
holds waking = 1
holds woken = 1
holds setting = 1
holds opened = 1
holds putting = 1

abbrev pub has_file : Process → ℕ
has_file opened = 1
has_file (entering nonblock) = 0
has_file closed = 0
has_file (returned e) = 0
has_file testing = 0
has_file waiting = 0
has_file asleep = 0
has_file waking = 0
has_file woken = 0
has_file setting = 0
has_file putting = 0

abbrev pub is_setting : Process → ℕ
is_setting setting = 1
is_setting opened = 0
is_setting (entering nonblock) = 0
is_setting closed = 0
is_setting (returned e) = 0
is_setting testing = 0
is_setting waiting = 0
is_setting asleep = 0
is_setting waking = 0
is_setting woken = 0
is_setting putting = 0

abbrev pub total : (Process → ℕ) → List Process → ℕ
total f [] = 0
total f (p ∷ ps) = f p + total f ps

abbrev pub message_length : ℕ
message_length = 80

-- `Message`, and the `finished` flag of module_output.
pub record File : Type 0 where
  pub message : List ℕ
  pub finished : Bool

-- The loop of module_input: the first `n` bytes of `buf` over the start of the message, with the
-- index after the last.
abbrev pub input_loop : (n : ℕ) → List ℕ → List ℕ → List ℕ
input_loop zero buf [] = []
input_loop zero buf (c ∷ message) = 0 ∷ message
input_loop (suc n) [] message = message
input_loop (suc n) (b ∷ buf) [] = []
input_loop (suc n) (b ∷ buf) (c ∷ message) = b ∷ input_loop n buf message

-- `buf` has the `length` bytes that are written.
unfoldable pub module_input : File → (buf : List ℕ) → ℤ × File
module_input f buf =
    let n = min (message_length - 1) (length buf) in
    (pos n, record f { message = input_loop n buf f.message })

-- "Last input:"
abbrev pub last_input : List ℕ
last_input = 76 ∷ 97 ∷ 115 ∷ 116 ∷ 32 ∷ 105 ∷ 110 ∷ 112 ∷ 117 ∷ 116 ∷ 58 ∷ []

-- What the user's buffer of `len` bytes receives, whose length is the result.
unfoldable pub module_output : File → (len : ℕ) → List ℕ × File
module_output f len =
    if f.finished
    then ([], record f { finished = false })
    else (take len (last_input ++ c_str f.message ++ (10 ∷ [])), record f { finished = true })

abbrev pub module_permission : (op euid : ℕ) → ℤ
module_permission op euid = if (op == 4) || ((op == 2) && (euid == 0)) then pos 0 else neg_eacces
