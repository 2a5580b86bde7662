-- ===== src/Sleep/Count.antt =====
-- The module's use count of sleep.c against the processes that hold the module.
use linuxpedia.Prelude.{
  ℕ, zero, suc, ◌+◌, ◌≤◌, ◌≡◌, refl, inl, inr, Bool, Bool-cases, some, List, [], ◌∷◌, get_elem?,
  set, arith, Option-cases,
}
use linuxpedia.Sleep.{
  Shared, Process, entering, testing, waiting, asleep, waking, wake, wake_up, wakes, notify, woken,
  setting, opened, putting, closed, returned, advance, State, run, Runs, start, then_run, holds,
  total,
}

pub total-set :
    (f : Process → ℕ) (ps : List Process) (i : ℕ) (p q : Process)
    → get_elem? ps i ≡ some p
    → total f (set ps i q) + f p ≡ total f ps + f q
total-set f [] i p q h = ground arith
total-set f (x ∷ ps) zero p q h = ground arith
total-set f (x ∷ ps) (suc i) p q h = omega (arith, total-set f ps i p q h)

total-wake_up :
    (f : Process → ℕ)
    → f waiting ≡ f asleep
    → (ps : List Process) → total f (wake_up ps) ≡ total f ps
total-wake_up f e [] = refl
total-wake_up f e (p ∷ ps) = omega (arith, same p, total-wake_up f e ps)
  where
    same : (p : Process) → f (wake p) ≡ f p
    same asleep = e
    same (entering nonblock) = refl
    same testing = refl
    same waiting = refl
    same woken = refl
    same setting = refl
    same opened = refl
    same waking = refl
    same putting = refl
    same closed = refl
    same (returned e) = refl

-- What does not tell a sleeper from a waiter is not changed by a wake_up.
pub total-notify :
    (f : Process → ℕ)
    → f waiting ≡ f asleep
    → (p : Process) (ps : List Process) → total f (notify p ps) ≡ total f ps
total-notify f e p ps = elim (Bool-cases (wakes p)) [
  | inl yes_wakes ↦ rw yes_wakes (total-wake_up f e ps)
  | inr quiet ↦ rw quiet refl
]

advance-holds :
    (is_sig : Bool) (p : Process) (s : Shared)
    → holds p ≤ s.uses
    → (advance is_sig p s).1.uses + holds p ≡ s.uses + holds (advance is_sig p s).0
advance-holds is_sig (entering nonblock) s h = ground arith
advance-holds is_sig testing s h = ground arith
advance-holds is_sig waiting s h = ground arith
advance-holds is_sig woken s h = ground arith
advance-holds is_sig asleep s h = ground arith
advance-holds is_sig waking s h = ground arith
advance-holds is_sig setting s h = ground arith
advance-holds is_sig opened s h = ground arith
advance-holds is_sig putting s h = ground arith
advance-holds is_sig closed s h = ground arith
advance-holds is_sig (returned e) s h = ground arith

pub total-ge :
    (f : Process → ℕ) (ps : List Process) (i : ℕ) (p : Process)
    → get_elem? ps i ≡ some p
    → f p ≤ total f ps
total-ge f [] i p h = ground arith
total-ge f (x ∷ ps) zero p h = ground arith
total-ge f (x ∷ ps) (suc i) p h = omega (arith, total-ge f ps i p h)

run-uses :
    (i : ℕ) (is_sig : Bool) (s : State)
    → s.shared.uses ≡ total holds s.processes
    → (run i is_sig s).shared.uses ≡ total holds (run i is_sig s).processes
unfolding run
run-uses i is_sig s h = elim (Option-cases (get_elem? s.processes i)) [
  | inl e ↦ rw (run, e) h
  | inr (p, e) ↦
      let q = (advance is_sig p s.shared).0 in
      rw (run, e)
        (omega (
          arith,
          total-set holds s.processes i p q e,
          total-notify holds refl p (set s.processes i q),
          total-ge holds s.processes i p e,
          advance-holds is_sig p s.shared (omega (arith, total-ge holds s.processes i p e)),
        ))
]

-- However the processes interleave and whatever signals come, if the module's use count is the
-- number of processes between their try_module_get and their module_put at the start, it is
-- that number in every state that is reached.
pub Runs-uses :
    {s s' : State}
    → Runs s s'
    → s.shared.uses ≡ total holds s.processes
    → s'.shared.uses ≡ total holds s'.processes
Runs-uses start h = h
Runs-uses (then_run {s'} i is_sig r) h = run-uses i is_sig s' (Runs-uses r h)
