-- ===== src/Sleep/Exclusion.antt =====
-- Who has the file of sleep.c open: one process if the end of the while loop and the assignment
-- after it are not interrupted, and possibly several if they are.
use linuxpedia.Prelude.{
  ℕ, refl, ◌+◌, ◌-◌, ◌≡◌, ◌≢◌, ◌∙◌, sym, ap, inl, inr, Bool, false, some, get_elem?, set,
  get_elem?-set_self, get_elem?-set_ne, arith, Option-cases, if◌then◌else◌,
}
use linuxpedia.Sleep.{
  Shared, Process, entering, testing, waiting, asleep, waking, wakes, woken, setting, opened,
  putting, closed, returned, advance, advance_whole, State, run, run_whole, Runs, start, then_run,
  RunsWhole, start_whole, then_whole, has_file, is_setting, total,
}
use linuxpedia.Sleep.Count.{total-set, total-ge, total-notify}

-- The flag counts the processes that have the file, and none is about to set it.
pub record IsExclusive (s : State) : Type 0 where
  pub holder : total has_file s.processes ≡ (if s.shared.already_open then 1 else 0)
  pub none_setting : total is_setting s.processes ≡ 0

advance_whole-file :
    (is_sig : Bool) (p : Process) (s : Shared) (n : ℕ)
    → n + has_file p ≡ (if s.already_open then 1 else 0)
    → is_setting p ≡ 0
    → (n + has_file (advance_whole is_sig p s).0
        ≡ (if (advance_whole is_sig p s).1.already_open then 1 else 0))
      × (is_setting (advance_whole is_sig p s).0 ≡ 0)
advance_whole-file is_sig (entering nonblock) s n h z = ground arith
advance_whole-file is_sig testing s n h z = ground arith
advance_whole-file is_sig waiting s n h z = ground arith
advance_whole-file is_sig woken s n h z = ground arith
advance_whole-file is_sig asleep s n h z = ground arith
advance_whole-file is_sig waking s n h z = ground arith
advance_whole-file is_sig setting s n h z = ground arith
advance_whole-file is_sig opened s n h z = ground arith
advance_whole-file is_sig putting s n h z = ground arith
advance_whole-file is_sig closed s n h z = ground arith
advance_whole-file is_sig (returned e) s n h z = ground arith

run_whole-IsExclusive :
    (i : ℕ) (is_sig : Bool) (s : State) → IsExclusive s → IsExclusive (run_whole i is_sig s)
unfolding run_whole
run_whole-IsExclusive i is_sig s h = elim (Option-cases (get_elem? s.processes i)) [
  | inl e ↦ rw (run_whole, e) h
  | inr (p, e) ↦
      let ps = s.processes in
      let q = (advance_whole is_sig p s.shared).0 in
      let (file, unset) =
        advance_whole-file is_sig p s.shared (total has_file ps - has_file p)
          (omega (arith, total-ge has_file ps i p e) ∙ h.holder)
          (omega (arith, total-ge is_setting ps i p e, h.none_setting)) in
      rw (run_whole, e)
        (record {
          holder =
              omega (
                arith,
                total-notify has_file refl p (set ps i q),
                total-set has_file ps i p q e,
                total-ge has_file ps i p e,
              )
              ∙ file;
          none_setting = omega (
            arith,
            total-notify is_setting refl p (set ps i q),
            total-set is_setting ps i p q e,
            unset,
            h.none_setting,
          );
        })
]

-- Where no other process runs between the test that ends the while loop and the assignment after
-- it, `Already_Open` is set exactly while one process has the file, if it is so at the start with
-- no process between that test and the assignment; in particular no two ever have it.
pub RunsWhole-IsExclusive : {s s' : State} → RunsWhole s s' → IsExclusive s → IsExclusive s'
RunsWhole-IsExclusive start_whole h = h
RunsWhole-IsExclusive (then_whole {s'} i is_sig r) h =
    run_whole-IsExclusive i is_sig s' (RunsWhole-IsExclusive r h)

-- What one access of process `i` changes.
record Moves (i : ℕ) (is_sig : Bool) (p : Process) (s : State) : Type 0 where
  pub self : get_elem? (run i is_sig s).processes i ≡ some (advance is_sig p s.shared).0
  pub others : (j : ℕ) → i ≢ j → get_elem? (run i is_sig s).processes j ≡ get_elem? s.processes j
  pub memory : (run i is_sig s).shared ≡ (advance is_sig p s.shared).1

run-Moves :
    (i : ℕ) (is_sig : Bool) (p : Process) (s : State)
    → get_elem? s.processes i ≡ some p
    → wakes p ≡ false
    → Moves i is_sig p s
unfolding run
run-Moves i is_sig p s e quiet =
    let q = (advance is_sig p s.shared).0 in
    record {
      self = rw (run, e, quiet) (get_elem?-set_self s.processes i q p e);
      others = λ j ne. rw (run, e, quiet) (get_elem?-set_ne s.processes i j q ne);
      memory = rw (run, e);
    }

run-testing :
    (i : ℕ) (s : State)
    → get_elem? s.processes i ≡ some testing
    → s.shared.already_open ≡ false
    → (get_elem? (run i false s).processes i ≡ some setting)
      × ((run i false s).shared.already_open ≡ false)
      × ((j : ℕ) → i ≢ j → get_elem? (run i false s).processes j ≡ get_elem? s.processes j)
run-testing i s e clear =
    let m = run-Moves i false testing s e refl in
    (m.self ∙ rw clear, ap (λ t. t.already_open) m.memory ∙ rw clear, m.others)

abbrev pub both_open : (i j : ℕ) → State → State
both_open i j s = run j false (run i false (run j false (run i false s)))

-- From every state in which two processes are at the head of the while loop and the flag is
-- clear, an interleaving of the two without signals ends with both having the file.
pub both_open-opened :
    (i j : ℕ) (s : State)
    → i ≢ j
    → get_elem? s.processes i ≡ some testing
    → get_elem? s.processes j ≡ some testing
    → s.shared.already_open ≡ false
    → Runs s (both_open i j s)
      × (get_elem? (both_open i j s).processes i ≡ some opened)
      × (get_elem? (both_open i j s).processes j ≡ some opened)
both_open-opened i j s ne ei ej clear =
    let (at_i, clear₁, keep₁) = run-testing i s ei clear in
    let s₁ = run i false s in
    let (at_j, clear₂, keep₂) = run-testing j s₁ (keep₁ j ne ∙ ej) clear₁ in
    let s₂ = run j false s₁ in
    let m₃ = run-Moves i false setting s₂ (keep₂ i (λ e. ne (sym e)) ∙ at_i) refl in
    let s₃ = run i false s₂ in
    let m₄ = run-Moves j false setting s₃ (m₃.others j ne ∙ at_j) refl in
    (
      then_run j false (then_run i false (then_run j false (then_run i false start))),
      m₄.others i (λ e. ne (sym e)) ∙ m₃.self,
      m₄.self,
    )

-- The three accesses of module_close by process `j`.
abbrev pub closes : ℕ → State → State
closes j s = run j false (run j false (run j false s))
