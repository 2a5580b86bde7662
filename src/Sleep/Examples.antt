-- ===== src/Sleep/Examples.antt =====
-- Two processes at the sleeping file, and the theorems at them.
use linuxpedia.Prelude.{ℕ, ◌≡◌, refl, ◌≢◌, true, false, some, [], ◌∷◌, get_elem?, replicate, arith}
use linuxpedia.Sleep.{
  entering, testing, asleep, opened, State, run, run_whole, Runs, start, then_run, RunsWhole,
  start_whole, then_whole, File, holds, total,
}
use linuxpedia.Sleep.Count.{Runs-uses}
use linuxpedia.Sleep.Exclusion.{IsExclusive, RunsWhole-IsExclusive, both_open, both_open-opened}
use linuxpedia.Sleep.Message.{Answers, module_output-module_input}

abbrev two_entering : State
two_entering = record {
  shared = record { already_open = false; uses = 0 };
  processes = entering false ∷ entering true ∷ [];
}

abbrev two_testing : State
two_testing = record {
  shared = record { already_open = false; uses = 2 };
  processes = testing ∷ testing ∷ [];
}

abbrev one_asleep : State
one_asleep = record {
  shared = record { already_open = true; uses = 2 };
  processes = asleep ∷ opened ∷ [];
}

-- Both enter and the first reaches the assignment.
entered : Runs two_entering (run 0 false (run 1 false (run 0 false two_entering)))
entered = then_run 0 false (then_run 1 false (then_run 0 false start))

Runs-uses_example :
    (run 0 false (run 1 false (run 0 false two_entering))).shared.uses
    ≡ total holds (run 0 false (run 1 false (run 0 false two_entering))).processes
Runs-uses_example = Runs-uses entered refl

entered_whole : RunsWhole two_entering (run_whole 0 false (run_whole 0 false two_entering))
entered_whole = then_whole 0 false (then_whole 0 false start_whole)

two_entering-IsExclusive : IsExclusive two_entering
two_entering-IsExclusive = record { holder = refl; none_setting = refl }

RunsWhole-IsExclusive_example : IsExclusive (run_whole 0 false (run_whole 0 false two_entering))
RunsWhole-IsExclusive_example = RunsWhole-IsExclusive entered_whole two_entering-IsExclusive

zero-ne-one : ◌≢◌ {A = ℕ} 0 1
zero-ne-one e = omega arith

both_open-opened_example :
    Runs two_testing (both_open 0 1 two_testing)
    × (get_elem? (both_open 0 1 two_testing).processes 0 ≡ some opened)
    × (get_elem? (both_open 0 1 two_testing).processes 1 ≡ some opened)
both_open-opened_example = both_open-opened 0 1 two_testing zero-ne-one refl refl refl

abbrev fresh_file : File
fresh_file = record { message = replicate 80 0; finished = false }

module_output-module_input_example : Answers fresh_file (104 ∷ 105 ∷ []) 100
module_output-module_input_example =
    module_output-module_input fresh_file (104 ∷ 105 ∷ []) 100 refl refl
