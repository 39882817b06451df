-- ===== src/Clone/Tests.antt =====
-- day2/00_clone-test/main.cpp: a run in which no call but `write` fails.
use cpp_rt.Prelude.{ℕ, ◌≤◌, ◌⊎◌, Bool, false, refl}
use cpp_rt.Clone.{
  System, Step, opens, malloc, clone, close, leave, waitpid, write_fails, Reach, here, later,
}
use cpp_rt.Clone.Laws.{Inv, HasEnded, main-Holds}

abbrev none_open : ℕ → Bool
none_open i = false

abbrev written : (s : System) × Reach none_open 7 s
written = (
  _,
  later
      (later
        (later
          (later (later (later (later here (opens 3 refl refl)) (malloc refl)) (clone refl))
            (close refl))
          (leave refl))
        (waitpid refl refl))
      (write_fails refl),
)

main-Holds_example :
    Inv written.0 × (7 ≤ 8) × (HasEnded written.0.main_pc ⊎ ((t : System) × Step written.0 t))
main-Holds_example = main-Holds written.1
