-- ===== src/Arguments/Tests.antt =====
-- day1/02_arguments_adv/arguments.c: thread 0 prints while `main` has written the entry of thread
-- 1.
use cpp_rt.Prelude.{ℕ, ◌≡◌, refl, arith}
use cpp_rt.Arguments.{ThreadData, entry, System, Reach, fill, create, print, here, later}
use cpp_rt.Arguments.Laws.{AreRight, times, has_printed, printed-AreRight}

abbrev array : ℕ → ThreadData
array i = entry 0 0

abbrev one_printed : (s : System) × Reach array s
one_printed = (
  _,
  later
      (later (later (later here (fill refl (omega arith))) (create refl)) (fill refl (omega arith)))
      (print 0 (λ e. cc) refl),
)

printed-AreRight_example :
    AreRight one_printed.0.printed
    × (times 0 one_printed.0.printed ≡ has_printed (one_printed.0.worker_pc 0))
printed-AreRight_example = printed-AreRight 0 one_printed.1
