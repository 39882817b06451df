-- ===== src/Future/Tests.antt =====
-- day2/x_pthreads_future: both tasks have run, and `main` has got both results.
use cpp_rt.Prelude.{◌≡◌, ◌≢◌, ◌⊎◌, refl, [], ◌∷◌}
use cpp_rt.Future.{
  undefined, join, call_task, get, destroy, answer, lambda, returned, System, Step, run_answer,
  run_lambda, get_res, get_res2, Reach, here, later,
}
use cpp_rt.Future.Laws.{main-joins_twice}

abbrev both_run : (s : System) × Reach s
both_run = (_, later (later here (run_answer refl)) (run_lambda refl))

both_got : (s : System) × Reach s
unfolding get join call_task
both_got = (_, later (later both_run.1 (get_res answer _ refl refl)) (get_res2 lambda _ refl refl))

main-joins_twice_example :
    (((t : System) × Step both_got.0 t)
      ⊎ ((both_got.0.printed ≡ answer ∷ lambda ∷ []) × (destroy both_got.0.res2 ≡ undefined)))
    × (both_got.0.pc ≢ returned)
main-joins_twice_example = main-joins_twice both_got.1
