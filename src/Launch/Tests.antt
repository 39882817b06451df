-- ===== src/Launch/Tests.antt =====
-- Launching a thread where `pthread_create` answers EAGAIN.
use cpp_rt.Prelude.{ℕ, ◌≡◌, none, some, [], ◌∷◌, pos}
use cpp_rt.Launch.{
  launch_thread, launch_thread_c11, launch_thread_auto, launch_detached, run_launched,
}
use cpp_rt.Launch.Laws.{lost, launchers-answers}

abbrev eagain : ℕ
eagain = 11

launchers-answers_example :
    (run_launched (launch_thread (pos eagain) 7 (3 ∷ [])) ≡ some (lost 7 (3 ∷ [])))
    × (run_launched (launch_thread_c11 (pos eagain) 7 (3 ∷ [])) ≡ some (lost 7 (3 ∷ [])))
    × (run_launched (launch_thread_auto (pos eagain) 7 (3 ∷ [])) ≡ none)
    × (launch_detached (pos eagain) 7 (3 ∷ []) ≡ none)
launchers-answers_example = launchers-answers eagain 7 (3 ∷ [])
