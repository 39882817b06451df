-- ===== src/Launch/Laws.antt =====
-- Who deletes the functor of a thread.
use cpp_rt.Prelude.{ℕ, ◌≡◌, ◌==◌, none, some, List, [], ◌∷◌, pos, negsuc, if◌then◌else◌, arith}
use cpp_rt.Launch.{
  delete, Exit, returned, thrown, after_create, launch_thread, launch_thread_c11,
  launch_thread_auto, launch_detached, thread_routine, run_launched,
}

delete-newest : (p : ℕ) (heap : List ℕ) → delete p (p ∷ heap) ≡ some heap
unfolding delete
delete-newest p heap = ground arith

-- What becomes of a functor: with a thread it runs once and is deleted; without one it is deleted,
-- or it is lost.
abbrev pub run_once : ℕ → List ℕ → Exit × List ℕ × List ℕ
run_once p heap = (returned, p ∷ [], heap)

abbrev pub given_up : Exit → List ℕ → Exit × List ℕ × List ℕ
given_up e heap = (e, [], heap)

abbrev pub lost : ℕ → List ℕ → Exit × List ℕ × List ℕ
lost p heap = (returned, [], p ∷ heap)

module _ (n p : ℕ) (heap : List ℕ) where
  positive-launch_thread :
      run_launched (launch_thread (pos n) p heap)
      ≡ some (if n == 0 then run_once p heap else lost p heap)
  unfolding run_launched launch_thread after_create thread_routine delete
  positive-launch_thread = ground arith

  positive-launch_thread_c11 :
      run_launched (launch_thread_c11 (pos n) p heap)
      ≡ some (if n == 0 then run_once p heap else lost p heap)
  unfolding run_launched launch_thread_c11 after_create thread_routine delete
  positive-launch_thread_c11 = ground arith

  positive-launch_thread_auto : run_launched (launch_thread_auto (pos n) p heap) ≡ none
  unfolding run_launched launch_thread_auto thread_routine delete
  positive-launch_thread_auto = ground arith

  detached-answers : launch_detached (pos n) p heap ≡ (
      if n == 0
      then some (record { exit = returned; thread = some p; heap = p ∷ heap }, p ∷ [])
      else none)
  unfolding launch_detached launch_thread after_create
  detached-answers = ground arith

  -- Whatever `pthread_create` answers, which is 0 or an error number above 0: the two launchers
  -- that wait for the caller to join have the functor run once and deleted where it answers 0;
  -- where it answers an error number, they neither throw nor delete the functor, which is lost,
  -- and the caller does not learn that there is no thread. The launcher that detaches is then
  -- undefined, since it detaches an `id` that was not set, and the one with `auto_ptr` is
  -- undefined in either case, since it ends without its `return`.
  pub launchers-answers :
      (run_launched (launch_thread (pos n) p heap)
        ≡ some (if n == 0 then run_once p heap else lost p heap))
      × (run_launched (launch_thread_c11 (pos n) p heap)
          ≡ some (if n == 0 then run_once p heap else lost p heap))
      × (run_launched (launch_thread_auto (pos n) p heap) ≡ none)
      × (launch_detached (pos n) p heap ≡ (
          if n == 0
          then some (record { exit = returned; thread = some p; heap = p ∷ heap }, p ∷ [])
          else none))
  launchers-answers = (
    positive-launch_thread, positive-launch_thread_c11, positive-launch_thread_auto,
    detached-answers,
  )

-- The answer -1, which the tests expect, would be handled: the functor is deleted and the call
-- throws.
minus_one-launch_thread :
    (p : ℕ) (heap : List ℕ)
    → run_launched (launch_thread (negsuc 0) p heap) ≡ some (given_up thrown heap)
unfolding run_launched launch_thread after_create thread_routine delete
minus_one-launch_thread p heap = ground arith
