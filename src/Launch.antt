-- ===== src/Launch.antt =====
-- How the programs launch a thread with a functor: `launch_thread` and `thread_routine` of
-- day2/ex_ThreadPool/launch_thread.cpp (day1/ex_TSQ, day2/x_active_object, day2/x_pthreads_future,
-- day2/ex_pi/pthreads have the same text, and day2/07a_rwlock_tree and day3/socknet/thread one that
-- detaches), day1/x_c11_launcher and day1/x_abstract_launcher. The objects on the heap are numbers.
mod Laws
mod Tests
use cpp_rt.Prelude.{
  ℕ, ◌≡◌, ◌==◌, Bool, true, false, Option, none, some, List, [], ◌∷◌, map, ℤ, pos, negsuc, eqb_ℤ,
  ltb_ℤ, if◌then◌else◌,
}

-- `delete p`, for an object that was not the last one made, too; `none` for one that is not there.
unfoldable pub delete : ℕ → List ℕ → Option (List ℕ)
delete p [] = none
delete p (x ∷ xs) =
    if x == p then some xs else elim (delete p xs) [ none ↦ none | some ys ↦ some (x ∷ ys) ]

-- How a call ends; `off_end` is the end of a function that has to return a value and does not,
-- which is undefined.
pub data Exit : Type 0 where
  returned thrown off_end : Exit

-- A call that has launched, with the functor of the thread that was created, if one was, and the
-- objects on the heap.
pub record Launched : Type 0 where
  pub exit : Exit
  pub thread : Option ℕ
  pub heap : List ℕ

-- `pthread_create` makes a thread where it answers 0.
abbrev pub created : ℤ → ℕ → Option ℕ
created err f_ptr = if eqb_ℤ err (pos 0) then some f_ptr else none

abbrev pub is_minus_one : ℤ → Bool
is_minus_one err = eqb_ℤ err (negsuc 0)

-- What follows `pthread_create`, with the test of its answer; `none` where an object that is not
-- there is deleted.
unfoldable pub after_create : (ℤ → Bool) → ℤ → ℕ → List ℕ → Option Launched
unfolding delete
after_create fails err f_ptr heap =
    if fails err
    then (elim (delete f_ptr heap) [
      | none ↦ none
      | some rest ↦ some (record { exit = thrown; thread = created err f_ptr; heap = rest })
    ])
    else some (record { exit = returned; thread = created err f_ptr; heap = heap })

-- `launch_thread` where `new` answers `f_ptr` and `pthread_create` answers `err`.
unfoldable pub launch_thread : ℤ → ℕ → List ℕ → Option Launched
unfolding after_create
launch_thread err f_ptr heap = after_create is_minus_one err f_ptr (f_ptr ∷ heap)

-- That of day1/x_c11_launcher
unfoldable pub launch_thread_c11 : ℤ → ℕ → List ℕ → Option Launched
unfolding after_create
launch_thread_c11 err f_ptr heap = after_create (λ e. ltb_ℤ e (pos 0)) err f_ptr (f_ptr ∷ heap)

-- That of day1/x_abstract_launcher: the `auto_ptr` deletes the launcher unless it was released. The
-- function is declared to return `int`, and has no `return`.
unfoldable pub launch_thread_auto : ℤ → ℕ → List ℕ → Option Launched
unfolding delete
launch_thread_auto err p heap =
    if eqb_ℤ err (pos 0)
    then some (record { exit = off_end; thread = created err p; heap = p ∷ heap })
    else (elim (delete p (p ∷ heap)) [
      | none ↦ none
      | some rest ↦ some (record { exit = off_end; thread = created err p; heap = rest })
    ])

-- `launch_thread(f)`, which detaches the thread: with the threads that were detached. `none` where
-- `pthread_detach` is given an `id` that was not set.
unfoldable pub launch_detached : ℤ → ℕ → List ℕ → Option (Launched × List ℕ)
unfolding launch_thread
launch_detached err f_ptr heap = elim (launch_thread err f_ptr heap) [
  | none ↦ none
  | some l ↦ elim l.exit [
    | thrown ↦ some (l, [])
    | returned ↦ elim l.thread [ none ↦ none | some t ↦ some (l, t ∷ []) ]
    | off_end ↦ none
  ]
]

-- `thread_routine`: the functor runs, and the smart pointer deletes it. The functors that have run
-- and the heap.
unfoldable pub thread_routine : ℕ → List ℕ → List ℕ → Option (List ℕ × List ℕ)
unfolding delete
thread_routine task ran heap = elim (delete task heap) [
  | none ↦ none
  | some rest ↦ some (task ∷ ran, rest)
]

-- A call and the thread that it has created, to the end of the thread; `none` for an undefined one.
abbrev pub is_off_end : Exit → Bool
is_off_end returned = false
is_off_end thrown = false
is_off_end off_end = true

unfoldable pub run_launched : Option Launched → Option (Exit × List ℕ × List ℕ)
unfolding thread_routine
run_launched none = none
run_launched (some l) = if is_off_end l.exit then none else (elim l.thread [
  | none ↦ some (l.exit, [], l.heap)
  | some task ↦ elim (thread_routine task [] l.heap) [
    | none ↦ none
    | some (ran, heap) ↦ some (l.exit, ran, heap)
  ]
])
