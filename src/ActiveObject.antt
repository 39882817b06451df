-- ===== src/ActiveObject.antt =====
-- day2/x_active_object: `thread_safe_queue` and `ActiveObject`. From where a call locks the
-- queue's mutex to where it unlocks it, or waits at the condition variable, is one step; it is
-- `none` while it blocks. A task is a number, and `nullptr` is `none`.
mod Laws
mod Logger
pub mod Tests
mod LoggerTests
use cpp_rt.Prelude.{
  ◌+◌, ◌-◌, ◌<◌, ◌==◌, zero, suc, ℕ, ◌≡◌, Bool, true, false, Option, none, some, List, [], ◌∷◌,
  ◌++◌, map, if◌then◌else◌,
}

abbrev pub Task : Type 0
Task = Option ℕ

-- `sleeping` threads wait at the condition variable, and `woken` ones have been woken up and are
-- about to lock the mutex again.
pub record ThreadSafeQueue : Type 0 where
  pub q : List Task
  pub mtx_held : Bool
  pub sleeping : ℕ
  pub woken : ℕ

-- `pthread_cond_signal` wakes one of the threads that sleep, if there is one.
abbrev pub signal : ThreadSafeQueue → ThreadSafeQueue
signal m =
    if m.sleeping == 0 then m else record m { sleeping = m.sleeping - 1; woken = m.woken + 1 }

-- The mutex is not recursive: a call blocks while it is held.
unfoldable pub push : Task → ThreadSafeQueue → Option ThreadSafeQueue
push item m = if m.mtx_held then none else some (signal (record m { q = m.q ++ item ∷ [] }))

-- The loop of `pop`, with the mutex held: an item, or `none` for a call that has gone to sleep at
-- the condition variable, which unlocks the mutex.
abbrev pub pop_loop : ThreadSafeQueue → Option Task × ThreadSafeQueue
pop_loop m = elim m.q [
  | [] ↦ (none, record m { sleeping = m.sleeping + 1 })
  | x ∷ xs ↦ (some x, record m { q = xs })
]

unfoldable pub pop : ThreadSafeQueue → Option (Option Task × ThreadSafeQueue)
pop m = if m.mtx_held then none else some (pop_loop m)

-- `pthread_cond_wait` returns in a thread that was woken up, and the loop of `pop` goes on.
unfoldable pub return_from_wait : ThreadSafeQueue → Option (Option Task × ThreadSafeQueue)
return_from_wait m =
    if m.mtx_held
    then none
    else (elim m.woken [ zero ↦ none | suc n ↦ some (pop_loop (record m { woken = n })) ])

-- `none` for `false`: that return does not unlock the mutex.
unfoldable pub try_pop : ThreadSafeQueue → Option (Option Task × ThreadSafeQueue)
try_pop m = if m.mtx_held then none else elim m.q [
  | [] ↦ some (none, record m { mtx_held = true })
  | x ∷ xs ↦ some (some x, record m { q = xs })
]

-- Where `ActiveObject::worker` stands: before `pop`, in its `pthread_cond_wait`, in a task, or at
-- its end.
pub data Worker : Type 0 where
  popping : Worker
  waiting : Worker
  running : ℕ → Worker
  ended : Worker

-- The object, with what its owner is still to push and the tasks that have run.
pub record ActiveObject : Type 0 where
  pub mq : ThreadSafeQueue
  pub ao_worker : Worker
  pub to_push : List Task
  pub ran : List ℕ

abbrev pub after_pop : Option Task → Worker
after_pop none = waiting
after_pop (some none) = ended
after_pop (some (some t)) = running t

abbrev pub go_on : Option (Option Task × ThreadSafeQueue) → ActiveObject → Option ActiveObject
go_on none s = none
go_on (some (f, mq)) s = some (record s { mq = mq; ao_worker = after_pop f })

-- The owner calls `Send` for each task, and the destructor pushes `nullptr`.
unfoldable pub owner_move : ActiveObject → Option ActiveObject
unfolding push
owner_move s = elim s.to_push [
  | [] ↦ none
  | t ∷ rest ↦ elim (push t s.mq) [
    | none ↦ none
    | some mq ↦ some (record s { mq = mq; to_push = rest })
  ]
]

unfoldable pub worker_move : ActiveObject → Option ActiveObject
unfolding pop return_from_wait
worker_move s = elim s.ao_worker [
  | popping ↦ go_on (pop s.mq) s
  | waiting ↦ go_on (return_from_wait s.mq) s
  | running t ↦ some (record s { ao_worker = popping; ran = s.ran ++ t ∷ [] })
  | ended ↦ none
]

-- `ActiveObject()`, and its use with these tasks
abbrev pub start : List ℕ → ActiveObject
start tasks = record {
  mq = record { q = []; mtx_held = false; sleeping = 0; woken = 0 };
  ao_worker = popping;
  to_push = map some tasks ++ none ∷ [];
  ran = [];
}

-- A step of one of the two threads.
pub data Step (s t : ActiveObject) : Type 0 where
  owner_step : owner_move s ≡ some t → Step s t
  worker_step : worker_move s ≡ some t → Step s t

-- A thread that sleeps at the condition variable may be woken up without a signal.
abbrev pub wake_spuriously : ActiveObject → ActiveObject
wake_spuriously s = record s {
  mq = record s.mq { sleeping = s.mq.sleeping - 1; woken = s.mq.woken + 1 };
}

pub data Reach (tasks : List ℕ) : ActiveObject → Type 0 where
  at_start : Reach tasks (start tasks)
  then_step : {s t : ActiveObject} → Reach tasks s → Step s t → Reach tasks t
  then_wake :
      {s : ActiveObject} → Reach tasks s → 0 < s.mq.sleeping → Reach tasks (wake_spuriously s)
