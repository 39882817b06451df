-- ===== src/ActiveObject/Tests.antt =====
-- day2/x_active_object: an object that is sent one task, and an empty queue.
use cpp_rt.Prelude.{ℕ, ◌≡◌, refl, ◌⊎◌, false, none, some, List, [], ◌∷◌, ◌++◌}
use cpp_rt.ActiveObject.{
  Task, ThreadSafeQueue, push, pop, try_pop, Worker, popping, running, ended, ActiveObject,
  owner_move, worker_move, start, Step, owner_step, worker_step, Reach, at_start, then_step,
}
use cpp_rt.ActiveObject.Laws.{moves_or_complete, try_pop-blocks}

abbrev pub tasks : List ℕ
tasks = 0 ∷ []

abbrev pub state : List Task → Worker → List Task → List ℕ → ActiveObject
state q w p r = record {
  mq = record { q = q; mtx_held = false; sleeping = 0; woken = 0 };
  ao_worker = w;
  to_push = p;
  ran = r;
}

sends : Step (start tasks) (state (some 0 ∷ []) popping (none ∷ []) [])
unfolding owner_move
sends = owner_step refl

takes : Step (state (some 0 ∷ []) popping (none ∷ []) []) (state [] (running 0) (none ∷ []) [])
unfolding worker_move
takes = worker_step refl

destroys : Step (state [] (running 0) (none ∷ []) []) (state (none ∷ []) (running 0) [] [])
unfolding owner_move
destroys = owner_step refl

runs : Step (state (none ∷ []) (running 0) [] []) (state (none ∷ []) popping [] (0 ∷ []))
unfolding worker_move
runs = worker_step refl

ends : Step (state (none ∷ []) popping [] (0 ∷ [])) (state [] ended [] (0 ∷ []))
unfolding worker_move
ends = worker_step refl

sent : Reach tasks (state (some 0 ∷ []) popping (none ∷ []) [])
sent = then_step at_start sends

pub whole_run : Reach tasks (state [] ended [] (0 ∷ []))
whole_run = then_step (then_step (then_step (then_step sent takes) destroys) runs) ends

moves_or_complete_example :
    ((t : ActiveObject) × Step (state [] ended [] tasks) t)
    ⊎ ((ended ≡ ended) × (tasks ≡ tasks) × (◌≡◌ {A = List Task} ([] ++ []) []))
moves_or_complete_example = moves_or_complete tasks (state [] ended [] tasks) whole_run

abbrev empty : ThreadSafeQueue
empty = record { q = []; mtx_held = false; sleeping = 0; woken = 0 }

try_pop-blocks_example :
    (n : ThreadSafeQueue) × (try_pop empty ≡ some (none, n))
    × ((item : Task) → push item n ≡ none)
    × (pop n ≡ none)
    × (try_pop n ≡ none)
try_pop-blocks_example = try_pop-blocks empty refl refl
