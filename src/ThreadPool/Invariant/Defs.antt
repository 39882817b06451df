-- ===== src/ThreadPool/Invariant/Defs.antt =====
-- What holds of the pool's threads, its mutex and its queue between any two steps.
use cpp_rt.Prelude.{
  ℕ, suc, ◌+◌, ◌≤◌, ◌<◌, ◌≡◌, ◌↔◌, ◌⊎◌, true, false, none, some, List, [], ◌∷◌, ◌++◌, ◌==◌,
  if◌then◌else◌, length, sum_first,
}
use cpp_rt.ThreadPool.Mutex.{Task, Shared, locks}
use cpp_rt.ThreadPool.Queue.{
  null, EmptyPc, lock_empty, read_empty, unlock_empty, is_empty_returns, PopPc, lock_pop, test,
  wait, asleep, woken, take_front, unlock_pop, pop_returns, PushPc, lock_push, append, unlock_push,
  signal,
}
use cpp_rt.ThreadPool.History.{count, count_task, count_null, item_is, item_quits}
use cpp_rt.ThreadPool.System.{
  Pc, launching, pushing, joining, finished, unborn, popping, running, exited, System, program,
}

-- How often a thread at this position has locked the mutex.
abbrev pub empty_locks : EmptyPc → ℕ
empty_locks lock_empty = 1
empty_locks read_empty = 2
empty_locks (unlock_empty b) = 2
empty_locks (is_empty_returns b) = 1

abbrev pub pop_locks : PopPc → ℕ
pop_locks lock_pop = 0
pop_locks (test e) = empty_locks e
pop_locks wait = 1
pop_locks asleep = 0
pop_locks woken = 0
pop_locks take_front = 1
pop_locks (unlock_pop x) = 1
pop_locks (pop_returns x) = 0

abbrev pub push_locks : PushPc → ℕ
push_locks (lock_push x) = 0
push_locks (append x) = 1
push_locks unlock_push = 1
push_locks signal = 0

abbrev pub pc_locks : Pc → ℕ
pc_locks (pushing p rest) = push_locks p
pc_locks (popping p) = pop_locks p
pc_locks _ = 0

-- What a position says of the queue: the result of `is_empty` is still right when it is used.
abbrev pub IsFreshTest : Shared → EmptyPc → Type 0
IsFreshTest m (unlock_empty b) = null m.queue ≡ b
IsFreshTest m (is_empty_returns b) = null m.queue ≡ b
IsFreshTest m _ = Unit

abbrev pub IsFreshPop : Shared → PopPc → Type 0
IsFreshPop m (test e) = IsFreshTest m e
IsFreshPop m wait = null m.queue ≡ true
IsFreshPop m take_front = null m.queue ≡ false
IsFreshPop m _ = Unit

abbrev pub IsFresh : Shared → Pc → Type 0
IsFresh m (popping p) = IsFreshPop m p
IsFresh m _ = Unit

-- The items that `main` has still to append.
abbrev pub push_item : PushPc → List Task
push_item (lock_push x) = x ∷ []
push_item (append x) = x ∷ []
push_item _ = []

abbrev pub unpushed : Pc → List Task
unpushed (launching k rest) = rest
unpushed (pushing p rest) = push_item p ++ rest
unpushed _ = []

-- A worker that has taken an empty task, or has returned.
abbrev pub pop_quits : PopPc → ℕ
pop_quits (unlock_pop x) = item_quits x
pop_quits (pop_returns x) = item_quits x
pop_quits _ = 0

abbrev pub quits : Pc → ℕ
quits (popping p) = pop_quits p
quits exited = 1
quits _ = 0

abbrev pub pop_sleeps : PopPc → ℕ
pop_sleeps asleep = 1
pop_sleeps _ = 0

abbrev pub sleeps : Pc → ℕ
sleeps (popping p) = pop_sleeps p
sleeps _ = 0

-- A worker that will look at the queue again before it sleeps, and a signal that `main` owes.
abbrev pub item_active : Task → ℕ
item_active none = 0
item_active (some t) = 1

abbrev pub pop_active : PopPc → ℕ
pop_active asleep = 0
pop_active (unlock_pop x) = item_active x
pop_active (pop_returns x) = item_active x
pop_active _ = 1

abbrev pub push_active : PushPc → ℕ
push_active (lock_push x) = 0
push_active (append x) = 0
push_active unlock_push = 1
push_active signal = 1

abbrev pub active : Pc → ℕ
active (pushing p rest) = push_active p
active unborn = 1
active (popping p) = pop_active p
active (running t) = 1
active _ = 0

-- How often task `t` is in a worker's hands, taken and not yet called.
abbrev pub pop_carries : ℕ → PopPc → ℕ
pop_carries t (unlock_pop x) = item_is t x
pop_carries t (pop_returns x) = item_is t x
pop_carries t _ = 0

abbrev pub carries : ℕ → Pc → ℕ
carries t (popping p) = pop_carries t p
carries t (running u) = if u == t then 1 else 0
carries t _ = 0

abbrev pub IsMain : Pc → Type 0
IsMain (launching k rest) = Unit
IsMain (pushing p rest) = Unit
IsMain (joining k) = Unit
IsMain finished = Unit
IsMain _ = ⊥

abbrev pub IsWorker : Pc → Type 0
IsWorker unborn = Unit
IsWorker (popping p) = Unit
IsWorker (running t) = Unit
IsWorker exited = Unit
IsWorker _ = ⊥

-- Of the `n` workers, those that `main` has launched, and those that it has joined.
abbrev pub born : ℕ → Pc → ℕ
born n (launching k rest) = k
born n _ = n

abbrev pub gone : ℕ → Pc → ℕ
gone n (joining k) = k
gone n finished = n
gone n _ = 0

pub record Inv (n : ℕ) (tasks : List ℕ) (s : System) : Type 0 where
  pub held : (i : ℕ) → i ≤ n → locks s.mem i ≡ pc_locks (s.pc i)
  pub holder : (j : ℕ) → s.mem.owner ≡ some j → (j ≤ n) × (0 < s.mem.depth)
  pub fresh : (i : ℕ) → i ≤ n → IsFresh s.mem (s.pc i)
  pub main : IsMain (s.pc 0)
  pub worker : (i : ℕ) → i < n → IsWorker (s.pc (i + 1))
  pub launches : (i : ℕ) → i < n → (s.pc (i + 1) ≡ unborn) ↔ (born n (s.pc 0) ≤ i)
  pub joins : (i : ℕ) → i < gone n (s.pc 0) → s.pc (i + 1) ≡ exited
  pub within : (gone n (s.pc 0) ≤ n) × (born n (s.pc 0) ≤ n)
  pub fifo : s.mem.taken ++ (s.mem.queue ++ unpushed (s.pc 0)) ≡ program n tasks
  pub nulls : sum_first quits (suc n) s.pc ≡ count_null s.mem.taken
  pub wakes :
      (sum_first sleeps (suc n) s.pc ≡ 0) ⊎ (length s.mem.queue ≤ sum_first active (suc n) s.pc)
  pub calls :
      (t : ℕ) → count t s.mem.ran + sum_first (carries t) (suc n) s.pc ≡ count_task t s.mem.taken
