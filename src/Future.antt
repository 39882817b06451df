-- ===== src/Future.antt =====
-- day2/x_pthreads_future: `ptask`, `future` and `async`, and `main` with its two futures. The first
-- thread of `main`, which prints, is left out.
mod Laws
mod Tests
use cpp_rt.Prelude.{ℕ, ◌≡◌, Bool, true, false, Option, none, some, List, [], ◌∷◌, ◌++◌}

-- Where the thread of a future stands, and whether it was joined.
pub data Thread : Type 0 where
  running ended joined : Thread

-- `done` is the flag of the member `task_`. The thread has a copy of the task, with a flag of its
-- own, `copy_done`, but with a reference to the same `result`; it is `none` until it is set.
pub record Future : Type 0 where
  pub id : Thread
  pub result : Option ℕ
  pub done : Bool
  pub copy_done : Bool

-- What a call answers; it blocks until the thread has ended, and joining a thread twice or reading
-- a result that was not set is undefined.
pub data Answer (A : Type 0) : Type 0 where
  answers : A → Answer A
  blocks : Answer A
  undefined : Answer A

-- `pthread_join`
unfoldable pub join : Future → Answer Future
join f = elim f.id [
  | running ↦ blocks
  | ended ↦ answers (record f { id = joined })
  | joined ↦ undefined
]

-- `future(task)`, which launches its thread; `async` returns it.
abbrev pub async : Future
async = record { id = running; result = none; done = false; copy_done = false }

-- `ptask::operator()` in the thread, whose task returns `value`.
unfoldable pub call_task : ℕ → Future → Future
call_task value f = record f { id = ended; result = some value; copy_done = true }

unfoldable pub get : Future → Answer (ℕ × Future)
unfolding join
get f = elim (join f) [
  | answers g ↦ elim g.result [ none ↦ undefined | some value ↦ answers (value, g) ]
  | blocks ↦ blocks
  | undefined ↦ undefined
]

-- `~future()`
unfoldable pub destroy : Future → Answer Future
unfolding join
destroy f = join f

-- The tasks of `main`
abbrev pub answer : ℕ
answer = 42

abbrev pub lambda : ℕ
lambda = 666

-- Where `main` stands: before it prints `res.get()` and `res2.get()`, before the destructors of
-- `res2` and `res`, and at its end.
pub data Pc : Type 0 where
  getting_res getting_res2 destroying_res2 destroying_res returned : Pc

pub record System : Type 0 where
  pub res : Future
  pub res2 : Future
  pub pc : Pc
  pub printed : List ℕ

abbrev pub start : System
start = record { res = async; res2 = async; pc = getting_res; printed = [] }

pub data Step (s : System) : System → Type 0 where
  run_answer : s.res.id ≡ running → Step s (record s { res = call_task answer s.res })
  run_lambda : s.res2.id ≡ running → Step s (record s { res2 = call_task lambda s.res2 })
  get_res :
      (value : ℕ) (f : Future)
      → s.pc ≡ getting_res
      → get s.res ≡ answers (value, f)
      → Step s (record s { res = f; pc = getting_res2; printed = s.printed ++ value ∷ [] })
  get_res2 :
      (value : ℕ) (f : Future)
      → s.pc ≡ getting_res2
      → get s.res2 ≡ answers (value, f)
      → Step s (record s { res2 = f; pc = destroying_res2; printed = s.printed ++ value ∷ [] })
  destroy_res2 :
      (f : Future)
      → s.pc ≡ destroying_res2
      → destroy s.res2 ≡ answers f
      → Step s (record s { res2 = f; pc = destroying_res })
  destroy_res :
      (f : Future)
      → s.pc ≡ destroying_res
      → destroy s.res ≡ answers f
      → Step s (record s { res = f; pc = returned })

pub data Reach : System → Type 0 where
  here : Reach start
  later : {s t : System} → Reach s → Step s t → Reach t
