-- ===== src/Arguments.antt =====
-- day1/02_arguments_adv/arguments.c: each thread prints the entry of an array that it was given. A
-- thread may sleep as long as it likes.
mod Laws
mod Tests
use cpp_rt.Prelude.{ℕ, ◌+◌, ◌<◌, ◌≡◌, ◌≢◌, List, [], ◌∷◌, put_at}

abbrev pub num_threads : ℕ
num_threads = 8

-- "1 A", "2 B", …, "8 H"
abbrev pub messages : ℕ → List ℕ
messages t = (49 + t) ∷ 32 ∷ (65 + t) ∷ []

pub record ThreadData : Type 0 where
  pub thread_id : ℕ
  pub sum : ℕ
  pub message : List ℕ

-- Where the loop of `main` stands: before it writes entry `t`, before it creates thread `t`, behind
-- its `pthread_exit`, or behind the `exit(-1)` that ends the whole process.
pub data MainPc : Type 0 where
  filling creating left failed : MainPc

pub data WorkerPc : Type 0 where
  unborn sleeping exited : WorkerPc

-- `printed` has what the threads have printed, the newest first.
pub record System : Type 0 where
  pub t : ℕ
  pub sum : ℕ
  pub thread_data_array : ℕ → ThreadData
  pub main_pc : MainPc
  pub worker_pc : ℕ → WorkerPc
  pub printed : List ThreadData

abbrev pub entry : ℕ → ℕ → ThreadData
entry t sum = record { thread_id = t; sum = sum; message = messages t }

pub data Step (s : System) : System → Type 0 where
  fill :
      s.main_pc ≡ filling
      → s.t < num_threads
      → Step s (record s {
        sum = s.sum + s.t;
        thread_data_array = put_at s.t (entry s.t (s.sum + s.t)) s.thread_data_array;
        main_pc = creating;
      })
  create :
      s.main_pc ≡ creating
      → Step s
          (record s { t = s.t + 1; main_pc = filling; worker_pc = put_at s.t sleeping s.worker_pc })
  create_fails : s.main_pc ≡ creating → Step s (record s { main_pc = failed })
  leave : s.main_pc ≡ filling → s.t ≡ num_threads → Step s (record s { main_pc = left })
  print :
      (i : ℕ)
      → s.main_pc ≢ failed
      → s.worker_pc i ≡ sleeping
      → Step s (record s {
        worker_pc = put_at i exited s.worker_pc;
        printed = s.thread_data_array i ∷ s.printed;
      })

-- What the array holds at first does not matter.
abbrev pub start : (ℕ → ThreadData) → System
start array = record {
  t = 0;
  sum = 0;
  thread_data_array = array;
  main_pc = filling;
  worker_pc = λ i. unborn;
  printed = [];
}

pub data Reach (array : ℕ → ThreadData) : System → Type 0 where
  here : Reach array (start array)
  later : {s t : System} → Reach array s → Step s t → Reach array t
