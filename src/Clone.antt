-- ===== src/Clone.antt =====
-- day2/00_clone-test/main.cpp: `main` and the child that `clone` makes of `threadFunction`, in any
-- interleaving. A call of the system may fail wherever the code looks at its answer.
mod Laws
mod Tests
use cpp_rt.Prelude.{ℕ, suc, ◌≡◌, Bool, true, false, put_at, if◌then◌else◌}

-- The flags of `clone`: what the child has in common with its parent.
pub record Flags : Type 0 where
  pub clone_fs : Bool
  pub clone_files : Bool
  pub clone_sighand : Bool
  pub clone_vm : Bool

abbrev pub clone_flags : Flags
clone_flags = record { clone_fs = true; clone_files = true; clone_sighand = true; clone_vm = true }

-- Before which call `main` stands. `freeing` and `returned` have whether `write` wrote its byte,
-- and `exited` the status.
pub data MainPc : Type 0 where
  opening allocating cloning waiting writing : MainPc
  freeing returned : Bool → MainPc
  exited : ℕ → MainPc

-- Where the child stands: before its `close`, behind it, or exited.
pub data ChildPc : Type 0 where
  unborn closing leaving gone : ChildPc

-- `is_open` is the table of the descriptors of `main`, and `stack` says whether the stack is
-- allocated.
pub record System : Type 0 where
  pub is_open : ℕ → Bool
  pub fd : ℕ
  pub stack : Bool
  pub main_pc : MainPc
  pub child_pc : ChildPc

-- The table of the parent behind a `close` of the child: the child closes the descriptor in a copy
-- of its own, unless the two share one table.
abbrev pub child_close : Flags → ℕ → (ℕ → Bool) → ℕ → Bool
child_close flags fd is_open = if flags.clone_files then put_at fd false is_open else is_open

pub data Step (s : System) : System → Type 0 where
  opens :
      (fd : ℕ)
      → s.main_pc ≡ opening
      → s.is_open fd ≡ false
      → Step s (record s { is_open = put_at fd true s.is_open; fd = fd; main_pc = allocating })
  open_fails : s.main_pc ≡ opening → Step s (record s { main_pc = exited 1 })
  malloc : s.main_pc ≡ allocating → Step s (record s { stack = true; main_pc = cloning })
  malloc_fails : s.main_pc ≡ allocating → Step s (record s { main_pc = exited 1 })
  clone : s.main_pc ≡ cloning → Step s (record s { main_pc = waiting; child_pc = closing })
  clone_fails : s.main_pc ≡ cloning → Step s (record s { main_pc = exited 2 })
  close :
      s.child_pc ≡ closing
      → Step s (record s { is_open = child_close clone_flags s.fd s.is_open; child_pc = leaving })
  leave : s.child_pc ≡ leaving → Step s (record s { child_pc = gone })
  waitpid : s.main_pc ≡ waiting → s.child_pc ≡ gone → Step s (record s { main_pc = writing })
  waitpid_fails : s.main_pc ≡ waiting → Step s (record s { main_pc = exited 3 })
  write : s.main_pc ≡ writing → s.is_open s.fd ≡ true → Step s (record s { main_pc = freeing true })
  write_fails : s.main_pc ≡ writing → Step s (record s { main_pc = freeing false })
  free :
      (wrote : Bool)
      → s.main_pc ≡ freeing wrote
      → Step s (record s { stack = false; main_pc = returned wrote })

abbrev pub start : (ℕ → Bool) → System
start is_open = record {
  is_open = is_open;
  fd = 0;
  stack = false;
  main_pc = opening;
  child_pc = unborn;
}

-- The states that can be reached in a number of steps.
pub data Reach (is_open : ℕ → Bool) : ℕ → System → Type 0 where
  here : Reach is_open 0 (start is_open)
  later : {n : ℕ} {s t : System} → Reach is_open n s → Step s t → Reach is_open (suc n) t
