-- ===== src/ThreadPool/Invariant/Acts.antt =====
-- A step that one thread makes by itself keeps the invariant.
use mathlib.Core.List.{append-nil, append_assoc}
use native.Mathlib.Numerals.{add-one}
use cpp_rt.Prelude.{
  ℕ, zero, suc, ◌+◌, ◌≤◌, ◌<◌, ◌≡◌, ◌≢◌, ◌↔◌, ◌⊎◌, inl, inr, some, List, [], ◌++◌, ◌==◌,
  if◌then◌else◌, length, put_at, sum_first, sum_first-put_at, arith, Bool-cases, ◌∙◌, sym, ap,
}
use cpp_rt.ThreadPool.Mutex.{Shared, locks}
use cpp_rt.ThreadPool.History.{count, count_task, count_null}
use cpp_rt.ThreadPool.System.{Pc, System, move, unborn, exited, program}
use cpp_rt.ThreadPool.Invariant.Defs.{
  pc_locks, IsFresh, unpushed, quits, sleeps, active, carries, IsMain, IsWorker, born, gone, Inv,
}
use cpp_rt.ThreadPool.Invariant.Moves.{
  move-locks, move-locks_ne, move-queue, move-IsFresh, move-holder, move-nulls, move-fifo,
  move-wakes, move-calls, move-roles, move-born,
}

-- A test of the queue stays right while the queue stays the same, and without the lock a
-- position says nothing of it.
IsFresh-stable :
    (m m' : Shared) (p : Pc) → (pc_locks p ≢ 0 → m'.queue ≡ m.queue) → IsFresh m p → IsFresh m' p
IsFresh-stable m m' p same f = ground arith

locks_unique : (m : Shared) (i j : ℕ) → locks m i ≢ 0 → locks m j ≢ 0 → i ≡ j
locks_unique m i j a b = ground arith

unpushed-worker : (p : Pc) → IsWorker p → unpushed p ≡ []
unpushed-worker p h = ground arith

module _ {n : ℕ} {tasks : List ℕ} {s : System} (inv : Inv n tasks s) (i : ℕ) (le : i ≤ n)
    {m' : Shared} {p' : Pc} (made : move i s.mem (s.pc i) ≡ some (m', p')) where
  abbrev after : ℕ → Pc
  after = put_at i p' s.pc

  own : locks s.mem i ≡ pc_locks (s.pc i)
  own = inv.held i le

  act-held : (j : ℕ) → j ≤ n → locks m' j ≡ pc_locks (after j)
  act-held j lj = ground (
    arith,
    inv.held j lj,
    move-locks i s.mem (s.pc i) made own,
    move-locks_ne i s.mem (s.pc i) made own j,
  )

  act-fresh : (j : ℕ) → j ≤ n → IsFresh m' (after j)
  act-fresh j lj = elim (Bool-cases (i == j)) [
    | inl e ↦ rw (e, if◌then◌else◌) (move-IsFresh i s.mem (s.pc i) made own (inv.fresh i le))
    | inr e ↦
        rw (e, if◌then◌else◌)
          (IsFresh-stable s.mem m' (s.pc j)
            (λ busy.
              move-queue i s.mem (s.pc i) made own
                (ground (arith, own, inv.held j lj, locks_unique s.mem i j)))
            (inv.fresh j lj))
  ]

  act-IsMain : IsMain (after 0)
  act-IsMain = ground (arith, inv.main, (move-roles i s.mem (s.pc i) made own).0)

  act-IsWorker : (j : ℕ) → j < n → IsWorker (after (j + 1))
  act-IsWorker j lj = ground (arith, inv.worker j lj, (move-roles i s.mem (s.pc i) made own).1)

  -- `main` stays at the same place of its two loops over the workers.
  act-loops : (born n (after 0) ≡ born n (s.pc 0)) × (gone n (after 0) ≡ gone n (s.pc 0))
  act-loops = ground (arith, inv.main, move-born i s.mem (s.pc i) made own n)

  act-launches : (j : ℕ) → j < n → (after (j + 1) ≡ unborn) ↔ (born n (after 0) ≤ j)
  act-launches j lj =
      ground (arith, act-loops, inv.launches j lj, move-roles i s.mem (s.pc i) made own)

  act-joins : (j : ℕ) → j < gone n (after 0) → after (j + 1) ≡ exited
  act-joins j lj = ground (arith, act-loops, inv.joins j, move-roles i s.mem (s.pc i) made own)

  act-within : (gone n (after 0) ≤ n) × (born n (after 0) ≤ n)
  act-within = omega (arith, act-loops, inv.within)

  changed : (w : Pc → ℕ) → sum_first w (suc n) after + w (s.pc i) ≡ sum_first w (suc n) s.pc + w p'
  changed w = sum_first-put_at w (suc n) i p' s.pc (omega arith)

  act-nulls : sum_first quits (suc n) after ≡ count_null m'.taken
  act-nulls = omega (arith, changed quits, inv.nulls, move-nulls i s.mem (s.pc i) made own)

  act-wakes :
      (sum_first sleeps (suc n) after ≡ 0) ⊎ (length m'.queue ≤ sum_first active (suc n) after)
  act-wakes = omega (
    arith,
    changed sleeps,
    changed active,
    inv.wakes,
    move-wakes i s.mem (s.pc i) made own (inv.fresh i le),
  )

  act-calls : (t : ℕ) → count t m'.ran + sum_first (carries t) (suc n) after ≡ count_task t m'.taken
  act-calls t =
      omega (arith, changed (carries t), inv.calls t, move-calls i s.mem (s.pc i) made own t)

  act-shift : IsWorker (s.pc i) → m'.taken ++ m'.queue ≡ s.mem.taken ++ s.mem.queue
  act-shift w = simp append-nil at (
      rw
        (
          unpushed-worker (s.pc i) w,
          unpushed-worker p' ((move-roles i s.mem (s.pc i) made own).1 w),
        )
        at (move-fifo i s.mem (s.pc i) made own))

put_at-main : (k : ℕ) (p : Pc) (pc : ℕ → Pc) → put_at (suc k) p pc 0 ≡ pc 0
put_at-main k p pc = ground arith

act-fifo :
    {n : ℕ} {tasks : List ℕ} {s : System} (inv : Inv n tasks s) (i : ℕ) (le : i ≤ n) {m' : Shared}
    {p' : Pc} (made : move i s.mem (s.pc i) ≡ some (m', p'))
    → m'.taken ++ (m'.queue ++ unpushed (put_at i p' s.pc 0)) ≡ program n tasks
act-fifo {s} inv zero le made = move-fifo zero s.mem (s.pc zero) made (inv.held zero le) ∙ inv.fifo
act-fifo {s} inv (suc k) le {m'} {p'} made =
    ap (λ p. m'.taken ++ (m'.queue ++ unpushed p)) (put_at-main k p' s.pc)
    ∙ (sym (append_assoc m'.taken m'.queue _)
        ∙ (ap (λ l. l ++ unpushed (s.pc 0))
              (act-shift inv (suc k) le made (worker_at s.pc k (inv.worker k (omega arith))))
            ∙ (append_assoc s.mem.taken s.mem.queue _ ∙ inv.fifo)))
  where
    worker_at : (pc : ℕ → Pc) (k : ℕ) → IsWorker (pc (k + 1)) → IsWorker (pc (suc k))
    worker_at pc k w = rw add-one at w

pub act-Inv :
    {n : ℕ} {tasks : List ℕ} {s : System} (inv : Inv n tasks s) (i : ℕ) (le : i ≤ n) {m' : Shared}
    {p' : Pc} (made : move i s.mem (s.pc i) ≡ some (m', p'))
    → Inv n tasks (record { mem = m'; pc = put_at i p' s.pc })
act-Inv {n} {s} inv i le made = record {
  held = act-held inv i le made;
  holder = move-holder i s.mem (s.pc i) made (inv.held i le) n le inv.holder;
  fresh = act-fresh inv i le made;
  main = act-IsMain inv i le made;
  worker = act-IsWorker inv i le made;
  launches = act-launches inv i le made;
  joins = act-joins inv i le made;
  within = act-within inv i le made;
  fifo = act-fifo inv i le made;
  nulls = act-nulls inv i le made;
  wakes = act-wakes inv i le made;
  calls = act-calls inv i le made;
}
