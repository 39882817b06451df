-- ===== src/ThreadPool/Progress.antt =====
-- day2/ex_ThreadPool cannot get stuck: until the destructor has returned, some thread can go on,
-- and not by a spurious wake-up. In particular no signal is lost.
use mathlib.Core.List.{append-nil}
use native.Mathlib.Numerals.{add-one}
use cpp_rt.Prelude.{
  ℕ, zero, suc, ◌+◌, ◌≤◌, ◌<◌, ◌≡◌, ◌≢◌, ◌⊎◌, inl, inr, refl, ap, none, some, List, [], arith,
  sum_first, sum_first-ne_zero, sum_first-le, sum_first-add_le, weight-le-sum_first, Option-cases,
  ℕ_discrete, dec_lt,
}
use cpp_rt.ThreadPool.Mutex.{Task, Shared, locks}
use cpp_rt.ThreadPool.Queue.{asleep, signal, PushPc, is_empty_move, pop_move, push_move}
use cpp_rt.ThreadPool.History.{count_null, count_null-program}
use cpp_rt.ThreadPool.System.{
  Pc, launching, pushing, joining, finished, unborn, popping, exited, System, Step, act, launch,
  launched, wake, wake_none, join, joined, Reach, move, worker_move,
}
use cpp_rt.ThreadPool.Invariant.{
  pc_locks, IsFresh, IsWorker, quits, sleeps, active, Inv, Reach-Inv, born,
}

-- A thread that holds the mutex is never blocked.
holding-moves :
    (i : ℕ) (m : Shared) (p : Pc)
    → locks m i ≡ pc_locks p
    → pc_locks p ≢ 0
    → IsFresh m p
    → move i m p ≢ none
unfolding move worker_move pop_move push_move is_empty_move
holding-moves i m p own busy f = ground arith

-- While the mutex is free, a launched worker is blocked only in its wait, or has returned.
free-moves :
    (i : ℕ) (m : Shared) (p : Pc)
    → m.owner ≡ none
    → IsWorker p
    → p ≢ unborn
    → p ≢ exited
    → p ≢ popping asleep
    → pc_locks p ≡ 0
    → move i m p ≢ none
unfolding move worker_move pop_move push_move is_empty_move
free-moves i m p free w a b c z = ground arith

push-moves :
    (i : ℕ) (m : Shared) (p : PushPc) (rest : List Task)
    → m.owner ≡ none
    → pc_locks (pushing p rest) ≡ 0
    → p ≢ signal
    → move i m (pushing p rest) ≢ none
unfolding move push_move
push-moves i m p rest free z ne = ground arith

module _ {n : ℕ} {s : System} where
  -- A thread whose own step is possible.
  acts : (i : ℕ) → i ≤ n → move i s.mem (s.pc i) ≢ none → (t : System) × Step n s t
  acts i le h = elim (Option-cases (move i s.mem (s.pc i))) [
    | inl e ↦ absurd (h e)
    | inr (mp, e) ↦ (_, act i le e)
  ]

asleep_or_not : (p : Pc) → (p ≡ popping asleep) ⊎ (p ≢ popping asleep)
asleep_or_not p = elim (ℕ_discrete (sleeps p) 1) [
  | yes e ↦ inl (ground arith)
  | no e ↦ inr (ground arith)
]

exited_or_not : (p : Pc) → (p ≡ exited) ⊎ (p ≢ exited)
exited_or_not exited = inl refl
exited_or_not p = inr (λ e. cc)

-- A worker that waits for a signal, or none.
find_asleep :
    (n : ℕ) (pc : ℕ → Pc)
    → ((w : ℕ) × (w < n) × (pc (w + 1) ≡ popping asleep))
      ⊎ ((w : ℕ) → w < n → pc (w + 1) ≢ popping asleep)
find_asleep zero pc = inr (λ w lt. absurd (omega arith))
find_asleep (suc n) pc = elim (asleep_or_not (pc (n + 1))) [
  | inl e ↦ inl (n, omega arith, e)
  | inr e ↦ elim (find_asleep n pc) [
    | inl (w, lt, q) ↦ inl (w, omega arith, q)
    | inr none_below ↦ inr (λ w lt. ground (arith, none_below w))
  ]
]

module _ {n : ℕ} {tasks : List ℕ} {s : System} (inv : Inv n tasks s) where
  -- While `main` joins and a worker waits for a signal, another worker is still at work: no
  -- signal was lost.
  someone_active :
      {k : ℕ}
      → s.pc 0 ≡ joining k
      → (w : ℕ) → w < n
      → s.pc (w + 1) ≡ popping asleep
      → 0 < sum_first active (suc n) s.pc
  someone_active e w lt a = elim (dec_lt 0 (sum_first active (suc n) s.pc)) [
    | yes p ↦ p
    | no p ↦ absurd (omega (arith, slept, quit (emptied p), at_most))
  ]
    where
      slept : 0 < sum_first sleeps (suc n) s.pc
      slept = ground (arith, weight-le-sum_first sleeps (suc n) (w + 1) s.pc)

      emptied : ¬ (0 < sum_first active (suc n) s.pc) → s.mem.queue ≡ []
      emptied p = ground (arith, inv.wakes, slept)

      quit : s.mem.queue ≡ [] → sum_first quits (suc n) s.pc ≡ n
      quit q = omega (
        arith,
        inv.nulls,
        count_null-program n tasks,
        ap count_null (simp append-nil at (rw (q, e) at inv.fifo)),
      )

      one : (p : Pc) → quits p + sleeps p ≤ 1
      one p = ground arith

      at_most : sum_first quits (suc n) s.pc + sum_first sleeps (suc n) s.pc ≤ n
      at_most = omega (
        arith,
        sum_first-add_le quits sleeps (λ p. quits p + sleeps p) (suc n) s.pc (λ p. omega arith),
        sum_first-le (λ p. quits p + sleeps p) n s.pc (rw e (omega arith))
            (λ i l. one (s.pc (i + 1))),
      )

  module _ (free : s.mem.owner ≡ none) where
    no_locks : (i : ℕ) → i ≤ n → pc_locks (s.pc i) ≡ 0
    no_locks i le = ground (arith, inv.held i le)

    -- With the mutex free, a worker that is awake can go on once `main` has launched them all.
    worker-acts :
        (i : ℕ)
        → i < n
        → born n (s.pc 0) ≡ n
        → s.pc (i + 1) ≢ exited
        → s.pc (i + 1) ≢ popping asleep
        → (t : System) × Step n s t
    worker-acts i lt b x a = acts (i + 1) (omega arith) (
        free-moves (i + 1) s.mem (s.pc (i + 1)) free (inv.worker i lt)
          (λ u. absurd (omega (arith, (inv.launches i lt).0 u))) x a
          (no_locks (i + 1) (omega arith)))

    active-acts :
        (i : ℕ)
        → i < suc n
        → {k : ℕ} → s.pc 0 ≡ joining k
        → 0 < active (s.pc i)
        → (t : System) × Step n s t
    active-acts zero lt e pos = absurd (ground arith)
    active-acts (suc i) lt e pos =
        let pos' : 0 < active (s.pc (i + 1)) = rw add-one pos in
        worker-acts i (omega arith) (rw e refl) (λ x. absurd (ground arith))
          (λ x. absurd (ground arith))

    joining-acts : (k : ℕ) → s.pc 0 ≡ joining k → k < n → (t : System) × Step n s t
    joining-acts k e lt = elim (asleep_or_not (s.pc (k + 1))) [
      | inl a ↦
          let (i, li, pos) = sum_first-ne_zero active (suc n) s.pc (someone_active e k lt a) in
          active-acts i li e pos
      | inr a ↦ elim (exited_or_not (s.pc (k + 1))) [
        | inl x ↦ (_, join k lt x e)
        | inr x ↦ worker-acts k lt (rw e refl) x a
      ]
    ]

    main-acts : (p : Pc) → s.pc 0 ≡ p → (s.pc 0 ≡ finished) ⊎ ((t : System) × Step n s t)
    main-acts (launching k rest) e = elim (dec_lt k n) [
      | yes lt ↦ inr (_, launch k lt e)
      | no ge ↦ let k_n : k ≡ n = ground (arith, inv.within) in inr (_, launched (rw k_n at e))
    ]
    main-acts (pushing signal rest) e = elim (find_asleep n s.pc) [
      | inl (w, lt, a) ↦ inr (_, wake w lt a e)
      | inr h ↦ inr (_, wake_none h e)
    ]
    main-acts (pushing p rest) e = inr (
        acts 0 (omega arith)
          (rw e (push-moves 0 s.mem p rest free (rw e at (no_locks 0 (omega arith))) (λ q. cc))))
    main-acts (joining k) e = elim (dec_lt k n) [
      | yes lt ↦ inr (joining-acts k e lt)
      | no ge ↦ let k_n : k ≡ n = ground (arith, inv.within) in inr (_, joined (rw k_n at e))
    ]
    main-acts finished e = inl e
    main-acts p e = absurd (rw e at inv.main)

  holder-acts : (j : ℕ) → s.mem.owner ≡ some j → (t : System) × Step n s t
  holder-acts j e =
      let (le, deep) = inv.holder j e in
      acts j le (
        holding-moves j s.mem (s.pc j) (inv.held j le) (ground (arith, inv.held j le))
          (inv.fresh j le))

-- Whatever the threads have done so far, spurious wake-ups included: either the destructor has
-- returned, or some thread can make a step.
pub no_deadlock :
    {n : ℕ} {tasks : List ℕ} {s : System}
    → Reach n tasks s
    → (s.pc 0 ≡ finished) ⊎ ((t : System) × Step n s t)
no_deadlock {s} r = elim (Option-cases s.mem.owner) [
  | inl free ↦ main-acts (Reach-Inv r) free (s.pc 0) refl
  | inr (j, e) ↦ inr (holder-acts (Reach-Inv r) j e)
]
