-- ===== src/ActiveObject/Laws.antt =====
-- day2/x_active_object: the order of the tasks, the end of the worker, and `try_pop`.
use cpp_rt.Prelude.{
  zero, suc, ◌+◌, ◌-◌, ◌<◌, same_some, ℕ, ◌≡◌, ◌≢◌, refl, sym, ap, ◌∙◌, ◌⊎◌, inl, inr, Bool, true,
  false, none, some, List, [], ◌∷◌, ◌++◌, map, append_assoc, arith,
}
use mathlib.Core.Path.{subst}
use cpp_rt.ActiveObject.{
  Task, ThreadSafeQueue, signal, push, pop, return_from_wait, try_pop, Worker, popping, waiting,
  running, ended, ActiveObject, owner_move, worker_move, Step, owner_step, worker_step, Reach,
  at_start, then_step, then_wake,
}

-- The task that the worker has taken and not finished.
abbrev in_hand : Worker → List Task
in_hand popping = []
in_hand waiting = []
in_hand (running t) = some t ∷ []
in_hand ended = none ∷ []

-- Everything that is to be run, in the order in which it has been and will be.
abbrev history : ActiveObject → List Task
history s = map some s.ran ++ (in_hand s.ao_worker ++ (s.mq.q ++ s.to_push))

-- Only a worker that waits is at the condition variable; and while it sleeps, the queue is empty,
-- so that no signal is lost.
abbrev IsAwake : Worker → List Task → ℕ → ℕ → Type 0
IsAwake waiting q sleeping woken =
    ((sleeping ≡ 1) × (woken ≡ 0) × (q ≡ [])) ⊎ ((sleeping ≡ 0) × (woken ≡ 1))
IsAwake w q sleeping woken = (sleeping ≡ 0) × (woken ≡ 0)

record Inv (tasks : List ℕ) (s : ActiveObject) : Type 0 where
  free : s.mq.mtx_held ≡ false
  whole : history s ≡ map some tasks ++ none ∷ []
  awake : IsAwake s.ao_worker s.mq.q s.mq.sleeping s.mq.woken

map_append : (xs : List ℕ) (t : ℕ) → map some (xs ++ t ∷ []) ≡ map some xs ++ some t ∷ []
map_append [] t = refl
map_append (x ∷ xs) t = ap (λ l. some x ∷ l) (map_append xs t)

not_held : true ≢ false
not_held f = cc

-- A state by its parts.
abbrev at : Bool → List Task → ℕ → ℕ → Worker → List Task → List ℕ → ActiveObject
at held q sleeping woken w p r = record {
  mq = record { q = q; mtx_held = held; sleeping = sleeping; woken = woken };
  ao_worker = w;
  to_push = p;
  ran = r;
}

-- A signal wakes the worker if it sleeps.
signal-IsAwake :
    (w : Worker) (q : List Task) (x : Task) (k n : ℕ)
    → IsAwake w q k n
    → let m = signal (record { q = q ++ x ∷ []; mtx_held = false; sleeping = k; woken = n }) in
      (m.q ≡ q ++ x ∷ []) × (m.mtx_held ≡ false) × IsAwake w m.q m.sleeping m.woken
signal-IsAwake popping q x k n (e, f) = ground (arith, e, f)
signal-IsAwake (running t) q x k n (e, f) = ground (arith, e, f)
signal-IsAwake ended q x k n (e, f) = ground (arith, e, f)
signal-IsAwake waiting q x k n (inl (e, f, z)) =
    (ground (arith, e, f), ground (arith, e, f), inr (ground (arith, e, f), ground (arith, e, f)))
signal-IsAwake waiting q x k n (inr (e, f)) =
    (ground (arith, e, f), ground (arith, e, f), inr (ground (arith, e, f), ground (arith, e, f)))

one_woken : (k n : ℕ) (q : List Task) → IsAwake waiting q k (suc n) → (k ≡ 0) × (n ≡ 0)
one_woken k n q (inl (a, b, z)) = absurd (omega (arith, b))
one_woken k n q (inr (a, b)) = (a, omega (arith, b))

owner_move-Inv :
    (tasks : List ℕ) (held : Bool) (q : List Task) (k n : ℕ) (w : Worker) (p : List Task)
    (r : List ℕ) (t : ActiveObject)
    → Inv tasks (at held q k n w p r)
    → owner_move (at held q k n w p r) ≡ some t
    → Inv tasks t
unfolding owner_move push
owner_move-Inv tasks true q k n w p r t i e = absurd (not_held i.free)
owner_move-Inv tasks false q k n w [] r t i e = absurd cc
owner_move-Inv tasks false q k n w (x ∷ p) r t i e =
    let (queue, free, awake) = signal-IsAwake w q x k n i.awake in
    subst (Inv tasks) (same_some e) (record {
      free = free;
      whole =
          ap (λ l. map some r ++ (in_hand w ++ (l ++ p))) queue
          ∙ ap (λ l. map some r ++ (in_hand w ++ l)) (append_assoc q (x ∷ []) p)
          ∙ i.whole;
      awake = awake;
    })

worker_move-Inv :
    (tasks : List ℕ) (held : Bool) (q : List Task) (k n : ℕ) (w : Worker) (p : List Task)
    (r : List ℕ) (t : ActiveObject)
    → Inv tasks (at held q k n w p r)
    → worker_move (at held q k n w p r) ≡ some t
    → Inv tasks t
unfolding worker_move pop return_from_wait
worker_move-Inv tasks held q k n (running x) p r t i e = subst (Inv tasks) (same_some e) (record {
  free = i.free;
  whole =
      ap (λ l. l ++ (q ++ p)) (map_append r x)
      ∙ append_assoc (map some r) (some x ∷ []) (q ++ p)
      ∙ i.whole;
  awake = i.awake;
})
worker_move-Inv tasks held q k n ended p r t i e = absurd cc
worker_move-Inv tasks true q k n popping p r t i e = absurd cc
worker_move-Inv tasks false [] k n popping p r t i e =
    let (a, b) = i.awake in
    subst (Inv tasks) (same_some e)
      (record { free = refl; whole = i.whole; awake = inl (omega (arith, a), b, refl) })
worker_move-Inv tasks false (none ∷ q) k n popping p r t i e =
    subst (Inv tasks) (same_some e) (record { free = refl; whole = i.whole; awake = i.awake })
worker_move-Inv tasks false (some x ∷ q) k n popping p r t i e =
    subst (Inv tasks) (same_some e) (record { free = refl; whole = i.whole; awake = i.awake })
worker_move-Inv tasks true q k n waiting p r t i e = absurd cc
worker_move-Inv tasks false q k zero waiting p r t i e = absurd cc
worker_move-Inv tasks false [] k (suc n) waiting p r t i e =
    let (a, b) = one_woken k n [] i.awake in
    subst (Inv tasks) (same_some e)
      (record { free = refl; whole = i.whole; awake = inl (omega (arith, a), b, refl) })
worker_move-Inv tasks false (none ∷ q) k (suc n) waiting p r t i e =
    subst (Inv tasks) (same_some e)
      (record { free = refl; whole = i.whole; awake = one_woken k n (none ∷ q) i.awake })
worker_move-Inv tasks false (some x ∷ q) k (suc n) waiting p r t i e =
    subst (Inv tasks) (same_some e)
      (record { free = refl; whole = i.whole; awake = one_woken k n (some x ∷ q) i.awake })

wake-IsAwake :
    (w : Worker) (q : List Task) (k n : ℕ) → 0 < k → IsAwake w q k n → IsAwake w q (k - 1) (n + 1)
wake-IsAwake popping q k n lt (a, b) = absurd (omega (arith, lt, a))
wake-IsAwake (running x) q k n lt (a, b) = absurd (omega (arith, lt, a))
wake-IsAwake ended q k n lt (a, b) = absurd (omega (arith, lt, a))
wake-IsAwake waiting q k n lt (inl (a, b, z)) = inr (omega (arith, a), omega (arith, b))
wake-IsAwake waiting q k n lt (inr (a, b)) = absurd (omega (arith, lt, a))

Reach-Inv : (tasks : List ℕ) (s : ActiveObject) → Reach tasks s → Inv tasks s
Reach-Inv tasks _ at_start = record { free = refl; whole = refl; awake = (refl, refl) }
Reach-Inv tasks _ (then_step {s} {t} r (owner_step e)) =
    owner_move-Inv tasks s.mq.mtx_held s.mq.q s.mq.sleeping s.mq.woken s.ao_worker s.to_push s.ran t
      (Reach-Inv tasks s r) e
Reach-Inv tasks _ (then_step {s} {t} r (worker_step e)) =
    worker_move-Inv tasks s.mq.mtx_held s.mq.q s.mq.sleeping s.mq.woken s.ao_worker s.to_push s.ran
      t (Reach-Inv tasks s r) e
Reach-Inv tasks _ (then_wake {s} r lt) =
    let i = Reach-Inv tasks s r in
    record {
      free = i.free;
      whole = i.whole;
      awake = wake-IsAwake s.ao_worker s.mq.q s.mq.sleeping s.mq.woken lt i.awake;
    }

-- The first `nullptr` of a list stands where it ends.
split_at_null :
    (r tasks : List ℕ) (rest : List Task)
    → map some r ++ none ∷ rest ≡ map some tasks ++ none ∷ []
    → (r ≡ tasks) × (rest ≡ [])
split_at_null [] [] rest e = (refl, cc)
split_at_null [] (x ∷ tasks) rest e = absurd cc
split_at_null (x ∷ r) [] rest e = absurd cc
split_at_null (x ∷ r) (y ∷ tasks) rest e =
    let e' : map some r ++ none ∷ rest ≡ map some tasks ++ none ∷ [] = cc in
    let (same, empty) = split_at_null r tasks rest e' in let head : x ≡ y = cc in (cc, empty)

no_null : (r tasks : List ℕ) → map some r ++ [] ≢ map some tasks ++ none ∷ []
no_null [] [] e = cc
no_null [] (y ∷ tasks) e = cc
no_null (x ∷ r) [] e = cc
no_null (x ∷ r) (y ∷ tasks) e =
    let e' : map some r ++ [] ≡ map some tasks ++ none ∷ [] = cc in no_null r tasks e'

-- In every state that the object reaches, however its owner and its worker take turns: once the
-- worker has ended, so that the join of the destructor returns, it has run all the tasks that were
-- sent, in their order and once each, and nothing is left in the queue or to be pushed.
pub ended_complete :
    (tasks : List ℕ) (s : ActiveObject)
    → Reach tasks s
    → s.ao_worker ≡ ended
    → (s.ran ≡ tasks) × (s.mq.q ++ s.to_push ≡ [])
ended_complete tasks s r e = split_at_null s.ran tasks (s.mq.q ++ s.to_push) (
    sym (ap (λ w. map some s.ran ++ (in_hand w ++ (s.mq.q ++ s.to_push))) e)
    ∙ (Reach-Inv tasks s r).whole)

can_move :
    (tasks : List ℕ) (held : Bool) (q : List Task) (k n : ℕ) (w : Worker) (p : List Task)
    (r : List ℕ)
    → Inv tasks (at held q k n w p r)
    → (w ≡ ended) ⊎ ((t : ActiveObject) × Step (at held q k n w p r) t)
unfolding owner_move worker_move push pop return_from_wait
can_move tasks held q k n ended p r i = inl refl
can_move tasks held q k n (running x) p r i = inr (_, worker_step refl)
can_move tasks true q k n popping p r i = absurd (not_held i.free)
can_move tasks false q k n popping p r i = inr (_, worker_step refl)
can_move tasks true q k n waiting p r i = absurd (not_held i.free)
can_move tasks false q k (suc n) waiting p r i = inr (_, worker_step refl)
can_move tasks false q k zero waiting (x ∷ p) r i = inr (_, owner_step refl)
can_move tasks false q k zero waiting [] r i = elim i.awake [
  | inl (e, f, z) ↦ absurd (no_null r tasks (sym (ap (λ l. map some r ++ (l ++ [])) z) ∙ i.whole))
  | inr (e, f) ↦ absurd (omega (arith, f))
]

-- In every state that the object reaches the worker has ended or a thread can move without being
-- woken up spuriously: there is no deadlock.
pub no_block :
    (tasks : List ℕ) (s : ActiveObject)
    → Reach tasks s
    → (s.ao_worker ≡ ended) ⊎ ((t : ActiveObject) × Step s t)
no_block tasks s r =
    can_move tasks s.mq.mtx_held s.mq.q s.mq.sleeping s.mq.woken s.ao_worker s.to_push s.ran
      (Reach-Inv tasks s r)

-- In every state that the object reaches, however its owner and its worker take turns, and also
-- where the worker was woken up without a signal: either a thread can move by itself, without such
-- a wake-up, so that there is no deadlock, or the worker has ended, so that the join of the
-- destructor returns, and has run all the tasks that were sent, in their order and once each, with
-- nothing left in the queue or to be pushed.
pub moves_or_complete :
    (tasks : List ℕ) (s : ActiveObject)
    → Reach tasks s
    → ((t : ActiveObject) × Step s t)
      ⊎ ((s.ao_worker ≡ ended) × (s.ran ≡ tasks) × (s.mq.q ++ s.to_push ≡ []))
moves_or_complete tasks s r = elim (no_block tasks s r) [
  | inl e ↦ let (ran, rest) = ended_complete tasks s r e in inr (e, ran, rest)
  | inr move ↦ inl move
]

-- `try_pop` on an empty queue whose mutex is free returns, and from then on every call of `push`,
-- `pop` and `try_pop` blocks.
pub try_pop-blocks :
    (m : ThreadSafeQueue)
    → m.q ≡ []
    → m.mtx_held ≡ false
    → (n : ThreadSafeQueue) × (try_pop m ≡ some (none, n))
      × ((item : Task) → push item n ≡ none)
      × (pop n ≡ none)
      × (try_pop n ≡ none)
unfolding try_pop push pop
try_pop-blocks m e f =
    (record m { mtx_held = true }, ground (arith, e, f), λ item. refl, refl, refl)
