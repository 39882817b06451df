-- ===== src/Counter/Laws.antt =====
-- day1/05_mutex/pthread_mutex_perf.cpp and day2/08_spin/pthread_spinlock.c: no round is lost.
use cpp_rt.Prelude.{
  ℕ, zero, suc, ◌+◌, ◌*◌, ◌<◌, ◌≤◌, ◌≡◌, refl, sym, ap, ◌∙◌, ◌⊎◌, inl, inr, Option, none, some,
  put_at, Bool, true, false, arith, sum_first, sum_first-put_at, sum_first-eq-zero,
  sum_first-ne_zero, weight-le-sum_first, dec_lt, ℕ_discrete, Option-cases, Bool-cases, same_some,
}
use mathlib.Core.Path.{subst}
use cpp_rt.Counter.{
  Shared, Pc, looping, reading, writing, unlocking, move, System, Step, act, Reach, here, later,
  is_ok,
}

-- The rounds that a thread has yet to count.
abbrev todo : Pc → ℕ
todo (looping k) = k
todo (reading k) = k + 1
todo (writing k v) = k + 1
todo (unlocking k) = k

abbrev holds : Pc → Bool
holds (looping k) = false
holds p = true

-- What a thread in the section has read is what the counter still is.
abbrev Fresh : Shared → Pc → Type 0
Fresh m (writing k v) = v ≡ m.counter
Fresh m p = Unit {0}

record Inv (n k : ℕ) (s : System) : Type 0 where
  total : s.mem.counter + sum_first todo n s.pc ≡ n * k
  alone : (i : ℕ) → i < n → holds (s.pc i) ≡ true → s.mem.holder ≡ some i
  inside : (i : ℕ) → s.mem.holder ≡ some i → (i < n) × (holds (s.pc i) ≡ true)
  fresh : (i : ℕ) → i < n → Fresh s.mem (s.pc i)

-- What a move of thread `i` does to the counter, the lock and its own rounds.
record Moved (i : ℕ) (m : Shared) (p : Pc) (m' : Shared) (p' : Pc) : Type 0 where
  counts : m'.counter + todo p' ≡ m.counter + todo p
  locked : ((holds p' ≡ true) × (m'.holder ≡ some i)) ⊎ ((holds p' ≡ false) × (m'.holder ≡ none))
  entry : (m.holder ≡ none) ⊎ (holds p ≡ true)
  reads : Fresh m' p'

abbrev Outcome : ℕ → Shared → Pc → Shared × Pc → Type 0
Outcome i m p r = Moved i m p r.0 r.1

outside-Fresh : (m : Shared) (p : Pc) → holds p ≡ false → Fresh m p
outside-Fresh m (looping k) h = tt
outside-Fresh m (reading k) h = absurd cc
outside-Fresh m (writing k v) h = absurd cc
outside-Fresh m (unlocking k) h = absurd cc

move-Moved :
    (i : ℕ) (m : Shared) (p : Pc) (m' : Shared) (p' : Pc)
    → (holds p ≡ true → m.holder ≡ some i)
    → Fresh m p
    → move i m p ≡ some (m', p')
    → Moved i m p m' p'
unfolding move
move-Moved i m (looping zero) m' p' h f e = absurd cc
move-Moved i m (looping (suc k)) m' p' h f e = elim (Option-cases m.holder) [
  | inl free ↦
      let run : move i m (looping (suc k)) ≡ some (record m { holder = some i }, reading k) =
        ground (arith, free) in
      subst (Outcome i m (looping (suc k))) (same_some (sym run ∙ e))
        (record { counts = omega arith; locked = inl (refl, refl); entry = inl free; reads = tt })
  | inr (j, held) ↦ absurd (ground (arith, held, e))
]
move-Moved i m (reading k) m' p' h f e =
    subst (Outcome i m (reading k)) (same_some e)
      (record { counts = refl; locked = inl (refl, h refl); entry = inr refl; reads = refl })
move-Moved i m (writing k v) m' p' h f e = subst (Outcome i m (writing k v)) (same_some e) (record {
  counts = omega (arith, f);
  locked = inl (refl, h refl);
  entry = inr refl;
  reads = tt;
})
move-Moved i m (unlocking k) m' p' h f e =
    subst (Outcome i m (unlocking k)) (same_some e)
      (record { counts = refl; locked = inr (refl, refl); entry = inr refl; reads = tt })

module _ (n k : ℕ) (s : System) (inv : Inv n k s) (i : ℕ) (m' : Shared) (p' : Pc) (lt : i < n) where
  abbrev HasMoved : Type 0
  HasMoved = Moved i s.mem (s.pc i) m' p'

  -- A thread in the section is the one that moved, or the lock was not free.
  others_outside : HasMoved → (j : ℕ) → j < n → holds (s.pc j) ≡ true → i ≡ j
  others_outside mv j l hj = elim mv.entry [
    | inl free ↦ absurd (none_some (sym free ∙ inv.alone j l hj))
    | inr hi ↦ same_some (sym (inv.alone i lt hi) ∙ inv.alone j l hj)
  ]
    where
      none_some : ◌≡◌ {A = Option ℕ} none (some j) → ⊥
      none_some q = cc

  act-Inv : HasMoved → Inv n k (record { mem = m'; pc = put_at i p' s.pc })
  act-Inv mv = record {
    total = omega (arith, inv.total, mv.counts, sum_first-put_at todo n i p' s.pc lt);
    alone = λ j l hj. elim (ℕ_discrete i j) [
      | yes same ↦ elim mv.locked [
        | inl (h, e) ↦ e ∙ ap some same
        | inr (h, e) ↦ absurd (ground (arith, same, h, hj))
      ]
      | no ne ↦ absurd (ne (others_outside mv j l (ground (arith, hj))))
    ];
    inside = λ j e. elim mv.locked [
      | inl (h, e') ↦ let same = same_some (sym e' ∙ e) in (rw same at lt, ground (arith, same, h))
      | inr (h, e') ↦ absurd (ground (arith, e, e'))
    ];
    fresh = λ j l. elim (ℕ_discrete i j) [
      | yes same ↦ ground (arith, same, mv.reads)
      | no ne ↦ elim (Bool-cases (holds (s.pc j))) [
        | inl hj ↦ absurd (ne (others_outside mv j l hj))
        | inr hj ↦ ground (arith, ne, outside-Fresh m' (s.pc j) hj)
      ]
    ];
  }

start-total : (n k : ℕ) → sum_first todo n (λ i. looping k) ≡ n * k
unfolding sum_first
start-total zero k = omega arith
start-total (suc n) k = grind (arith, start-total n k)

Reach-Inv : {n k : ℕ} {s : System} → Reach n k s → Inv n k s
Reach-Inv {n} {k} here = record {
  total = omega (arith, start-total n k);
  alone = λ i lt h. cc;
  inside = λ i e. absurd cc;
  fresh = λ i lt. tt;
}
Reach-Inv {n} {k} (later {s} r (act i m p lt e)) =
    let inv = Reach-Inv r in
    act-Inv n k s inv i m p lt (move-Moved i s.mem (s.pc i) m p (inv.alone i lt) (inv.fresh i lt) e)

-- When each of `n` threads has made its `k` rounds, in whatever order they moved, the counter is
-- `n * k`, and `main` prints "ok".
pub finished-is_ok :
    {n k : ℕ} {s : System}
    → Reach n k s
    → ((i : ℕ) → i < n → s.pc i ≡ looping 0)
    → (s.mem.counter ≡ n * k) × (is_ok n k s ≡ true)
finished-is_ok {n} {k} {s} r ended =
    let none_left = sum_first-eq-zero todo n s.pc (λ i lt. ap todo (ended i lt)) in
    let total : s.mem.counter ≡ n * k = omega (arith, (Reach-Inv r).total, none_left) in
    (total, ground (arith, total))

-- What one of `n` threads is about to write is one more than the counter, so that no other
-- thread's write is lost, and does not exceed `n * k`: an `int` does not overflow as long as `n *
-- k` is below 2 ^ 31.
pub counter_bounded :
    {n k : ℕ} {s : System} (i l v : ℕ)
    → Reach n k s
    → i < n
    → s.pc i ≡ writing l v
    → (v ≡ s.mem.counter) × (v + 1 ≤ n * k)
counter_bounded {n} {k} {s} i l v r lt e =
    let inv = Reach-Inv r in
    let same : v ≡ s.mem.counter = subst (Fresh s.mem) e (inv.fresh i lt) in
    (same, omega (arith, inv.total, weight-le-sum_first todo n i s.pc lt, ap todo e, same))

holder-moves :
    (i : ℕ) (m : Shared) (p : Pc)
    → holds p ≡ true
    → (m' : Shared) × (p' : Pc) × (move i m p ≡ some (m', p'))
unfolding move
holder-moves i m (looping k) h = absurd cc
holder-moves i m (reading k) h = (_, _, refl)
holder-moves i m (writing k v) h = (_, _, refl)
holder-moves i m (unlocking k) h = (_, _, refl)

free-moves :
    (i : ℕ) (m : Shared) (p : Pc)
    → m.holder ≡ none
    → 0 < todo p
    → (m' : Shared) × (p' : Pc) × (move i m p ≡ some (m', p'))
unfolding move
free-moves i m (looping zero) free h = absurd (omega arith)
free-moves i m (looping (suc k)) free h =
    (record m { holder = some i }, reading k, ground (arith, free))
free-moves i m (reading k) free h = (_, _, refl)
free-moves i m (writing k v) free h = (_, _, refl)
free-moves i m (unlocking k) free h = (_, _, refl)

ended-todo : (p : Pc) → holds p ≡ false → todo p ≡ 0 → p ≡ looping 0
ended-todo (looping k) h z = ap looping z
ended-todo (reading k) h z = absurd cc
ended-todo (writing k v) h z = absurd cc
ended-todo (unlocking k) h z = absurd cc

-- In every state that they reach, all threads have ended or one of them can move: the lock is never
-- left held.
pub counting_goes_on :
    {n k : ℕ} {s : System}
    → Reach n k s
    → ((i : ℕ) → i < n → s.pc i ≡ looping 0) ⊎ ((t : System) × Step n s t)
counting_goes_on {n} {k} {s} r =
    let inv = Reach-Inv r in
    elim (Option-cases s.mem.holder) [
      | inr (j, e) ↦
          let (lt, h) = inv.inside j e in
          let (m, p, run) = holder-moves j s.mem (s.pc j) h in inr (_, act j m p lt run)
      | inl free ↦ elim (dec_lt 0 (sum_first todo n s.pc)) [
        | yes more ↦
            let (i, lt, q) = sum_first-ne_zero todo n s.pc more in
            let (m, p, run) = free-moves i s.mem (s.pc i) free q in inr (_, act i m p lt run)
        | no z ↦ inl λ i lt.
            ended-todo (s.pc i) (outside i lt free)
              (omega (arith, weight-le-sum_first todo n i s.pc lt))
      ]
    ]
  where
    outside : (i : ℕ) → i < n → s.mem.holder ≡ none → holds (s.pc i) ≡ false
    outside i lt free = elim (Bool-cases (holds (s.pc i))) [
      | inl h ↦ absurd (ground (arith, (Reach-Inv r).alone i lt h, free))
      | inr h ↦ h
    ]
