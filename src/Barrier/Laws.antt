-- ===== src/Barrier/Laws.antt =====
-- day2/12_barrier/pthread_barrier.c: no thread passes the barrier before all have reached it.
use cpp_rt.Prelude.{
  ◌∙◌, sum_first-lt_each, ◌≤◌, ◌≢◌, ℕ, ◌+◌, ◌<◌, ◌≡◌, refl, ◌⊎◌, inl, inr, ◌==◌, Bool, true, false,
  put_at, arith, sum_first, sum_first-put_at, sum_first-lt, sum_first-eq-zero, sum_first-one,
  sum_first-ne_zero, weight-le-sum_first, ap, ℕ_discrete, dec_lt,
}
use cpp_rt.Barrier.Threads.{
  Pc, sleeping, waiting, passed, quit, let_go, System, release, Step, arrive, complete, leave,
  start, Reach, here, later,
}

abbrev waits : Pc → ℕ
waits waiting = 1
waits p = 0

abbrev pub is_serial : Pc → ℕ
is_serial (passed true) = 1
is_serial (quit true) = 1
is_serial p = 0

abbrev pub IsBefore : Pc → Type 0
IsBefore p = (p ≡ sleeping) ⊎ (p ≡ waiting)

abbrev pub IsBehind : Pc → Type 0
IsBehind p = (b : Bool) × ((p ≡ passed b) ⊎ (p ≡ quit b))

-- Either no thread has passed the barrier yet, and it has counted those that wait; or all have,
-- one of them as the serial thread.
Phase : ℕ → System → Type 0
Phase n s =
    (s.count ≡ n)
    × ((((i : ℕ) → i < n → IsBefore (s.pc i))
          × (s.arrived ≡ sum_first waits n s.pc)
          × (s.arrived < n))
        ⊎ (((i : ℕ) → i < n → IsBehind (s.pc i)) × (sum_first is_serial n s.pc ≡ 1)))

not_behind : (p : Pc) → IsBefore p → IsBehind p → ⊥
not_behind p (inl e) (b, inl f) = cc
not_behind p (inl e) (b, inr f) = cc
not_behind p (inr e) (b, inl f) = cc
not_behind p (inr e) (b, inr f) = cc

waits-le : (p : Pc) → waits p ≤ 1
waits-le sleeping = omega arith
waits-le waiting = omega arith
waits-le (passed b) = omega arith
waits-le (quit b) = omega arith

waits-waiting : (p : Pc) → waits p ≢ 0 → p ≡ waiting
waits-waiting sleeping h = absurd (h refl)
waits-waiting waiting h = refl
waits-waiting (passed b) h = absurd (h refl)
waits-waiting (quit b) h = absurd (h refl)

-- With one of them asleep, so many wait that none is left that sleeps.
all_wait :
    (n i : ℕ) (pc : ℕ → Pc)
    → i < n
    → pc i ≡ sleeping
    → sum_first waits n pc + 1 ≡ n
    → (k : ℕ) → k < n
    → put_at i waiting pc k ≡ waiting
all_wait n i pc lt e full k l =
    let sum = sum_first-put_at waits n i waiting pc lt in
    waits-waiting (put_at i waiting pc k) λ z. omega (
      arith,
      ap waits e,
      full,
      sum,
      sum_first-lt_each waits n k (put_at i waiting pc) (λ p. waits-le p) l z,
    )

release-passed : (j : ℕ) (pc : ℕ → Pc) (i : ℕ) → pc i ≡ waiting → release j pc i ≡ passed (i == j)
release-passed j pc i e = ap (let_go (i == j)) e

serial-release :
    (n j : ℕ) (pc : ℕ → Pc)
    → j < n
    → ((i : ℕ) → i < n → pc i ≡ waiting)
    → sum_first is_serial n (release j pc) ≡ 1
serial-release n j pc lt w =
    sum_first-one is_serial n j (release j pc) lt
      (ap is_serial (release-passed j pc j (w j lt)) ∙ ground arith)
      (λ i l ne. ap is_serial (release-passed j pc i (w i l)) ∙ ground (arith, ne))

quit-serial : (b : Bool) → is_serial (quit b) ≡ is_serial (passed b)
quit-serial true = refl
quit-serial false = refl

Step-Phase : (n : ℕ) (s t : System) → Phase n s → Step n s t → Phase n t
unfolding Phase
Step-Phase n s _ (made, inl (before, count, less)) (arrive i lt e room) = (
  made,
  inl (
    λ j l. put-before j l (before j l),
    omega (arith, sum_first-put_at waits n i waiting s.pc lt, ap waits e, count),
    next_room,
  ),
)
  where
    next_room : s.arrived + 1 < n
    next_room = omega (arith, made, less, room)

    put-before : (j : ℕ) → j < n → IsBefore (s.pc j) → IsBefore (put_at i waiting s.pc j)
    put-before j l b = ground arith
Step-Phase n s _ (made, inr (behind, one)) (arrive i lt e room) =
    absurd (not_behind (s.pc i) (inl e) (behind i lt))
Step-Phase n s _ (made, inl (before, count, less)) (complete i j lt e last lt' w) =
    let all = all_wait n i s.pc lt e (omega (arith, count, made, last)) in
    (
      made,
      inr (
        λ k l. (k == j, inl (release-passed j (put_at i waiting s.pc) k (all k l))),
        serial-release n j (put_at i waiting s.pc) lt' all,
      ),
    )
Step-Phase n s _ (made, inr (behind, one)) (complete i j lt e last lt' w) =
    absurd (not_behind (s.pc i) (inl e) (behind i lt))
Step-Phase n s _ (made, inl (before, count, less)) (leave i b lt e) =
    absurd (not_behind (s.pc i) (before i lt) (b, inl e))
Step-Phase n s _ (made, inr (behind, one)) (leave i b lt e) = (
  made,
  inr (
    λ j l. put-behind j (behind j l),
    omega (
      arith,
      sum_first-put_at is_serial n i (quit b) s.pc lt,
      ap is_serial e,
      quit-serial b,
      one,
    ),
  ),
)
  where
    put-behind : (j : ℕ) → IsBehind (s.pc j) → IsBehind (put_at i (quit b) s.pc j)
    put-behind j (c, o) = elim (ℕ_discrete i j) [
      | yes same ↦ (b, inr (ground arith))
      | no ne ↦ (c, ground arith)
    ]

start-Phase : (n : ℕ) → 0 < n → Phase n (start n)
unfolding Phase
start-Phase n pos =
    let zero_waits = sum_first-eq-zero waits n (λ i. sleeping) (λ i lt. refl) in
    (refl, inl (λ i lt. inl refl, omega (arith, zero_waits), pos))

Reach-Phase : {n : ℕ} {s : System} → 0 < n → Reach n s → Phase n s
Reach-Phase {n} pos here = start-Phase n pos
Reach-Phase {n} pos (later {s} {t} r st) = Step-Phase n s t (Reach-Phase pos r) st

-- The barrier is made for `n` threads, and lets those go that wait at it. Once one of the `n`
-- threads has passed the barrier, every other one, too, has reached it and has been let go, and
-- exactly one of the `n` as the serial thread.
pub passed-all :
    {n : ℕ} {s : System} (i j : ℕ)
    → Reach n s
    → i < n
    → j < n
    → IsBehind (s.pc i)
    → IsBehind (s.pc j) × (sum_first is_serial n s.pc ≡ 1)
unfolding Phase
passed-all {n} {s} i j r lt lt' b = elim (Reach-Phase (omega (arith, lt)) r).1 [
  | inl (before, count, less) ↦ absurd (not_behind (s.pc i) (before i lt) b)
  | inr (behind, one) ↦ (behind j lt', one)
]

not_waiting : (p : Pc) → IsBefore p → waits p ≡ 0 → p ≡ sleeping
not_waiting p (inl e) z = e
not_waiting p (inr e) z = absurd (ground (arith, e))

is_leaving : Pc → ℕ
is_leaving (passed b) = 1
is_leaving p = 0

leaving-passed : (p : Pc) → 0 < is_leaving p → (b : Bool) × (p ≡ passed b)
unfolding is_leaving
leaving-passed sleeping h = absurd (omega arith)
leaving-passed waiting h = absurd (omega arith)
leaving-passed (passed b) h = (b, refl)
leaving-passed (quit b) h = absurd (omega arith)

behind-quit : (p : Pc) → IsBehind p → is_leaving p ≡ 0 → (b : Bool) × (p ≡ quit b)
unfolding is_leaving
behind-quit p (b, inl e) z = absurd (ground (arith, e))
behind-quit p (b, inr e) z = (b, e)

-- The barrier is made for `n` threads. In every state that `n` threads reach, either all have quit
-- or one of them can move: no thread waits at the barrier for ever.
pub barrier_opens :
    {n : ℕ} {s : System}
    → 0 < n
    → Reach n s
    → ((i : ℕ) → i < n → (b : Bool) × (s.pc i ≡ quit b)) ⊎ ((t : System) × Step n s t)
unfolding Phase
barrier_opens {n} {s} pos r = elim (Reach-Phase pos r).1 [
  | inl (before, count, less) ↦
      let (i, lt, z) = sum_first-lt waits n s.pc (omega (arith, count)) in
      let e = not_waiting (s.pc i) (before i lt) z in
      elim (ℕ_discrete (s.arrived + 1) s.count) [
        | no room ↦ inr (_, arrive i lt e room)
        | yes full ↦ inr (_, complete i i lt e full lt (ground arith))
      ]
  | inr (behind, one) ↦ elim (dec_lt 0 (sum_first is_leaving n s.pc)) [
    | yes p ↦
        let (i, lt, q) = sum_first-ne_zero is_leaving n s.pc p in
        let (b, e) = leaving-passed (s.pc i) q in inr (_, leave i b lt e)
    | no z ↦ inl λ i lt.
        behind-quit (s.pc i) (behind i lt)
          (omega (arith, weight-le-sum_first is_leaving n i s.pc lt))
  ]
]
