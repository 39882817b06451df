-- ===== src/Rwlock/Exclusion.antt =====
-- `main_example_01` of day2/07a_rwlock_tree/pthread_rwlock.cpp: who may hold the lock together.
use mathlib.Core.Path.{subst}
use cpp_rt.Prelude.{
  ◌⊎◌, inl, inr, ℕ, zero, suc, ◌+◌, ◌<◌, ◌≤◌, ◌≡◌, ◌≢◌, refl, sym, ap, Bool, true, false, Option,
  some, put_at, arith, sum_first, sum_first-put_at, sum_first-eq-zero, weight-le-sum_first,
  same_some,
}
use cpp_rt.Btree.Object.{Rwlock}
use cpp_rt.Rwlock.Holders.{
  Pc, idle, writing, reading, exited, writer_move, reader_move, System, writer, reader, Reach, here,
  later,
}

abbrev reads : Pc → ℕ
reads reading = 1
reads p = 0

abbrev writes : Pc → ℕ
writes writing = 1
writes p = 0

abbrev bit : Bool → ℕ
bit true = 1
bit false = 0

-- The lock counts the threads that hold it, a writer holds it alone, and no thread has failed.
record Inv (n : ℕ) (l : Rwlock) (pc : ℕ → Pc) : Type 0 where
  readers : l.readers ≡ sum_first reads n pc
  writers : bit l.writing ≡ sum_first writes n pc
  apart : l.writing ≡ true → l.readers ≡ 0
  alive : (i : ℕ) → i < n → pc i ≢ exited

record Moved (l : Rwlock) (p : Pc) (l' : Rwlock) (p' : Pc) : Type 0 where
  readers : l'.readers + reads p ≡ l.readers + reads p'
  writers : bit l'.writing + writes p ≡ bit l.writing + writes p'
  apart : l'.writing ≡ true → l'.readers ≡ 0
  alive : p' ≢ exited

abbrev Outcome : Rwlock → Pc → Rwlock × Pc → Type 0
Outcome l p r = Moved l p r.0 r.1

abbrev lock_of : Bool → ℕ → Rwlock
lock_of w r = record { writing = w; readers = r }

writer_move-Moved :
    (w : Bool) (r : ℕ) (p : Pc) (l' : Rwlock) (p' : Pc)
    → (w ≡ true → r ≡ 0)
    → writes p ≤ bit w
    → p ≢ exited
    → writer_move (lock_of w r) p ≡ some (l', p')
    → Moved (lock_of w r) p l' p'
unfolding writer_move
writer_move-Moved true r idle l' p' a h x e = absurd cc
writer_move-Moved false zero idle l' p' a h x e =
    subst (Outcome (lock_of false 0) idle) (same_some e)
      (record { readers = refl; writers = refl; apart = λ q. refl; alive = λ q. cc })
writer_move-Moved false (suc r) idle l' p' a h x e = absurd (ground (arith, e))
writer_move-Moved true r writing l' p' a h x e =
    subst (Outcome (lock_of true r) writing) (same_some e)
      (record { readers = refl; writers = refl; apart = λ q. absurd cc; alive = λ q. cc })
writer_move-Moved false r writing l' p' a h x e = absurd (omega (arith, h))
writer_move-Moved w r reading l' p' a h x e = absurd cc
writer_move-Moved w r exited l' p' a h x e = absurd cc

reader_move-Moved :
    (w : Bool) (r : ℕ) (p : Pc) (l' : Rwlock) (p' : Pc)
    → (w ≡ true → r ≡ 0)
    → reads p ≤ r
    → p ≢ exited
    → reader_move (lock_of w r) p ≡ some (l', p')
    → Moved (lock_of w r) p l' p'
unfolding reader_move
reader_move-Moved true r idle l' p' a h x e = absurd cc
reader_move-Moved false r idle l' p' a h x e =
    subst (Outcome (lock_of false r) idle) (same_some e)
      (record { readers = omega arith; writers = refl; apart = λ q. absurd cc; alive = λ q. cc })
reader_move-Moved true r reading l' p' a h x e = absurd (omega (arith, h, a refl))
reader_move-Moved false zero reading l' p' a h x e = absurd (omega (arith, h))
reader_move-Moved false (suc r) reading l' p' a h x e =
    let run : ◌≡◌ {A = Option (Rwlock × Pc)} (some (lock_of false r, idle)) (some (l', p')) =
      ground (arith, e) in
    subst (Outcome (lock_of false (suc r)) reading) (same_some run)
      (record { readers = omega arith; writers = refl; apart = λ q. absurd cc; alive = λ q. cc })
reader_move-Moved w r writing l' p' a h x e = absurd cc
reader_move-Moved w r exited l' p' a h x e = absurd cc

module _ (n : ℕ) (l : Rwlock) (pc : ℕ → Pc) (inv : Inv n l pc) (i : ℕ) (lt : i < n) where
  Moved-Inv : (l' : Rwlock) (p' : Pc) → Moved l (pc i) l' p' → Inv n l' (put_at i p' pc)
  Moved-Inv l' p' m = record {
    readers = omega (arith, m.readers, inv.readers, sum_first-put_at reads n i p' pc lt);
    writers = omega (arith, m.writers, inv.writers, sum_first-put_at writes n i p' pc lt);
    apart = m.apart;
    alive = λ j q. ground (arith, m.alive, inv.alive j q);
  }

  reads-le : reads (pc i) ≤ l.readers
  reads-le = omega (arith, inv.readers, weight-le-sum_first reads n i pc lt)

  writes-le : writes (pc i) ≤ bit l.writing
  writes-le = omega (arith, inv.writers, weight-le-sum_first writes n i pc lt)

Reach-Inv : {n : ℕ} {w : ℕ → Bool} {s : System} → Reach n w s → Inv n s.rw_lock s.pc
Reach-Inv {n} here = record {
  readers = sym (sum_first-eq-zero reads n (λ i. idle) (λ i lt. refl));
  writers = sym (sum_first-eq-zero writes n (λ i. idle) (λ i lt. refl));
  apart = λ q. refl;
  alive = λ i lt q. cc;
}
Reach-Inv {n} (later {s} r (writer i l p lt w e)) =
    let inv = Reach-Inv r in
    Moved-Inv n s.rw_lock s.pc inv i lt l p (
      writer_move-Moved s.rw_lock.writing s.rw_lock.readers (s.pc i) l p inv.apart
        (writes-le n s.rw_lock s.pc inv i lt) (inv.alive i lt) e)
Reach-Inv {n} (later {s} r (reader i l p lt w e)) =
    let inv = Reach-Inv r in
    Moved-Inv n s.rw_lock s.pc inv i lt l p (
      reader_move-Moved s.rw_lock.writing s.rw_lock.readers (s.pc i) l p inv.apart
        (reads-le n s.rw_lock s.pc inv i lt) (inv.alive i lt) e)

two_below :
    (weight : Pc → ℕ) (n i j : ℕ) (pc : ℕ → Pc)
    → i < n
    → j < n
    → i ≢ j
    → weight idle ≡ 0
    → weight (pc i) + weight (pc j) ≤ sum_first weight n pc
two_below weight n i j pc lt lt' ne z =
    let elsewhere : put_at i idle pc j ≡ pc j = ground (arith, ne) in
    omega (
      arith,
      sum_first-put_at weight n i idle pc lt,
      z,
      weight-le-sum_first weight n j (put_at i idle pc) lt',
      ap weight elsewhere,
    )

Pc-writing : (p : Pc) → (p ≡ writing) ⊎ (p ≢ writing)
Pc-writing writing = inl refl
Pc-writing idle = inr (λ e. cc)
Pc-writing reading = inr (λ e. cc)
Pc-writing exited = inr (λ e. cc)

-- Of two threads in a state that the writers and readers reach, the first does not hold the lock
-- for writing or the second, be it a writer or a reader, does not hold it at all; and no call of
-- unlock of the first has failed.
pub writer-alone :
    {n : ℕ} {w : ℕ → Bool} {s : System} (i j : ℕ)
    → Reach n w s
    → i < n
    → j < n
    → i ≢ j
    → ((s.pc i ≢ writing) ⊎ (s.pc j ≡ idle)) × (s.pc i ≢ exited)
writer-alone {n} {s} i j r lt lt' ne = (
  elim (Pc-writing (s.pc i)) [
    | inl e ↦ inr (outside i j lt lt' ne e (s.pc j) refl)
    | inr other ↦ inl other
  ],
  (Reach-Inv r).alive i lt,
)
  where
    one_bit : (b : Bool) → bit b ≤ 1
    one_bit true = omega arith
    one_bit false = omega arith

    outside :
        (i j : ℕ) → i < n → j < n → i ≢ j → s.pc i ≡ writing → (p : Pc) → s.pc j ≡ p → s.pc j ≡ idle
    outside i j lt lt' ne e idle q = q
    outside i j lt lt' ne e writing q = absurd (
        omega (
          arith,
          (Reach-Inv r).writers,
          two_below writes n i j s.pc lt lt' ne refl,
          ap writes e,
          ap writes q,
          one_bit s.rw_lock.writing,
        ))
    outside i j lt lt' ne e reading q = absurd (
        ground (
          arith,
          (Reach-Inv r).writers,
          (Reach-Inv r).apart,
          (Reach-Inv r).readers,
          weight-le-sum_first writes n i s.pc lt,
          weight-le-sum_first reads n j s.pc lt',
          ap writes e,
          ap reads q,
        ))
    outside i j lt lt' ne e exited q = absurd ((Reach-Inv r).alive j lt' q)
