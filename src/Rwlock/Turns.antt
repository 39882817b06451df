-- ===== src/Rwlock/Turns.antt =====
-- `main_example_02` of day2/07a_rwlock_tree/pthread_rwlock.cpp: who may move.
use cpp_rt.Prelude.{
  ℕ, zero, suc, ◌-◌, ◌<◌, ◌≤◌, ◌≡◌, ◌⊎◌, inl, inr, refl, sym, ap, ◌∙◌, Bool, true, false, some,
  arith, weight-le-sum_first, sum_first-ne_zero, dec_lt, Bool-cases,
}
use cpp_rt.Btree.Object.{Rwlock, wrlock, rdlock, unlock}
use cpp_rt.Rwlock.Shared.{
  WriterPc, inserting, inserted, ReaderPc, searching, searched, System, Step, insert_locks,
  insert_works, insert_unlocks, search_locks, search_works, search_unlocks,
}
use cpp_rt.Rwlock.Invariant.{
  bit, writes, pending, reads, inside, Inv, bit-true, insert-next, search-ltb,
}
use cpp_rt.Rwlock.Locks.{lock_of}

is_resting : (p : ReaderPc) → reads p ≡ 0 → p ≡ ReaderPc.resting
is_resting ReaderPc.resting z = refl
is_resting searching z = absurd (omega (arith, z))
is_resting (searched b) z = absurd (omega (arith, z))

is_outside : (p : WriterPc) → writes p ≡ 0 → p ≡ WriterPc.resting
is_outside WriterPc.resting z = refl
is_outside inserting z = absurd (omega (arith, z))
is_outside inserted z = absurd (omega (arith, z))

pub writer_or_readers :
    (s : System)
    → Inv s
    → (s.writer ≡ WriterPc.resting) ⊎ ((r : ℕ) → r < 2 → (s.reader r).pc ≡ ReaderPc.resting)
writer_or_readers s inv = elim (Bool-cases s.bt.rw_lock.writing) [
  | inl w ↦ inr λ r lt.
      is_resting (s.reader r).pc
        (omega (arith, weight-le-sum_first inside 2 r s.reader lt, inv.reading, inv.apart w))
  | inr w ↦ inl (is_outside s.writer (sym inv.writing ∙ ap bit w))
]

unlock-writing : (w : Bool) (r : ℕ) → w ≡ true → (l : Rwlock) × (unlock (lock_of w r) ≡ some l)
unlock-writing true r e = (_, refl)
unlock-writing false r e = absurd cc

unlock-reading :
    (w : Bool) (r : ℕ) → w ≡ false → 0 < r → (l : Rwlock) × (unlock (lock_of w r) ≡ some l)
unlock-reading true r e lt = absurd cc
unlock-reading false r e lt = (lock_of false (r - 1), ground (arith, lt))

wrlock-free :
    (w : Bool) (r : ℕ) → w ≡ false → r ≡ 0 → (l : Rwlock) × (wrlock (lock_of w r) ≡ some l)
wrlock-free true r e z = absurd cc
wrlock-free false r e z = (lock_of true r, ground (arith, z))

rdlock-free : (w : Bool) (r : ℕ) → w ≡ false → (l : Rwlock) × (rdlock (lock_of w r) ≡ some l)
rdlock-free true r e = absurd cc
rdlock-free false r e = (_, refl)

-- All calls have been made: the writer has inserted its keys, and each reader has gone its rounds.
pub record IsDone (s : System) : Type 0 where
  pub wrote : 20 ≤ s.next
  pub read : (r : ℕ) → r < 2 → 10 ≤ (s.reader r).i

abbrev CanMove : System → Type 0
CanMove s = (t : System) × Step s t

module _ (s : System) (inv : Inv s) where
  writer_moves : (p : WriterPc) → s.writer ≡ p → writes p ≡ 1 → CanMove s
  writer_moves WriterPc.resting e one = absurd (omega (arith, one))
  writer_moves inserting e one =
      let (t, run, v, lock) = insert-next s inv (omega (arith, inv.within, ap pending e)) in
      (_, insert_works t e run)
  writer_moves inserted e one =
      let w = bit-true s.bt.rw_lock.writing (inv.writing ∙ ap writes e) in
      let (l, run) = unlock-writing s.bt.rw_lock.writing s.bt.rw_lock.readers w in
      (_, insert_unlocks l e run)

  reader_moves :
      (r : ℕ) (p : ReaderPc)
      → r < 2
      → s.bt.rw_lock.writing ≡ false
      → (s.reader r).pc ≡ p
      → 0 < reads p
      → CanMove s
  reader_moves r ReaderPc.resting lt w e one = absurd (omega (arith, one))
  reader_moves r searching lt w e one =
      (_, search_works r _ s.bt lt e (search-ltb s inv (s.reader r).idx))
  reader_moves r (searched b) lt w e one =
      let (l, run) =
        unlock-reading s.bt.rw_lock.writing s.bt.rw_lock.readers w
          (omega (arith, weight-le-sum_first inside 2 r s.reader lt, inv.reading, ap reads e)) in
      (_, search_unlocks r b l lt e run)

  module _ (w : s.bt.rw_lock.writing ≡ false) (z : s.bt.rw_lock.readers ≡ 0) where
    reader_begins : (r : ℕ) → r < 2 → (10 ≤ (s.reader r).i) ⊎ CanMove s
    reader_begins r lt = elim (dec_lt (s.reader r).i 10) [
      | no done ↦ inl (omega (arith, done))
      | yes more ↦
          let (l, run) = rdlock-free s.bt.rw_lock.writing s.bt.rw_lock.readers w in
          let out =
            is_resting (s.reader r).pc
              (omega (arith, weight-le-sum_first inside 2 r s.reader lt, inv.reading, z)) in
          inr (_, search_locks r l lt out more run)
    ]

    both_done : 10 ≤ (s.reader 0).i → 10 ≤ (s.reader 1).i → (r : ℕ) → r < 2 → 10 ≤ (s.reader r).i
    both_done first second zero lt = first
    both_done first second (suc zero) lt = second
    both_done first second (suc (suc r)) lt = absurd (omega (arith, lt))

    readers_begin : 20 ≤ s.next → IsDone s ⊎ CanMove s
    readers_begin wrote = elim (reader_begins 0 (omega arith)) [
      | inr move ↦ inr move
      | inl first ↦ elim (reader_begins 1 (omega arith)) [
        | inr move ↦ inr move
        | inl second ↦ inl (record { wrote = wrote; read = both_done first second })
      ]
    ]

    one_begins : IsDone s ⊎ CanMove s
    one_begins = elim (dec_lt s.next 20) [
      | no full ↦ readers_begin (omega (arith, full))
      | yes lt ↦
          let (l, run) = wrlock-free s.bt.rw_lock.writing s.bt.rw_lock.readers w z in
          let out = is_outside s.writer (sym inv.writing ∙ ap bit w) in
          inr (_, insert_locks l out lt run)
    ]

  pub moves_or_IsDone : IsDone s ⊎ CanMove s
  moves_or_IsDone = elim (Bool-cases s.bt.rw_lock.writing) [
    | inl w ↦ inr (writer_moves s.writer refl (sym inv.writing ∙ ap bit w))
    | inr w ↦ elim (dec_lt 0 s.bt.rw_lock.readers) [
      | yes some_read ↦
          let (r, lt, one) =
            sum_first-ne_zero inside 2 s.reader (omega (arith, some_read, inv.reading)) in
          inr (reader_moves r (s.reader r).pc lt w refl one)
      | no none_read ↦ one_begins w (omega (arith, none_read))
    ]
  ]
