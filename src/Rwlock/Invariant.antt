-- ===== src/Rwlock/Invariant.antt =====
-- `main_example_02` of day2/07a_rwlock_tree/pthread_rwlock.cpp: the lock and the tree in every
-- state.
use mathlib.Core.Path.{subst}
use cpp_rt.Prelude.{
  ℕ, suc, ◌+◌, ◌<◌, ◌≤◌, ◌≡◌, refl, sym, ap, ◌∙◌, Bool, true, false, some, List, ◌∷◌, pos, ltb,
  arith, same_some, sum_first, sum_first-put_at, weight-le-sum_first, put_at, ℕ_discrete,
}
use cpp_rt.Btree.Heap.{Heap}
use cpp_rt.Btree.Object.{Btree, insert_within, search_within}
use cpp_rt.Btree.Laws.{IsValid, create-IsValid}
use cpp_rt.Btree.Within.{unlocked, insert_within-IsValid, search_within-count}
use cpp_rt.Rwlock.Shared.{
  WriterPc, inserting, inserted, ReaderPc, searching, searched, Reader, System, advance, report,
  fuel, Step, insert_locks, insert_works, insert_unlocks, search_locks, search_works,
  search_unlocks, Reach, here, later,
}
use cpp_rt.Rwlock.Locks.{
  keys, AllBelow, length-keys, count_key-keys, AllBelow-more, wrlock-Locked, rdlock-Locked,
  unlock-written, unlock-read,
}

abbrev pub bit : Bool → ℕ
bit true = 1
bit false = 0

abbrev pub writes : WriterPc → ℕ
writes WriterPc.resting = 0
writes inserting = 1
writes inserted = 1

-- A key that the writer has the lock for and has not inserted.
abbrev pub pending : WriterPc → ℕ
pending WriterPc.resting = 0
pending inserting = 1
pending inserted = 0

abbrev pub reads : ReaderPc → ℕ
reads ReaderPc.resting = 0
reads searching = 1
reads (searched b) = 1

abbrev pub inside : Reader → ℕ
inside p = reads p.pc

-- A reader that has found its key has found one that was inserted.
abbrev pub IsSound : ReaderPc → ℕ → ℕ → Type 0
IsSound (searched true) idx n = idx < n
IsSound p idx n = Unit {0}

pub record Inv (s : System) : Type 0 where
  pub valid : IsValid (keys s.next) (unlocked s.bt)
  pub within : s.next + pending s.writer ≤ 20
  pub writing : bit s.bt.rw_lock.writing ≡ writes s.writer
  pub reading : s.bt.rw_lock.readers ≡ sum_first inside 2 s.reader
  pub apart : s.bt.rw_lock.writing ≡ true → s.bt.rw_lock.readers ≡ 0
  pub sound : AllBelow s.next s.found
  pub answers : (r : ℕ) → r < 2 → IsSound (s.reader r).pc (s.reader r).idx s.next

keys-add : (n : ℕ) (t : Btree) → IsValid (pos n ∷ keys n) t → IsValid (keys (n + 1)) t
keys-add n t v = let e : suc n ≡ n + 1 = omega arith in subst (λ k. IsValid (keys k) t) e v

IsSound-more : (p : ReaderPc) (idx n : ℕ) → IsSound p idx n → IsSound p idx (n + 1)
IsSound-more ReaderPc.resting idx n h = tt
IsSound-more searching idx n h = tt
IsSound-more (searched true) idx n h = omega (arith, h)
IsSound-more (searched false) idx n h = tt

IsSound-put_at :
    (r : ℕ) (p : Reader) (reader : ℕ → Reader) (n : ℕ)
    → IsSound p.pc p.idx n
    → ((i : ℕ) → i < 2 → IsSound (reader i).pc (reader i).idx n)
    → (i : ℕ) → i < 2
    → IsSound (put_at r p reader i).pc (put_at r p reader i).idx n
IsSound-put_at r p reader n h all i lt = elim (ℕ_discrete r i) [
  | yes same ↦
      let e : p ≡ put_at r p reader i = ground (arith, same) in
      subst (λ (q : Reader). IsSound q.pc q.idx n) e h
  | no ne ↦
      let e : reader i ≡ put_at r p reader i = ground (arith, ne) in
      subst (λ (q : Reader). IsSound q.pc q.idx n) e (all i lt)
]

advance-resting : (p : Reader) → (advance p).pc ≡ ReaderPc.resting
advance-resting p = ground arith

report-AllBelow :
    (b : Bool) (q n : ℕ) (found : List ℕ)
    → IsSound (searched b) q n
    → AllBelow n found
    → AllBelow n (report b q found)
report-AllBelow true q n found h a = (h, a)
report-AllBelow false q n found h a = a

searched-IsSound : (b : Bool) (q n : ℕ) → b ≡ ltb q n → IsSound (searched b) q n
searched-IsSound true q n e = ground (arith, e)
searched-IsSound false q n e = tt

pub bit-true : (b : Bool) → bit b ≡ 1 → b ≡ true
bit-true true h = refl
bit-true false h = absurd (omega (arith, h))

pub insert-next :
    (s : System)
    → Inv s
    → s.next < 20
    → (t : Btree) × (insert_within fuel (pos s.next) s.bt ≡ some t)
      × IsValid (keys (s.next + 1)) (unlocked t)
      × (t.rw_lock ≡ s.bt.rw_lock)
insert-next s inv lt =
    let (t, run, v, lock) =
      insert_within-IsValid fuel (pos s.next) s.bt inv.valid
        (omega (arith, length-keys s.next, lt)) in
    (t, run, keys-add s.next (unlocked t) v, lock)

-- The answer of a search, whenever it is made.
pub search-ltb :
    (s : System) → Inv s → (q : ℕ) → search_within fuel (pos q) s.bt ≡ some (ltb q s.next, s.bt)
search-ltb s inv q =
    let (b, run, iff) =
      search_within-count fuel (pos q) s.bt inv.valid
        (omega (arith, length-keys s.next, inv.within)) in
    let same : b ≡ ltb q s.next = ground (arith, iff, count_key-keys q s.next) in
    run ∙ ap (λ c. some (c, s.bt)) same

-- A reader's new place, with the lock that goes with it.
module _ (s : System) (inv : Inv s) (r : ℕ) (lt : r < 2) (p : Reader) where
  reads-put_at :
      sum_first inside 2 (put_at r p s.reader) + reads (s.reader r).pc
      ≡ s.bt.rw_lock.readers + reads p.pc
  reads-put_at = omega (arith, sum_first-put_at inside 2 r p s.reader lt, inv.reading)

Step-Inv : (s t : System) → Inv s → Step s t → Inv t
Step-Inv s _ inv (insert_locks l e lt run) =
    let (w, r, same) = wrlock-Locked s.bt.rw_lock.writing s.bt.rw_lock.readers l run in
    record {
      valid = inv.valid;
      within = omega (arith, lt);
      writing = ap (λ k. bit k.writing) (sym same);
      reading = ap (λ k. k.readers) (sym same) ∙ sym r ∙ inv.reading;
      apart = λ q. ap (λ k. k.readers) (sym same);
      sound = inv.sound;
      answers = inv.answers;
    }
Step-Inv s _ inv (insert_works t e run) =
    let (t', run', v, lock) = insert-next s inv (omega (arith, inv.within, ap pending e)) in
    let same : t' ≡ t = same_some (sym run' ∙ run) in
    let kept : t.rw_lock ≡ s.bt.rw_lock = ap (λ u. u.rw_lock) (sym same) ∙ lock in
    record {
      valid = subst (λ u. IsValid (keys (s.next + 1)) (unlocked u)) same v;
      within = omega (arith, inv.within, ap pending e);
      writing = ap (λ k. bit k.writing) kept ∙ inv.writing ∙ ap writes e;
      reading = ap (λ k. k.readers) kept ∙ inv.reading;
      apart = λ q. ap (λ k. k.readers) kept ∙ inv.apart (sym (ap (λ k. k.writing) kept) ∙ q);
      sound = AllBelow-more s.next s.found inv.sound;
      answers = λ r lt. IsSound-more (s.reader r).pc (s.reader r).idx s.next (inv.answers r lt);
    }
Step-Inv s _ inv (insert_unlocks l e run) =
    let w = bit-true s.bt.rw_lock.writing (inv.writing ∙ ap writes e) in
    let same = unlock-written s.bt.rw_lock.writing s.bt.rw_lock.readers l w run in
    record {
      valid = inv.valid;
      within = omega (arith, inv.within, ap pending e);
      writing = ap (λ k. bit k.writing) (sym same);
      reading = ap (λ k. k.readers) (sym same) ∙ inv.reading;
      apart = λ q. absurd (let f = ap (λ k. k.writing) same in cc);
      sound = inv.sound;
      answers = inv.answers;
    }
Step-Inv s _ inv (search_locks r l lt e more run) =
    let (w, same) = rdlock-Locked s.bt.rw_lock.writing s.bt.rw_lock.readers l run in
    let p : Reader = record (s.reader r) { pc = searching } in
    record {
      valid = inv.valid;
      within = inv.within;
      writing = ap (λ k. bit k.writing) (sym same) ∙ sym (ap bit w) ∙ inv.writing;
      reading = omega (arith, reads-put_at s inv r lt p, ap reads e, ap (λ k. k.readers) same);
      apart = λ q. absurd (let f = ap (λ k. k.writing) same in cc);
      sound = inv.sound;
      answers = IsSound-put_at r p s.reader s.next tt inv.answers;
    }
Step-Inv s _ inv (search_works r b t lt e run) =
    let same = same_some (sym (search-ltb s inv (s.reader r).idx) ∙ run) in
    let tree : s.bt ≡ t = ap (λ x. x.1) same in
    let answer : b ≡ ltb (s.reader r).idx s.next = sym (ap (λ x. x.0) same) in
    let p : Reader = record (s.reader r) { pc = searched b } in
    record {
      valid = subst (λ u. IsValid (keys s.next) (unlocked u)) tree inv.valid;
      within = inv.within;
      writing = ap (λ u. bit u.rw_lock.writing) (sym tree) ∙ inv.writing;
      reading =
          omega (arith, reads-put_at s inv r lt p, ap reads e, ap (λ u. u.rw_lock.readers) tree);
      apart = subst (λ u. (u.rw_lock.writing ≡ true) → u.rw_lock.readers ≡ 0) tree inv.apart;
      sound = inv.sound;
      answers =
          IsSound-put_at r p s.reader s.next (searched-IsSound b (s.reader r).idx s.next answer)
            inv.answers;
    }
Step-Inv s _ inv (search_unlocks r b l lt e run) =
    let one = weight-le-sum_first inside 2 r s.reader lt in
    let (w, same) =
      unlock-read s.bt.rw_lock.writing s.bt.rw_lock.readers l inv.apart
        (omega (arith, one, inv.reading, ap reads e)) run in
    let p = advance (s.reader r) in
    let out = advance-resting (s.reader r) in
    record {
      valid = inv.valid;
      within = inv.within;
      writing = ap (λ k. bit k.writing) (sym same) ∙ sym (ap bit w) ∙ inv.writing;
      reading = omega (
        arith,
        reads-put_at s inv r lt p,
        ap reads e,
        ap reads out,
        ap (λ k. k.readers) same,
        one,
        inv.reading,
      );
      apart = λ q. absurd (let f = ap (λ k. k.writing) same in cc);
      sound =
          report-AllBelow b (s.reader r).idx s.next s.found
            (subst (λ k. IsSound k (s.reader r).idx s.next) e (inv.answers r lt)) inv.sound;
      answers =
          IsSound-put_at r p s.reader s.next (subst (λ k. IsSound k p.idx s.next) (sym out) tt)
            inv.answers;
    }

pub Reach-Inv : {h : Heap} {s : System} → 0 < h.next → Reach h s → Inv s
unfolding sum_first
Reach-Inv {h} pos_next here = record {
  valid = create-IsValid h pos_next;
  within = omega arith;
  writing = refl;
  reading = refl;
  apart = λ q. absurd cc;
  sound = tt;
  answers = λ r lt. tt;
}
Reach-Inv pos_next (later {s} {t} r st) = Step-Inv s t (Reach-Inv pos_next r) st
