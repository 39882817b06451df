-- ===== src/ProdCons.antt =====
-- day1/08_prod_cons/main.cpp: a producer and a consumer of one queue, with a mutex and a condition
-- variable. A step is a call of the thread library or an access to the queue, and a thread may
-- sleep as long as it likes. The producer's `i` counts without a bound (an `int` lasts for 2 ^ 31
-- rounds of a second each).
mod Invariant
mod Laws
mod Tests
use cpp_rt.Prelude.{ℕ, ◌+◌, ◌≡◌, ◌≢◌, Option, none, some, List, [], ◌∷◌, ◌++◌}

pub data Thread : Type 0 where
  producer consumer : Thread

-- Where the loop of `th_producent` stands: before the call of lock, in the section before `push`
-- and before unlock, and before the call of signal.
pub data ProducerPc : Type 0 where
  locking pushing unlocking signalling : ProducerPc

-- Where the loop of `th_consumer` stands: before the call of lock, before the test of the size,
-- before the call of wait, asleep in it, woken in it but without the mutex, before `front`, before
-- `pop` with the message, and before unlock.
pub data ConsumerPc : Type 0 where
  locking testing starving waiting waking taking : ConsumerPc
  popping : ℕ → ConsumerPc
  unlocking : ConsumerPc

-- `received` has the messages that the consumer has printed, the newest last.
pub record System : Type 0 where
  pub q : List ℕ
  pub holder : Option Thread
  pub i : ℕ
  pub producer_pc : ProducerPc
  pub consumer_pc : ConsumerPc
  pub received : List ℕ

-- `pthread_cond_signal`
abbrev pub woken : ConsumerPc → ConsumerPc
woken waiting = waking
woken p = p

pub data Step (s : System) : System → Type 0 where
  producer_lock :
      s.producer_pc ≡ locking
      → s.holder ≡ none
      → Step s (record s { holder = some producer; producer_pc = pushing })
  push :
      s.producer_pc ≡ pushing
      → Step s (record s { q = s.q ++ s.i ∷ []; i = s.i + 1; producer_pc = unlocking })
  producer_unlock :
      s.producer_pc ≡ unlocking → Step s (record s { holder = none; producer_pc = signalling })
  signal :
      s.producer_pc ≡ signalling
      → Step s (record s { producer_pc = locking; consumer_pc = woken s.consumer_pc })
  consumer_lock :
      s.consumer_pc ≡ locking
      → s.holder ≡ none
      → Step s (record s { holder = some consumer; consumer_pc = testing })
  test_empty : s.consumer_pc ≡ testing → s.q ≡ [] → Step s (record s { consumer_pc = starving })
  test_full : s.consumer_pc ≡ testing → s.q ≢ [] → Step s (record s { consumer_pc = taking })
  wait : s.consumer_pc ≡ starving → Step s (record s { holder = none; consumer_pc = waiting })
  wake_spuriously : s.consumer_pc ≡ waiting → Step s (record s { consumer_pc = waking })
  return_from_wait :
      s.consumer_pc ≡ waking
      → s.holder ≡ none
      → Step s (record s { holder = some consumer; consumer_pc = testing })
  front :
      (m : ℕ) (rest : List ℕ)
      → s.consumer_pc ≡ taking
      → s.q ≡ m ∷ rest
      → Step s (record s { consumer_pc = popping m })
  pop :
      (m m' : ℕ) (rest : List ℕ)
      → s.consumer_pc ≡ popping m
      → s.q ≡ m' ∷ rest
      → Step s (record s { q = rest; consumer_pc = unlocking; received = s.received ++ m ∷ [] })
  consumer_unlock :
      s.consumer_pc ≡ unlocking → Step s (record s { holder = none; consumer_pc = locking })

abbrev pub start : System
start = record {
  q = [];
  holder = none;
  i = 0;
  producer_pc = locking;
  consumer_pc = locking;
  received = [];
}

pub data Reach : System → Type 0 where
  here : Reach start
  later : {s t : System} → Reach s → Step s t → Reach t
