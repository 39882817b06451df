-- ===== src/ProdCons/Invariant.antt =====
-- day1/08_prod_cons/main.cpp: the invariant of the two threads.
use cpp_rt.Prelude.{
  ℕ, zero, suc, ◌+◌, ◌≡◌, ◌≢◌, ◌⊎◌, inl, inr, refl, ap, Bool, true, false, Bool-cases, some, List,
  [], ◌∷◌, ◌++◌, arith,
}
use mathlib.Core.Path.{subst}
use cpp_rt.ProdCons.{
  producer, consumer, ProducerPc, signalling, pushing, ConsumerPc, testing, starving, waiting,
  waking, taking, popping, System, woken,
}

-- 0, 1, …, n - 1
unfoldable pub first : ℕ → List ℕ
first zero = []
first (suc n) = first n ++ n ∷ []

pub first-add : (n : ℕ) → first (n + 1) ≡ first n ++ n ∷ []
unfolding first
first-add n = let same : n + 1 ≡ suc n = omega arith in ap first same

-- Whether a thread is in its section.
abbrev pub producing : ProducerPc → Bool
producing pushing = true
producing ProducerPc.unlocking = true
producing p = false

abbrev pub consuming : ConsumerPc → Bool
consuming ConsumerPc.locking = false
consuming waiting = false
consuming waking = false
consuming p = true

-- What the consumer has found out about the queue and still holds.
abbrev pub Found : ConsumerPc → List ℕ → Type 0
Found starving q = q ≡ []
Found taking q = q ≢ []
Found (popping m) q = (rest : List ℕ) × (q ≡ m ∷ rest)
Found p q = Unit

-- A consumer that is asleep has nothing to take, or the signal is still to come.
abbrev pub IsAwaited : ProducerPc → ConsumerPc → List ℕ → Type 0
IsAwaited p waiting q = (q ≡ []) ⊎ ((p ≡ ProducerPc.unlocking) ⊎ (p ≡ signalling))
IsAwaited p c q = Unit

pub record Inv (s : System) : Type 0 where
  pub order : s.received ++ s.q ≡ first s.i
  pub producing_holds : producing s.producer_pc ≡ true → s.holder ≡ some producer
  pub consuming_holds : consuming s.consumer_pc ≡ true → s.holder ≡ some consumer
  pub found : Found s.consumer_pc s.q
  pub awaited : IsAwaited s.producer_pc s.consumer_pc s.q

pub outside-Found : (c : ConsumerPc) (q : List ℕ) → consuming c ≡ false → Found c q
outside-Found ConsumerPc.locking q e = tt
outside-Found testing q e = tt
outside-Found starving q e = absurd cc
outside-Found waiting q e = tt
outside-Found waking q e = tt
outside-Found taking q e = absurd cc
outside-Found (popping m) q e = absurd cc
outside-Found ConsumerPc.unlocking q e = tt

-- A producer that is about to signal.
pub coming-IsAwaited :
    (p : ProducerPc) (c : ConsumerPc) (q : List ℕ)
    → (p ≡ ProducerPc.unlocking) ⊎ (p ≡ signalling)
    → IsAwaited p c q
coming-IsAwaited p waiting q h = inr h
coming-IsAwaited p ConsumerPc.locking q h = tt
coming-IsAwaited p testing q h = tt
coming-IsAwaited p starving q h = tt
coming-IsAwaited p waking q h = tt
coming-IsAwaited p taking q h = tt
coming-IsAwaited p (popping m) q h = tt
coming-IsAwaited p ConsumerPc.unlocking q h = tt

pub woken-IsAwaited : (p : ProducerPc) (c : ConsumerPc) (q : List ℕ) → IsAwaited p (woken c) q
woken-IsAwaited p waiting q = tt
woken-IsAwaited p ConsumerPc.locking q = tt
woken-IsAwaited p testing q = tt
woken-IsAwaited p starving q = tt
woken-IsAwaited p waking q = tt
woken-IsAwaited p taking q = tt
woken-IsAwaited p (popping m) q = tt
woken-IsAwaited p ConsumerPc.unlocking q = tt

-- Before the signal is to come, the queue of a consumer that is asleep is empty.
pub early-IsAwaited :
    (p p' : ProducerPc) (c : ConsumerPc) (q : List ℕ)
    → p ≢ ProducerPc.unlocking
    → p ≢ signalling
    → IsAwaited p c q
    → IsAwaited p' c q
early-IsAwaited p p' waiting q n n' (inl e) = inl e
early-IsAwaited p p' waiting q n n' (inr (inl e)) = absurd (n e)
early-IsAwaited p p' waiting q n n' (inr (inr e)) = absurd (n' e)
early-IsAwaited p p' ConsumerPc.locking q n n' h = tt
early-IsAwaited p p' testing q n n' h = tt
early-IsAwaited p p' starving q n n' h = tt
early-IsAwaited p p' waking q n n' h = tt
early-IsAwaited p p' taking q n n' h = tt
early-IsAwaited p p' (popping m) q n n' h = tt
early-IsAwaited p p' ConsumerPc.unlocking q n n' h = tt

pub woken-consuming : (c : ConsumerPc) → consuming (woken c) ≡ consuming c
woken-consuming waiting = refl
woken-consuming ConsumerPc.locking = refl
woken-consuming testing = refl
woken-consuming starving = refl
woken-consuming waking = refl
woken-consuming taking = refl
woken-consuming (popping m) = refl
woken-consuming ConsumerPc.unlocking = refl

pub woken-Found : (c : ConsumerPc) (q : List ℕ) → Found c q → Found (woken c) q
woken-Found waiting q h = tt
woken-Found ConsumerPc.locking q h = h
woken-Found testing q h = h
woken-Found starving q h = h
woken-Found waking q h = h
woken-Found taking q h = h
woken-Found (popping m) q h = h
woken-Found ConsumerPc.unlocking q h = h

module _ (s : System) (inv : Inv s) where
  -- While one thread is in its section, the other is not.
  pub apart : (producing s.producer_pc ≡ true) → consuming s.consumer_pc ≡ false
  apart h = elim (Bool-cases (consuming s.consumer_pc)) [
    | inl e ↦ absurd (let a = inv.producing_holds h in let b = inv.consuming_holds e in cc)
    | inr e ↦ e
  ]

  pub consumer_found : {c : ConsumerPc} → s.consumer_pc ≡ c → Found c s.q
  consumer_found e = subst (λ c. Found c s.q) e inv.found
