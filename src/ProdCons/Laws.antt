-- ===== src/ProdCons/Laws.antt =====
-- day1/08_prod_cons/main.cpp: the order of the messages, and the signals.
use cpp_rt.Prelude.{◌≡◌, inl, inr, refl, sym, ap, ◌∙◌, true, [], ◌∷◌, ◌++◌, append_assoc}
use cpp_rt.ProdCons.{
  ProducerPc, signalling, pushing, System, Step, producer_lock, push, producer_unlock, signal,
  consumer_lock, test_empty, test_full, wait, wake_spuriously, return_from_wait, front, pop,
  consumer_unlock, Reach, here, later,
}
use cpp_rt.ProdCons.Invariant.{
  first, first-add, producing, consuming, Found, IsAwaited, Inv, outside-Found, coming-IsAwaited,
  woken-IsAwaited, early-IsAwaited, woken-consuming, woken-Found, apart, consumer_found,
}

Step-Inv : (s t : System) → Inv s → Step s t → Inv t
Step-Inv s t inv (producer_lock e free) = record {
  order = inv.order;
  producing_holds = λ h. refl;
  consuming_holds = λ h. absurd (let b = inv.consuming_holds h in cc);
  found = inv.found;
  awaited = early-IsAwaited s.producer_pc pushing s.consumer_pc s.q (λ f. cc) (λ f. cc) inv.awaited;
}
Step-Inv s t inv (push e) =
    let inside : producing s.producer_pc ≡ true = ap producing e in
    record {
      order =
          sym (append_assoc s.received s.q (s.i ∷ []))
          ∙ ap (λ xs. xs ++ s.i ∷ []) inv.order
          ∙ sym (first-add s.i);
      producing_holds = λ h. inv.producing_holds inside;
      consuming_holds = inv.consuming_holds;
      found = outside-Found s.consumer_pc (s.q ++ s.i ∷ []) (apart s inv inside);
      awaited = coming-IsAwaited ProducerPc.unlocking s.consumer_pc (s.q ++ s.i ∷ []) (inl refl);
    }
Step-Inv s t inv (producer_unlock e) =
    let inside : producing s.producer_pc ≡ true = ap producing e in
    record {
      order = inv.order;
      producing_holds = λ h. absurd cc;
      consuming_holds =
          λ h. absurd (let a = inv.producing_holds inside in let b = inv.consuming_holds h in cc);
      found = inv.found;
      awaited = coming-IsAwaited signalling s.consumer_pc s.q (inr refl);
    }
Step-Inv s t inv (signal e) = record {
  order = inv.order;
  producing_holds = λ h. absurd cc;
  consuming_holds = λ h. inv.consuming_holds (sym (woken-consuming s.consumer_pc) ∙ h);
  found = woken-Found s.consumer_pc s.q inv.found;
  awaited = woken-IsAwaited ProducerPc.locking s.consumer_pc s.q;
}
Step-Inv s t inv (consumer_lock e free) = record {
  order = inv.order;
  producing_holds = λ h. absurd (let a = inv.producing_holds h in cc);
  consuming_holds = λ h. refl;
  found = tt;
  awaited = tt;
}
Step-Inv s t inv (test_empty e empty) = record {
  order = inv.order;
  producing_holds = inv.producing_holds;
  consuming_holds = λ h. inv.consuming_holds (ap consuming e);
  found = empty;
  awaited = tt;
}
Step-Inv s t inv (test_full e full) = record {
  order = inv.order;
  producing_holds = inv.producing_holds;
  consuming_holds = λ h. inv.consuming_holds (ap consuming e);
  found = full;
  awaited = tt;
}
Step-Inv s t inv (wait e) = record {
  order = inv.order;
  producing_holds = λ h.
      absurd (let a = inv.producing_holds h in let b = inv.consuming_holds (ap consuming e) in cc);
  consuming_holds = λ h. absurd cc;
  found = tt;
  awaited = inl (consumer_found s inv e);
}
Step-Inv s t inv (wake_spuriously e) = record {
  order = inv.order;
  producing_holds = inv.producing_holds;
  consuming_holds = λ h. absurd cc;
  found = tt;
  awaited = tt;
}
Step-Inv s t inv (return_from_wait e free) = record {
  order = inv.order;
  producing_holds = λ h. absurd (let a = inv.producing_holds h in cc);
  consuming_holds = λ h. refl;
  found = tt;
  awaited = tt;
}
Step-Inv s t inv (front m rest e q) = record {
  order = inv.order;
  producing_holds = inv.producing_holds;
  consuming_holds = λ h. inv.consuming_holds (ap consuming e);
  found = (rest, q);
  awaited = tt;
}
Step-Inv s t inv (pop m m' rest e q) =
    let f = consumer_found s inv e in
    record {
      order =
          append_assoc s.received (m ∷ []) rest
          ∙ ap (λ xs. s.received ++ xs) (let g = f.1 in let same : m ∷ rest ≡ s.q = cc in same)
          ∙ inv.order;
      producing_holds = inv.producing_holds;
      consuming_holds = λ h. inv.consuming_holds (ap consuming e);
      found = tt;
      awaited = tt;
    }
Step-Inv s t inv (consumer_unlock e) = record {
  order = inv.order;
  producing_holds = λ h.
      absurd (let a = inv.producing_holds h in let b = inv.consuming_holds (ap consuming e) in cc);
  consuming_holds = λ h. absurd cc;
  found = tt;
  awaited = tt;
}

Reach-Inv : {s : System} → Reach s → Inv s
unfolding first
Reach-Inv here = record {
  order = refl;
  producing_holds = λ h. absurd cc;
  consuming_holds = λ h. absurd cc;
  found = tt;
  awaited = tt;
}
Reach-Inv (later r step) = Step-Inv _ _ (Reach-Inv r) step

-- In every state that the two threads reach: what the consumer has printed and what is still
-- queued are together 0, 1, …, as far as the producer has counted, in this order and each once; a
-- consumer that is about to take a message finds one, and prints the one that it pops; and while
-- it is asleep, the queue is empty or the producer has its signal still to send, so that no
-- wake-up is lost.
pub messages-in_order :
    {s : System}
    → Reach s
    → (s.received ++ s.q ≡ first s.i)
      × Found s.consumer_pc s.q
      × IsAwaited s.producer_pc s.consumer_pc s.q
messages-in_order r = let inv = Reach-Inv r in (inv.order, inv.found, inv.awaited)
