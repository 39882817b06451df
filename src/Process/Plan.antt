-- ===== src/Process/Plan.antt =====
-- A plan lists the calls of a program in their order, and says which of them must succeed.
use cpp_rt.Prelude.{
  ℕ, zero, suc, ◌+◌, ◌≡◌, refl, sym, ap, ◌∙◌, true, false, List, [], ◌∷◌, ◌++◌, pos, eqb_ℤ,
  Bool-cases, inl, inr, arith, none, some, Option-cases,
}
use cpp_rt.Process.{
  Prog, done, exit, call, ◌>>=◌, ◌>>◌, drop_answer, test_errno, for_range, Trace, System, Ending,
  returned, exited, blocked, run,
}

pub data Item (C : Type 0) : Type 0 where
  must : C → Item C
  may : C → Item C

-- How far a plan was followed: to its end, to a call that must succeed and does not, or to a call
-- that never returns.
pub data Verdict : Type 0 where
  complete failed stuck : Verdict

unfoldable pub follow : {C : Type 0} → System C → List (Item C) → Trace C → Verdict × Trace C
follow o [] h = (complete, h)
follow o (must c ∷ plan) h = elim (o h c) [
  | none ↦ (stuck, h)
  | some answer ↦ elim (eqb_ℤ answer (pos 0)) [
    | true ↦ follow o plan (h ++ (c, answer) ∷ [])
    | false ↦ (failed, h ++ (c, answer) ∷ [])
  ]
]
follow o (may c ∷ plan) h = elim (o h c) [
  | none ↦ (stuck, h)
  | some answer ↦ follow o plan (h ++ (c, answer) ∷ [])
]

unfoldable pub plan_range : {C : Type 0} → ℕ → ℕ → (ℕ → List (Item C)) → List (Item C)
plan_range zero i f = []
plan_range (suc rounds) i f = f i ++ plan_range rounds (i + 1) f

abbrev pub ends : {A : Type 0} → A → Verdict → Ending A
ends a complete = returned a
ends a failed = exited 1
ends a stuck = blocked

-- The program makes the calls of the plan and returns `a`; behind a call that must succeed and does
-- not, it exits with EXIT_FAILURE and makes no other call.
pub record Follows {C A : Type 0} (p : Prog C A) (plan : List (Item C)) (a : A) : Type 0 where
  pub follows :
      (o : System C) (h : Trace C) → run o p h ≡ (ends a (follow o plan h).0, (follow o plan h).1)

abbrev continue :
    {C A B : Type 0} → System C → Ending A × Trace C → (A → Prog C B) → Ending B × Trace C
continue o (returned a, h) f = run o (f a) h
continue o (exited status, h) f = (exited status, h)
continue o (blocked, h) f = (blocked, h)

run->>= :
    {C A B : Type 0} (o : System C) (p : Prog C A) (f : A → Prog C B) (h : Trace C)
    → run o (p >>= f) h ≡ continue o (run o p h) f
unfolding run
run->>= o (done a) f h = refl
run->>= o (exit status) f h = refl
run->>= o (call c k) f h = elim (Option-cases (o h c)) [
  | inl e ↦ rw (e, run) refl
  | inr (answer, e) ↦ rw (e, run) (run->>= o (k answer) f (h ++ (c, answer) ∷ []))
]

abbrev follow_on : {C : Type 0} → System C → Verdict × Trace C → List (Item C) → Verdict × Trace C
follow_on o (complete, h) plan = follow o plan h
follow_on o (failed, h) plan = (failed, h)
follow_on o (stuck, h) plan = (stuck, h)

follow-append :
    {C : Type 0} (o : System C) (p q : List (Item C)) (h : Trace C)
    → follow o (p ++ q) h ≡ follow_on o (follow o p h) q
unfolding follow
follow-append o [] q h = refl
follow-append o (must c ∷ p) q h = elim (Option-cases (o h c)) [
  | inl e ↦ rw (e, follow) refl
  | inr (answer, e) ↦
      rw (e, follow)
        (elim (Bool-cases (eqb_ℤ answer (pos 0))) [
          | inl z ↦ rw z (follow-append o p q (h ++ (c, answer) ∷ []))
          | inr z ↦ rw z refl
        ])
]
follow-append o (may c ∷ p) q h = elim (Option-cases (o h c)) [
  | inl e ↦ rw (e, follow) refl
  | inr (answer, e) ↦ rw (e, follow) (follow-append o p q (h ++ (c, answer) ∷ []))
]

pub must-Follows : {C : Type 0} (c : C) → Follows (test_errno c) (must c ∷ []) tt
unfolding run follow
must-Follows c = record { follows = λ o h. ground arith }

pub may-Follows : {C : Type 0} (c : C) → Follows (drop_answer c) (may c ∷ []) tt
unfolding run follow
may-Follows c = record { follows = λ o h. ground arith }

pub done-Follows : {C A : Type 0} (a : A) → Follows {C = C} (done a) [] a
unfolding run follow
done-Follows a = record { follows = λ o h. refl }

then_ends :
    {C A : Type 0} (o : System C) (q : Prog C A) (plan : List (Item C)) (a : A)
    → Follows q plan a
    → (r : Verdict × Trace C)
    → continue o (ends tt r.0, r.1) (λ _. q)
      ≡ (ends a (follow_on o r plan).0, (follow_on o r plan).1)
then_ends o q plan a f (complete, h) = f.follows o h
then_ends o q plan a f (failed, h) = refl
then_ends o q plan a f (stuck, h) = refl

infixr 4 ◌⨟◌
pub ◌⨟◌ :
    {C A : Type 0} {p : Prog C (Unit {0})} {q : Prog C A} {plan plan' : List (Item C)} {a : A}
    → Follows p plan tt
    → Follows q plan' a
    → Follows (p >> q) (plan ++ plan') a
◌⨟◌ {p} {q} {plan} {plan'} {a} f g = record {
  follows = λ o h.
      run->>= o p (λ _. q) h
      ∙ ap (λ r. continue o r (λ _. q)) (f.follows o h)
      ∙ then_ends o q plan' a g (follow o plan h)
      ∙ ap (λ r. (ends a r.0, r.1)) (sym (follow-append o plan plan' h));
}

pub for_range-Follows :
    {C : Type 0} (rounds i : ℕ) (body : ℕ → Prog C (Unit {0})) (f : ℕ → List (Item C))
    → ((j : ℕ) → Follows (body j) (f j) tt)
    → Follows (for_range rounds i body) (plan_range rounds i f) tt
unfolding plan_range
for_range-Follows zero i body f each = done-Follows tt
for_range-Follows (suc rounds) i body f each = each i ⨟ for_range-Follows rounds (i + 1) body f each
