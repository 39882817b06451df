-- ===== src/Future/Laws.antt =====
-- day2/x_pthreads_future: the results of `main`, and its destructors.
use cpp_rt.Prelude.{ℕ, ◌≡◌, ◌≢◌, ◌⊎◌, inl, inr, refl, ap, ◌∙◌, some, List, [], ◌∷◌, ◌++◌, arith}
use mathlib.Core.Path.{subst}
use cpp_rt.Future.{
  running, ended, joined, Future, answers, undefined, join, call_task, get, destroy, answer, lambda,
  Pc, getting_res, getting_res2, destroying_res2, destroying_res, returned, System, Step,
  run_answer, run_lambda, get_res, get_res2, destroy_res2, destroy_res, Reach, here, later,
}

-- A future whose task returns `value`, before `get` and behind it.
data Fresh (value : ℕ) (f : Future) : Type 0 where
  unrun : f.id ≡ running → Fresh value f
  run : f.id ≡ ended → f.result ≡ some value → Fresh value f

-- What holds where `main` stands, of `res`, `res2` and what it has printed.
abbrev At : Pc → Future → Future → List ℕ → Type 0
At getting_res f g l = Fresh answer f × Fresh lambda g × (l ≡ [])
At getting_res2 f g l = (f.id ≡ joined) × Fresh lambda g × (l ≡ answer ∷ [])
At destroying_res2 f g l = (f.id ≡ joined) × (g.id ≡ joined) × (l ≡ answer ∷ lambda ∷ [])
At destroying_res f g l = ⊥
At returned f g l = ⊥

not_running : (f : Future) → f.id ≡ running → f.id ≢ joined
not_running f e h = cc

answer-At :
    (p : Pc) (f g : Future) (l : List ℕ)
    → f.id ≡ running
    → At p f g l
    → At p (call_task answer f) g l
unfolding call_task
answer-At getting_res f g l e (a, b, c) = (run refl refl, b, c)
answer-At getting_res2 f g l e (a, b, c) = absurd (not_running f e a)
answer-At destroying_res2 f g l e (a, b, c) = absurd (not_running f e a)
answer-At destroying_res f g l e h = absurd h
answer-At returned f g l e h = absurd h

lambda-At :
    (p : Pc) (f g : Future) (l : List ℕ)
    → g.id ≡ running
    → At p f g l
    → At p f (call_task lambda g) l
unfolding call_task
lambda-At getting_res f g l e (a, b, c) = (a, run refl refl, c)
lambda-At getting_res2 f g l e (a, b, c) = (a, run refl refl, c)
lambda-At destroying_res2 f g l e (a, b, c) = absurd (not_running g e b)
lambda-At destroying_res f g l e h = absurd h
lambda-At returned f g l e h = absurd h

get-Fresh :
    (value v : ℕ) (f g : Future)
    → Fresh value f
    → get f ≡ answers (v, g)
    → (v ≡ value) × (g.id ≡ joined)
unfolding get join
get-Fresh value v f g (unrun e) r = absurd (ground (arith, e, r))
get-Fresh value v f g (run e w) r = ground (arith, e, w, r)

destroy-joined : (f : Future) → f.id ≡ joined → destroy f ≡ undefined
unfolding destroy join
destroy-joined f e = rw e refl

at : (s : System) {p : Pc} → s.pc ≡ p → At s.pc s.res s.res2 s.printed → At p s.res s.res2 s.printed
at s {p} e h = subst (λ p. At p s.res s.res2 s.printed) e h

Step-At :
    (s t : System) → At s.pc s.res s.res2 s.printed → Step s t → At t.pc t.res t.res2 t.printed
Step-At s t h (run_answer e) = answer-At s.pc s.res s.res2 s.printed e h
Step-At s t h (run_lambda e) = lambda-At s.pc s.res s.res2 s.printed e h
Step-At s t h (get_res v f e r) =
    let (a, b, c) = at s e h in
    let (same, j) = get-Fresh answer v s.res f a r in
    (j, b, ap (λ l. l ++ v ∷ []) c ∙ ap (λ n. n ∷ []) same)
Step-At s t h (get_res2 v f e r) =
    let (a, b, c) = at s e h in
    let (same, j) = get-Fresh lambda v s.res2 f b r in
    (a, j, ap (λ l. l ++ v ∷ []) c ∙ ap (λ n. answer ∷ n ∷ []) same)
Step-At s t h (destroy_res2 f e r) =
    let (a, b, c) = at s e h in let u = destroy-joined s.res2 b in absurd (ground (arith, u, r))
Step-At s t h (destroy_res f e r) = absurd (at s e h)

Reach-At : {s : System} → Reach s → At s.pc s.res s.res2 s.printed
Reach-At here = (unrun refl, unrun refl, refl)
Reach-At (later {s} {t} r step) = Step-At s t (Reach-At r) step

Fresh-moves :
    (value : ℕ) (f : Future)
    → Fresh value f
    → (f.id ≡ running) ⊎ ((g : Future) × (get f ≡ answers (value, g)))
unfolding get join
Fresh-moves value f (unrun e) = inl e
Fresh-moves value f (run e w) = inr (record f { id = joined }, ground (arith, e, w))

goes_on :
    (p : Pc) (s : System)
    → s.pc ≡ p
    → At p s.res s.res2 s.printed
    → ((t : System) × Step s t)
      ⊎ ((s.printed ≡ answer ∷ lambda ∷ []) × (destroy s.res2 ≡ undefined))
goes_on getting_res s e (a, b, c) = elim (Fresh-moves answer s.res a) [
  | inl w ↦ inl (_, run_answer w)
  | inr (g, r) ↦ inl (_, get_res answer g e r)
]
goes_on getting_res2 s e (a, b, c) = elim (Fresh-moves lambda s.res2 b) [
  | inl w ↦ inl (_, run_lambda w)
  | inr (g, r) ↦ inl (_, get_res2 lambda g e r)
]
goes_on destroying_res2 s e (a, b, c) = inr (c, destroy-joined s.res2 b)
goes_on destroying_res s e h = absurd h
goes_on returned s e h = absurd h

-- However the threads take turns, `main` can go on until it has printed both results, 42 and 666 in
-- this order, and then destroys `res2`, whose thread `get` has joined already: joining it again is
-- undefined, and `main` never returns.
pub main-joins_twice :
    {s : System}
    → Reach s
    → (((t : System) × Step s t)
        ⊎ ((s.printed ≡ answer ∷ lambda ∷ []) × (destroy s.res2 ≡ undefined)))
      × (s.pc ≢ returned)
main-joins_twice {s} r = (goes_on s.pc s refl (Reach-At r), λ e. at s e (Reach-At r))
