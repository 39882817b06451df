-- ===== src/Clone/Laws.antt =====
-- day2/00_clone-test/main.cpp: the write of `main` behind the close of the child.
use cpp_rt.Prelude.{
  ℕ, ◌+◌, ◌≤◌, ◌≡◌, ◌≢◌, ◌⊎◌, inl, inr, refl, ap, Bool, true, false, put_at, arith,
}
use mathlib.Core.Path.{subst}
use cpp_rt.Clone.{
  MainPc, opening, allocating, cloning, waiting, writing, freeing, returned, exited, ChildPc,
  unborn, closing, leaving, gone, System, Step, opens, open_fails, malloc, malloc_fails, clone,
  clone_fails, close, leave, waitpid, waitpid_fails, write, write_fails, free, Reach, here, later,
}

-- The descriptor is open until the child has closed it.
abbrev pub IsShared : ChildPc → Bool → Type 0
IsShared unborn o = o ≡ true
IsShared closing o = o ≡ true
IsShared leaving o = o ≡ false
IsShared gone o = o ≡ false

-- What holds where `main` stands, of the child, of whether the descriptor is open in the table of
-- `main`, and of whether the stack is allocated.
abbrev pub Holds : MainPc → ChildPc → Bool → Bool → Type 0
Holds opening c o stack = (c ≡ unborn) × (stack ≡ false)
Holds allocating c o stack = (c ≡ unborn) × (o ≡ true) × (stack ≡ false)
Holds cloning c o stack = (c ≡ unborn) × (o ≡ true) × (stack ≡ true)
Holds waiting c o stack = (c ≢ unborn) × IsShared c o × (stack ≡ true)
Holds writing c o stack = (c ≡ gone) × (o ≡ false) × (stack ≡ true)
Holds (freeing wrote) c o stack = (wrote ≡ false) × (c ≡ gone) × (o ≡ false) × (stack ≡ true)
Holds (returned wrote) c o stack = (wrote ≡ false) × (c ≡ gone) × (o ≡ false) × (stack ≡ false)
Holds (exited status) c o stack =
    ((status ≡ 1) × (c ≡ unborn) × (stack ≡ false))
    ⊎ (((status ≡ 2) × (c ≡ unborn) × (stack ≡ true))
        ⊎ ((status ≡ 3) × (c ≢ unborn) × (stack ≡ true)))

abbrev pub Inv : System → Type 0
Inv s = Holds s.main_pc s.child_pc (s.is_open s.fd) s.stack

at : {q : MainPc} (s : System) → s.main_pc ≡ q → Inv s → Holds q s.child_pc (s.is_open s.fd) s.stack
at s e inv = subst (λ p. Holds p s.child_pc (s.is_open s.fd) s.stack) e inv

put_at-same : (i : ℕ) (b : Bool) (f : ℕ → Bool) → put_at i b f i ≡ b
put_at-same i b f = ground arith

-- The child moves behind its `close`, wherever `main` stands.
close-Holds :
    (p : MainPc) (c : ChildPc) (o o' stack : Bool)
    → c ≡ closing
    → o' ≡ false
    → Holds p c o stack
    → Holds p leaving o' stack
close-Holds opening c o o' stack e f h = absurd cc
close-Holds allocating c o o' stack e f h = absurd cc
close-Holds cloning c o o' stack e f h = absurd cc
close-Holds waiting c o o' stack e f (born, shared, s) = ((λ q. cc), f, s)
close-Holds writing c o o' stack e f h = absurd cc
close-Holds (freeing w) c o o' stack e f h = absurd cc
close-Holds (returned w) c o o' stack e f h = absurd cc
close-Holds (exited n) c o o' stack e f (inl h) = absurd cc
close-Holds (exited n) c o o' stack e f (inr (inl h)) = absurd cc
close-Holds (exited n) c o o' stack e f (inr (inr (status, born, s))) =
    inr (inr (status, λ q. cc, s))

leave-Holds :
    (p : MainPc) (c : ChildPc) (o stack : Bool)
    → c ≡ leaving
    → Holds p c o stack
    → Holds p gone o stack
leave-Holds opening c o stack e h = absurd cc
leave-Holds allocating c o stack e h = absurd cc
leave-Holds cloning c o stack e h = absurd cc
leave-Holds waiting c o stack e (born, shared, s) =
    ((λ q. cc), subst (λ d. IsShared d o) e shared, s)
leave-Holds writing c o stack e h = absurd cc
leave-Holds (freeing w) c o stack e h = absurd cc
leave-Holds (returned w) c o stack e h = absurd cc
leave-Holds (exited n) c o stack e (inl h) = absurd cc
leave-Holds (exited n) c o stack e (inr (inl h)) = absurd cc
leave-Holds (exited n) c o stack e (inr (inr (status, born, s))) = inr (inr (status, λ q. cc, s))

Step-Inv : (s t : System) → Inv s → Step s t → Inv t
Step-Inv s t inv (opens fd e closed) =
    let (idle, fresh) = at s e inv in (idle, put_at-same fd true s.is_open, fresh)
Step-Inv s t inv (open_fails e) = let (idle, fresh) = at s e inv in inl (refl, idle, fresh)
Step-Inv s t inv (malloc e) = let (idle, o, fresh) = at s e inv in (idle, o, refl)
Step-Inv s t inv (malloc_fails e) = let (idle, o, fresh) = at s e inv in inl (refl, idle, fresh)
Step-Inv s t inv (clone e) = let (idle, o, made) = at s e inv in ((λ q. cc), o, made)
Step-Inv s t inv (clone_fails e) = let (idle, o, made) = at s e inv in inr (inl (refl, idle, made))
Step-Inv s t inv (close e) =
    close-Holds s.main_pc s.child_pc (s.is_open s.fd) _ s.stack e (put_at-same s.fd false s.is_open)
      inv
Step-Inv s t inv (leave e) = leave-Holds s.main_pc s.child_pc (s.is_open s.fd) s.stack e inv
Step-Inv s t inv (waitpid e exit) =
    let (born, shared, made) = at s e inv in
    (exit, subst (λ c. IsShared c (s.is_open s.fd)) exit shared, made)
Step-Inv s t inv (waitpid_fails e) =
    let (born, shared, made) = at s e inv in inr (inr (refl, born, made))
Step-Inv s t inv (write e o) = let (exit, shut, made) = at s e inv in absurd cc
Step-Inv s t inv (write_fails e) = let (exit, shut, made) = at s e inv in (refl, exit, shut, made)
Step-Inv s t inv (free w e) =
    let (fails, exit, shut, made) = at s e inv in (fails, exit, shut, refl)

-- What is left to do.
abbrev main_left : MainPc → ℕ
main_left opening = 8
main_left allocating = 7
main_left cloning = 6
main_left waiting = 3
main_left writing = 2
main_left (freeing w) = 1
main_left (returned w) = 0
main_left (exited n) = 0

abbrev child_left : ChildPc → ℕ
child_left unborn = 0
child_left closing = 2
child_left leaving = 1
child_left gone = 0

abbrev left : System → ℕ
left s = main_left s.main_pc + child_left s.child_pc

main_at : {p q : MainPc} → p ≡ q → main_left p ≡ main_left q
main_at e = ap main_left e

Step-left : (s t : System) → Inv s → Step s t → left t + 1 ≤ left s
Step-left s t inv (opens fd e closed) = omega (arith, main_at e)
Step-left s t inv (open_fails e) = omega (arith, main_at e)
Step-left s t inv (malloc e) = omega (arith, main_at e)
Step-left s t inv (malloc_fails e) = omega (arith, main_at e)
Step-left s t inv (clone e) = omega (arith, main_at e)
Step-left s t inv (clone_fails e) = omega (arith, main_at e)
Step-left s t inv (close e) = omega (arith, ap child_left e)
Step-left s t inv (leave e) = omega (arith, ap child_left e)
Step-left s t inv (waitpid e exit) = omega (arith, main_at e)
Step-left s t inv (waitpid_fails e) = omega (arith, main_at e)
Step-left s t inv (write e o) = omega (arith, main_at e)
Step-left s t inv (write_fails e) = omega (arith, main_at e)
Step-left s t inv (free w e) = omega (arith, main_at e)

abbrev pub HasEnded : MainPc → Type 0
HasEnded (returned w) = Unit
HasEnded (exited n) = Unit
HasEnded p = ⊥

waiting-moves :
    (s : System) (c : ChildPc)
    → s.main_pc ≡ waiting
    → s.child_pc ≡ c
    → c ≢ unborn
    → (t : System) × Step s t
waiting-moves s unborn e f born = absurd (born refl)
waiting-moves s closing e f born = (_, close f)
waiting-moves s leaving e f born = (_, leave f)
waiting-moves s gone e f born = (_, waitpid e f)

moves : (s : System) (p : MainPc) → s.main_pc ≡ p → Inv s → HasEnded p ⊎ ((t : System) × Step s t)
moves s opening e inv = inr (_, open_fails e)
moves s allocating e inv = inr (_, malloc e)
moves s cloning e inv = inr (_, clone e)
moves s waiting e inv = inr (waiting-moves s s.child_pc e refl (at s e inv).0)
moves s writing e inv = inr (_, write_fails e)
moves s (freeing w) e inv = inr (_, free w e)
moves s (returned w) e inv = inl tt
moves s (exited n) e inv = inl tt

Reach-Inv : {is_open : ℕ → Bool} {n : ℕ} {s : System} → Reach is_open n s → Inv s × (n + left s ≤ 8)
Reach-Inv here = ((refl, refl), omega arith)
Reach-Inv (later {s} {t} r step) =
    let (inv, le) = Reach-Inv r in
    (Step-Inv s t inv step, omega (arith, le, Step-left s t inv step))

-- However the child and `main` take turns, and whichever calls fail: `main` and the child take
-- at most eight steps together, and one of them can go on until `main` has ended. Where `main`
-- stands says what holds: when it returns, `write` has failed, for the child has exited and
-- closed the descriptor in the table of `main`, and the stack has been freed; when it exits, the
-- status says whether `clone`, `waitpid` or an earlier call failed, whether there is a child,
-- and whether the stack is still allocated.
pub main-Holds :
    {is_open : ℕ → Bool} {n : ℕ} {s : System}
    → Reach is_open n s
    → Inv s × (n ≤ 8) × (HasEnded s.main_pc ⊎ ((t : System) × Step s t))
main-Holds {s} r =
    let (inv, le) = Reach-Inv r in (inv, omega (arith, le), moves s s.main_pc refl inv)
