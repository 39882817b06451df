-- ===== src/Process.antt =====
-- A program of the repository as a tree of the calls that it makes of the system: `C` is the type
-- of its calls, and the rest of the program depends on a call's answer. Printing is left out.
pub mod Plan
pub mod Protocol
use cpp_rt.Prelude.{
  ℕ, zero, suc, ◌+◌, Option, none, some, List, [], ◌∷◌, ◌++◌, ℤ, pos, eqb_ℤ, if◌then◌else◌,
}

pub data Prog (C A : Type 0) : Type 0 where
  done : A → Prog C A
  exit : ℕ → Prog C A
  call : C → (ℤ → Prog C A) → Prog C A

infixl 5 ◌>>=◌ ◌>>◌
abbrev pub ◌>>=◌ : {C A B : Type 0} → Prog C A → (A → Prog C B) → Prog C B
done a >>= f = f a
exit status >>= f = exit status
call c k >>= f = call c (λ answer. k answer >>= f)

abbrev pub ◌>>◌ : {C B : Type 0} → Prog C (Unit {0}) → Prog C B → Prog C B
p >> q = p >>= λ _. q

-- A call whose answer is used, and one whose answer is dropped.
abbrev pub ask : {C : Type 0} → C → Prog C ℤ
ask c = call c λ answer. done answer

abbrev pub drop_answer : {C : Type 0} → C → Prog C (Unit {0})
drop_answer c = call c λ _. done tt

-- `errno = c; test_errno("...");`: an answer other than 0 ends the program with EXIT_FAILURE.
abbrev pub test_errno : {C : Type 0} → C → Prog C (Unit {0})
test_errno c = call c λ answer. if eqb_ℤ answer (pos 0) then done tt else exit 1

-- `for (i = first; i < first + rounds; i++)`
abbrev pub for_range : {C : Type 0} → ℕ → ℕ → (ℕ → Prog C (Unit {0})) → Prog C (Unit {0})
for_range zero i body = done tt
for_range (suc rounds) i body = body i >>= λ _. for_range rounds (i + 1) body

-- What happened, the newest call last, each with its answer.
abbrev pub Trace : Type 0 → Type 0
Trace C = List (C × ℤ)

-- The system answers as it likes, with regard to all that happened before; `none` is a call that
-- never returns.
abbrev pub System : Type 0 → Type 0
System C = Trace C → C → Option ℤ

pub data Ending (A : Type 0) : Type 0 where
  returned : A → Ending A
  exited : ℕ → Ending A
  blocked : Ending A

unfoldable pub run : {C A : Type 0} → System C → Prog C A → Trace C → Ending A × Trace C
run o (done a) h = (returned a, h)
run o (exit status) h = (exited status, h)
run o (call c k) h = elim (o h c) [
  | none ↦ (blocked, h)
  | some answer ↦ run o (k answer) (h ++ (c, answer) ∷ [])
]
