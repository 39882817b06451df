-- ===== src/ThreadPool/History.antt =====
-- How often a task, or the empty task, stands in a history.
use cpp_rt.Prelude.{
  ℕ, zero, suc, ◌+◌, ◌≡◌, refl, none, some, List, [], ◌∷◌, ◌++◌, ◌==◌, if◌then◌else◌, arith,
}
use cpp_rt.ThreadPool.Mutex.{Task}
use cpp_rt.ThreadPool.System.{program}

abbrev pub item_quits : Task → ℕ
item_quits none = 1
item_quits (some t) = 0

abbrev pub item_is : ℕ → Task → ℕ
item_is t none = 0
item_is t (some u) = if u == t then 1 else 0

unfoldable pub count : ℕ → List ℕ → ℕ
count t [] = 0
count t (x ∷ xs) = (if x == t then 1 else 0) + count t xs

unfoldable pub count_task : ℕ → List Task → ℕ
count_task t [] = 0
count_task t (x ∷ xs) = item_is t x + count_task t xs

unfoldable pub count_null : List Task → ℕ
count_null [] = 0
count_null (x ∷ xs) = item_quits x + count_null xs

pub count-snoc :
    (t : ℕ) (xs : List ℕ) (x : ℕ) → count t (xs ++ x ∷ []) ≡ count t xs + (if x == t then 1 else 0)
unfolding count
count-snoc t [] x = ground arith
count-snoc t (y ∷ xs) x = omega (arith, count-snoc t xs x)

pub count_task-snoc :
    (t : ℕ) (xs : List Task) (x : Task)
    → count_task t (xs ++ x ∷ []) ≡ count_task t xs + item_is t x
unfolding count_task
count_task-snoc t [] x = omega arith
count_task-snoc t (y ∷ xs) x = omega (arith, count_task-snoc t xs x)

pub count_null-snoc :
    (xs : List Task) (x : Task) → count_null (xs ++ x ∷ []) ≡ count_null xs + item_quits x
unfolding count_null
count_null-snoc [] x = omega arith
count_null-snoc (y ∷ xs) x = omega (arith, count_null-snoc xs x)

-- The program holds an empty task for each worker, and the tasks otherwise.
pub count_null-program : (n : ℕ) (tasks : List ℕ) → count_null (program n tasks) ≡ n
unfolding count_null program
count_null-program zero [] = refl
count_null-program (suc n) [] = omega (arith, count_null-program n [])
count_null-program n (t ∷ tasks) = omega (arith, count_null-program n tasks)

pub count_task-program : (t n : ℕ) (tasks : List ℕ) → count_task t (program n tasks) ≡ count t tasks
unfolding count count_task program
count_task-program t zero [] = refl
count_task-program t (suc n) [] = omega (arith, count_task-program t n [])
count_task-program t n (u ∷ tasks) = omega (arith, count_task-program t n tasks)

pub count_null-append : (xs ys : List Task) → count_null (xs ++ ys) ≡ count_null xs + count_null ys
unfolding count_null
count_null-append [] ys = omega arith
count_null-append (x ∷ xs) ys = omega (arith, count_null-append xs ys)
