-- ===== src/MutexTypes/Tests.antt =====
-- day2/06_mutex_type/pthread_mutex_type.c with a mutex that checks errors.
use cpp_rt.Prelude.{ℕ, zero, suc, ◌≡◌, ap, ℤ, Option, some, [], pos}
use cpp_rt.Process.{System, run}
use cpp_rt.MutexTypes.{errorcheck, ThreadCall, lock, unlock, watek}
use cpp_rt.MutexTypes.Laws.{IsMutex, depth, edeadlk, fate, watek-ends}

-- A mutex that looks at how often it is locked.
abbrev answer_at : ℕ → ThreadCall → Option ℤ
answer_at zero lock = some (pos 0)
answer_at (suc d) lock = some edeadlk
answer_at zero unlock = some (pos 1)
answer_at (suc d) unlock = some (pos 0)

abbrev checking : System ThreadCall
checking h c = answer_at (depth 0 h) c

checking-IsMutex : IsMutex errorcheck checking
checking-IsMutex = record {
  lock_free = λ h e. ap (λ d. answer_at d lock) e;
  lock_held = λ h d e. ap (λ d. answer_at d lock) e;
  unlock_held = λ h d e. ap (λ d. answer_at d unlock) e;
}

watek-ends_example : run checking watek [] ≡ fate errorcheck
watek-ends_example = watek-ends errorcheck checking checking-IsMutex
