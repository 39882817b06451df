-- ===== src/ActiveObject/LoggerTests.antt =====
-- `LoggerAsync` of day2/x_active_object with the message "H" at the time "3".
use cpp_rt.Prelude.{ℕ, ◌≡◌, refl, some, List, [], ◌∷◌}
use cpp_rt.ActiveObject.{ended}
use cpp_rt.ActiveObject.Tests.{tasks, state, whole_run}
use cpp_rt.ActiveObject.Logger.{
  Closure, erase_newline, message_async, log, log_async, places, printed, log_async-log,
}

abbrev clock : ℕ → List ℕ
clock i = 51 ∷ 10 ∷ []

abbrev messages : List (List ℕ)
messages = (72 ∷ []) ∷ []

abbrev closures : List Closure
closures = record { time = 51 ∷ []; msg = 72 ∷ [] } ∷ []

sends_closure : log_async clock 0 messages ≡ some closures
unfolding log_async message_async erase_newline
sends_closure = refl

log_async-log_example : log clock 0 messages [] ≡ some (printed closures tasks)
unfolding places
log_async-log_example =
    log_async-log clock messages closures (state [] ended [] tasks) sends_closure whole_run refl
