-- ===== src/Mains/Tests.antt =====
-- The `main` functions, that of day2/13_cancel with the argument 2.
use cpp_rt.Barrier
use cpp_rt.Cancel
use cpp_rt.Signals
use cpp_rt.Tss
use cpp_rt.Sched
