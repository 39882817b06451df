-- ===== src/UnixStream/Tests.antt =====
-- day3/unix_stream_server/main.cpp with a system that answers 4 to every call.
use cpp_rt.Prelude.{◌≡◌, ◌≢◌, refl, false, some, [], pos}
use cpp_rt.Process.{System, run}
use cpp_rt.UnixStream.{Call, minus_one, main}
use cpp_rt.UnixStream.Laws.{opens, closes, tally, main-closes}

abbrev four : System Call
four h c = some (pos 4)

four-valid : pos 4 ≢ minus_one
four-valid e = absurd cc

main-closes_example :
    tally (opens false (pos 4)) (run four (main false 2) []).1
    ≡ tally (closes (pos 4)) (run four (main false 2) []).1
unfolding run main
main-closes_example = main-closes false 2 four (pos 4) four-valid tt

two_clients : tally (closes (pos 4)) (run four (main false 2) []).1 ≡ 2
unfolding run main tally closes
two_clients = refl
