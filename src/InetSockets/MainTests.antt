-- ===== src/InetSockets/MainTests.antt =====
-- day3/16_sock_inet/main.cpp over the small system of Tests, where every client is accepted.
use cpp_rt.Prelude.{ℕ, ◌+◌, ◌≡◌, refl, ap, true, false, some, ◌∷◌}
use cpp_rt.InetSockets.Connect.{with_result}
use cpp_rt.InetSockets.Main.{StreamKernel, main, in_use, main-Opens}
use cpp_rt.InetSockets.Tests.{system, before}

abbrev streams : StreamKernel (system true)
streams = record {
  send = λ fd buf s. s;
  recv = λ fd n s. s;
  accept = λ fd s. (some s.next, record s { fds = s.next ∷ s.fds; next = s.next + 1 });
  send-keeps = λ fd buf s. (refl, refl);
  recv-keeps = λ fd n s. (refl, refl);
  accept-some = λ fd c s e. ap (λ x. x ∷ s.fds) (same_fd e);
  accept-none = λ fd s e. cc;
  accept-lists = λ fd s. refl;
}
  where
    same_fd : {a b : ℕ} → some a ≡ some b → a ≡ b
    same_fd e = cc

main-Opens_example :
    let r = main (system true) streams 100 200 false 2 before in
    (r.1.fds ≡ with_result (in_use (system true) streams 100 200 r.0) before.fds)
    × (r.1.lists ≡ before.lists)
main-Opens_example = main-Opens (system true) streams 100 200 false 2 before (λ fd u. refl)
