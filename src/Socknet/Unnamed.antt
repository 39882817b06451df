-- ===== src/Socknet/Unnamed.antt =====
-- day3/socknet/unix_server.cpp: a message from a socket without a name.
use cpp_rt.Prelude.{ℕ, suc, ◌^◌, ◌<◌, ◌≤◌, ◌≡◌, refl, ap, ◌∙◌, Option, some, List, pos, arith}
use cpp_rt.Socknet.Kernel.{Kernel}
use cpp_rt.Socknet.Base.{returned, BaseSocket, Process, temp_failure_retry}
use cpp_rt.Socknet.Retry.{small-to_int}
use cpp_rt.Socknet.Datagram.{DatagramKernel, create_unix_datagram, receive_from_path}
use cpp_rt.Socknet.Unix.{SockaddrUn, UnixKernel, Ending, value, length_error, extract_path}
use cpp_rt.Socknet.UnixPrograms.{
  terminates, ◌>>=◌, finish, server_loop, server_path, unix_server_main,
}
use cpp_rt.Socknet.Unix

extract_path-unnamed : (a : SockaddrUn) (len : ℕ) → len ≤ 2 → extract_path a len ≡ length_error
unfolding extract_path
extract_path-unnamed a len le = ground arith

module _ (k : Kernel) (u : UnixKernel k) (d : DatagramKernel k SockaddrUn) (fuel : ℕ)
    (addr : SockaddrUn) where
  receive-unnamed :
      (x : BaseSocket) (p q : Process k.State) (n : ℕ)
      → n < 2 ^ 31
      → temp_failure_retry k fuel (d.recvfrom x.socket 50) p ≡ some (pos n, q)
      → (d.source q.state).1 ≤ 2
      → receive_from_path k d fuel 50 x p ≡ some (length_error, q)
  unfolding receive_from_path
  receive-unnamed x p q n small e le =
      rw (e, receive_from_path)
        (rw
          (small-to_int n small, extract_path-unnamed (d.source q.state).0 (d.source q.state).1 le)
          refl)

  loop-unnamed :
      (messages : ℕ) (msg : List ℕ) (x : BaseSocket) (p q : Process k.State)
      → receive_from_path k d fuel 50 x p ≡ some (length_error, q)
      → server_loop k u d fuel addr (suc messages) msg x p ≡ some (length_error, q)
  unfolding server_loop
  loop-unnamed messages msg x p q e = rw (e, ◌>>=◌) refl

  -- A message from a client without a name ends the server: once it has bound its path and
  -- `recvfrom` answers a source of which no more than the family is known, as for a client that has
  -- not bound its socket, the length of the path wraps, and the exception of the string is none
  -- that `main` catches.
  pub unix_server_main-unnamed :
      (messages : ℕ) (msg : List ℕ) (x : BaseSocket) (p p1 p2 q : Process k.State) (n : ℕ)
      → create_unix_datagram k d p ≡ (returned x, p1)
      → Unix.bind k u (server_path k u d fuel addr) addr x p1 ≡ (value tt, p2)
      → n < 2 ^ 31
      → temp_failure_retry k fuel (d.recvfrom x.socket 50) p2 ≡ some (pos n, q)
      → (d.source q.state).1 ≤ 2
      → unix_server_main k u d fuel addr (suc messages) msg p ≡ terminates
  unfolding unix_server_main
  unix_server_main-unnamed messages msg x p p1 p2 q n made bound small e le =
      rw (ap (λ r. r.0) made, unix_server_main)
        (ap
            (λ r.
              finish k u fuel addr x
                (◌>>=◌ k (some (Unix.bind k u (server_path k u d fuel addr) addr x r.1)) serve))
            made
          ∙ ap (λ r. finish k u fuel addr x (◌>>=◌ k (some r) serve)) bound
          ∙ ap (λ r. finish k u fuel addr x r)
              (loop-unnamed messages msg x p2 q (receive-unnamed x p2 q n small e le)))
    where
      serve : Unit {0} → Process k.State → Option (Ending (Unit {0}) × Process k.State)
      serve t r = server_loop k u d fuel addr (suc messages) msg x r
