-- ===== src/Socknet/Tcp.antt =====
-- day3/socknet/net/tcp_socket.cpp: the class `tcp_socket`. A buffer with its length is a list of
-- bytes, and `buffer + sent` is what is left of it behind `sent` bytes.
use cpp_rt.Prelude.{
  ℕ, zero, suc, ◌+◌, ◌%◌, ◌^◌, none, some, List, length, drop, ◌==◌, if◌then◌else◌, ℤ, pos,
  pos_part,
}
use cpp_rt.Socknet.Kernel.{Kernel}
use cpp_rt.Socknet.Base.{
  returned, thrown, BaseSocket, Process, Call, once, throw, listen_failed, accept_failed, to_int,
  is_negative, send,
}

module _ (k : Kernel) where
  open k use {State}

  -- The loop of `sendAll`, with a bound on its rounds and one on those of each retry.
  unfoldable pub send_all_loop : ℕ → ℕ → List ℕ → ℕ → Call k ℤ
  send_all_loop zero fuel buffer sent x p = none
  send_all_loop (suc rounds) fuel buffer sent x p =
      let go_on =
        λ (n : ℕ) (y : BaseSocket) (q : Process State). send_all_loop rounds fuel buffer n y q in
      if sent == length buffer
      then some (returned (to_int (pos sent)), x, p)
      else elim (send k fuel (drop sent buffer) x p) [
        | none ↦ none
        | some (thrown e, y, q) ↦ some (thrown e, y, q)
        | some (returned ret, y, q) ↦
            if is_negative ret
            then some (returned ret, y, q)
            else go_on ((sent + pos_part ret) % 2 ^ 64) y q
      ]

  unfoldable pub send_all : ℕ → ℕ → List ℕ → Call k ℤ
  unfolding send_all_loop
  send_all rounds fuel buffer x p = send_all_loop rounds fuel buffer 0 x p

  unfoldable pub listen : ℕ → Call k (Unit {0})
  listen backlog x p =
      let (ret, q) = once k (k.listen x.socket backlog) p in
      if is_negative ret then some (throw listen_failed q.errno, x, q) else some (returned tt, x, q)

  unfoldable pub accept : Call k ℤ
  accept x p =
      let (ret, q) = once k (k.accept x.socket) p in
      if is_negative ret
      then some (throw accept_failed q.errno, x, q)
      else some (returned ret, x, q)
