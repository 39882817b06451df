-- ===== src/UnixStream.antt =====
-- day3/unix_stream_server/main.cpp: a server that sends each client of a local socket one message,
-- and the client. Every address is the one of SOCK_PATH. The output is left out.
mod Laws
mod Tests
use cpp_rt.Prelude.{ℕ, zero, suc, Bool, true, false, ℤ, pos, negsuc, eqb_ℤ, ltb_ℤ, if◌then◌else◌}
use cpp_rt.Process.{Prog, done, exit, call, ◌>>=◌, ◌>>◌, ask, drop_answer}

-- The calls, each with the descriptor that it is given; `write` and `read` with the size, too.
pub data Call : Type 0 where
  socket : Call
  bind : ℤ → Call
  listen : ℤ → ℕ → Call
  accept : ℤ → Call
  connect : ℤ → Call
  write : ℤ → ℕ → Call
  read : ℤ → ℕ → Call
  close : ℤ → Call

abbrev pub minus_one : ℤ
minus_one = negsuc 0

-- `if (answer == -1) exit(1);`
abbrev pub unless_failed : {A : Type 0} → ℤ → Prog Call A → Prog Call A
unless_failed answer p = if eqb_ℤ answer minus_one then exit 1 else p

-- The loop of `server` over its first clients; "foo\n" is sent with the zero behind it.
unfoldable pub serve : ℕ → ℤ → Prog Call (Unit {0})
serve zero sfd = done tt
serve (suc clients) sfd = ask (accept sfd) >>= λ cfd.
    unless_failed cfd (drop_answer (write cfd 5) >> drop_answer (close cfd) >> serve clients sfd)

unfoldable pub server : ℕ → Prog Call (Unit {0})
unfolding serve
server clients = ask socket >>= λ sfd. unless_failed sfd (
    ask (bind sfd) >>= λ bound.
    unless_failed bound
      (ask (listen sfd 5) >>= λ listening. unless_failed listening (serve clients sfd)))

abbrev pub buf_size : ℕ
buf_size = 1024

unfoldable pub client : Prog Call (Unit {0})
client = ask socket >>= λ fd. drop_answer (connect fd) >> ask (read fd buf_size) >>= λ num_read.
    if ltb_ℤ num_read (pos 1) then (drop_answer (close fd) >> exit 1) else drop_answer (close fd)

-- With an argument the program is the client, without one the server.
unfoldable pub main : Bool → ℕ → Prog Call ℕ
unfolding server client
main true clients = client >> exit 0
main false clients = server clients >> done 0
