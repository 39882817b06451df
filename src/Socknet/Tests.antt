-- ===== src/Socknet/Tests.antt =====
-- day3/socknet/net over a small system: a stream that takes two bytes at a time, after a number of
-- interruptions.
use Prim.Native.Nat.{min}
use cpp_rt.Prelude.{
  ℕ, zero, suc, ◌<◌, ◌≤◌, ◌≡◌, refl, ap, ◌⊎◌, none, some, List, [], ◌∷◌, ◌++◌, length, take, ℤ, pos,
  arith, true, false, replicate, ◌==◌, if◌then◌else◌, length-replicate, ◌+◌,
}
use cpp_rt.Socknet.Kernel.{Answer, returns, fails, eintr, Kernel}
use cpp_rt.Socknet.Base.{destroy, Outcome, returned, BaseSocket, Process, temp_failure_retry, send}
use cpp_rt.Socknet.Tcp.{send_all, send_all_loop}
use cpp_rt.Socknet.Retry.{Failed}
use cpp_rt.Socknet.Sends.{send_all-prefix}
use cpp_rt.Socknet.Programs.{session}
use cpp_rt.Socknet.Session.{Served, Lost, session-closes}
use cpp_rt.Socknet.Unix.{
  SockaddrUn, UnixKernel, terminated, c_str, fill_address, extract_path, destroy_unix, close_last,
  value,
}
use cpp_rt.Socknet.Paths.{Names, fill_address-extract_path, destroy_unix-unlinks}

record Stream : Type 0 where
  interruptions : ℕ
  bytes : List ℕ

abbrev takes : ℕ → List ℕ → List ℕ → Answer × Stream
takes zero l b = (
  returns (min 2 (length b)),
  record { interruptions = 0; bytes = l ++ take (min 2 (length b)) b },
)
takes (suc i) l b = (fails 4, record { interruptions = i; bytes = l })

takes-most : (i : ℕ) (l b : List ℕ) (n : ℕ) → (takes i l b).0 ≡ returns n → n ≤ length b
takes-most zero l b n e = grind arith
takes-most (suc i) l b n e = absurd cc

takes-some : (i : ℕ) (l b : List ℕ) (n : ℕ) → (takes i l b).0 ≡ returns n → 0 < length b → 0 < n
takes-some zero l b n e lt = grind arith
takes-some (suc i) l b n e lt = absurd cc

abbrev number : Answer → ℕ
number (returns n) = n
number (fails e) = e

takes-accepted :
    (i : ℕ) (l b : List ℕ) (n : ℕ)
    → (takes i l b).0 ≡ returns n
    → (takes i l b).1.bytes ≡ l ++ take n b
takes-accepted zero l b n e = ap (λ m. l ++ take m b) (ap number e)
takes-accepted (suc i) l b n e = absurd cc

takes-patience :
    (i : ℕ) (l b : List ℕ) (n : ℕ) → (takes i l b).0 ≡ returns n → (takes i l b).1.interruptions ≤ i
takes-patience zero l b n e = omega arith
takes-patience (suc i) l b n e = absurd cc

takes-failed :
    (i : ℕ) (l b : List ℕ) (n : ℕ) → (takes i l b).0 ≡ fails n → (takes i l b).1.bytes ≡ l
takes-failed zero l b n e = absurd cc
takes-failed (suc i) l b n e = refl

takes-interrupted :
    (i : ℕ) (l b : List ℕ) → (takes i l b).0 ≡ fails eintr → (takes i l b).1.interruptions < i
takes-interrupted zero l b e = absurd cc
takes-interrupted (suc i) l b e = omega arith

abbrev system : Kernel
system = record {
  State = Stream;
  patience = λ s. s.interruptions;
  accepted = λ fd s. s.bytes;
  socket = λ d t p s. (returns 3, s);
  close = λ fd s. (returns 0, s);
  send = λ fd b s. takes s.interruptions s.bytes b;
  dissolve = λ fd s. (returns 0, s);
  shutdown = λ fd s. (returns 0, s);
  listen = λ fd n s. (returns 0, s);
  accept = λ fd s. (returns 4, s);
  send-most = λ fd b s n e. takes-most s.interruptions s.bytes b n e;
  send-some = λ fd b s n e. takes-some s.interruptions s.bytes b n e;
  send-accepted = λ fd b s n e. takes-accepted s.interruptions s.bytes b n e;
  send-patience = λ fd b s n e. takes-patience s.interruptions s.bytes b n e;
  send-failed = λ fd b s e h. takes-failed s.interruptions s.bytes b e h;
  send-interrupted = λ fd b s e. takes-interrupted s.interruptions s.bytes b e;
  close-interrupted = λ fd s e. absurd cc;
}

abbrev tcp : BaseSocket
tcp = record { socket = 3; peer_disconnected = false }

abbrev at_start : Process Stream
at_start = record { state = record { interruptions = 2; bytes = 9 ∷ [] }; errno = 0 }

abbrev message : List ℕ
message = 10 ∷ 11 ∷ 12 ∷ []

-- Two interruptions, two bytes and then one.
sends_message :
    send_all system 4 3 message tcp at_start
    ≡ some (
      returned (pos 3),
      tcp,
      record { state = record { interruptions = 0; bytes = 9 ∷ 10 ∷ 11 ∷ 12 ∷ [] }; errno = 4 },
    )
unfolding send_all send_all_loop send temp_failure_retry
sends_message = refl

send_all-prefix_example :
    (r : Outcome ℤ) × (y : BaseSocket) × (q : Process Stream) × (m : ℕ) × (send_all system 4 3
        message tcp at_start
      ≡ some (r, y, q))
    × (m ≤ length message)
    × (q.state.bytes ≡ 9 ∷ [] ++ take m message)
    × (((r ≡ returned (pos (length message))) × (m ≡ length message)) ⊎ Failed r y)
send_all-prefix_example =
    send_all-prefix system 4 3 message tcp at_start (omega arith) (omega arith) (omega arith)

abbrev blank : SockaddrUn
blank = record { sun_family = 0; sun_path = replicate 108 7 }

abbrev path : List ℕ
path = 47 ∷ 97 ∷ []

abbrev named : SockaddrUn
named = record { sun_family = 1; sun_path = 47 ∷ 97 ∷ 0 ∷ replicate 105 0 }

-- Socket 3 has a name and the others have none; `bytes` has the path unlinked last.
abbrev one_named : UnixKernel system
one_named = record {
  unlink = λ path s. record s { bytes = path };
  bind = λ fd path p. (true, p);
  connect = λ fd path p. (true, p);
  getsockname = λ fd p. (some (named, if fd == 3 then 5 else 2), p);
  getpeername = λ fd p. (none, p);
}

fill_address-extract_path_example :
    (a : SockaddrUn) × (fill_address path blank 0 ≡ value a)
    × Names a path
    × (extract_path a (length path + 3) ≡ value path)
unfolding c_str
fill_address-extract_path_example =
    fill_address-extract_path path blank 0 refl (omega arith) (length-replicate {A = ℕ} 108 7)

destroy_unix-unlinks_example :
    (destroy_unix system one_named 1 blank tcp at_start
      ≡ close_last system one_named (
          destroy system 1 tcp
            (record at_start { state = record { interruptions = 2; bytes = path } })))
    × (destroy_unix system one_named 1 blank (record tcp { socket = 4 }) at_start ≡ terminated)
unfolding c_str
destroy_unix-unlinks_example =
    destroy_unix-unlinks system one_named 1 blank named named tcp (record tcp { socket = 4 })
      at_start at_start at_start at_start path refl (omega arith) (refl, (replicate 105 0, refl))
      refl refl

-- The system again, with two interruptions before each run of bytes at most.
abbrev patience : Stream → ℕ
patience s = min s.interruptions 2

capped_le : (s : Stream) (n : ℕ) → s.interruptions ≤ n → patience s ≤ n
capped_le s n h = grind arith

capped_lt : (s : Stream) (n : ℕ) → s.interruptions < n → patience s < n
capped_lt s n h = grind arith

abbrev bounded : Kernel
bounded = record {
  State = Stream;
  patience = patience;
  accepted = λ fd s. s.bytes;
  socket = λ d t p s. (returns 3, s);
  close = λ fd s. (returns 0, s);
  send = λ fd b s. takes (patience s) s.bytes b;
  dissolve = λ fd s. (returns 0, s);
  shutdown = λ fd s. (returns 0, s);
  listen = λ fd n s. (returns 0, s);
  accept = λ fd s. (returns 4, s);
  send-most = λ fd b s n e. takes-most (patience s) s.bytes b n e;
  send-some = λ fd b s n e. takes-some (patience s) s.bytes b n e;
  send-accepted = λ fd b s n e. takes-accepted (patience s) s.bytes b n e;
  send-patience = λ fd b s n e.
      capped_le (takes (patience s) s.bytes b).1 (patience s)
        (takes-patience (patience s) s.bytes b n e);
  send-failed = λ fd b s e h. takes-failed (patience s) s.bytes b e h;
  send-interrupted = λ fd b s e.
      capped_lt (takes (patience s) s.bytes b).1 (patience s)
        (takes-interrupted (patience s) s.bytes b e);
  close-interrupted = λ fd s e. absurd cc;
}

session-closes_example :
    (r : Outcome ℕ) × (q : Process Stream) × (session bounded 3 message (pos 3) at_start
      ≡ some (r, q))
    × ((s : Stream) × (q.state ≡ s))
    × (((n : ℕ) × (n ≤ length message)
          × ((length message ≡ 0) ⊎ (0 < n))
          × (q.state.bytes ≡ 9 ∷ [] ++ take n message)
          × Served r)
        ⊎ ((q.state.bytes ≡ 9 ∷ []) × Lost r))
session-closes_example =
    session-closes bounded 3 (λ s. omega arith) 3 message (omega arith) (λ s. refl) (λ s. refl)
      at_start
