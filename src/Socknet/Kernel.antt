-- ===== src/Socknet/Kernel.antt =====
-- The system calls of day3/socknet/net, as a parameter. What a call answers is open. The laws say
-- which bytes a connected stream has accepted, and that signals interrupt its calls only finitely
-- often in a row: `patience` bounds how often.
use cpp_rt.Prelude.{ℕ, ◌≡◌, ◌<◌, ◌≤◌, List, ◌++◌, length, take}

-- The answer of a call: its value, or -1 with an error number.
pub data Answer : Type 0 where
  returns : ℕ → Answer
  fails : ℕ → Answer

abbrev pub eintr : ℕ
eintr = 4

abbrev pub econnreset : ℕ
econnreset = 104

abbrev pub econnrefused : ℕ
econnrefused = 111

pub record Kernel : Type 1 where
  pub State : Type 0
  pub patience : State → ℕ
  -- All bytes that the stream behind a descriptor has accepted.
  pub accepted : ℕ → State → List ℕ
  pub socket : ℕ → ℕ → ℕ → State → Answer × State
  pub close : ℕ → State → Answer × State
  pub send : ℕ → List ℕ → State → Answer × State
  pub dissolve : ℕ → State → Answer × State
  pub shutdown : ℕ → State → Answer × State
  pub listen : ℕ → ℕ → State → Answer × State
  pub accept : ℕ → State → Answer × State
  pub send-most :
      (fd : ℕ) (b : List ℕ) (s : State) (n : ℕ) → (send fd b s).0 ≡ returns n → n ≤ length b
  pub send-some :
      (fd : ℕ) (b : List ℕ) (s : State) (n : ℕ) → (send fd b s).0 ≡ returns n → 0 < length b → 0 < n
  pub send-accepted :
      (fd : ℕ) (b : List ℕ) (s : State) (n : ℕ)
      → (send fd b s).0 ≡ returns n
      → accepted fd (send fd b s).1 ≡ accepted fd s ++ take n b
  pub send-patience :
      (fd : ℕ) (b : List ℕ) (s : State) (n : ℕ)
      → (send fd b s).0 ≡ returns n
      → patience (send fd b s).1 ≤ patience s
  pub send-failed :
      (fd : ℕ) (b : List ℕ) (s : State) (e : ℕ)
      → (send fd b s).0 ≡ fails e
      → accepted fd (send fd b s).1 ≡ accepted fd s
  pub send-interrupted :
      (fd : ℕ) (b : List ℕ) (s : State)
      → (send fd b s).0 ≡ fails eintr
      → patience (send fd b s).1 < patience s
  pub close-interrupted :
      (fd : ℕ) (s : State) → (close fd s).0 ≡ fails eintr → patience (close fd s).1 < patience s
