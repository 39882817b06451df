-- ===== src/Socknet/Base.antt =====
-- day3/socknet/net/base_socket.cpp: the class `base_socket`. An exception is a value.
use cpp_rt.Prelude.{
  ℕ, zero, suc, ◌-◌, ◌%◌, ◌^◌, Bool, true, false, ◌||◌, Option, none, some, List, ◌==◌, ltb,
  if◌then◌else◌, ℤ, pos, negsuc,
}
use cpp_rt.Socknet.Kernel.{Answer, returns, fails, eintr, econnreset, econnrefused, Kernel}

-- The text that an exception is thrown with.
pub data Message : Type 0 where
  creation_failed : Message
  invalid_handle : Message
  send_failed : Message
  disconnect_failed : Message
  shutdown_failed : Message
  listen_failed : Message
  accept_failed : Message
  path_too_long : Message
  connect_failed : Message
  bind_failed : Message
  local_path_failed : Message
  foreign_path_failed : Message
  local_address_failed : Message
  local_port_failed : Message
  foreign_address_failed : Message
  foreign_port_failed : Message
  resolve_failed : Message
  sendto_failed : Message
  recvfrom_failed : Message
  receive_failed : Message
  multicast_ttl_failed : Message
  join_failed : Message
  leave_failed : Message

-- `socket_exception`; the rest of its text is what `strerror` says of the number.
pub record SocketException : Type 0 where
  pub message : Message
  pub error_code : ℕ

pub data Outcome (A : Type 0) : Type 0 where
  returned : A → Outcome A
  thrown : SocketException → Outcome A

-- The members of `base_socket`.
pub record BaseSocket : Type 0 where
  pub socket : ℕ
  pub peer_disconnected : Bool

-- The system's state with the thread's `errno`.
pub record Process (S : Type 0) : Type 0 where
  pub state : S
  pub errno : ℕ

-- The conversion of a `long` to `int`, for a number from -1 up.
abbrev pub to_int : ℤ → ℤ
to_int (pos n) = let m = n % 2 ^ 32 in if ltb m (2 ^ 31) then pos m else negsuc (2 ^ 32 - 1 - m)
to_int (negsuc n) = negsuc n

abbrev pub is_negative : ℤ → Bool
is_negative (pos n) = false
is_negative (negsuc n) = true

abbrev pub throw : {A : Type 0} → Message → ℕ → Outcome A
throw message errno = thrown (record { message = message; error_code = errno })

module _ (k : Kernel) where
  open k use {State}

  -- What a member function does: `none` if the fuel of a loop runs out.
  abbrev pub Call : Type 0 → Type 0
  Call A = BaseSocket → Process State → Option (Outcome A × BaseSocket × Process State)

  -- A call made once: its value, with `errno` set if it fails.
  abbrev pub once : (State → Answer × State) → Process State → ℤ × Process State
  once call p =
      let (answer, s) = call p.state in
      elim answer [
        | returns n ↦ (pos n, record p { state = s })
        | fails e ↦ (negsuc 0, record { state = s; errno = e })
      ]

  -- `TEMP_FAILURE_RETRY`: the call is made again as long as it is interrupted.
  unfoldable pub temp_failure_retry :
      ℕ → (State → Answer × State) → Process State → Option (ℤ × Process State)
  temp_failure_retry zero call p = none
  temp_failure_retry (suc fuel) call p =
      let again = λ (q : Process State). temp_failure_retry fuel call q in
      let (answer, s) = call p.state in
      elim answer [
        | returns n ↦ some (pos n, record p { state = s })
        | fails e ↦
            let q : Process State = record { state = s; errno = e } in
            if e == eintr then again q else some (negsuc 0, q)
      ]

  -- The two constructors; no object is built when they throw.
  unfoldable pub create : ℕ → ℕ → ℕ → Process State → Outcome BaseSocket × Process State
  create domain type protocol p =
      let (ret, q) = once (k.socket domain type protocol) p in
      elim ret [
        | pos fd ↦ (returned (record { socket = fd; peer_disconnected = false }), q)
        | negsuc n ↦ (throw creation_failed q.errno, q)
      ]

  unfoldable pub adopt : ℤ → Process State → Outcome BaseSocket × Process State
  adopt (pos fd) p = (returned (record { socket = fd; peer_disconnected = false }), p)
  adopt (negsuc n) p = (throw invalid_handle p.errno, p)

  -- `~base_socket`
  unfoldable pub destroy : ℕ → BaseSocket → Process State → Option (Process State)
  unfolding temp_failure_retry
  destroy fuel x p = elim (temp_failure_retry fuel (k.close x.socket) p) [
    | none ↦ none
    | some (ret, q) ↦ some q
  ]

  unfoldable pub send : ℕ → List ℕ → Call ℤ
  unfolding temp_failure_retry
  send fuel buffer x p = elim (temp_failure_retry fuel (k.send x.socket buffer) p) [
    | none ↦ none
    | some (ret, q) ↦
        let sent = to_int ret in
        if is_negative sent
        then (if (q.errno == econnreset) || (q.errno == econnrefused)
            then some (returned sent, record x { peer_disconnected = true }, q)
            else some (throw send_failed q.errno, x, q))
        else some (returned sent, x, q)
  ]

  unfoldable pub disconnect : Call (Unit {0})
  disconnect x p =
      let (ret, q) = once (k.dissolve x.socket) p in
      if is_negative ret
      then (if q.errno == econnreset
          then some (returned tt, record x { peer_disconnected = false }, q)
          else some (throw disconnect_failed q.errno, x, q))
      else some (returned tt, x, q)

  unfoldable pub shutdown : Call (Unit {0})
  shutdown x p =
      let (ret, q) = once (k.shutdown x.socket) p in
      if is_negative ret
      then some (throw shutdown_failed q.errno, x, q)
      else some (returned tt, x, q)
