-- ===== src/ActiveObject/Logger.antt =====
-- `Logger` and `LoggerAsync` of day2/x_active_object/active_object.h. `ctime i` is the text of the
-- clock at the i-th message. The sleeps are left out; what is printed is a list of lines.
use cpp_rt.Prelude.{
  ℕ, suc, ◌+◌, ◌≡◌, refl, ap, ◌∙◌, sym, ◌==◌, Option, none, some, Option-cases, inl, inr, List, [],
  ◌∷◌, ◌++◌, map, get_or, if◌then◌else◌, append_assoc, append_nil,
}
use cpp_rt.ActiveObject.{ActiveObject, Reach, ended}
use cpp_rt.ActiveObject.Laws.{ended_complete}

-- `time.erase(time.find('\n', 0), 1)`; `none` where there is no newline, which throws.
unfoldable pub erase_newline : List ℕ → Option (List ℕ)
erase_newline [] = none
erase_newline (c ∷ cs) =
    if c == 10
    then some cs
    else (elim (erase_newline cs) [ none ↦ none | some rest ↦ some (c ∷ rest) ])

-- " >> "
abbrev pub arrow : List ℕ
arrow = 32 ∷ 62 ∷ 62 ∷ 32 ∷ []

abbrev pub Line : Type 0
Line = List ℕ

-- What the lambda of `LoggerAsync::message` captures.
pub record Closure : Type 0 where
  pub time : List ℕ
  pub msg : List ℕ

unfoldable pub line : List ℕ → List ℕ → Line
line time msg = time ++ (arrow ++ msg)

-- The body of the lambda.
unfoldable pub call : Closure → Line
unfolding line
call c = line c.time c.msg

module _ (ctime : ℕ → List ℕ) where
  -- `Logger::message`, for the i-th message: what it has printed behind it.
  unfoldable pub message : ℕ → List ℕ → List Line → Option (List Line)
  unfolding erase_newline line
  message i msg out = elim (erase_newline (ctime i)) [
    | none ↦ none
    | some time ↦ some (out ++ line time msg ∷ [])
  ]

  -- `LoggerAsync::message` up to `Send`: the closure that it sends.
  unfoldable pub message_async : ℕ → List ℕ → Option Closure
  unfolding erase_newline
  message_async i msg = elim (erase_newline (ctime i)) [
    | none ↦ none
    | some time ↦ some (record { time = time; msg = msg })
  ]

  abbrev pub with_first : Closure → Option (List Closure) → Option (List Closure)
  with_first c none = none
  with_first c (some cs) = some (c ∷ cs)

  -- A program that logs these messages, the first one as the i-th: with a `Logger`, and the
  -- closures that it sends with a `LoggerAsync`.
  unfoldable pub log : ℕ → List (List ℕ) → List Line → Option (List Line)
  unfolding message
  log i [] out = some out
  log i (msg ∷ msgs) out = elim (message i msg out) [
    | none ↦ none
    | some more ↦ log (i + 1) msgs more
  ]

  unfoldable pub log_async : ℕ → List (List ℕ) → Option (List Closure)
  unfolding message_async
  log_async i [] = some []
  log_async i (msg ∷ msgs) = elim (message_async i msg) [
    | none ↦ none
    | some c ↦ with_first c (log_async (i + 1) msgs)
  ]

  abbrev appended : List Line → Option (List Closure) → Option (List Line)
  appended out none = none
  appended out (some cs) = some (out ++ map call cs)

  appended-with_first :
      (out : List Line) (c : Closure) (o : Option (List Closure))
      → appended (out ++ call c ∷ []) o ≡ appended out (with_first c o)
  appended-with_first out c none = refl
  appended-with_first out c (some cs) = ap some (append_assoc out (call c ∷ []) (map call cs))

  log-calls :
      (i : ℕ) (msgs : List (List ℕ)) (out : List Line)
      → log i msgs out ≡ appended out (log_async i msgs)
  unfolding log log_async message message_async call
  log-calls i [] out = ap some (sym (append_nil out))
  log-calls i (msg ∷ msgs) out = elim (Option-cases (erase_newline (ctime i))) [
    | inl e ↦ rw (e, log, log_async, message, message_async) refl
    | inr (time, e) ↦
        rw (e, log, log_async, message, message_async)
          (log-calls (i + 1) msgs (out ++ line time msg ∷ [])
            ∙ appended-with_first out (record { time = time; msg = msg }) (log_async (i + 1) msgs))
  ]

-- The active object knows the closures by their places, 0, 1, ….
unfoldable pub places : List Closure → List ℕ
places [] = []
places (c ∷ cs) = 0 ∷ map suc (places cs)

abbrev pub no_closure : Closure
no_closure = record { time = []; msg = [] }

-- What the worker has printed when it has run these tasks.
unfoldable pub printed : List Closure → List ℕ → List Line
unfolding call
printed cs ran = map (λ k. call (get_or cs k no_closure)) ran

map-map : {A : Type 0} (f : ℕ → A) (g : ℕ → ℕ) (l : List ℕ) → map f (map g l) ≡ map (λ k. f (g k)) l
map-map f g [] = refl
map-map f g (x ∷ l) = ap (λ r. f (g x) ∷ r) (map-map f g l)

printed-places : (cs : List Closure) → printed cs (places cs) ≡ map call cs
unfolding printed places
printed-places [] = refl
printed-places (c ∷ cs) =
    ap (λ r. call c ∷ r)
      (map-map (λ k. call (get_or (c ∷ cs) k no_closure)) suc (places cs) ∙ printed-places cs)

-- `LoggerAsync` logs what `Logger` does: for the same messages and texts of the clock, once the
-- destructor of the active object returns, the worker has printed the lines that `Logger` prints,
-- in the same order, however the threads took turns.
pub log_async-log :
    (ctime : ℕ → List ℕ) (msgs : List (List ℕ)) (cs : List Closure) (s : ActiveObject)
    → log_async ctime 0 msgs ≡ some cs
    → Reach (places cs) s
    → s.ao_worker ≡ ended
    → log ctime 0 msgs [] ≡ some (printed cs s.ran)
log_async-log ctime msgs cs s sent r e =
    log-calls ctime 0 msgs []
    ∙ ap (appended ctime []) sent
    ∙ ap some (sym (printed-places cs) ∙ ap (printed cs) (sym (ended_complete (places cs) s r e).0))
