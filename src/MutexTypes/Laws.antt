-- ===== src/MutexTypes/Laws.antt =====
-- day2/06_mutex_type/pthread_mutex_type.c: how the thread ends with each kind of mutex.
use cpp_rt.Prelude.{
  ℕ, suc, ◌+◌, ◌-◌, ◌≡◌, refl, Option, none, some, [], ◌∷◌, ℤ, pos, eqb_ℤ, if◌then◌else◌,
}
use cpp_rt.Process.{Trace, System, Ending, returned, exited, blocked, run}
use cpp_rt.Process.Plan.{must, may, Follows, must-Follows, may-Follows, done-Follows, ◌⨟◌}
use cpp_rt.MutexTypes.{
  Kind, normal, errorcheck, recursive, attr_init, settype, init, create, join, ThreadCall, lock,
  unlock, watek, kind_of, main,
}

abbrev pub edeadlk : ℤ
edeadlk = pos 35

-- How often the thread holds the mutex behind the calls of a trace.
unfoldable pub depth : ℕ → Trace ThreadCall → ℕ
depth d [] = d
depth d ((lock, answer) ∷ h) = if eqb_ℤ answer (pos 0) then depth (d + 1) h else depth d h
depth d ((unlock, answer) ∷ h) = if eqb_ℤ answer (pos 0) then depth (d - 1) h else depth d h

-- What a thread is answered that locks a mutex that it holds.
abbrev pub relock : Kind → Option ℤ
relock normal = none
relock errorcheck = some edeadlk
relock recursive = some (pos 0)

-- The thread library, for a mutex of a kind that no other thread uses.
pub record IsMutex (kind : Kind) (o : System ThreadCall) : Type 0 where
  pub lock_free : (h : Trace ThreadCall) → depth 0 h ≡ 0 → o h lock ≡ some (pos 0)
  pub lock_held : (h : Trace ThreadCall) (d : ℕ) → depth 0 h ≡ suc d → o h lock ≡ relock kind
  pub unlock_held : (h : Trace ThreadCall) (d : ℕ) → depth 0 h ≡ suc d → o h unlock ≡ some (pos 0)

abbrev pub ok : ThreadCall → ThreadCall × ℤ
ok c = (c, pos 0)

-- How the thread ends, and what it has called.
abbrev pub fate : Kind → Ending ℕ × Trace ThreadCall
fate normal = (blocked, ok lock ∷ [])
fate errorcheck = (exited 1, ok lock ∷ (lock, edeadlk) ∷ [])
fate recursive = (returned 0, ok lock ∷ ok lock ∷ ok unlock ∷ ok unlock ∷ [])

-- A thread that locks its mutex twice blocks for ever with a normal mutex, ends the program with
-- EXIT_FAILURE and the mutex locked once with one that checks errors, and with a recursive one goes
-- through and has unlocked it as often as it locked it.
pub watek-ends : (kind : Kind) (o : System ThreadCall) → IsMutex kind o → run o watek [] ≡ fate kind
unfolding run watek depth
watek-ends normal o m = rw (m.lock_free [] refl) (rw (m.lock_held (ok lock ∷ []) 0 refl) refl)
watek-ends errorcheck o m = rw (m.lock_free [] refl) (rw (m.lock_held (ok lock ∷ []) 0 refl) refl)
watek-ends recursive o m = rw (m.lock_free [] refl) (
    rw (m.lock_held (ok lock ∷ []) 0 refl) (
      rw (m.unlock_held (ok lock ∷ ok lock ∷ []) 1 refl)
        (rw (m.unlock_held (ok lock ∷ ok lock ∷ ok unlock ∷ []) 0 refl) refl)))

-- With an argument, `main` gives the mutex the kind that the argument chooses before it makes it,
-- and makes the mutex before the thread.
main-some :
    (z : ℤ)
    → Follows
        (main (some z))
        (may attr_init ∷ may (settype (kind_of z)) ∷ must init ∷ must create ∷ may join ∷ [])
        0
unfolding main
main-some z =
    may-Follows _ ⨟ may-Follows _ ⨟ must-Follows _ ⨟ must-Follows _ ⨟ may-Follows _ ⨟ done-Follows 0
