-- ===== src/Rwlock/Locks.antt =====
-- The calls of the lock of day2/07a_rwlock_tree/pthread_rwlock.cpp, and the keys of its writer.
use cpp_rt.Prelude.{
  ℕ, zero, suc, ◌+◌, ◌-◌, ◌<◌, ◌≡◌, ◌↔◌, refl, ap, Bool, true, false, some, List, [], ◌∷◌, ℤ, pos,
  length, arith, same_some, Option,
}
use cpp_rt.Btree.Object.{Rwlock, wrlock, rdlock, unlock}
use cpp_rt.Btree.Laws.{count_key}

-- The keys that the writer has inserted, the newest first.
abbrev pub keys : ℕ → List ℤ
keys zero = []
keys (suc n) = pos n ∷ keys n

pub length-keys : (n : ℕ) → length (keys n) ≡ n
length-keys zero = refl
length-keys (suc n) = ap suc (length-keys n)

pub count_key-keys : (q n : ℕ) → (0 < count_key (pos q) (keys n)) ↔ (q < n)
unfolding count_key
count_key-keys q zero = ground arith
count_key-keys q (suc n) = ground (arith, count_key-keys q n)

abbrev pub AllBelow : ℕ → List ℕ → Type 0
AllBelow n [] = Unit {0}
AllBelow n (q ∷ found) = (q < n) × AllBelow n found

pub AllBelow-more : (n : ℕ) (found : List ℕ) → AllBelow n found → AllBelow (n + 1) found
AllBelow-more n [] a = tt
AllBelow-more n (q ∷ found) (lt, a) = (omega (arith, lt), AllBelow-more n found a)

-- A lock by its parts, and what its calls do.
abbrev pub lock_of : Bool → ℕ → Rwlock
lock_of w r = record { writing = w; readers = r }

pub wrlock-Locked :
    (w : Bool) (r : ℕ) (l : Rwlock)
    → wrlock (lock_of w r) ≡ some l
    → (w ≡ false) × (r ≡ 0) × (lock_of true 0 ≡ l)
wrlock-Locked true r l e = absurd cc
wrlock-Locked false zero l e = (refl, refl, same_some e)
wrlock-Locked false (suc r) l e = absurd (ground (arith, e))

pub rdlock-Locked :
    (w : Bool) (r : ℕ) (l : Rwlock)
    → rdlock (lock_of w r) ≡ some l
    → (w ≡ false) × (lock_of false (r + 1) ≡ l)
rdlock-Locked true r l e = absurd cc
rdlock-Locked false r l e = (refl, same_some e)

pub unlock-written :
    (w : Bool) (r : ℕ) (l : Rwlock) → w ≡ true → unlock (lock_of w r) ≡ some l → lock_of false r ≡ l
unlock-written true r l h e = same_some e
unlock-written false r l h e = absurd cc

pub unlock-read :
    (w : Bool) (r : ℕ) (l : Rwlock)
    → (w ≡ true → r ≡ 0)
    → 0 < r
    → unlock (lock_of w r) ≡ some l
    → (w ≡ false) × (lock_of false (r - 1) ≡ l)
unlock-read true r l h lt e = absurd (omega (arith, h refl, lt))
unlock-read false zero l h lt e = absurd (omega (arith, lt))
unlock-read false (suc r) l h lt e =
    let run : ◌≡◌ {A = Option Rwlock} (some (lock_of false (suc r - 1))) (some l) =
      ground (arith, e) in
    (refl, same_some run)
