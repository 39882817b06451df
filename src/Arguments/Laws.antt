-- ===== src/Arguments/Laws.antt =====
-- day1/02_arguments_adv/arguments.c: what the threads print.
use cpp_rt.Prelude.{
  ℕ, ◌+◌, ◌*◌, ◌<◌, ◌≡◌, ◌≢◌, refl, ap, ◌∙◌, sym, List, [], ◌∷◌, put_at, ◌==◌, if◌then◌else◌, arith,
  ℕ_discrete,
}
use mathlib.Core.Path.{subst}
use cpp_rt.Arguments.{
  messages, ThreadData, MainPc, filling, creating, left, failed, WorkerPc, unborn, sleeping, exited,
  System, entry, Step, fill, create, create_fails, leave, print, Reach, here, later,
}

-- The entry of thread `i`: its sum is that of the numbers to `i`.
record IsEntry (i : ℕ) (d : ThreadData) : Type 0 where
  pub id : d.thread_id ≡ i
  pub total : d.sum + d.sum ≡ i * i + i
  pub text : d.message ≡ messages i

-- Each entry that was printed is right.
abbrev pub AreRight : List ThreadData → Type 0
AreRight [] = Unit {0}
AreRight (d ∷ printed) =
    ((d.sum + d.sum ≡ d.thread_id * d.thread_id + d.thread_id) × (d.message ≡ messages d.thread_id))
    × AreRight printed

-- How often thread `i` has printed.
unfoldable pub times : ℕ → List ThreadData → ℕ
times i [] = 0
times i (d ∷ printed) = (if d.thread_id == i then 1 else 0) + times i printed

abbrev pub has_printed : WorkerPc → ℕ
has_printed unborn = 0
has_printed sleeping = 0
has_printed exited = 1

-- The sum of `main`, where the loop stands.
abbrev SumAt : MainPc → ℕ → ℕ → Type 0
SumAt filling t sum = sum + sum + t ≡ t * t
SumAt creating t sum = sum + sum ≡ t * t + t
SumAt left t sum = Unit
SumAt failed t sum = Unit

abbrev EntryAt : MainPc → ℕ → (ℕ → ThreadData) → Type 0
EntryAt creating t array = IsEntry t (array t)
EntryAt p t array = Unit

record Inv (s : System) : Type 0 where
  sum_right : SumAt s.main_pc s.t s.sum
  next : EntryAt s.main_pc s.t s.thread_data_array
  born : (i : ℕ) → s.worker_pc i ≢ unborn → (i < s.t) × IsEntry i (s.thread_data_array i)
  right : AreRight s.printed
  once : (i : ℕ) → times i s.printed ≡ has_printed (s.worker_pc i)

put_at-same : {A : Type 0} (i : ℕ) (a : A) (f : ℕ → A) → put_at i a f i ≡ a
put_at-same i a f = ground arith

put_at-other : {A : Type 0} (i j : ℕ) (a : A) (f : ℕ → A) → i ≢ j → put_at i a f j ≡ f j
put_at-other i j a f ne = ground (arith, ne)

idle-has_printed : (p : WorkerPc) → (p ≢ unborn → ⊥) → has_printed p ≡ 0
idle-has_printed unborn h = refl
idle-has_printed sleeping h = refl
idle-has_printed exited h = absurd (h (λ e. cc))

not_unborn : (p : WorkerPc) → p ≡ sleeping → p ≢ unborn
not_unborn p e q = cc

print_once :
    (d : ThreadData) (i j : ℕ) (printed : List ThreadData) (pc : ℕ → WorkerPc)
    → d.thread_id ≡ i
    → pc i ≡ sleeping
    → times j printed ≡ has_printed (pc j)
    → times j (d ∷ printed) ≡ has_printed (put_at i exited pc j)
unfolding times
print_once d i j printed pc id e once = elim (ℕ_discrete i j) [
  | yes same ↦
      let idle : has_printed (pc j) ≡ 0 =
        ap (λ n. has_printed (pc n)) (sym same) ∙ ap has_printed e in
      ground (arith, same, id, once, idle)
  | no ne ↦ ground (arith, ne, id, once)
]

Step-Inv : (s t : System) → Inv s → Step s t → Inv t
unfolding times
Step-Inv s t inv (fill e lt) =
    let doubled : s.sum + s.sum + s.t ≡ s.t * s.t =
      subst (λ p. SumAt p s.t s.sum) e inv.sum_right in
    let total : (s.sum + s.t) + (s.sum + s.t) ≡ s.t * s.t + s.t = omega (arith, doubled) in
    record {
      sum_right = total;
      next =
          subst (IsEntry s.t) (sym (put_at-same s.t (entry s.t (s.sum + s.t)) s.thread_data_array))
            (record { id = refl; total = total; text = refl });
      born = λ i b.
          let (l, r) = inv.born i b in
          (
            l,
            subst (IsEntry i)
                (sym (
                  put_at-other s.t i (entry s.t (s.sum + s.t)) s.thread_data_array
                    (λ q. omega (arith, l, q))))
                r,
          );
      right = inv.right;
      once = inv.once;
    }
Step-Inv s t inv (create e) =
    let total : s.sum + s.sum ≡ s.t * s.t + s.t = subst (λ p. SumAt p s.t s.sum) e inv.sum_right in
    record {
      sum_right = grind (arith, total);
      next = tt;
      born = λ i b. elim (ℕ_discrete s.t i) [
        | yes same ↦ (
          omega (arith, same),
          subst (λ j. IsEntry j (s.thread_data_array j)) same
              (subst (λ p. EntryAt p s.t s.thread_data_array) e inv.next),
        )
        | no ne ↦
            let (l, r) = inv.born i (λ q. b (put_at-other s.t i sleeping s.worker_pc ne ∙ q)) in
            (omega (arith, l), r)
      ];
      right = inv.right;
      once = λ i. elim (ℕ_discrete s.t i) [
        | yes same ↦
            inv.once i
            ∙ idle-has_printed (s.worker_pc i) (λ b. omega (arith, same, (inv.born i b).0))
            ∙ sym (
                ap has_printed (
                  ap (λ j. put_at j sleeping s.worker_pc i) same
                  ∙ put_at-same i sleeping s.worker_pc))
        | no ne ↦ inv.once i ∙ sym (ap has_printed (put_at-other s.t i sleeping s.worker_pc ne))
      ];
    }
Step-Inv s t inv (create_fails e) = record {
  sum_right = tt;
  next = tt;
  born = inv.born;
  right = inv.right;
  once = inv.once;
}
Step-Inv s t inv (leave e f) = record {
  sum_right = tt;
  next = tt;
  born = inv.born;
  right = inv.right;
  once = inv.once;
}
Step-Inv s t inv (print i alive e) =
    let (l, r) = inv.born i (not_unborn (s.worker_pc i) e) in
    record {
      sum_right = inv.sum_right;
      next = inv.next;
      born = λ j b. elim (ℕ_discrete i j) [
        | yes same ↦ subst (λ n. (n < s.t) × IsEntry n (s.thread_data_array n)) same (l, r)
        | no ne ↦ inv.born j (λ q. b (put_at-other i j exited s.worker_pc ne ∙ q))
      ];
      right =
          ((r.total ∙ ap (λ n. n * n + n) (sym r.id), r.text ∙ ap messages (sym r.id)), inv.right);
      once = λ j. print_once (s.thread_data_array i) i j s.printed s.worker_pc r.id e (inv.once j);
    }

Reach-Inv : {array : ℕ → ThreadData} {s : System} → Reach array s → Inv s
unfolding times
Reach-Inv here = record {
  sum_right = refl;
  next = tt;
  born = λ i b. absurd (b refl);
  right = tt;
  once = λ i. refl;
}
Reach-Inv (later r step) = Step-Inv _ _ (Reach-Inv r) step

-- However `main` and the threads take turns, and whatever the array held at first: every line that
-- was printed has the sum of the numbers up to its thread's number and the message of that thread,
-- and each thread has printed its line once if it has exited, and not at all otherwise.
pub printed-AreRight :
    {array : ℕ → ThreadData} {s : System} (i : ℕ)
    → Reach array s
    → AreRight s.printed × (times i s.printed ≡ has_printed (s.worker_pc i))
printed-AreRight i r = let inv = Reach-Inv r in (inv.right, inv.once i)
