-- ===== src/Process/Protocol.antt =====
-- The order that the calls of a `main` have to keep, whatever the calls answer: what threads need
-- is set up before them, each thread is joined once behind its creation, and what they use is torn
-- down behind the last join.
use cpp_rt.Prelude.{
  ℕ, ◌+◌, ◌-◌, ◌≡◌, refl, sym, ap, ◌∙◌, Bool, true, false, not, ◌&&◌, ◌||◌, ◌==◌, if◌then◌else◌,
  Option, none, some, List, [], ◌∷◌, ◌++◌, map, eqb_ℤ, ℤ, pos, same_some, Option-cases, Bool-cases,
  inl, inr,
}
use mathlib.Core.Path.{subst}
use cpp_rt.Process.{Prog, Trace, System, Ending, returned, exited, blocked, run}
use cpp_rt.Process.Plan.{Item, must, may, Verdict, complete, failed, stuck, follow, ends, Follows}

-- What a call means for the order.
pub data Event : Type 0 where
  setup : Event
  create : ℕ → Event
  stop : ℕ → Event
  join : ℕ → Event
  teardown : Event
  other : Event

-- How many set-ups come before the first thread, how many are not torn down at the end, and whether
-- a thread goes on until it is stopped.
pub record Rules : Type 0 where
  pub setups : ℕ
  pub kept : ℕ
  pub endless : Bool

-- How many set-ups there are, which threads were created and not joined, and which were stopped.
pub record Watch : Type 0 where
  pub ready : ℕ
  pub live : List ℕ
  pub stopped : List ℕ

abbrev pub has : ℕ → List ℕ → Bool
has i [] = false
has i (j ∷ l) = (i == j) || has i l

abbrev pub without : ℕ → List ℕ → List ℕ
without i [] = []
without i (j ∷ l) = if i == j then l else j ∷ without i l

abbrev pub is_empty : List ℕ → Bool
is_empty [] = true
is_empty (i ∷ l) = false

-- An event where it is in order.
abbrev pub watch_event : Rules → Event → Watch → Option Watch
watch_event rules setup w =
    if is_empty w.live then some (record w { ready = w.ready + 1 }) else none
watch_event rules (create i) w =
    if (w.ready == rules.setups) && not (has i w.live)
    then some (record w { live = i ∷ w.live })
    else none
watch_event rules (stop i) w =
    if has i w.live then some (record w { stopped = i ∷ w.stopped }) else none
watch_event rules (join i) w =
    if has i w.live && (not rules.endless || has i w.stopped)
    then some (record w { live = without i w.live })
    else none
watch_event rules teardown w =
    if is_empty w.live && not (w.ready == 0) then some (record w { ready = w.ready - 1 }) else none
watch_event rules other w = some w

-- The events one after the other, if each is in order.
unfoldable pub watch : Rules → List Event → Watch → Option Watch
watch rules [] w = some w
watch rules (e ∷ events) w = elim (watch_event rules e w) [
  | none ↦ none
  | some u ↦ watch rules events u
]

abbrev pub nothing_yet : Watch
nothing_yet = record { ready = 0; live = []; stopped = [] }

abbrev pub calls_of : {C : Type 0} → Trace C → List C
calls_of h = map (λ x. x.0) h

-- How a `main` may end: it returns 0, with each thread joined and so many set-ups left; it exits
-- with EXIT_FAILURE; or a call never returns.
abbrev pub IsOver : Rules → Ending ℕ → Watch → Type 0
IsOver rules (returned status) w = (status ≡ 0) × (w.live ≡ []) × (w.ready ≡ rules.kept)
IsOver rules (exited status) w = status ≡ 1
IsOver rules blocked w = Unit {0}

abbrev pub InOrder : {C : Type 0} → Rules → (C → Event) → Ending ℕ × Trace C → Type 0
InOrder rules event r =
    (w : Watch) × (watch rules (map event (calls_of r.1)) nothing_yet ≡ some w) × IsOver rules r.0 w

-- Whatever the system answers, all the calls of the program are in order.
abbrev pub Respects : {C : Type 0} → Rules → (C → Event) → Prog C ℕ → Type 0
Respects {C} rules event p = (o : System C) → InOrder rules event (run o p [])

abbrev calls : {C : Type 0} → List (Item C) → List C
calls [] = []
calls (must c ∷ plan) = c ∷ calls plan
calls (may c ∷ plan) = c ∷ calls plan

abbrev IsAll : {C : Type 0} → Verdict → List C → Type 0
IsAll complete rest = rest ≡ []
IsAll failed rest = Unit {0}
IsAll stuck rest = Unit {0}

-- A trace has the first calls of a plan, and all of them where the plan was completed.
abbrev Told : {C : Type 0} → List C → Verdict × Trace C → Type 0
Told {C} whole r = (rest : List C) × (calls_of r.1 ++ rest ≡ whole) × IsAll r.0 rest

calls_of-append :
    {C : Type 0} (h : Trace C) (x : C × ℤ) (l : List C)
    → calls_of (h ++ x ∷ []) ++ l ≡ calls_of h ++ x.0 ∷ l
calls_of-append [] x l = refl
calls_of-append (y ∷ h) x l = ap (λ k. y.0 ∷ k) (calls_of-append h x l)

follow-Told :
    {C : Type 0} (o : System C) (plan : List (Item C)) (h : Trace C)
    → Told (calls_of h ++ calls plan) (follow o plan h)
unfolding follow
follow-Told o [] h = ([], refl, refl)
follow-Told o (must c ∷ plan) h = elim (Option-cases (o h c)) [
  | inl e ↦
      let run : follow o (must c ∷ plan) h ≡ (stuck, h) = rw (e, follow) refl in
      subst (Told (calls_of h ++ c ∷ calls plan)) (sym run) (c ∷ calls plan, refl, tt)
  | inr (answer, e) ↦ elim (Bool-cases (eqb_ℤ answer (pos 0))) [
    | inl z ↦
        let run : follow o (must c ∷ plan) h ≡ follow o plan (h ++ (c, answer) ∷ []) =
          rw (e, follow) (rw z refl) in
        subst (Told (calls_of h ++ c ∷ calls plan)) (sym run) (
          subst (λ l. Told l (follow o plan (h ++ (c, answer) ∷ [])))
            (calls_of-append h (c, answer) (calls plan))
            (follow-Told o plan (h ++ (c, answer) ∷ [])))
    | inr z ↦
        let run : follow o (must c ∷ plan) h ≡ (failed, h ++ (c, answer) ∷ []) =
          rw (e, follow) (rw z refl) in
        subst (Told (calls_of h ++ c ∷ calls plan)) (sym run)
          (calls plan, calls_of-append h (c, answer) (calls plan), tt)
  ]
]
follow-Told o (may c ∷ plan) h = elim (Option-cases (o h c)) [
  | inl e ↦
      let run : follow o (may c ∷ plan) h ≡ (stuck, h) = rw (e, follow) refl in
      subst (Told (calls_of h ++ c ∷ calls plan)) (sym run) (c ∷ calls plan, refl, tt)
  | inr (answer, e) ↦
      let run : follow o (may c ∷ plan) h ≡ follow o plan (h ++ (c, answer) ∷ []) =
        rw (e, follow) refl in
      subst (Told (calls_of h ++ c ∷ calls plan)) (sym run) (
        subst (λ l. Told l (follow o plan (h ++ (c, answer) ∷ [])))
          (calls_of-append h (c, answer) (calls plan)) (follow-Told o plan (h ++ (c, answer) ∷ [])))
]

-- The first of some events in order are in order.
watch-first :
    (rules : Rules) (xs ys : List Event) (w v : Watch)
    → watch rules (xs ++ ys) w ≡ some v
    → (u : Watch) × (watch rules xs w ≡ some u) × (watch rules ys u ≡ some v)
unfolding watch
watch-first rules [] ys w v e = (w, refl, e)
watch-first rules (x ∷ xs) ys w v e = elim (Option-cases (watch_event rules x w)) [
  | inl n ↦ absurd (let f = rw (n, watch) at e in cc)
  | inr (t, n) ↦
      let (u, first, last) = watch-first rules xs ys t v (rw (n, watch) at e) in
      (u, rw (n, watch) first, last)
]

map_append : {A B : Type 0} (f : A → B) (xs ys : List A) → map f (xs ++ ys) ≡ map f xs ++ map f ys
map_append f [] ys = refl
map_append f (x ∷ xs) ys = ap (λ l. f x ∷ l) (map_append f xs ys)

-- Where the verdict on a plan says it, all its calls were made.
IsOver-ends :
    {C : Type 0} (rules : Rules) (event : C → Event) (verdict : Verdict) (rest : List C)
    (u v : Watch)
    → IsAll verdict rest
    → watch rules (map event rest) u ≡ some v
    → IsOver rules (returned 0) v
    → IsOver rules (ends 0 verdict) u
unfolding watch
IsOver-ends rules event complete rest u v all e at_end =
    let same : watch rules (map event []) u ≡ some v =
      subst (λ l. watch rules (map event l) u ≡ some v) all e in
    subst (IsOver rules (returned 0)) (sym (same_some same)) at_end
IsOver-ends rules event failed rest u v all e at_end = refl
IsOver-ends rules event stuck rest u v all e at_end = tt

-- A program that follows a plan is in order if the plan is.
pub Follows-Respects :
    {C : Type 0} (rules : Rules) (event : C → Event) {p : Prog C ℕ} {plan : List (Item C)}
    (v : Watch)
    → Follows p plan 0
    → watch rules (map event (calls plan)) nothing_yet ≡ some v
    → IsOver rules (returned 0) v
    → Respects rules event p
Follows-Respects {C} rules event {p} {plan} v f in_order at_end o =
    let (rest, whole, all) = follow-Told o plan [] in
    let r = follow o plan [] in
    let (u, first, last) =
      watch-first rules (map event (calls_of r.1)) (map event rest) nothing_yet v (
        ap (λ l. watch rules l nothing_yet)
          (sym (map_append event (calls_of r.1) rest) ∙ ap (map event) whole)
        ∙ in_order) in
    subst (InOrder rules event) (sym (f.follows o []))
      (u, first, IsOver-ends rules event r.0 rest u v all last at_end)
