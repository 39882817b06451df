-- ===== src/Pi/Laws.antt =====
-- day2/ex_pi: how many hits there can be, and the threads compared with the single function.
use cpp_rt.Prelude.{ℕ, zero, suc, ◌+◌, ◌≡◌, sym, ap, ◌∙◌, Bool, some, put_at, arith, same_some}
use native.Mathlib.Nat.{div-one}
use cpp_rt.Pi.{
  Pc, drawing_x, drawing_y, finished, move, System, Step, act, Reach, here, later, darts,
  darts_loop, counted,
}

module _ (Gen : Type 0) (rg : Gen → ℕ × Gen) (is_hit : ℕ → ℕ → Bool) where
  -- The most hits that a thread can still end with.
  abbrev limit : Pc Gen rg is_hit → ℕ
  limit (drawing_x rounds p) = p + rounds
  limit (drawing_y rounds p x) = p + (rounds + 1)
  limit (finished p) = p

  -- What thread 0 will have counted, with the generator behind it, if it goes on alone.
  abbrev outcome : Pc Gen rg is_hit → Gen → ℕ × Gen
  outcome (drawing_x rounds p) gen = darts_loop Gen rg is_hit rounds p gen
  outcome (drawing_y rounds p x) gen =
      let (y, gen1) = rg gen in darts_loop Gen rg is_hit rounds (counted Gen rg is_hit x y p) gen1
  outcome (finished p) gen = (p, gen)

  move-outcome :
      (gen : Gen) (p : Pc Gen rg is_hit) (r : Gen × Pc Gen rg is_hit)
      → move Gen rg is_hit gen p ≡ some r
      → outcome r.1 r.0 ≡ outcome p gen
  unfolding move darts_loop
  move-outcome gen (drawing_x zero p) r e = sym (ap (λ o. outcome o.1 o.0) (same_some e))
  move-outcome gen (drawing_x (suc rounds) p) r e = sym (ap (λ o. outcome o.1 o.0) (same_some e))
  move-outcome gen (drawing_y rounds p x) r e = sym (ap (λ o. outcome o.1 o.0) (same_some e))
  move-outcome gen (finished p) r e = absurd cc

  Step-outcome :
      (s t : System Gen rg is_hit)
      → Step Gen rg is_hit 1 s t
      → outcome (t.pc 0) t.gen ≡ outcome (s.pc 0) s.gen
  Step-outcome s t (act i gen p lt e) =
      let first : i ≡ 0 = omega (arith, lt) in
      ap (λ j. outcome (put_at j p s.pc 0) gen) first
      ∙ move-outcome s.gen (s.pc 0) (gen, p)
          (ap (λ j. move Gen rg is_hit s.gen (s.pc j)) (sym first) ∙ e)

  Reach-outcome :
      {k : ℕ} {gen : Gen} {s : System Gen rg is_hit}
      → Reach Gen rg is_hit 1 k gen s
      → outcome (s.pc 0) s.gen ≡ darts Gen rg is_hit k gen
  unfolding darts
  Reach-outcome {k} {gen} here = ap (λ n. darts_loop Gen rg is_hit n 0 gen) (div-one k)
  Reach-outcome {k} (later {s} {t} r step) = Step-outcome s t step ∙ Reach-outcome r

  -- With one thread the result is that of `darts` from the same state of the generator.
  pub one_thread-darts :
      {num_darts p : ℕ} {gen : Gen} {s : System Gen rg is_hit}
      → Reach Gen rg is_hit 1 num_darts gen s
      → s.pc 0 ≡ finished p
      → (p, s.gen) ≡ darts Gen rg is_hit num_darts gen
  one_thread-darts {s} r e = ap (λ q. outcome q s.gen) (sym e) ∙ Reach-outcome r
