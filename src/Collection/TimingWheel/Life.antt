-- ===== src/Collection/TimingWheel/Life.antt =====
-- From the call that sets a task to the tick that executes it.
use go_zero.Prelude.{
  ℕ, zero, suc, ◌-◌, ◌<◌, ◌==◌, ◌||◌, ◌≡◌, ◌↔◌, inl, inr, refl, sym, ap, ap₂, ◌∙◌, subst, Bool,
  true, [], none, some, arith, Among, NoDup, lookup, Bool-cases, eq_of_some, length-replicate,
  get_or-replicate,
}
use go_zero.Collection.TimingWheel.{Entry, TimingWheel, set_task, on_tick, new_timing_wheel}
use go_zero.Collection.TimingWheel.Home.{Homed}
use go_zero.Collection.TimingWheel.Ahead.{timer_due, pending_in, pending, after_tick}
use go_zero.Collection.TimingWheel.Calls.{steps, steps-positive, set_task-pending}
use go_zero.Collection.TimingWheel.Turn.{on_tick-pending}

module _ {K V : Type 0} (same : K → K → Bool) where
  -- A number of ticks.
  unfoldable pub ticks : ℕ → TimingWheel K V → TimingWheel K V
  ticks zero w = w
  ticks (suc j) w = ticks j (on_tick same w).0

  -- A new wheel is in order and holds nothing.
  pub new_timing_wheel-Homed :
      (interval n : ℕ) (memory : ℕ → Entry K V) (w : TimingWheel K V)
      → new_timing_wheel same interval n memory ≡ some w
      → Homed same w × (0 < w.interval) × ((k : K) → pending same w k ≡ none)
  unfolding new_timing_wheel pending pending_in timer_due lookup
  new_timing_wheel-Homed interval n memory w made =
      elim (Bool-cases ((interval == 0) || (n == 0))) [
        | inl e ↦ absurd (cc (rw (e, new_timing_wheel) at made))
        | inr e ↦
            subst (λ x. Homed same x × (0 < x.interval) × ((k : K) → pending same x k ≡ none))
              (eq_of_some (rw (e, new_timing_wheel) at made))
              (
                record {
                  in_wheel = ground (arith, e);
                  sized = length-replicate n [];
                  kept = λ p id hp a r. absurd (subst (Among id) (get_or-replicate n [] p) a);
                  found = λ k t f. cc;
                  once = λ p hp. subst NoDup (sym (get_or-replicate n [] p)) tt;
                  allocated = λ p id hp a. absurd (subst (Among id) (get_or-replicate n [] p) a);
                },
                ground (arith, e),
                λ k. refl,
              )
      ]

  module _ (same_iff : (a b : K) → (same a b ≡ true) ↔ (a ≡ b)) where
    ticks-none :
        (j : ℕ) (w : TimingWheel K V) (k : K) (u : V)
        → Homed same w
        → pending same w k ≡ none
        → ¬ Among (k, u) (on_tick same (ticks j w)).1
    unfolding ticks
    ticks-none zero w k u h e a =
        let (_, _, ran) = on_tick-pending same same_iff w h in cc (e, (ran k u).0 a)
    ticks-none (suc j) w k u h e a =
        let (home, left, _) = on_tick-pending same same_iff w h in
        ticks-none j (on_tick same w).0 k u home (left k ∙ ap after_tick e) a

    -- A task with `n + 1` ticks ahead is executed by the tick after `n` others, and by no other one.
    pub ticks-executes :
        (j n : ℕ) (w : TimingWheel K V) (k : K) (v u : V)
        → Homed same w
        → pending same w k ≡ some (v, suc n)
        → Among (k, u) (on_tick same (ticks j w)).1 ↔ ((j ≡ n) × (u ≡ v))
    unfolding ticks
    ticks-executes zero n w k v u h e =
        let (_, _, ran) = on_tick-pending same same_iff w h in
        (
          (λ a.
              let both : some (v, suc n) ≡ some (u, 1) = sym e ∙ (ran k u).0 a in
              (
                omega (arith, ap (λ (x : V × ℕ). x.1) (eq_of_some both)),
                sym (ap (λ (x : V × ℕ). x.0) (eq_of_some both)),
              )),
          (λ p. (ran k u).1 (e ∙ ap₂ (λ a b. some (a, suc b)) (sym (p.1)) (sym (p.0)))),
        )
    ticks-executes (suc j) zero w k v u h e =
        let (home, left, _) = on_tick-pending same same_iff w h in
        (
          (λ a. absurd (ticks-none j (on_tick same w).0 k u home (left k ∙ ap after_tick e) a)),
          (λ p. absurd (omega (arith, p.0))),
        )
    ticks-executes (suc j) (suc n) w k v u h e =
        let (home, left, _) = on_tick-pending same same_iff w h in
        let ih = ticks-executes j n (on_tick same w).0 k v u home (left k ∙ ap after_tick e) in
        ((λ a. let (x, y) = ih.0 a in (ap suc x, y)), (λ p. ih.1 (omega (arith, p.0), p.1)))

    -- A task that is set under a new key is executed by the tick that ends the steps of its delay,
    -- with its value, and by no other tick, as long as no call changes it.
    pub set_task-executes :
        (w : TimingWheel K V) (key : K) (value : V) (delay j : ℕ) (u : V)
        → Homed same w
        → 0 < w.interval
        → lookup same key w.timers ≡ none
        → Among (key, u) (on_tick same (ticks j (set_task same w key value delay).0)).1
          ↔ ((suc j ≡ steps same same_iff w delay) × (u ≡ value))
    set_task-executes w key value delay j u h hi free =
        let (home, _, now) = set_task-pending same same_iff w key value delay h hi free in
        let more : steps same same_iff w delay ≡ suc (steps same same_iff w delay - 1) =
          omega (arith, steps-positive same same_iff w delay hi) in
        let iff =
          ticks-executes j (steps same same_iff w delay - 1) (set_task same w key value delay).0 key
            value u home
            (now key ∙ rw ((same_iff key key).1 refl) (ap (λ n. some (value, n)) more)) in
        (
          (λ a. let (x, y) = iff.0 a in (ap suc x ∙ sym more, y)),
          (λ p. iff.1 (omega (arith, p.0), p.1)),
        )
