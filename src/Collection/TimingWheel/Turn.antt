-- ===== src/Collection/TimingWheel/Turn.antt =====
-- A tick executes the tasks that are due and brings the others one tick nearer.
use go_zero.Prelude.{
  ℕ, zero, suc, ◌+◌, ◌-◌, ◌%◌, ◌<◌, ◌==◌, ◌≡◌, ◌≢◌, ◌↔◌, inl, inr, refl, sym, ap, ◌∙◌, subst, Bool,
  true, false, [], Option, none, some, arith, Among, lookup, Bool-cases, Option-cases, ==_iff,
  eq_of_some, mod-lt,
}
use go_zero.Collection.TimingWheel.{Position, TimingWheel, slot, on_tick}
use go_zero.Collection.TimingWheel.Home.{Homed}
use go_zero.Collection.TimingWheel.Ahead.{
  distance, has, has_iff, due, timer_due, pending_in, pending, after_tick, minus_one,
  minus_one-some, drop_zero, drop_zero-minus_one, distance-next, distance-here, distance-positive,
}
use go_zero.Collection.TimingWheel.Tick.{scan_and_run_tasks-Run, pending-positive}

module _ {K V : Type 0} (same : K → K → Bool)
    (same_iff : (a b : K) → (same a b ≡ true) ↔ (a ≡ b)) where
  module _ (w : TimingWheel K V) (h : Homed same w) where
    -- The wheel with its hand moved on.
    turned : TimingWheel K V
    turned = record w { ticked_pos = (w.ticked_pos + 1) % w.num_slots }

    turned-Homed : Homed same turned
    unfolding turned
    turned-Homed = record {
      in_wheel = mod-lt (w.ticked_pos + 1) (omega (arith, h.in_wheel));
      sized = h.sized;
      kept = h.kept;
      found = h.found;
      once = h.once;
      allocated = h.allocated;
    }

    due-turned :
        (k : K) (t : Position)
        → lookup same k w.timers ≡ some t
        → due same turned (slot same w turned.ticked_pos) t ≡ due same w [] t - 1
    unfolding due turned has
    due-turned k t e =
        let (low, a, live, named, _) = h.found k t e in
        elim (Bool-cases (t.pos == (w.ticked_pos + 1) % w.num_slots)) [
          | inl at ↦
              let here : t.pos ≡ (w.ticked_pos + 1) % w.num_slots =
                (==_iff t.pos ((w.ticked_pos + 1) % w.num_slots)).0 at in
              rw
                ((has_iff t.item (slot same w ((w.ticked_pos + 1) % w.num_slots))).1
                  (subst (λ p. Among t.item (slot same w p)) here a))
                (omega (
                  arith,
                  ap (distance w.num_slots w.ticked_pos) here
                      ∙ distance-here w.num_slots w.ticked_pos h.in_wheel,
                ))
          | inr at ↦
              let away : t.pos ≢ (w.ticked_pos + 1) % w.num_slots =
                λ p. cc (at, (==_iff t.pos ((w.ticked_pos + 1) % w.num_slots)).1 p) in
              rw (not_here low a live named away) (
                omega (
                  arith,
                  distance-positive w.num_slots w.ticked_pos t.pos h.in_wheel,
                  distance-next w.num_slots w.ticked_pos t.pos h.in_wheel low away,
                ))
        ]
      where
        not_here :
            t.pos < w.num_slots
            → Among t.item (slot same w t.pos)
            → (w.items t.item).removed ≡ false
            → (w.items t.item).key ≡ k
            → t.pos ≢ (w.ticked_pos + 1) % w.num_slots
            → has t.item (slot same w ((w.ticked_pos + 1) % w.num_slots)) ≡ false
        not_here low a live named away =
            elim (Bool-cases (has t.item (slot same w ((w.ticked_pos + 1) % w.num_slots)))) [
              | inr f ↦ f
              | inl f ↦ absurd (
                  away (
                    ap (λ (s : Position). s.pos)
                      (eq_of_some (
                        sym e
                        ∙ ap (λ j. lookup same j w.timers) (sym named)
                        ∙ h.kept ((w.ticked_pos + 1) % w.num_slots) t.item
                            (mod-lt (w.ticked_pos + 1) (omega (arith, h.in_wheel)))
                            ((has_iff t.item (slot same w ((w.ticked_pos + 1) % w.num_slots))).0 f)
                            live))))
            ]

    pending-turned :
        (k : K)
        → pending_in same turned (slot same w turned.ticked_pos) k ≡ minus_one (pending same w k)
    unfolding pending_in pending timer_due turned
    pending-turned k = elim (Option-cases (lookup same k w.timers)) [
      | inl e ↦ rw e refl
      | inr (t, e) ↦ rw e (
          minus_one-some (w.items t.item).value (due same turned (slot same w turned.ticked_pos) t)
            (due same w [] t) (due-turned k t e))
    ]

    one_left :
        (o : Option (V × ℕ)) (v : V)
        → ((u : V) (n : ℕ) → o ≡ some (u, n) → 0 < n)
        → (minus_one o ≡ some (v, 0)) ↔ (o ≡ some (v, 1))
    one_left none v pos = ((λ e. cc), (λ e. cc))
    one_left (some (u, zero)) v pos = absurd (omega (arith, pos u 0 refl))
    one_left (some (u, suc zero)) v pos = ((λ e. cc), (λ e. cc))
    one_left (some (u, suc (suc n))) v pos = ((λ e. cc), (λ e. cc))

    -- A tick executes the tasks that have one tick left, and no other, and brings every other task
    -- one tick nearer. Every pending entry stands in one slot, before the tick and after it.
    pub on_tick-pending :
        Homed same (on_tick same w).0
        × ((k : K) → pending same (on_tick same w).0 k ≡ after_tick (pending same w k))
        × ((k : K) (v : V) → Among (k, v) (on_tick same w).1 ↔ (pending same w k ≡ some (v, 1)))
    unfolding on_tick turned pending
    on_tick-pending =
        let r =
          scan_and_run_tasks-Run same same_iff (slot same w turned.ticked_pos) turned turned-Homed
            (λ x a. a) (h.once turned.ticked_pos turned-Homed.in_wheel) in
        (
          r.homed,
          (λ k.
              r.left k ∙ ap drop_zero (pending-turned k) ∙ drop_zero-minus_one (pending same w k)),
          (λ k v.
              let one =
                one_left (pending same w k) v
                  (λ u n e. pending-positive same same_iff w k u n h e) in
              (
                (λ a. one.0 (sym (pending-turned k) ∙ (r.ran k v).0 a)),
                (λ e. (r.ran k v).1 (pending-turned k ∙ one.1 e)),
              )),
        )
