-- ===== src/Collection/TimingWheel/Moves.antt =====
-- The ticks ahead of a task after `moveTask`: they are wrong by one round when the hand stands
-- between the slot of the entry and the slot that it is moved to.
use go_zero.Prelude.{
  ℕ, ◌+◌, ◌-◌, ◌*◌, ◌/◌, ◌%◌, ◌≤◌, ◌<◌, ◌≡◌, ◌↔◌, inl, inr, refl, ap, ltb, leb, Bool, true, false,
  [], some, arith, lookup, Bool-cases, mod-lt, le-div_iff_mul-le,
}
use go_zero.Collection.TimingWheel.{Position, TimingWheel, move_task, get_position_and_circle}
use go_zero.Collection.TimingWheel.Home.{Homed}
use go_zero.Collection.TimingWheel.Ahead.{distance}
use go_zero.Collection.TimingWheel.Calls.{distance-steps}
use go_zero.Collection.TimingWheel.Moved.{
  late, early, move_on-exact, move_back-exact, replace-exact, MovedTo, rewritten, replaced,
}

module _ {K V : Type 0} (same : K → K → Bool)
    (same_iff : (a b : K) → (same a b ≡ true) ↔ (a ≡ b)) where
  module _ (w : TimingWheel K V) (key : K) (t : Position) (h : Homed same w)
      (its : lookup same key w.timers ≡ some t) where
    -- `moveTask` with a delay of at least the interval executes nothing, changes no other task, and
    -- leaves the task the steps of the delay ahead; but one round too much if the hand stands from the
    -- old slot on and before the new one, and one round too few if it stands from the new slot on and
    -- before the old one and the delay is longer than a round.
    pub move_task-moves :
        (delay : ℕ)
        → 0 < w.interval
        → w.interval ≤ delay
        → (let steps = delay / w.interval in
            let pos = (w.ticked_pos + steps) % w.num_slots in
            let w' = (move_task same w key delay).0 in
            Homed same w'
            × ((move_task same w key delay).1 ≡ [])
            × (x : ℕ) × MovedTo same same_iff w w' key (w.items t.item).value x
            × (x + early w.num_slots w.ticked_pos t.pos pos steps
                ≡ steps + late w.num_slots w.ticked_pos t.pos pos))
    unfolding move_task get_position_and_circle
    move_task-moves delay hi long = elim (Bool-cases (leb t.pos pos)) [
      | inl e ↦
          let (home, moved) =
            rewritten same same_iff w key t h its c (pos - t.pos) (omega (arith, pos_lt)) in
          rw (its, not_soon, e, move_task)
            (
              home,
              refl,
              distance n w.ticked_pos t.pos + (c * n + (pos - t.pos)),
              moved,
              move_on-exact n w.ticked_pos t.pos pos c (c * n) steps h.in_wheel t_lt pos_lt e exact,
            )
      | inr e ↦ elim (Bool-cases (ltb 0 c)) [
        | inl more ↦
            let (home, moved) =
              rewritten same same_iff w key t h its (c - 1) ((n + pos) - t.pos)
                (ground (arith, pos_lt, t_lt)) in
            rw (its, not_soon, e, more, move_task)
              (
                home,
                refl,
                distance n w.ticked_pos t.pos + ((c - 1) * n + ((n + pos) - t.pos)),
                moved,
                move_back-exact n w.ticked_pos t.pos pos c ((c - 1) * n) steps h.in_wheel t_lt
                    pos_lt e more (omega (arith, exact, times c ((c - 1) + 1) (ground arith))),
              )
        | inr last ↦
            let (home, moved) = replaced same same_iff w key t h its pos pos_lt in
            rw (its, not_soon, e, last, move_task)
              (
                home,
                refl,
                distance n w.ticked_pos pos,
                moved,
                replace-exact n w.ticked_pos t.pos pos c steps h.in_wheel t_lt pos_lt e last
                    (omega (arith, exact, times c 0 (ground arith))),
              )
      ]
    ]
      where
        n : ℕ
        n = w.num_slots

        steps : ℕ
        steps = delay / w.interval

        pos : ℕ
        pos = (w.ticked_pos + steps) % n

        c : ℕ
        c = (steps - 1) / n

        pos_lt : pos < n
        pos_lt = mod-lt (w.ticked_pos + steps) (omega (arith, h.in_wheel))

        t_lt : t.pos < n
        t_lt = (h.found key t its).0

        not_soon : ltb delay w.interval ≡ false
        not_soon = ground arith

        exact : distance n w.ticked_pos pos + c * n ≡ steps
        exact =
            distance-steps n w.ticked_pos steps h.in_wheel
              ((le-div_iff_mul-le hi).1 (omega (arith, long)))

        times : (a b : ℕ) → a ≡ b → a * n ≡ b * n
        times a b e = ap (λ k. k * n) e
