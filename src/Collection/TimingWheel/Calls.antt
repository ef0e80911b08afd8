-- ===== src/Collection/TimingWheel/Calls.antt =====
-- The pending tasks after `setTask` with a new key, and after `removeTask`.
use go_zero.Prelude.{
  ℕ, ◌+◌, ◌-◌, ◌*◌, ◌/◌, ◌%◌, ◌<◌, ◌≡◌, ◌↔◌, inl, inr, refl, sym, ap, ◌∙◌, ltb, if◌then◌else◌, Bool,
  true, false, List, [], Option, none, some, arith, lookup, erase, lookup-insert, lookup-erase,
  Bool-cases, Option-cases, mod-lt, mod-eq_of_lt, div-add-mod', add-mul-mod_self_right,
  add-mod_right, le-div_iff_mul-le,
}
use go_zero.Collection.TimingWheel.{
  Entry, Position, TimingWheel, set_timer_position, place, set_task, remove_task, mark_removed,
  get_position_and_circle,
}
use go_zero.Collection.TimingWheel.Home.{Homed}
use go_zero.Collection.TimingWheel.Kept.{write_self, write-ne, write-part}
use go_zero.Collection.TimingWheel.Linked.{place-Homed, remove_task-Homed}
use go_zero.Collection.TimingWheel.Ahead.{
  distance, has, due, timer_due, pending_in, pending, distance_self, distance-ahead,
}

-- A slot and a number of rounds stand for the number of steps from which they were computed.
pub distance-steps :
    (n hand s : ℕ) → hand < n → 0 < s → distance n hand ((hand + s) % n) + ((s - 1) / n) * n ≡ s
distance-steps n hand s h pos =
    ap (λ p. distance n hand p + q * n) round ∙ elim (Bool-cases (ltb (r + 1) n)) [
      | inl e ↦
          ap (λ d. d + q * n) (distance-ahead n hand (r + 1) h (omega arith) (ground arith))
          ∙ omega (arith, whole)
      | inr e ↦
          let full : r + 1 ≡ n = ground (arith, r_lt) in
          ap (λ p. distance n hand p + q * n)
            (ap (λ k. (hand + k) % n) full ∙ add-mod_right hand n ∙ mod-eq_of_lt h)
          ∙ ap (λ d. d + q * n) (distance_self n hand h)
          ∙ omega (arith, whole, full)
    ]
  where
    q : ℕ
    q = (s - 1) / n

    r : ℕ
    r = (s - 1) % n

    whole : q * n + r ≡ s - 1
    whole = div-add-mod' (s - 1) n

    r_lt : r < n
    r_lt = mod-lt (s - 1) (omega (arith, h))

    round : (hand + s) % n ≡ (hand + (r + 1)) % n
    round = ap (λ k. k % n) (omega (arith, whole)) ∙ add-mul-mod_self_right (hand + (r + 1)) q n

module _ {K V : Type 0} (same : K → K → Bool)
    (same_iff : (a b : K) → (same a b ≡ true) ↔ (a ≡ b)) where
  pub pending-place :
      (w : TimingWheel K V) (pos : ℕ) (e : Entry K V)
      → Homed same w
      → (k : K)
      → pending same (place same w pos e) k ≡ (
          if same e.key k
          then some
              (e.value, distance w.num_slots w.ticked_pos pos + (e.circle * w.num_slots + e.diff))
          else pending same w k)
  unfolding place set_timer_position pending pending_in timer_due due has
  pending-place w pos e h k =
      rw
        (
          write_self w.items w.fresh e,
          lookup-insert same same_iff e.key k (record { pos = pos; item = w.fresh }) w.timers,
        )
        (elim (Bool-cases (same e.key k)) [
          | inl n ↦ rw (n, write_self w.items w.fresh e) refl
          | inr n ↦ rw n (elim (Option-cases (lookup same k w.timers)) [
            | inl f ↦ rw f refl
            | inr (t, f) ↦
                let (low, a, _, _, _) = h.found k t f in
                rw
                  (
                    f,
                    write-ne w.items w.fresh t.item e
                        (λ i. omega (arith, i, h.allocated t.pos t.item low a)),
                  )
                  refl
          ])
        ])

  -- The steps of a delay: that of the interval at least.
  abbrev pub steps : TimingWheel K V → ℕ → ℕ
  steps w delay = (if ltb delay w.interval then w.interval else delay) / w.interval

  pub steps-positive : (w : TimingWheel K V) (delay : ℕ) → 0 < w.interval → 0 < steps w delay
  steps-positive w delay h = (le-div_iff_mul-le h).1 (ground arith)

  -- A task set under a new key is executed after the steps of its delay, rounded down, and at
  -- least one; no task is executed at once, and no other task is changed.
  pub set_task-pending :
      (w : TimingWheel K V) (key : K) (value : V) (delay : ℕ)
      → Homed same w
      → 0 < w.interval
      → lookup same key w.timers ≡ none
      → Homed same (set_task same w key value delay).0
        × ((set_task same w key value delay).1 ≡ [])
        × ((k : K)
            → pending same (set_task same w key value delay).0 k
              ≡ (if same key k then some (value, steps w delay) else pending same w k))
  unfolding set_task get_position_and_circle
  set_task-pending w key value delay h hi free =
      rw (free, set_task)
        (
          place-Homed same same_iff w ((w.ticked_pos + steps w delay) % w.num_slots) e
              (mod-lt (w.ticked_pos + steps w delay) (omega (arith, h.in_wheel))) refl
              (omega (arith, h.in_wheel)) free h,
          refl,
          (λ k.
              pending-place w ((w.ticked_pos + steps w delay) % w.num_slots) e h k
              ∙ ap (λ d. if same key k then some (value, d) else pending same w k)
                  (omega (
                    arith,
                    distance-steps w.num_slots w.ticked_pos (steps w delay) h.in_wheel
                        (steps-positive w delay hi),
                  ))),
        )
    where
      e : Entry K V
      e = record {
        key = key;
        value = value;
        circle = (steps w delay - 1) / w.num_slots;
        diff = 0;
        removed = false;
      }

  -- A mark does not change what is ahead of an entry.
  pub timer_due-mark :
      (w : TimingWheel K V) (id : ℕ) (ts : List (K × Position)) (o : Option Position)
      → timer_due same (record (mark_removed same w id) { timers = ts }) [] o
        ≡ timer_due same w [] o
  unfolding timer_due due
  timer_due-mark w id ts none = refl
  timer_due-mark w id ts (some t) =
      let e : Entry K V = record (w.items id) { removed = true } in
      rw
        (
          write-part (λ x. x.value) w.items id e refl t.item,
          write-part (λ x. x.circle) w.items id e refl t.item,
          write-part (λ x. x.diff) w.items id e refl t.item,
        )
        refl

  -- A task that is removed is executed no more, and no other task is changed.
  pub remove_task-pending :
      (w : TimingWheel K V) (key : K)
      → Homed same w
      → Homed same (remove_task same w key)
        × ((k : K)
            → pending same (remove_task same w key) k
              ≡ (if same key k then none else pending same w k))
  unfolding remove_task pending pending_in timer_due due
  remove_task-pending w key h = (
    remove_task-Homed same same_iff w key h,
    λ k. elim (Option-cases (lookup same key w.timers)) [
      | inl f ↦
          rw (f, remove_task)
            (elim (Bool-cases (same key k)) [
              | inl n ↦ rw n (
                  ap (timer_due same w [])
                    (ap (λ j. lookup same j w.timers) (sym ((same_iff key k).0 n)) ∙ f))
              | inr n ↦ rw n refl
            ])
      | inr (t, f) ↦
          rw (f, remove_task)
            (timer_due-mark w t.item (erase same key w.timers)
                (lookup same k (erase same key w.timers))
              ∙ ap (timer_due same w []) (lookup-erase same same_iff key k w.timers)
              ∙ elim (Bool-cases (same key k)) [ inl n ↦ rw n refl | inr n ↦ rw n refl ])
    ],
  )
