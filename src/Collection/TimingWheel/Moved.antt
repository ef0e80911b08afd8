-- ===== src/Collection/TimingWheel/Moved.antt =====
-- The entry of a moved task: rewritten in its slot, or replaced by one in another slot.
use go_zero.Prelude.{
  ℕ, ◌+◌, ◌-◌, ◌*◌, ◌<◌, ◌≡◌, ◌≢◌, ◌↔◌, inl, inr, refl, sym, ap, ◌∙◌, ltb, leb, ◌&&◌, if◌then◌else◌,
  Bool, true, false, [], some, arith, lookup, erase, lookup-erase, Bool-cases, Option-cases,
}
use go_zero.Collection.TimingWheel.{
  Entry, Position, TimingWheel, store_item, set_timer_position, place, mark_removed,
}
use go_zero.Collection.TimingWheel.Home.{Homed}
use go_zero.Collection.TimingWheel.Kept.{write_self, write-ne, store_item-Homed, timers-Homed}
use go_zero.Collection.TimingWheel.Linked.{place-Homed, mark_removed-Homed}
use go_zero.Collection.TimingWheel.Ahead.{distance, has, due, timer_due, pending_in, pending}
use go_zero.Collection.TimingWheel.Calls.{pending-place, timer_due-mark}
use go_zero.Collection.TimingWheel.Shift.{lookup-insert-erase}

-- One round too much: the old slot is behind the hand or under it, the new one before it.
abbrev pub late : ℕ → ℕ → ℕ → ℕ → ℕ
late n hand p pos = if leb p hand && ltb hand pos then n else 0

-- One round too few: the old slot is before the hand, the new one behind it or under it, and the
-- delay is longer than a round.
abbrev pub early : ℕ → ℕ → ℕ → ℕ → ℕ → ℕ
early n hand p pos steps = if (ltb hand p && leb pos hand) && ltb n steps then n else 0

-- The three ways in which an entry gets its new place; `c` is the circle and `r` its ticks.
pub move_on-exact :
    (n hand p pos c r s : ℕ)
    → hand < n
    → p < n
    → pos < n
    → leb p pos ≡ true
    → distance n hand pos + r ≡ s
    → (distance n hand p + (r + (pos - p))) + early n hand p pos s ≡ s + late n hand p pos
move_on-exact n hand p pos c r s hh hp hpos e sum = ground arith

pub move_back-exact :
    (n hand p pos c r s : ℕ)
    → hand < n
    → p < n
    → pos < n
    → leb p pos ≡ false
    → ltb 0 c ≡ true
    → distance n hand pos + (n + r) ≡ s
    → (distance n hand p + (r + ((n + pos) - p))) + early n hand p pos s ≡ s + late n hand p pos
move_back-exact n hand p pos c r s hh hp hpos e more sum = ground arith

pub replace-exact :
    (n hand p pos c s : ℕ)
    → hand < n
    → p < n
    → pos < n
    → leb p pos ≡ false
    → ltb 0 c ≡ false
    → distance n hand pos + 0 ≡ s
    → distance n hand pos + early n hand p pos s ≡ s + late n hand p pos
replace-exact n hand p pos c s hh hp hpos e last sum = ground arith

module _ {K V : Type 0} (same : K → K → Bool)
    (same_iff : (a b : K) → (same a b ≡ true) ↔ (a ≡ b)) where
  -- The task of `key` has the value `v` and `x` ticks ahead, and every other task is as before.
  abbrev pub MovedTo : TimingWheel K V → TimingWheel K V → K → V → ℕ → Type 0
  MovedTo w w' key v x =
      (k : K) → pending same w' k ≡ (if same key k then some (v, x) else pending same w k)

  moved_to :
      (w w' : TimingWheel K V) (key : K) (v : V) (x : ℕ)
      → pending same w' key ≡ some (v, x)
      → ((k : K) → key ≢ k → pending same w' k ≡ pending same w k)
      → MovedTo w w' key v x
  moved_to w w' key v x mine others k = elim (Bool-cases (same key k)) [
    | inl n ↦ rw n (ap (pending same w') (sym ((same_iff key k).0 n)) ∙ mine)
    | inr n ↦ rw n (others k (λ e. cc (n, (same_iff key k).1 e)))
  ]

  module _ (w : TimingWheel K V) (key : K) (t : Position) (h : Homed same w)
      (its : lookup same key w.timers ≡ some t) where
    -- The entry gets a new circle and a new diff.
    pub rewritten :
        (c d : ℕ)
        → d < w.num_slots
        → Homed same (store_item same w t.item (record (w.items t.item) { circle = c; diff = d }))
          × MovedTo w
              (store_item same w t.item (record (w.items t.item) { circle = c; diff = d }))
              key
              (w.items t.item).value
              (distance w.num_slots w.ticked_pos t.pos + (c * w.num_slots + d))
    unfolding pending pending_in timer_due due has
    rewritten c d small = (
      store_item-Homed same same_iff w t.item (record (w.items t.item) { circle = c; diff = d })
          refl refl small h,
      moved_to w (store_item same w t.item (record (w.items t.item) { circle = c; diff = d })) key
          (w.items t.item).value (distance w.num_slots w.ticked_pos t.pos + (c * w.num_slots + d))
          (rw (its, write_self w.items t.item (record (w.items t.item) { circle = c; diff = d }))
            refl)
          (λ k ne. elim (Option-cases (lookup same k w.timers)) [
            | inl f ↦ rw f refl
            | inr (s, f) ↦
                rw
                  (
                    f,
                    write-ne w.items t.item s.item
                        (record (w.items t.item) { circle = c; diff = d })
                        (λ i. ne (
                          sym ((h.found key t its).3)
                          ∙ ap (λ x. (w.items x).key) i
                          ∙ (h.found k s f).3)),
                  )
                  refl
          ]),
    )

    -- The entry is replaced by one in the slot `pos`.
    abbrev pub successor : Entry K V
    successor = record {
      key = key;
      value = (w.items t.item).value;
      circle = 0;
      diff = 0;
      removed = false;
    }

    -- The wheel without the timer.
    cleared : TimingWheel K V
    cleared = record (mark_removed same w t.item) { timers = erase same key w.timers }

    same_lookup :
        (pos : ℕ) (k : K)
        → lookup same k (place same cleared pos successor).timers
          ≡ lookup same k (place same (mark_removed same w t.item) pos successor).timers
    unfolding place set_timer_position cleared
    same_lookup pos k =
        rw (write_self (mark_removed same w t.item).items w.fresh successor)
          (lookup-insert-erase same same_iff key k (record { pos = pos; item = w.fresh }) w.timers)

    pending-cleared : (k : K) → key ≢ k → pending same cleared k ≡ pending same w k
    unfolding pending pending_in cleared
    pending-cleared k ne =
        timer_due-mark same same_iff w t.item (erase same key w.timers)
          (lookup same k (erase same key w.timers))
        ∙ ap (timer_due same w []) (
            lookup-erase same same_iff key k w.timers ∙ elim (Bool-cases (same key k)) [
              | inl n ↦ absurd (ne ((same_iff key k).0 n))
              | inr n ↦ rw n refl
            ])

    pub replaced :
        (pos : ℕ)
        → pos < w.num_slots
        → Homed same (place same (mark_removed same w t.item) pos successor)
          × MovedTo w
              (place same (mark_removed same w t.item) pos successor)
              key
              (w.items t.item).value
              (distance w.num_slots w.ticked_pos pos)
    unfolding place set_timer_position pending pending_in cleared
    replaced pos small = (
      timers-Homed same same_iff (place same cleared pos successor)
          (place same (mark_removed same w t.item) pos successor).timers (same_lookup pos)
          (place-Homed same same_iff cleared pos successor small refl (omega (arith, small))
            (lookup-erase same same_iff key key w.timers ∙ rw ((same_iff key key).1 refl) refl)
            home),
      moved_to w (place same (mark_removed same w t.item) pos successor) key (w.items t.item).value
          (distance w.num_slots w.ticked_pos pos)
          (due_as key
            ∙ rw ((same_iff key key).1 refl)
                (ap (λ d. some ((w.items t.item).value, d)) (omega arith)))
          (λ k ne. due_as k ∙ elim (Bool-cases (same key k)) [
            | inl n ↦ absurd (ne ((same_iff key k).0 n))
            | inr n ↦ rw n (pending-cleared k ne)
          ]),
    )
      where
        home : Homed same cleared
        home = mark_removed-Homed same same_iff w key t its h

        due_as :
            (k : K)
            → pending same (place same (mark_removed same w t.item) pos successor) k ≡ (
                if same key k
                then some (
                  (w.items t.item).value,
                  distance w.num_slots w.ticked_pos pos + (0 * w.num_slots + 0),
                )
                else pending same cleared k)
        due_as k =
            ap (timer_due same (place same cleared pos successor) []) (sym (same_lookup pos k))
            ∙ pending-place same same_iff cleared pos successor home k
