-- ===== src/Collection/TimingWheel/Scan.antt =====
-- What the scan of one entry does to the pending tasks.
use go_zero.Prelude.{
  ℕ, suc, ◌+◌, ◌*◌, ◌<◌, ◌==◌, ◌≡◌, ◌≢◌, ◌↔◌, ◌⊎◌, inl, inr, refl, sym, ap, ◌∙◌, if◌then◌else◌,
  Bool, true, false, List, [], ◌∷◌, none, some, arith, length, Among, lookup, erase, lookup-erase,
  Bool-cases, Option-cases, ==_iff, eq_of_some,
}
use go_zero.Collection.TimingWheel.{Position, TimingWheel, slot, store_item, unlink}
use go_zero.Collection.TimingWheel.Home.{Homed, Among-unlink}
use go_zero.Collection.TimingWheel.Kept.{
  write_self, write-ne, store_item-Homed, unlink-Homed, leave-Homed,
}
use go_zero.Collection.TimingWheel.Ahead.{has, has_iff, due, timer_due, pending_in, distance_self}

module _ {K V : Type 0} (same : K → K → Bool)
    (same_iff : (a b : K) → (same a b ≡ true) ↔ (a ≡ b)) where
  -- A pending task is collected, or nothing changes for any key.
  pub data Outcome (w w' : TimingWheel K V) (id : ℕ) (rest : List ℕ) (tasks : List (K × V))
      : Type 0 where
    quiet :
        tasks ≡ []
        → ((k : K) → pending_in same w' rest k ≡ pending_in same w (id ∷ rest) k)
        → Outcome w w' id rest tasks
    collected :
        (key : K) (v : V)
        → tasks ≡ (key, v) ∷ []
        → pending_in same w (id ∷ rest) key ≡ some (v, 0)
        → ((k : K)
            → pending_in same w' rest k
              ≡ (if same key k then none else pending_in same w (id ∷ rest) k))
        → Outcome w w' id rest tasks

  pub record Scanned (w w' : TimingWheel K V) (id : ℕ) (rest : List ℕ) (tasks : List (K × V))
      : Type 0 where
    pub homed : Homed same w'
    pub hand : w'.ticked_pos ≡ w.ticked_pos
    pub stays :
        (x : ℕ) → x ≢ id → Among x (slot same w w.ticked_pos) → Among x (slot same w' w.ticked_pos)
    pub outcome : Outcome w w' id rest tasks

  -- The entry that is scanned counts for no other timer.
  pub skip :
      (w : TimingWheel K V) (id : ℕ) (rest : List ℕ) (t : Position)
      → t.item ≢ id
      → due same w rest t ≡ due same w (id ∷ rest) t
  unfolding due has
  skip w id rest t ne = rw (other) refl
    where
      other : (id == t.item) ≡ false
      other = elim (Bool-cases (id == t.item)) [
        | inl e ↦ absurd (ne (sym ((==_iff id t.item).0 e)))
        | inr e ↦ e
      ]

  module _ (w : TimingWheel K V) (id : ℕ) (rest : List ℕ) (h : Homed same w)
      (here : Among id (slot same w w.ticked_pos)) (new : ¬ Among id rest) where
    pub scanned : has id (id ∷ rest) ≡ true
    scanned = (has_iff id (id ∷ rest)).1 (inl refl)

    pub past : has id rest ≡ false
    past = elim (Bool-cases (has id rest)) [
      | inl e ↦ absurd (new ((has_iff id rest).0 e))
      | inr e ↦ e
    ]

    pub small : w.ticked_pos < length w.slots
    small = omega (arith, h.sized, h.in_wheel)

    pub unlink-stays :
        (x : ℕ)
        → x ≢ id
        → Among x (slot same w w.ticked_pos)
        → Among x (slot same (unlink same w id) w.ticked_pos)
    unlink-stays x ne a = (Among-unlink same w id w.ticked_pos x small).1 ((λ p. ne (p.1)), a)

    pub removed-Scanned : (w.items id).removed ≡ true → Scanned w (unlink same w id) id rest []
    unfolding pending_in timer_due
    removed-Scanned gone = record {
      homed = unlink-Homed same same_iff w id gone h;
      hand = refl;
      stays = unlink-stays;
      outcome = quiet refl (λ k. elim (Option-cases (lookup same k w.timers)) [
        | inl e ↦ rw e refl
        | inr (t, e) ↦ rw e (
            ap (λ d. some ((w.items t.item).value, d))
              (skip w id rest t (λ i. cc (i, gone, (h.found k t e).2))))
      ]);
    }

    module _ (live : (w.items id).removed ≡ false) where
      pub its :
          lookup same (w.items id).key w.timers ≡ some (record { pos = w.ticked_pos; item = id })
      its = h.kept w.ticked_pos id h.in_wheel here live

      -- A timer is that of the entry, or has another key and another entry.
      pub which :
          (k : K) (t : Position)
          → lookup same k w.timers ≡ some t
          → (((w.items id).key ≡ k) × (t ≡ record { pos = w.ticked_pos; item = id }))
            ⊎ (((w.items id).key ≢ k) × (t.item ≢ id))
      which k t e = elim (Bool-cases (same (w.items id).key k)) [
        | inl n ↦
            let named : (w.items id).key ≡ k = (same_iff (w.items id).key k).0 n in
            inl (named, eq_of_some (sym e ∙ ap (λ j. lookup same j w.timers) (sym named) ∙ its))
        | inr n ↦
            let other : (w.items id).key ≢ k = λ x. cc (n, (same_iff (w.items id).key k).1 x) in
            inr (other, λ i. other (ap (λ x. (w.items x).key) (sym i) ∙ (h.found k t e).3))
      ]

      pub now :
          pending_in same w (id ∷ rest) (w.items id).key
          ≡ some ((w.items id).value, (w.items id).circle * w.num_slots + (w.items id).diff)
      unfolding pending_in timer_due due
      now = rw (its, scanned) (ap (λ d. some ((w.items id).value, d)) (omega arith))

      -- A task with a circle stays for another round.
      pub circle-Scanned :
          (c : ℕ)
          → (w.items id).circle ≡ suc c
          → Scanned w (store_item same w id (record (w.items id) { circle = c })) id rest []
      unfolding pending_in timer_due due
      circle-Scanned c ce = record {
        homed =
            store_item-Homed same same_iff w id (record (w.items id) { circle = c }) refl refl
              ((h.found (w.items id).key (record { pos = w.ticked_pos; item = id }) its).4) h;
        hand = refl;
        stays = λ x ne a. a;
        outcome = quiet refl (λ k. elim (Option-cases (lookup same k w.timers)) [
          | inl e ↦ rw e refl
          | inr (t, e) ↦ elim (which k t e) [
            | inl (named, is) ↦
                rw
                  (
                    e,
                    is,
                    past,
                    scanned,
                    write_self w.items id (record (w.items id) { circle = c }),
                    distance_self w.num_slots w.ticked_pos h.in_wheel,
                  )
                  (ap (λ d. some ((w.items id).value, d)) (rw ce (omega arith)))
            | inr (other, ne) ↦
                rw
                  (
                    e,
                    write-ne w.items id t.item (record (w.items id) { circle = c })
                        (λ i. ne (sym i)),
                  )
                  (ap (λ d. some ((w.items t.item).value, d)) (skip w id rest t ne))
          ]
        ]);
      }

      -- A task that is due is collected.
      pub collect-Scanned :
          (w.items id).circle ≡ 0
          → (w.items id).diff ≡ 0
          → Scanned w
              (record (unlink same w id) { timers = erase same (w.items id).key w.timers })
              id
              rest
              (((w.items id).key, (w.items id).value) ∷ [])
      unfolding pending_in timer_due due
      collect-Scanned ce de = record {
        homed = leave-Homed same same_iff w id here live h;
        hand = refl;
        stays = unlink-stays;
        outcome =
            collected (w.items id).key (w.items id).value refl
              (now ∙ rw (ce, de) (ap (λ d. some ((w.items id).value, d)) (omega arith)))
              (λ k.
                rw (lookup-erase same same_iff (w.items id).key k w.timers)
                  (elim (Bool-cases (same (w.items id).key k)) [
                    | inl n ↦ rw n refl
                    | inr n ↦ rw n (elim (Option-cases (lookup same k w.timers)) [
                      | inl e ↦ rw e refl
                      | inr (t, e) ↦ elim (which k t e) [
                        | inl (named, _) ↦ absurd (cc (n, (same_iff (w.items id).key k).1 named))
                        | inr (_, ne) ↦
                            rw e (ap (λ d. some ((w.items t.item).value, d)) (skip w id rest t ne))
                      ]
                    ])
                  ]));
      }
