-- ===== src/Collection/TimingWheel/Drained.antt =====
-- `drainAll` hands over the pending tasks.
use go_zero.Prelude.{
  ℕ, zero, suc, ◌<◌, ◌≡◌, ◌↔◌, inl, inr, refl, sym, ap, ap₂, ◌∙◌, Bool, false, List, [], ◌∷◌, some,
  arith, length, Among, Among-append, lookup, Bool-cases, Option-cases, eq_of_some, get_or,
}
use go_zero.Collection.TimingWheel.{Entry, TimingWheel, slot, drain_slot, drain_slots, drain_all}
use go_zero.Collection.TimingWheel.Home.{Homed}
use go_zero.Collection.TimingWheel.Ahead.{due, timer_due, pending_in, pending}

module _ {K V : Type 0} (same : K → K → Bool) where
  drain_slot_iff :
      (items : ℕ → Entry K V) (x : K × V) (l : List ℕ)
      → Among x (drain_slot same items l) ↔ (
          (id : ℕ) × Among id l
          × ((items id).removed ≡ false)
          × (x ≡ ((items id).key, (items id).value)))
  unfolding drain_slot
  drain_slot_iff items x [] = ((λ a. absurd a), (λ p. absurd (p.1)))
  drain_slot_iff items x (id ∷ l) =
      let ih = drain_slot_iff items x l in
      elim (Bool-cases (items id).removed) [
        | inl e ↦ rw e (
          (λ a. let (j, b, r, q) = ih.0 a in (j, inr b, r, q)),
          (λ (j, b, r, q). elim b [
            | inl i ↦ absurd (cc (e, ap (λ y. (items y).removed) i, r))
            | inr c ↦ ih.1 (j, c, r, q)
          ]),
        )
        | inr e ↦ rw e (
          elim [
            | inl q ↦ (id, inl refl, e, q)
            | inr a ↦ let (j, b, r, q) = ih.0 a in (j, inr b, r, q)
          ],
          (λ (j, b, r, q). elim b [
            | inl i ↦ inl (q ∙ ap (λ y. ((items y).key, (items y).value)) i)
            | inr c ↦ inr (ih.1 (j, c, r, q))
          ]),
        )
      ]

  drain_slots_iff :
      (items : ℕ → Entry K V) (x : K × V) (slots : List (List ℕ))
      → Among x (drain_slots same items slots).1
        ↔ ((p : ℕ) × (p < length slots) × Among x (drain_slot same items (get_or slots p [])))
  unfolding drain_slots
  drain_slots_iff items x [] = ((λ a. absurd a), (λ p. absurd (omega (arith, p.1))))
  drain_slots_iff items x (l ∷ slots) =
      let ih = drain_slots_iff items x slots in
      let both = Among-append x (drain_slot same items l) (drain_slots same items slots).1 in
      (
        (λ a. elim (both.0 a) [
          | inl b ↦ (0, omega arith, b)
          | inr c ↦ let (p, lt, d) = ih.0 c in (suc p, omega (arith, lt), d)
        ]),
        back ih.1,
      )
    where
      back :
          (((p : ℕ) × (p < length slots) × Among x (drain_slot same items (get_or slots p [])))
            → Among x (drain_slots same items slots).1)
          → ((p : ℕ) × (p < length (l ∷ slots))
              × Among x (drain_slot same items (get_or (l ∷ slots) p [])))
          → Among x (drain_slots same items (l ∷ slots)).1
      back later (zero, lt, a) =
          (Among-append x (drain_slot same items l) (drain_slots same items slots).1).1 (inl a)
      back later (suc p, lt, a) =
          (Among-append x (drain_slot same items l) (drain_slots same items slots).1).1
            (inr (later (p, omega (arith, lt), a)))

  -- `drainAll` hands over exactly the pending tasks, with their values.
  pub drain_all-pending :
      (w : TimingWheel K V) (k : K) (v : V)
      → Homed same w
      → Among (k, v) (drain_all same w).1 ↔ ((n : ℕ) × (pending same w k ≡ some (v, n)))
  unfolding drain_all pending pending_in timer_due
  drain_all-pending w k v h = (forth, back)
    where
      forth : Among (k, v) (drain_all same w).1 → (n : ℕ) × (pending same w k ≡ some (v, n))
      forth a =
          let (p, lt, b) = (drain_slots_iff w.items (k, v) w.slots).0 a in
          let (id, c, live, x) = (drain_slot_iff w.items (k, v) (slot same w p)).0 b in
          (
            due same w [] (record { pos = p; item = id }),
            rw (ap (λ (y : K × V). y.0) x, h.kept p id (omega (arith, lt, h.sized)) c live)
                (ap (λ y. some (y, due same w [] (record { pos = p; item = id })))
                  (sym (ap (λ (y : K × V). y.1) x))),
          )

      back : ((n : ℕ) × (pending same w k ≡ some (v, n))) → Among (k, v) (drain_all same w).1
      back (n, e) = elim (Option-cases (lookup same k w.timers)) [
        | inl f ↦ absurd (cc (rw f at e))
        | inr (t, f) ↦
            let (low, a, live, named, _) = h.found k t f in
            (drain_slots_iff w.items (k, v) w.slots).1 (
              t.pos,
              omega (arith, low, h.sized),
              (drain_slot_iff w.items (k, v) (slot same w t.pos)).1 (
                t.item,
                a,
                live,
                ap₂ (λ x y. (x, y)) (sym named)
                    (sym (ap (λ (y : V × ℕ). y.0) (eq_of_some (rw f at e)))),
              ),
            )
      ]
