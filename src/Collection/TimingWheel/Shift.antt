-- ===== src/Collection/TimingWheel/Shift.antt =====
-- The scan of an entry that goes on to another slot, and of every entry.
use go_zero.Prelude.{
  ℕ, ◌+◌, ◌%◌, ◌<◌, ◌≡◌, ◌↔◌, inl, inr, refl, sym, ap, ◌∙◌, Bool, true, false, List, [], ◌∷◌, some,
  arith, length-set, Among, lookup, insert, erase, lookup-insert, lookup-erase, Bool-cases,
  Option-cases, eq_of_some, mod-lt,
}
use go_zero.Collection.TimingWheel.{
  Position, TimingWheel, without, slot, push_back, store_item, unlink, set_timer_position,
}
use go_zero.Collection.TimingWheel.Home.{Homed, Among-push, Among-unlink}
use go_zero.Collection.TimingWheel.Kept.{
  write_self, write-ne, store_item-Homed, timers-Homed, leave-Homed,
}
use go_zero.Collection.TimingWheel.Linked.{link-Homed}
use go_zero.Collection.TimingWheel.Ahead.{distance, due, timer_due, pending_in, distance-ahead}
use go_zero.Collection.TimingWheel.Scan.{
  Scanned, quiet, skip, past, small, unlink-stays, its, which, now,
}

module _ {K A : Type 0} (same : K → K → Bool)
    (same_iff : (a b : K) → (same a b ≡ true) ↔ (a ≡ b)) where
  pub lookup-insert-erase :
      (j k : K) (v : A) (m : List (K × A))
      → lookup same k (insert same j v (erase same j m)) ≡ lookup same k (insert same j v m)
  lookup-insert-erase j k v m =
      lookup-insert same same_iff j k v (erase same j m)
      ∙ rw (lookup-erase same same_iff j k m, lookup-insert same same_iff j k v m)
          (elim (Bool-cases (same j k)) [ inl e ↦ rw e refl | inr e ↦ rw e refl ])

module _ {K V : Type 0} (same : K → K → Bool)
    (same_iff : (a b : K) → (same a b ≡ true) ↔ (a ≡ b)) where
  module _ (w : TimingWheel K V) (id : ℕ) (rest : List ℕ) (h : Homed same w)
      (here : Among id (slot same w w.ticked_pos)) (new : ¬ Among id rest) where
    -- The slot to which the entry goes.
    unfoldable pub target : ℕ
    target = (w.ticked_pos + (w.items id).diff) % w.num_slots

    target-lt : target < w.num_slots
    unfolding target
    target-lt = mod-lt (w.ticked_pos + (w.items id).diff) (omega (arith, h.in_wheel))

    unfoldable pub shifted : TimingWheel K V
    shifted = set_timer_position same (push_back same (unlink same w id) target id) target id

    module _ (live : (w.items id).removed ≡ false) where
      shifted-Homed : Homed same shifted
      unfolding shifted set_timer_position
      shifted-Homed =
          timers-Homed same same_iff
            (set_timer_position same (push_back same left target id) target id)
            (insert same (w.items id).key (record { pos = target; item = id }) w.timers)
            (λ k.
              lookup-insert-erase same same_iff (w.items id).key k
                (record { pos = target; item = id }) w.timers)
            (link-Homed same same_iff left target id target-lt
              (h.allocated w.ticked_pos id h.in_wheel here)
              (λ p hp a.
                let (out, b) =
                  (Among-unlink same w id p id (small same same_iff w id rest h here new)).0 a in
                out (
                  ap (λ (t : Position). t.pos)
                      (eq_of_some (
                        sym (h.kept p id hp b live) ∙ its same same_iff w id rest h here new live)),
                  refl,
                ))
              live
              ((h.found (w.items id).key (record { pos = w.ticked_pos; item = id })
                (its same same_iff w id rest h here new live)).4)
              (lookup-erase same same_iff (w.items id).key (w.items id).key w.timers
                ∙ rw ((same_iff (w.items id).key (w.items id).key).1 refl) refl)
              (leave-Homed same same_iff w id here live h))
        where
          left : TimingWheel K V
          left = record (unlink same w id) { timers = erase same (w.items id).key w.timers }

      far : 0 < (w.items id).diff → distance w.num_slots w.ticked_pos target ≡ (w.items id).diff
      unfolding target
      far de = distance-ahead w.num_slots w.ticked_pos (w.items id).diff h.in_wheel de (
          (h.found (w.items id).key (record { pos = w.ticked_pos; item = id })
            (its same same_iff w id rest h here new live)).4)

      pub shift-Scanned :
          (w.items id).circle ≡ 0
          → 0 < (w.items id).diff
          → Scanned same same_iff w
              (store_item same shifted id (record (w.items id) { diff = 0 }))
              id
              rest
              []
      unfolding pending_in timer_due due shifted set_timer_position
      shift-Scanned ce de = record {
        homed =
            store_item-Homed same same_iff shifted id (record (w.items id) { diff = 0 }) refl refl
              (omega (arith, h.in_wheel)) shifted-Homed;
        hand = refl;
        stays = λ x ne a.
            (Among-push same (unlink same w id) target id w.ticked_pos x (
                omega (
                  arith,
                  h.sized,
                  target-lt,
                  length-set w.slots w.ticked_pos (without id (slot same w w.ticked_pos)),
                ))).1
              (inl (unlink-stays same same_iff w id rest h here new x ne a));
        outcome = quiet refl (λ k.
            rw
              (lookup-insert same same_iff (w.items id).key k (record { pos = target; item = id })
                w.timers)
              (elim (Bool-cases (same (w.items id).key k)) [
                | inl n ↦
                    rw
                      (
                        n,
                        past same same_iff w id rest h here new,
                        write_self w.items id (record (w.items id) { diff = 0 }),
                      )
                      (ap (λ d. some ((w.items id).value, d)) (omega (arith, far de))
                        ∙ sym (now same same_iff w id rest h here new live)
                        ∙ ap (pending_in same w (id ∷ rest)) ((same_iff (w.items id).key k).0 n))
                | inr n ↦ rw n (elim (Option-cases (lookup same k w.timers)) [
                  | inl e ↦ rw e refl
                  | inr (t, e) ↦ elim (which same same_iff w id rest h here new live k t e) [
                    | inl (named, _) ↦ absurd (cc (n, (same_iff (w.items id).key k).1 named))
                    | inr (_, ne) ↦
                        rw
                          (
                            e,
                            write-ne w.items id t.item (record (w.items id) { diff = 0 })
                                (λ i. ne (sym i)),
                          )
                          (ap (λ d. some ((w.items t.item).value, d))
                            (skip same same_iff w id rest t ne))
                  ]
                ])
              ]));
      }
