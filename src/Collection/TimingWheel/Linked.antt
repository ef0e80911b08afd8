-- ===== src/Collection/TimingWheel/Linked.antt =====
-- Entries that are put into a slot, or marked as removed, keep the invariant of the wheel.
use go_zero.Prelude.{
  ℕ, ◌+◌, ◌<◌, ◌==◌, ◌≡◌, ◌↔◌, inl, inr, refl, sym, ap, ◌∙◌, subst, Bool, true, false, [], ◌∷◌,
  ◌++◌, none, some, arith, length, length-set, Among, lookup, erase, lookup-insert, lookup-erase,
  erase-some, Bool-cases, Option-cases, ==_iff, eq_of_some,
}
use go_zero.Collection.TimingWheel.{
  Entry, Position, TimingWheel, write, slot, push_back, set_timer_position, place, remove_task,
  mark_removed,
}
use go_zero.Collection.TimingWheel.Home.{Homed, Among-push, NoDup-push}
use go_zero.Collection.TimingWheel.Kept.{write_self}

module _ {K V : Type 0} (same : K → K → Bool)
    (same_iff : (a b : K) → (same a b ≡ true) ↔ (a ≡ b)) where
  -- A pending entry that is in no slot is put into one.
  pub link-Homed :
      (w : TimingWheel K V) (pos id : ℕ)
      → pos < w.num_slots
      → id < w.fresh
      → ((p : ℕ) → p < w.num_slots → ¬ Among id (slot same w p))
      → (w.items id).removed ≡ false
      → (w.items id).diff < w.num_slots
      → lookup same (w.items id).key w.timers ≡ none
      → Homed same w
      → Homed same (set_timer_position same (push_back same w pos id) pos id)
  unfolding set_timer_position
  link-Homed w pos id hpos old apart live diff free h = record {
    in_wheel = h.in_wheel;
    sized = length-set w.slots pos (slot same w pos ++ (id ∷ [])) ∙ h.sized;
    kept = λ p q hp a r.
        lookup-insert same same_iff (w.items id).key (w.items q).key
          (record { pos = pos; item = id }) w.timers
        ∙ elim ((Among-push same w pos id p q small).0 a) [
          | inl b ↦ elim (Bool-cases (same (w.items id).key (w.items q).key)) [
            | inr e ↦ rw e (h.kept p q hp b r)
            | inl e ↦ absurd (
                cc (
                  h.kept p q hp b r,
                  free,
                  ap (λ k. lookup same k w.timers)
                      ((same_iff (w.items id).key (w.items q).key).0 e),
                ))
          ]
          | inr (qi, at) ↦
              rw
                ((same_iff (w.items id).key (w.items q).key).1 (ap (λ x. (w.items x).key) (sym qi)))
                (cc (qi, at))
        ];
    found = λ k t at. elim (Bool-cases (same (w.items id).key k)) [
      | inl e ↦
          let is : record { pos = pos; item = id } ≡ t = eq_of_some (
            sym (
              rw e at (
                lookup-insert same same_iff (w.items id).key k (record { pos = pos; item = id })
                  w.timers))
            ∙ at) in
          subst
            (λ (s : Position).
              (s.pos < w.num_slots)
              × Among s.item (slot same (push_back same w pos id) s.pos)
              × ((w.items s.item).removed ≡ false)
              × ((w.items s.item).key ≡ k)
              × ((w.items s.item).diff < w.num_slots))
            is
            (
              hpos,
              (Among-push same w pos id pos id small).1 (inr (refl, refl)),
              live,
              (same_iff (w.items id).key k).0 e,
              diff,
            )
      | inr e ↦
          let (low, a, r, named, d) = h.found k t (
            sym (
              rw e at (
                lookup-insert same same_iff (w.items id).key k (record { pos = pos; item = id })
                  w.timers))
            ∙ at) in
          (low, (Among-push same w pos id t.pos t.item small).1 (inl a), r, named, d)
    ];
    once = λ p hp. NoDup-push same w pos id p small (apart pos hpos) h.once hpos hp;
    allocated = λ p q hp a. elim ((Among-push same w pos id p q small).0 a) [
      | inl b ↦ h.allocated p q hp b
      | inr (qi, _) ↦ omega (arith, qi, old)
    ];
  }
    where
      small : pos < length w.slots
      small = omega (arith, h.sized, hpos)

  -- An entry is allocated.
  alloc-Homed :
      (w : TimingWheel K V) (e : Entry K V)
      → Homed same w
      → Homed same (record w { items = write w.items w.fresh e; fresh = w.fresh + 1 })
  alloc-Homed w e h = record {
    in_wheel = h.in_wheel;
    sized = h.sized;
    kept = λ p q hp a r.
        let ne = old q (h.allocated p q hp a) in rw (ne) (h.kept p q hp a (rw ne at r));
    found = λ k t at.
        let (low, a, r, named, d) = h.found k t at in
        rw (old t.item (h.allocated t.pos t.item low a)) (low, a, r, named, d);
    once = h.once;
    allocated = λ p q hp a. omega (arith, h.allocated p q hp a);
  }
    where
      old : (q : ℕ) → q < w.fresh → (w.fresh == q) ≡ false
      old q lt = ground arith

  pub place-Homed :
      (w : TimingWheel K V) (pos : ℕ) (e : Entry K V)
      → pos < w.num_slots
      → e.removed ≡ false
      → e.diff < w.num_slots
      → lookup same e.key w.timers ≡ none
      → Homed same w
      → Homed same (place same w pos e)
  unfolding place
  place-Homed w pos e hpos live diff free h =
      link-Homed (record w { items = write w.items w.fresh e; fresh = w.fresh + 1 }) pos w.fresh
        hpos (omega arith) (λ p hp a. omega (arith, h.allocated p w.fresh hp a))
        (ap (λ x. x.removed) (write_self w.items w.fresh e) ∙ live)
        (subst (λ (x : Entry K V). x.diff < w.num_slots) (sym (write_self w.items w.fresh e)) diff)
        (ap (λ x. lookup same x.key w.timers) (write_self w.items w.fresh e) ∙ free)
        (alloc-Homed w e h)

  -- A timer is removed.
  pub mark_removed-Homed :
      (w : TimingWheel K V) (key : K) (t : Position)
      → lookup same key w.timers ≡ some t
      → Homed same w
      → Homed same (record (mark_removed same w t.item) { timers = erase same key w.timers })
  mark_removed-Homed w key t its h = record {
    in_wheel = h.in_wheel;
    sized = h.sized;
    kept = λ p q hp a r. elim (Bool-cases (t.item == q)) [
      | inl e ↦ absurd (cc (rw e at r))
      | inr e ↦
          let old = h.kept p q hp a (rw e at r) in
          rw e (
            lookup-erase same same_iff key (w.items q).key w.timers
            ∙ elim (Bool-cases (same key (w.items q).key)) [
              | inr n ↦ rw n old
              | inl n ↦
                  let both : some t ≡ some (record { pos = p; item = q }) =
                    sym its
                    ∙ ap (λ k. lookup same k w.timers) ((same_iff key (w.items q).key).0 n)
                    ∙ old in
                  absurd
                    (cc (e, (==_iff t.item q).1 (ap (λ (x : Position). x.item) (eq_of_some both))))
            ])
    ];
    found = λ k s at.
        let (ne, was) = erase-some same same_iff key k s w.timers at in
        let (low, a, r, named, d) = h.found k s was in
        let (_, _, _, key_named, _) = h.found key t its in
        let other : (t.item == s.item) ≡ false = elim (Bool-cases (t.item == s.item)) [
          | inr e ↦ e
          | inl e ↦
              absurd (
                ne (sym key_named ∙ ap (λ x. (w.items x).key) ((==_iff t.item s.item).0 e) ∙ named))
        ] in
        rw other (low, a, r, named, d);
    once = h.once;
    allocated = h.allocated;
  }

  pub remove_task-Homed :
      (w : TimingWheel K V) (key : K) → Homed same w → Homed same (remove_task same w key)
  unfolding remove_task
  remove_task-Homed w key h = elim (Option-cases (lookup same key w.timers)) [
    | inl free ↦ rw (free, remove_task) h
    | inr (t, its) ↦ rw (its, remove_task) (mark_removed-Homed w key t its h)
  ]
