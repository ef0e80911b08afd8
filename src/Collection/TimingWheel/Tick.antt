-- ===== src/Collection/TimingWheel/Tick.antt =====
-- The loop over the entries of a slot.
use go_zero.Prelude.{
  ℕ, zero, suc, ◌+◌, ◌-◌, ◌*◌, ◌<◌, ◌≡◌, ◌↔◌, inl, inr, refl, sym, ap, ap₂, ◌∙◌, subst, ltb, Bool,
  true, List, [], ◌∷◌, ◌++◌, Option, none, some, arith, Among, NoDup, lookup, Bool-cases,
  Option-cases, eq_of_some,
}
use go_zero.Collection.TimingWheel.{TimingWheel, slot, scan_one, scan_and_run_tasks}
use go_zero.Collection.TimingWheel.Home.{Homed}
use go_zero.Collection.TimingWheel.Ahead.{
  distance, has, due, timer_due, pending_in, pending, drop_zero, distance-positive,
}
use go_zero.Collection.TimingWheel.Scan.{
  Scanned, Outcome, quiet, collected, removed-Scanned, circle-Scanned, collect-Scanned,
}
use go_zero.Collection.TimingWheel.Shift.{shifted, target, shift-Scanned}

module _ {K V : Type 0} (same : K → K → Bool)
    (same_iff : (a b : K) → (same a b ≡ true) ↔ (a ≡ b)) where
  scan_one-Scanned :
      (w : TimingWheel K V) (id : ℕ) (rest : List ℕ)
      → Homed same w
      → Among id (slot same w w.ticked_pos)
      → (¬ Among id rest)
      → Scanned same same_iff w (scan_one same w id).0 id rest (scan_one same w id).1
  unfolding scan_one shifted target
  scan_one-Scanned w id rest h here new = elim (Bool-cases (w.items id).removed) [
    | inl gone ↦ rw (gone, scan_one) (removed-Scanned same same_iff w id rest h here new gone)
    | inr live ↦ elim (Bool-cases (ltb 0 (w.items id).circle)) [
      | inl more ↦
          rw (live, more, scan_one)
            (rw live at (
              circle-Scanned same same_iff w id rest h here new live ((w.items id).circle - 1)
                (ground arith)))
      | inr last ↦ elim (Bool-cases (ltb 0 (w.items id).diff)) [
        | inl on ↦
            rw (live, last, on, scan_one)
              (rw live at (
                shift-Scanned same same_iff w id rest h here new live (ground arith)
                  (ground arith)))
        | inr done ↦
            rw (live, last, done, scan_one)
              (collect-Scanned same same_iff w id rest h here new live (ground arith)
                (ground arith))
      ]
    ]
  ]

  pub record Run (w w' : TimingWheel K V) (ids : List ℕ) (tasks : List (K × V)) : Type 0 where
    pub homed : Homed same w'
    pub left : (k : K) → pending same w' k ≡ drop_zero (pending_in same w ids k)
    pub ran : (k : K) (v : V) → Among (k, v) tasks ↔ (pending_in same w ids k ≡ some (v, 0))

  -- Between ticks every task has a tick ahead.
  pub pending-positive :
      (w : TimingWheel K V) (k : K) (v : V) (n : ℕ)
      → Homed same w
      → pending_in same w [] k ≡ some (v, n)
      → 0 < n
  unfolding pending_in timer_due due has
  pending-positive w k v n h e = elim (Option-cases (lookup same k w.timers)) [
    | inl f ↦ absurd (cc (rw f at e))
    | inr (t, f) ↦
        let at : (0
              + (distance w.num_slots w.ticked_pos t.pos
                  + ((w.items t.item).circle * w.num_slots + (w.items t.item).diff)))
            ≡ 0 + n =
          ap (λ x. 0 + x) (ap (λ (p : V × ℕ). p.1) (eq_of_some (rw f at e))) in
        omega (arith, at, distance-positive w.num_slots w.ticked_pos t.pos h.in_wheel)
  ]

  drop_zero-positive :
      (o : Option (V × ℕ)) → ((v : V) (n : ℕ) → o ≡ some (v, n) → 0 < n) → o ≡ drop_zero o
  drop_zero-positive none h = refl
  drop_zero-positive (some (v, zero)) h = absurd (omega (arith, h v 0 refl))
  drop_zero-positive (some (v, suc n)) h = refl

  -- One more entry before a run.
  Run-cons :
      (w w' w'' : TimingWheel K V) (id : ℕ) (ids : List ℕ) (tasks more : List (K × V))
      → Outcome same same_iff w w' id ids tasks
      → Run w' w'' ids more
      → Run w w'' (id ∷ ids) (tasks ++ more)
  Run-cons w w' w'' id ids tasks more (quiet e p) ih = record {
    homed = ih.homed;
    left = λ k. ih.left k ∙ ap drop_zero (p k);
    ran = λ k v.
        subst (λ ts. Among (k, v) (ts ++ more) ↔ (pending_in same w (id ∷ ids) k ≡ some (v, 0)))
          (sym e) ((λ a. sym (p k) ∙ (ih.ran k v).0 a), (λ q. (ih.ran k v).1 (p k ∙ q)));
  }
  Run-cons w w' w'' id ids tasks more (collected key v e pz p) ih = record {
    homed = ih.homed;
    left = λ k. ih.left k ∙ ap drop_zero (p k) ∙ elim (Bool-cases (same key k)) [
      | inl n ↦
          rw n (ap drop_zero (sym pz ∙ ap (pending_in same w (id ∷ ids)) ((same_iff key k).0 n)))
      | inr n ↦ rw n refl
    ];
    ran = λ k u.
        subst (λ ts. Among (k, u) (ts ++ more) ↔ (pending_in same w (id ∷ ids) k ≡ some (u, 0)))
          (sym e)
          (
            elim [
              | inl q ↦
                  ap (pending_in same w (id ∷ ids)) (ap (λ (x : K × V). x.0) q)
                  ∙ pz
                  ∙ ap (λ x. some (x, 0)) (sym (ap (λ (x : K × V). x.1) q))
              | inr a ↦ elim (Bool-cases (same key k)) [
                | inl n ↦ absurd (cc ((ih.ran k u).0 a, rw n at (p k)))
                | inr n ↦ sym (rw n at (p k)) ∙ (ih.ran k u).0 a
              ]
            ],
            (λ q. elim (Bool-cases (same key k)) [
              | inl n ↦
                  let named : key ≡ k = (same_iff key k).0 n in
                  let both : some (v, 0) ≡ some (u, 0) =
                    sym pz ∙ ap (pending_in same w (id ∷ ids)) named ∙ q in
                  inl (
                    ap₂ (λ a b. (a, b)) (sym named)
                      (sym (ap (λ (x : V × ℕ). x.0) (eq_of_some both))))
              | inr n ↦ inr ((ih.ran k u).1 (rw n at (p k) ∙ q))
            ]),
          );
  }

  pub scan_and_run_tasks-Run :
      (ids : List ℕ) (w : TimingWheel K V)
      → Homed same w
      → ((x : ℕ) → Among x ids → Among x (slot same w w.ticked_pos))
      → NoDup ids
      → Run w (scan_and_run_tasks same w ids).0 ids (scan_and_run_tasks same w ids).1
  unfolding scan_and_run_tasks pending
  scan_and_run_tasks-Run [] w h all once = record {
    homed = h;
    left = λ k. drop_zero-positive (pending_in same w [] k) (λ v n e. pending-positive w k v n h e);
    ran = λ k v. ((λ a. absurd a), (λ e. absurd (omega (arith, pending-positive w k v 0 h e))));
  }
  scan_and_run_tasks-Run (id ∷ ids) w h all (new, once) =
      let s = scan_one-Scanned w id ids h (all id (inl refl)) new in
      Run-cons w (scan_one same w id).0 (scan_and_run_tasks same (scan_one same w id).0 ids).0 id
        ids (scan_one same w id).1 (scan_and_run_tasks same (scan_one same w id).0 ids).1 s.outcome
        (scan_and_run_tasks-Run ids (scan_one same w id).0 s.homed
          (λ x a.
            subst (λ p. Among x (slot same (scan_one same w id).0 p)) (sym s.hand)
              (s.stays x (λ e. new (subst (λ y. Among y ids) e a)) (all x (inr a))))
          once)
