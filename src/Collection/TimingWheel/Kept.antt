-- ===== src/Collection/TimingWheel/Kept.antt =====
-- The parts of the handlers keep every pending entry in its slot.
use go_zero.Prelude.{
  ℕ, ◌<◌, ◌==◌, ◌≡◌, ◌≢◌, ◌↔◌, inl, inr, refl, sym, ap, ◌∙◌, Bool, true, false, List, some, arith,
  length, length-set, Among, lookup, erase, lookup-erase, erase-some, Bool-cases, ==_iff, ==-self,
  eq_of_some,
}
use go_zero.Collection.TimingWheel.{
  Entry, Position, TimingWheel, write, without, slot, store_item, unlink,
}
use go_zero.Collection.TimingWheel.Home.{Homed, Among-unlink, NoDup-unlink}

pub write_self : {A : Type 0} (f : ℕ → A) (p : ℕ) (a : A) → write f p a p ≡ a
write_self f p a = rw (==-self p) refl

pub write-ne : {A : Type 0} (f : ℕ → A) (p q : ℕ) (a : A) → p ≢ q → write f p a q ≡ f q
write-ne f p q a h = elim (Bool-cases (p == q)) [
  | inl e ↦ absurd (h ((==_iff p q).0 e))
  | inr e ↦ rw e refl
]

-- A write that keeps a part of the entry keeps it everywhere.
pub write-part :
    {A B : Type 0} (g : A → B) (f : ℕ → A) (p : ℕ) (a : A)
    → g a ≡ g (f p)
    → (q : ℕ) → g (write f p a q) ≡ g (f q)
write-part g f p a h q = elim (Bool-cases (p == q)) [
  | inl e ↦ rw e (h ∙ ap (λ x. g (f x)) ((==_iff p q).0 e))
  | inr e ↦ rw e refl
]

module _ {K V : Type 0} (same : K → K → Bool)
    (same_iff : (a b : K) → (same a b ≡ true) ↔ (a ≡ b)) where
  -- An entry gets another value, circle or diff.
  pub store_item-Homed :
      (w : TimingWheel K V) (id : ℕ) (e : Entry K V)
      → e.key ≡ (w.items id).key
      → e.removed ≡ (w.items id).removed
      → e.diff < w.num_slots
      → Homed same w
      → Homed same (store_item same w id e)
  store_item-Homed w id e key removed diff h = record {
    in_wheel = h.in_wheel;
    sized = h.sized;
    kept = λ p q hp a r.
        ap (λ k. lookup same k w.timers) (write-part (λ x. x.key) w.items id e key q)
        ∙ h.kept p q hp a (sym (write-part (λ x. x.removed) w.items id e removed q) ∙ r);
    found = λ k t at.
        let (low, a, r, named, d) = h.found k t at in
        (
          low,
          a,
          write-part (λ x. x.removed) w.items id e removed t.item ∙ r,
          write-part (λ x. x.key) w.items id e key t.item ∙ named,
          elim (Bool-cases (id == t.item)) [ inl i ↦ rw i diff | inr i ↦ rw i d ],
        );
    once = h.once;
    allocated = h.allocated;
  }

  -- `timers` matters by its entries only.
  pub timers-Homed :
      (w : TimingWheel K V) (ts : List (K × Position))
      → ((k : K) → lookup same k w.timers ≡ lookup same k ts)
      → Homed same w
      → Homed same (record w { timers = ts })
  timers-Homed w ts e h = record {
    in_wheel = h.in_wheel;
    sized = h.sized;
    kept = λ p q hp a r. sym (e (w.items q).key) ∙ h.kept p q hp a r;
    found = λ k t at. h.found k t (e k ∙ at);
    once = h.once;
    allocated = h.allocated;
  }

  -- A removed entry is taken out of the slot.
  pub unlink-Homed :
      (w : TimingWheel K V) (id : ℕ)
      → (w.items id).removed ≡ true
      → Homed same w
      → Homed same (unlink same w id)
  unlink-Homed w id gone h = record {
    in_wheel = h.in_wheel;
    sized = length-set w.slots w.ticked_pos (without id (slot same w w.ticked_pos)) ∙ h.sized;
    kept = λ p q hp a r. h.kept p q hp ((Among-unlink same w id p q small).0 a).1 r;
    found = λ k t at.
        let (low, a, r, named, d) = h.found k t at in
        (
          low,
          (Among-unlink same w id t.pos t.item small).1
              ((λ p. cc (ap (λ x. (w.items x).removed) (p.1), gone, r)), a),
          r,
          named,
          d,
        );
    once = λ p hp. NoDup-unlink same w id p small h.in_wheel h.once hp;
    allocated = λ p q hp a. h.allocated p q hp ((Among-unlink same w id p q small).0 a).1;
  }
    where
      small : w.ticked_pos < length w.slots
      small = omega (arith, h.sized, h.in_wheel)

  -- A pending entry is taken out of the slot and of `timers`.
  pub leave-Homed :
      (w : TimingWheel K V) (id : ℕ)
      → Among id (slot same w w.ticked_pos)
      → (w.items id).removed ≡ false
      → Homed same w
      → Homed same (record (unlink same w id) { timers = erase same (w.items id).key w.timers })
  leave-Homed w id here live h = record {
    in_wheel = h.in_wheel;
    sized = length-set w.slots w.ticked_pos (without id (slot same w w.ticked_pos)) ∙ h.sized;
    kept = λ p q hp a r.
        let (out, b) = (Among-unlink same w id p q small).0 a in
        let old = h.kept p q hp b r in
        lookup-erase same same_iff (w.items id).key (w.items q).key w.timers
        ∙ elim (Bool-cases (same (w.items id).key (w.items q).key)) [
          | inr e ↦ rw e old
          | inl e ↦
              let both : some (record { pos = p; item = q })
                  ≡ some (record { pos = w.ticked_pos; item = id }) =
                sym old
                ∙ ap (λ k. lookup same k w.timers)
                    (sym ((same_iff (w.items id).key (w.items q).key).0 e))
                ∙ its in
              absurd (out (ap (λ t. t.pos) (eq_of_some both), ap (λ t. t.item) (eq_of_some both)))
        ];
    found = λ k t at.
        let other = erase-some same same_iff (w.items id).key k t w.timers at in
        let (low, a, r, named, d) = h.found k t (other.1) in
        (
          low,
          (Among-unlink same w id t.pos t.item small).1
              ((λ p. other.0 (sym (ap (λ x. (w.items x).key) (p.1)) ∙ named)), a),
          r,
          named,
          d,
        );
    once = λ p hp. NoDup-unlink same w id p small h.in_wheel h.once hp;
    allocated = λ p q hp a. h.allocated p q hp ((Among-unlink same w id p q small).0 a).1;
  }
    where
      small : w.ticked_pos < length w.slots
      small = omega (arith, h.sized, h.in_wheel)

      its : lookup same (w.items id).key w.timers ≡ some (record { pos = w.ticked_pos; item = id })
      its = h.kept w.ticked_pos id h.in_wheel here live
