-- ===== src/Collection/SafeMap/Parts.antt =====
-- Two maps that make up one map.
use go_zero.Prelude.{
  ◌+◌, ◌≡◌, ◌⊎◌, ◌↔◌, inl, inr, refl, ap, ◌∙◌, Bool, true, List, [], Option, none, some, length,
  arith, Bool-cases, lookup, insert, erase, copy_all, first_of, OneEntry, Disjoint, lookup-insert,
  lookup-erase, length-insert, length-erase, present, insert-OneEntry, erase-OneEntry,
  copy_all-OneEntry, lookup-copy_all, length-copy_all,
}

module _ {K V : Type 0} (same : K → K → Bool) where
  -- Two parts without a common key, which have together the entries of one map.
  pub record Parts (old new one : List (K × V)) : Type 0 where
    pub old_one : OneEntry same old
    pub new_one : OneEntry same new
    pub whole_one : OneEntry same one
    pub apart : Disjoint same old new
    pub agrees : (k : K) → first_of (lookup same k old) (lookup same k new) ≡ lookup same k one
    pub counted : length old + length new ≡ length one

  first_of-turn : (o o' : Option V) → (o ≡ none) ⊎ (o' ≡ none) → first_of o' o ≡ first_of o o'
  first_of-turn none none h = refl
  first_of-turn none (some y) h = refl
  first_of-turn (some x) none h = refl
  first_of-turn (some x) (some y) h = elim h [ inl e ↦ cc | inr e ↦ cc ]

  present-first_of :
      (o o' : Option V)
      → (o ≡ none) ⊎ (o' ≡ none)
      → present o + present o' ≡ present (first_of o o')
  present-first_of none o' h = omega arith
  present-first_of (some x) none h = refl
  present-first_of (some x) (some y) h = elim h [ inl e ↦ cc | inr e ↦ cc ]

  module _ (same_iff : (a b : K) → (same a b ≡ true) ↔ (a ≡ b)) where
    -- The parts may change places.
    pub turn : (old new one : List (K × V)) → Parts old new one → Parts new old one
    turn old new one p = record {
      old_one = p.new_one;
      new_one = p.old_one;
      whole_one = p.whole_one;
      apart = λ k. elim (p.apart k) [ inl a ↦ inr a | inr b ↦ inl b ];
      agrees = λ k. first_of-turn (lookup same k old) (lookup same k new) (p.apart k) ∙ p.agrees k;
      counted = omega (arith, p.counted);
    }

    present-agrees :
        (old new one : List (K × V)) (k : K)
        → Parts old new one
        → present (lookup same k old) + present (lookup same k new) ≡ present (lookup same k one)
    present-agrees old new one k p =
        present-first_of (lookup same k old) (lookup same k new) (p.apart k)
        ∙ ap present (p.agrees k)

    -- An entry is set in the first part, and deleted from the second.
    pub insert-Parts :
        (old new one : List (K × V)) (k : K) (v : V)
        → Parts old new one
        → Parts (insert same k v old) (erase same k new) (insert same k v one)
    insert-Parts old new one k v p = record {
      old_one = insert-OneEntry same same_iff k v old p.old_one;
      new_one = erase-OneEntry same same_iff k new p.new_one;
      whole_one = insert-OneEntry same same_iff k v one p.whole_one;
      apart = λ j. elim (Bool-cases (same k j)) [
        | inl e ↦ inr (lookup-erase same same_iff k j new ∙ rw e refl)
        | inr e ↦ elim (p.apart j) [
          | inl a ↦ inl (lookup-insert same same_iff k j v old ∙ rw e a)
          | inr b ↦ inr (lookup-erase same same_iff k j new ∙ rw e b)
        ]
      ];
      agrees = λ j.
          rw
            (
              lookup-insert same same_iff k j v old,
              lookup-erase same same_iff k j new,
              lookup-insert same same_iff k j v one,
            )
            (elim (Bool-cases (same k j)) [ inl e ↦ rw e refl | inr e ↦ rw e (p.agrees j) ]);
      counted = omega (
        arith,
        p.counted,
        length-insert same same_iff k v old,
        length-erase same same_iff k new p.new_one,
        length-insert same same_iff k v one,
        present-agrees old new one k p,
      );
    }

    -- An entry is deleted from both,
    pub erase-Parts :
        (old new one : List (K × V)) (k : K)
        → Parts old new one
        → Parts (erase same k old) (erase same k new) (erase same k one)
    erase-Parts old new one k p = record {
      old_one = erase-OneEntry same same_iff k old p.old_one;
      new_one = erase-OneEntry same same_iff k new p.new_one;
      whole_one = erase-OneEntry same same_iff k one p.whole_one;
      apart = λ j. elim (p.apart j) [
        | inl a ↦ inl (lookup-erase same same_iff k j old ∙ ground (arith, a))
        | inr b ↦ inr (lookup-erase same same_iff k j new ∙ ground (arith, b))
      ];
      agrees = λ j.
          rw
            (
              lookup-erase same same_iff k j old,
              lookup-erase same same_iff k j new,
              lookup-erase same same_iff k j one,
            )
            (elim (Bool-cases (same k j)) [ inl e ↦ rw e refl | inr e ↦ rw e (p.agrees j) ]);
      counted = omega (
        arith,
        p.counted,
        length-erase same same_iff k old p.old_one,
        length-erase same same_iff k new p.new_one,
        length-erase same same_iff k one p.whole_one,
        present-agrees old new one k p,
      );
    }

    -- and the first part is copied into the second, which takes its place.
    pub copy_all-Parts :
        (old new one : List (K × V)) → Parts old new one → Parts (copy_all same old new) [] one
    unfolding lookup
    copy_all-Parts old new one p = record {
      old_one = copy_all-OneEntry same same_iff old new p.new_one;
      new_one = tt;
      whole_one = p.whole_one;
      apart = λ k. inr refl;
      agrees = λ k.
          first_of-turn none (lookup same k (copy_all same old new)) (inl refl)
          ∙ lookup-copy_all same same_iff k old new p.old_one
          ∙ p.agrees k;
      counted = omega (arith, p.counted, length-copy_all same same_iff old new p.old_one p.apart);
    }
