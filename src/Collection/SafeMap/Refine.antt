-- ===== src/Collection/SafeMap/Refine.antt =====
-- The map in two parts behaves as one map.
use go_zero.Prelude.{
  ℕ, ◌≡◌, ◌↔◌, inl, inr, refl, sym, ap, ap₂, ◌∙◌, leb, ltb, ◌&&◌, Bool, true, List, [], ◌∷◌, ◌++◌,
  append-OneEntry, lookup-append, Option, length, Bool-cases, Option-cases, lookup, insert, erase,
  OneEntry, erase-none,
}
use go_zero.Collection.SafeMap.{
  SafeMap, new_safe_map, get, size_of, unset_new, unset_old, set_value, delete_key, compact_old,
  compact_new, del, max_deletion, range, visit_until, copy_threshold,
}
use go_zero.Collection.SafeMap.Parts.{Parts, turn, insert-Parts, erase-Parts, copy_all-Parts}

-- A call of a method, and what it returns.
pub data Call (K V : Type 0) : Type 0 where
  call_set : K → V → Call K V
  call_del call_get : K → Call K V
  call_size : Call K V

pub data Reply (V : Type 0) : Type 0 where
  got : Option V → Reply V
  sized : ℕ → Reply V

module _ {K V : Type 0} (same : K → K → Bool) where
  -- The replies of the map in two parts,
  unfoldable pub run : SafeMap K V → List (Call K V) → List (Reply V)
  run m [] = []
  run m (call_set k v ∷ calls) = run (set_value same m k v) calls
  run m (call_del k ∷ calls) = run (del same m k) calls
  run m (call_get k ∷ calls) = got (get same m k) ∷ run m calls
  run m (call_size ∷ calls) = sized (size_of same m) ∷ run m calls

  -- and those of one map.
  unfoldable pub replies : List (K × V) → List (Call K V) → List (Reply V)
  replies one [] = []
  replies one (call_set k v ∷ calls) = replies (insert same k v one) calls
  replies one (call_del k ∷ calls) = replies (erase same k one) calls
  replies one (call_get k ∷ calls) = got (lookup same k one) ∷ replies one calls
  replies one (call_size ∷ calls) = sized (length one) ∷ replies one calls

  -- The maps after a sequence of calls.
  unfoldable pub after : SafeMap K V → List (Call K V) → SafeMap K V
  after m [] = m
  after m (call_set k v ∷ calls) = after (set_value same m k v) calls
  after m (call_del k ∷ calls) = after (del same m k) calls
  after m (call_get k ∷ calls) = after m calls
  after m (call_size ∷ calls) = after m calls

  unfoldable pub after_one : List (K × V) → List (Call K V) → List (K × V)
  after_one one [] = one
  after_one one (call_set k v ∷ calls) = after_one (insert same k v one) calls
  after_one one (call_del k ∷ calls) = after_one (erase same k one) calls
  after_one one (call_get k ∷ calls) = after_one one calls
  after_one one (call_size ∷ calls) = after_one one calls

  visit_all : (m : List (K × V)) → visit_until same (λ _ _. true) m ≡ m
  unfolding visit_until
  visit_all [] = refl
  visit_all ((k, v) ∷ m) = ap (◌∷◌ (k, v)) (visit_all m)

  abbrev Holds : SafeMap K V → List (K × V) → Type 0
  Holds m one = Parts same m.dirty_old m.dirty_new one

  module _ (same_iff : (a b : K) → (same a b ≡ true) ↔ (a ≡ b)) where
    unset_new-parts :
        (m : SafeMap K V) (k : K)
        → ((unset_new same m k).dirty_old ≡ m.dirty_old)
          × ((unset_new same m k).dirty_new ≡ erase same k m.dirty_new)
    unfolding unset_new
    unset_new-parts m k = elim (Option-cases (lookup same k m.dirty_new)) [
      | inl free ↦ rw (free, unset_new) (refl, sym (erase-none same same_iff k m.dirty_new free))
      | inr (w, held) ↦ rw (held, unset_new) (refl, refl)
    ]

    unset_old-parts :
        (m : SafeMap K V) (k : K)
        → ((unset_old same m k).dirty_new ≡ m.dirty_new)
          × ((unset_old same m k).dirty_old ≡ erase same k m.dirty_old)
    unfolding unset_old
    unset_old-parts m k = elim (Option-cases (lookup same k m.dirty_old)) [
      | inl free ↦ rw (free, unset_old) (refl, sym (erase-none same same_iff k m.dirty_old free))
      | inr (w, held) ↦ rw (held, unset_old) (refl, refl)
    ]

    set_value-Holds :
        (m : SafeMap K V) (one : List (K × V)) (k : K) (v : V)
        → Holds m one
        → Holds (set_value same m k v) (insert same k v one)
    unfolding set_value
    set_value-Holds m one k v p = elim (Bool-cases (leb m.deletion_old max_deletion)) [
      | inl few ↦
          let (o, n) = unset_new-parts m k in
          rw (few, set_value, o, n) (insert-Parts same same_iff m.dirty_old m.dirty_new one k v p)
      | inr many ↦
          let (n, o) = unset_old-parts m k in
          rw (many, set_value, o, n)
            (turn same same_iff (insert same k v m.dirty_new) (erase same k m.dirty_old)
              (insert same k v one)
              (insert-Parts same same_iff m.dirty_new m.dirty_old one k v
                (turn same same_iff m.dirty_old m.dirty_new one p)))
    ]

    delete_key-Holds :
        (m : SafeMap K V) (one : List (K × V)) (k : K)
        → Holds m one
        → Holds (delete_key same m k) (erase same k one)
    unfolding delete_key
    delete_key-Holds m one k p = elim (Option-cases (lookup same k m.dirty_old)) [
      | inl free ↦
          let (o, n) = unset_new-parts m k in
          rw (free, delete_key, o, n)
            (rw (erase-none same same_iff k m.dirty_old free) at
              (erase-Parts same same_iff m.dirty_old m.dirty_new one k p))
      | inr (w, held) ↦ elim (p.apart k) [
        | inl free ↦ absurd (cc (held, free))
        | inr free ↦
            rw (held, delete_key)
              (rw (erase-none same same_iff k m.dirty_new free) at
                (erase-Parts same same_iff m.dirty_old m.dirty_new one k p))
      ]
    ]

    compact_old-Holds :
        (m : SafeMap K V) (one : List (K × V)) → Holds m one → Holds (compact_old same m) one
    unfolding compact_old
    compact_old-Holds m one p =
        elim (Bool-cases
          (leb max_deletion m.deletion_old && ltb (length m.dirty_old) copy_threshold)) [
            | inl full ↦
                rw (full, compact_old) (copy_all-Parts same same_iff m.dirty_old m.dirty_new one p)
            | inr rest ↦ rw (rest, compact_old) p
          ]

    compact_new-Holds :
        (m : SafeMap K V) (one : List (K × V)) → Holds m one → Holds (compact_new same m) one
    unfolding compact_new
    compact_new-Holds m one p =
        elim (Bool-cases
          (leb max_deletion m.deletion_new && ltb (length m.dirty_new) copy_threshold)) [
            | inl full ↦
                rw (full, compact_new)
                  (copy_all-Parts same same_iff m.dirty_new m.dirty_old one
                    (turn same same_iff m.dirty_old m.dirty_new one p))
            | inr rest ↦ rw (rest, compact_new) p
          ]

    del-Holds :
        (m : SafeMap K V) (one : List (K × V)) (k : K)
        → Holds m one
        → Holds (del same m k) (erase same k one)
    unfolding del
    del-Holds m one k p =
        compact_new-Holds (compact_old same (delete_key same m k)) (erase same k one)
          (compact_old-Holds (delete_key same m k) (erase same k one) (delete_key-Holds m one k p))

    run-Holds :
        (calls : List (Call K V)) (m : SafeMap K V) (one : List (K × V))
        → Holds m one
        → run m calls ≡ replies one calls
    unfolding run replies get size_of
    run-Holds [] m one p = refl
    run-Holds (call_set k v ∷ calls) m one p =
        run-Holds calls (set_value same m k v) (insert same k v one) (set_value-Holds m one k v p)
    run-Holds (call_del k ∷ calls) m one p =
        run-Holds calls (del same m k) (erase same k one) (del-Holds m one k p)
    run-Holds (call_get k ∷ calls) m one p =
        ap₂ (λ o rest. got o ∷ rest) (p.agrees k) (run-Holds calls m one p)
    run-Holds (call_size ∷ calls) m one p =
        ap₂ (λ n rest. sized n ∷ rest) (p.counted) (run-Holds calls m one p)

    new-Holds : Holds (new_safe_map same) []
    unfolding new_safe_map lookup
    new-Holds = record {
      old_one = tt;
      new_one = tt;
      whole_one = tt;
      apart = λ k. inl refl;
      agrees = λ k. refl;
      counted = refl;
    }

    -- Every sequence of calls of `Set`, `Del`, `Get` and `Size` on a new map returns what one map
    -- returns, whatever part an entry is in and whenever the parts are copied. The comparison of keys
    -- is equality.
    pub run-replies : (calls : List (Call K V)) → run (new_safe_map same) calls ≡ replies [] calls
    run-replies calls = run-Holds calls (new_safe_map same) [] new-Holds

    after-Holds :
        (calls : List (Call K V)) (m : SafeMap K V) (one : List (K × V))
        → Holds m one
        → Holds (after m calls) (after_one one calls)
    unfolding after after_one
    after-Holds [] m one p = p
    after-Holds (call_set k v ∷ calls) m one p =
        after-Holds calls (set_value same m k v) (insert same k v one) (set_value-Holds m one k v p)
    after-Holds (call_del k ∷ calls) m one p =
        after-Holds calls (del same m k) (erase same k one) (del-Holds m one k p)
    after-Holds (call_get k ∷ calls) m one p = after-Holds calls m one p
    after-Holds (call_size ∷ calls) m one p = after-Holds calls m one p

    -- After every sequence of calls on a new map, `Range` with a function that never stops it visits
    -- each key once, with the value that one map has for it, and no other key.
    pub range-after :
        (calls : List (Call K V))
        → OneEntry same (range same (after (new_safe_map same) calls) (λ _ _. true))
          × ((k : K)
              → lookup same k (range same (after (new_safe_map same) calls) (λ _ _. true))
                ≡ lookup same k (after_one [] calls))
    unfolding range
    range-after calls =
        let p = after-Holds calls (new_safe_map same) [] new-Holds in
        let m = after (new_safe_map same) calls in
        rw (visit_all (m.dirty_old ++ m.dirty_new)) (
          append-OneEntry same same_iff m.dirty_old m.dirty_new p.old_one p.new_one p.apart,
          λ k. lookup-append same k m.dirty_old m.dirty_new ∙ p.agrees k,
        )
