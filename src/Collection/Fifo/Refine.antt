-- ===== src/Collection/Fifo/Refine.antt =====
-- The queue behaves as the unbounded list of its contents, and no call panics.
use go_zero.Prelude.{
  ℕ, suc, ◌+◌, ◌-◌, ◌%◌, ◌≤◌, ◌<◌, ◌≡◌, refl, sym, ap, ap₂, ◌∙◌, List, [], ◌∷◌, ◌++◌, true, false,
  ◌&&◌, add-mod_right, window-cons, dec_lt, ltb, ltb-eq-true, ◌==◌, ◌⊎◌, inl, inr, ◌≢◌, mod-ne,
  get_or, replicate, add_assoc, Option, none, some, length, drop, take, set, window, arith,
  mod-eq_of_lt, mod-lt, length-set, length-append, length-replicate, length-take, length-drop,
  window-push, window-mod, mod-mod, window-append, window-turn, mod-add-mod, length-window,
}
use go_zero.Collection.Fifo.{
  Queue, Call, call_empty, call_put, call_take, Reply, is_empty, done, taken, new_queue, empty,
  grow, store, put, take_first, run,
}

-- The specification: a list, oldest first.
abbrev first {ℓ} : {A : Type ℓ} → List A → Option A
first [] = none
first (x ∷ _) = some x

-- What the calls return from a queue that holds the list.
unfoldable pub replies {ℓ} : {A : Type ℓ} → List A → List (Call A) → List (Reply A)
replies xs [] = []
replies xs (call_empty ∷ calls) = is_empty (length xs == 0) ∷ replies xs calls
replies xs (call_put v ∷ calls) = done ∷ replies (xs ++ (v ∷ [])) calls
replies xs (call_take ∷ calls) = taken (first xs) ∷ replies (drop 1 xs) calls

module _ {ℓ} {A : Type ℓ} (nil : A) where
  pub record Holds (q : Queue A) (xs : List A) : Type ℓ where
    pub positive : 0 < q.size
    pub head_in : q.head < length q.elements
    pub fits : q.count ≤ length q.elements
    pub tail_at : q.tail ≡ (q.head + q.count) % length q.elements
    pub contents : window nil q.elements q.head q.count ≡ xs

  -- A queue with a free slot.
  store-Holds :
      (q : Queue A) (xs : List A) (v : A)
      → Holds q xs
      → q.count < length q.elements
      → (q' : Queue A) × (store nil q v ≡ some q') × Holds q' (xs ++ (v ∷ []))
  unfolding store
  store-Holds q xs v o free = (
    stored,
    rw (ltb-eq-true q.tail L (rw o.tail_at (mod-lt (q.head + q.count) (omega arith)))),
    record {
      positive = o.positive;
      head_in = rw (length-set q.elements q.tail v) o.head_in;
      fits = rw (length-set q.elements q.tail v) (omega arith);
      tail_at =
          ap (λ k. (k + 1) % L) o.tail_at
          ∙ mod-add-mod (q.head + q.count) L 1
          ∙ ap₂ ◌%◌ (add_assoc q.head q.count 1) (sym (length-set q.elements q.tail v));
      contents =
          ap (window nil (set q.elements q.tail v) q.head) (succ q.count)
          ∙ window-push nil q.elements q.head q.count q.tail v free o.tail_at
          ∙ ap (λ ys. ys ++ (v ∷ [])) o.contents;
    },
  )
    where
      L : ℕ
      L = length q.elements

      succ : (n : ℕ) → n + 1 ≡ suc n
      succ n = omega arith

      stored : Queue A
      stored = record q {
        elements = set q.elements q.tail v;
        tail = (q.tail + 1) % length q.elements;
        count = q.count + 1;
      }

  grow-Holds :
      (q : Queue A) (xs : List A)
      → Holds q xs
      → q.count ≡ length q.elements
      → Holds (grow nil q) xs × (q.count < length (grow nil q).elements)
  unfolding grow
  grow-Holds q xs o full = (
    record {
      positive = o.positive;
      head_in = omega (arith, longer);
      fits = omega (arith, longer);
      tail_at =
          sym (ap (λ k. k % length grown) (omega arith) ∙ mod-eq_of_lt (omega (arith, longer)));
      contents =
          ap (window nil grown 0) (full ∙ sym turned)
          ∙ window-append nil (drop q.head q.elements ++ take q.head q.elements)
              (replicate q.size nil)
          ∙ sym (window-turn nil q.elements q.head o.head_in)
          ∙ ap (window nil q.elements q.head) (sym full)
          ∙ o.contents;
    },
    omega (arith, longer),
  )
    where
      turn : List A
      turn = drop q.head q.elements ++ take q.head q.elements

      grown : List A
      grown = turn ++ replicate q.size nil

      turned : length turn ≡ length q.elements
      turned = omega (
        arith,
        o.head_in,
        length-append (drop q.head q.elements) (take q.head q.elements),
        length-drop q.head q.elements,
        length-take q.head q.elements,
      )

      longer : length grown ≡ length q.elements + q.size
      longer =
          omega
            (arith, turned, length-append turn (replicate q.size nil), length-replicate q.size nil)

  -- The full queue is the one whose ends meet while it is not empty.
  ends_meet :
      (q : Queue A) (xs : List A)
      → Holds q xs
      → ((q.head == q.tail) && ltb 0 q.count ≡ true) × (q.count ≡ length q.elements)
        ⊎ ((q.head == q.tail) && ltb 0 q.count ≡ false) × (q.count < length q.elements)
  ends_meet q xs o = elim (dec_lt q.count (length q.elements)) [
    | yes free ↦ inr (ground (arith, apart free), free)
    | no full ↦ inl (ground (arith, together), omega arith)
  ]
    where
      apart : q.count < length q.elements → 0 < q.count → q.head ≢ q.tail
      apart free more e =
          mod-ne (length q.elements) q.head (q.head + q.count) (omega arith) (omega arith)
            (mod-eq_of_lt o.head_in ∙ e ∙ o.tail_at)

      together : q.count ≡ length q.elements → q.head ≡ q.tail
      together e = sym (
          o.tail_at
          ∙ ap (λ k. (q.head + k) % length q.elements) e
          ∙ add-mod_right q.head (length q.elements)
          ∙ mod-eq_of_lt o.head_in)

  put-Holds :
      (q : Queue A) (xs : List A) (v : A)
      → Holds q xs
      → (q' : Queue A) × (put nil q v ≡ some q') × Holds q' (xs ++ (v ∷ []))
  unfolding put
  put-Holds q xs v o = elim (ends_meet q xs o) [
    | inl (full, count) ↦
        let (o', free) = grow-Holds q xs o count in
        let (q', e, o'') = store-Holds (grow nil q) xs v o' free in (q', rw full e, o'')
    | inr (free, count) ↦ let (q', e, o'') = store-Holds q xs v o count in (q', rw free e, o'')
  ]

  count_left : (q : Queue A) (xs : List A) → Holds q xs → q.count ≡ length xs
  count_left q xs o = sym (length-window nil q.elements q.head q.count) ∙ ap length o.contents

  none_left : (q : Queue A) → Holds q [] → (q.count == 0) ≡ true
  none_left q o = ground (arith, count_left q [] o)

  some_left : (q : Queue A) (x : A) (xs : List A) → Holds q (x ∷ xs) → (q.count == 0) ≡ false
  some_left q x xs o = ground (arith, count_left q (x ∷ xs) o)

  take_first-Holds :
      (q : Queue A) (xs : List A)
      → Holds q xs
      → ((take_first nil q).0 ≡ first xs) × Holds (take_first nil q).1 (drop 1 xs)
  unfolding take_first
  take_first-Holds q [] o = rw (none_left q o) (refl, o)
  take_first-Holds q (x ∷ xs) o = rw (some_left q x xs o) (
    ap some (ap (λ k. get_or q.elements k nil) (sym (mod-eq_of_lt o.head_in)) ∙ parts.0),
    record {
      positive = o.positive;
      head_in = mod-lt (q.head + 1) (omega (arith, o.head_in));
      fits = omega (arith, o.fits);
      tail_at =
          o.tail_at
          ∙ ap (λ k. k % length q.elements) (omega (arith, count_left q (x ∷ xs) o))
          ∙ sym (mod-add-mod (q.head + 1) (length q.elements) (q.count - 1));
      contents =
          window-mod nil q.elements ((q.head + 1) % length q.elements) (suc q.head) (q.count - 1) (
            mod-mod (q.head + 1) (length q.elements)
            ∙ ap (λ k. k % length q.elements) (omega arith))
          ∙ ap (window nil q.elements (suc q.head)) (omega (arith, count_left q (x ∷ xs) o))
          ∙ parts.1;
    },
  )
    where
      parts :
          (get_or q.elements (q.head % length q.elements) nil ≡ x)
          × (window nil q.elements (suc q.head) (length xs) ≡ xs)
      parts =
          window-cons nil q.elements q.head (length xs) x xs
            (ap (window nil q.elements q.head) (sym (count_left q (x ∷ xs) o)) ∙ o.contents)

  empty-Holds : (q : Queue A) (xs : List A) → Holds q xs → empty nil q ≡ (length xs == 0)
  unfolding empty
  empty-Holds q xs o = ap (λ k. k == 0) (count_left q xs o)

  run-Holds :
      (calls : List (Call A)) (q : Queue A) (xs : List A)
      → Holds q xs
      → run nil q calls ≡ some (replies xs calls)
  unfolding run replies
  run-Holds [] q xs o = refl
  run-Holds (call_empty ∷ calls) q xs o = rw (run-Holds calls q xs o, empty-Holds q xs o)
  run-Holds (call_put v ∷ calls) q xs o =
      let (q', e, o') = put-Holds q xs v o in rw (e, run, run-Holds calls q' (xs ++ (v ∷ [])) o')
  run-Holds (call_take ∷ calls) q xs o =
      let (e, o') = take_first-Holds q xs o in
      rw (run-Holds calls (take_first nil q).1 (drop 1 xs) o', e)

  new_queue-Holds : (size : ℕ) → 0 < size → Holds (new_queue nil size) []
  unfolding new_queue window
  new_queue-Holds size h = record {
    positive = h;
    head_in = omega (arith, length-replicate size nil);
    fits = omega arith;
    tail_at = sym (mod-eq_of_lt (omega (arith, length-replicate size nil)));
    contents = refl;
  }

  -- A queue made with a positive size never panics, and every sequence of calls of `Empty`, `Put`
  -- and `Take` on it returns what an unbounded first-in-first-out list returns.
  pub run_refines :
      (size : ℕ) (calls : List (Call A))
      → 0 < size
      → run nil (new_queue nil size) calls ≡ some (replies [] calls)
  run_refines size calls h = run-Holds calls (new_queue nil size) [] (new_queue-Holds size h)
