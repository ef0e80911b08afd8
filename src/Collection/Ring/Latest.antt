-- ===== src/Collection/Ring/Latest.antt =====
-- A ring holds the latest elements of its history, oldest first.
use native.Mathlib.Nat.{add-mod_right}
use go_zero.Prelude.{
  ℕ, zero, suc, ◌+◌, ◌-◌, ◌%◌, ◌^◌, ◌≤◌, ◌<◌, ◌≡◌, refl, sym, ap, subst, ◌∙◌, List, [], ◌∷◌, ◌++◌,
  some, length, drop, window, arith, append_assoc, append-nil, length-set, length-append,
  length-replicate, window-push, window-mod, mod-mod, set, ltb-eq-false, get_or, replicate, ltb,
  Bool-cases, eq_of_some, true, inl, inr, drop-drop, drop-append, lt_of_ltb, le_of_not-ltb,
  drop-window,
}
use go_zero.Collection.Ring.{Ring, new_ring, add, copy_from, take_all, add_each}

module _ {ℓ} {A : Type ℓ} (nil : A) where
  copy_from-window : (xs : List A) (s n : ℕ) → copy_from nil xs s n ≡ window nil xs s n
  unfolding copy_from window
  copy_from-window xs s zero = refl
  copy_from-window xs s (suc n) =
      ap (◌∷◌ (get_or xs (s % length xs) nil)) (copy_from-window xs (suc s) n)

  -- The ring of `n` slots after the history `h`.
  record Holds (n : ℕ) (h : List A) (r : Ring A) : Type ℓ where
    slots : length r.elements ≡ n
    counted : r.index ≡ length h
    filling : length h ≤ n → window nil r.elements 0 (length h) ≡ h
    full : (s : ℕ) → length h ≡ s + n → window nil r.elements s n ≡ drop s h

  module _ (n : ℕ) (h : List A) (xs : List A) (v : A) (e : length xs ≡ n) where
    -- A write while the ring is not yet full.
    latest_filling :
        length h < n
        → window nil xs 0 (length h) ≡ h
        → window nil (set xs (length h % length xs) v) 0 (suc (length h)) ≡ h ++ (v ∷ [])
    latest_filling lt w =
        window-push nil xs 0 (length h) (length h % length xs) v (omega arith)
          (ap (λ k. k % length xs) (omega arith))
        ∙ ap (λ ys. ys ++ (v ∷ [])) w

    -- A write to a full ring: the oldest element goes.
    latest_full :
        (s k : ℕ)
        → n ≡ suc k
        → length h ≡ s + n
        → window nil xs s n ≡ drop s h
        → window nil (set xs (length h % length xs) v) (suc s) n ≡ drop (suc s) (h ++ (v ∷ []))
    latest_full s k f l w =
        ap (window nil (set xs (length h % length xs) v) (suc s)) f
        ∙ window-push nil xs (suc s) k (length h % length xs) v (omega arith)
            (ap (λ m. m % length xs) (omega arith))
        ∙ ap (λ ys. ys ++ (v ∷ []))
            (sym (drop-window nil xs s k)
              ∙ ap (λ m. drop 1 (window nil xs s m)) (sym f)
              ∙ ap (drop 1) w
              ∙ drop-drop s h)
        ∙ sym (drop-append (suc s) h (v ∷ []) (omega arith))

  length-snoc : (h : List A) (v : A) → length (h ++ (v ∷ [])) ≡ suc (length h)
  length-snoc h v = omega (arith, length-append h (v ∷ []))

  add-Holds :
      (k : ℕ) (h : List A) (r : Ring A) (v : A)
      → suc (length h) < 2 ^ 63
      → Holds (suc k) h r
      → Holds (suc k) (h ++ (v ∷ [])) (add nil r v)
  unfolding add
  add-Holds k h r v lt o = record {
    slots = length-set xs (r.index % length xs) v ∙ o.slots;
    counted = omega (arith, o.counted, length-snoc h v);
    filling = λ le.
        at_index (λ p. window nil (set xs p v) 0 (length (h ++ (v ∷ []))) ≡ h ++ (v ∷ []))
          (ap (window nil (set xs (length h % length xs) v) 0) (length-snoc h v)
            ∙ latest_filling (suc k) h xs v o.slots (omega (arith, length-snoc h v))
                (o.filling (omega (arith, length-snoc h v))));
    full = full_after;
  }
    where
      xs : List A
      xs = r.elements

      at_index : (P : ℕ → Type ℓ) → P (length h % length xs) → P (r.index % length xs)
      at_index P p = rw o.counted p

      full_after :
          (s : ℕ)
          → length (h ++ (v ∷ [])) ≡ s + suc k
          → window nil (set xs (r.index % length xs) v) s (suc k) ≡ drop s (h ++ (v ∷ []))
      full_after zero e =
          at_index (λ p. window nil (set xs p v) 0 (suc k) ≡ h ++ (v ∷ []))
            (ap (window nil (set xs (length h % length xs) v) 0) (omega (arith, length-snoc h v))
              ∙ latest_filling (suc k) h xs v o.slots (omega (arith, length-snoc h v))
                  (o.filling (omega (arith, length-snoc h v))))
      full_after (suc s) e =
          at_index (λ p. window nil (set xs p v) (suc s) (suc k) ≡ drop (suc s) (h ++ (v ∷ [])))
            (latest_full (suc k) h xs v o.slots s k refl (omega (arith, length-snoc h v))
              (o.full s (omega (arith, length-snoc h v))))

  add_each-Holds :
      (k : ℕ) (h vs : List A) (r : Ring A)
      → length (h ++ vs) < 2 ^ 63
      → Holds (suc k) h r
      → Holds (suc k) (h ++ vs) (add_each nil r vs)
  unfolding add_each
  add_each-Holds k h [] r lt o = rw append-nil o
  add_each-Holds k h (v ∷ vs) r lt o =
      subst (λ l. Holds (suc k) l (add_each nil (add nil r v) vs)) (append_assoc h (v ∷ []) vs)
        (add_each-Holds k (h ++ (v ∷ [])) vs (add nil r v)
          (subst (λ l. length l < 2 ^ 63) (sym (append_assoc h (v ∷ []) vs)) lt)
          (add-Holds k h r v (omega (arith, length-append h (v ∷ vs))) o))

  empty-Holds : (k : ℕ) → Holds (suc k) [] (record { elements = replicate (suc k) nil; index = 0 })
  unfolding window
  empty-Holds k = record {
    slots = length-replicate (suc k) nil;
    counted = refl;
    filling = λ _. refl;
    full = λ s e. absurd (omega arith);
  }

  take_all-Holds :
      (k : ℕ) (h : List A) (r : Ring A)
      → Holds (suc k) h r
      → take_all nil r ≡ drop (length h - suc k) h
  unfolding take_all
  take_all-Holds k h r o = elim (Bool-cases (ltb (length r.elements) r.index)) [
    | inl over ↦ rw over (
        copy_from-window xs (r.index % length xs) (length xs)
        ∙ window-mod nil xs (r.index % length xs) s (length xs) (same_start over)
        ∙ ap (window nil xs s) o.slots
        ∙ o.full s (omega (arith, o.slots, o.counted, lt_of_ltb (length xs) r.index over)))
    | inr fits ↦ rw fits (
        copy_from-window xs 0 r.index
        ∙ ap (window nil xs 0) o.counted
        ∙ o.filling (omega (arith, o.slots, o.counted, le_of_not-ltb (length xs) r.index fits))
        ∙ ap (λ m. drop m h)
            (zero_eq (omega (arith, o.slots, o.counted, le_of_not-ltb (length xs) r.index fits))))
  ]
    where
      xs : List A
      xs = r.elements

      s : ℕ
      s = length h - suc k

      same_start : ltb (length xs) r.index ≡ true → r.index % length xs % length xs ≡ s % length xs
      same_start over =
          mod-mod r.index (length xs)
          ∙ ap (λ m. m % length xs)
              (omega (arith, o.slots, o.counted, lt_of_ltb (length xs) r.index over))
          ∙ add-mod_right s (length xs)

      zero_eq : length h ≤ suc k → 0 ≡ length h - suc k
      zero_eq le = omega arith

  new_ring-Holds :
      (n : ℕ) (r : Ring A) → new_ring nil n ≡ some r → (k : ℕ) × (n ≡ suc k) × Holds (suc k) [] r
  unfolding new_ring
  new_ring-Holds zero r e = cc
  new_ring-Holds (suc k) r e =
      let made : some (record { elements = replicate (suc k) nil; index = 0 }) ≡ some r =
        rw (ltb-eq-false (suc k) 1 (omega arith)) at e in
      (k, refl, subst (Holds (suc k) []) (eq_of_some made) (empty-Holds k))

  -- A ring made for `n` elements, `n` at least 1, gives back the latest `n` elements that were
  -- added, oldest first, or all of them if there were at most `n`; at most `2 ^ 63 - 1` additions.
  pub take_all-latest :
      (n : ℕ) (vs : List A) (r : Ring A)
      → new_ring nil n ≡ some r
      → length vs < 2 ^ 63
      → take_all nil (add_each nil r vs) ≡ drop (length vs - n) vs
  take_all-latest n vs r e lt =
      let (k, is_suc, o) = new_ring-Holds n r e in
      take_all-Holds k vs (add_each nil r vs) (add_each-Holds k [] vs r lt o)
      ∙ ap (λ m. drop (length vs - m) vs) (sym is_suc)
