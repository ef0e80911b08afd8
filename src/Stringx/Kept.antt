-- ===== src/Stringx/Kept.antt =====
-- `Filter` and `Remove` keep the right elements, in their order.
use go_zero.Prelude.{
  ℕ, suc, ◌+◌, ◌≡◌, refl, sym, ap, ◌∙◌, ◌↔◌, inl, inr, ltb, if◌then◌else◌, Bool, true, not, List,
  [], ◌∷◌, ◌++◌, length, get_or, set, take, arith, Bool-cases, append_assoc,
}
use go_zero.Stringx.{filter_from, filter_chars, remove_from, remove, contains}
use go_zero.Stringx.Compact.{
  kept, shift, moved, unmoved, length-moved, length-snoc, read, front_left,
}

module _ {ℓ} {A : Type ℓ} (nothing : A) where
  abbrev taken : List A × ℕ → List A
  taken p = take p.1 p.0

  -- One round of the loop of `Filter`
  filter_round :
      (rest front gap : List A) (x : A) (dropped : A → Bool) (n i k : ℕ)
      → length front ≡ n
      → length (front ++ gap) ≡ i
      → filter_from nothing dropped ((front ++ gap) ++ (x ∷ rest)) n i (suc k)
        ≡ filter_from nothing dropped
            (((front ++ (x ∷ [])) ++ shift nothing gap x) ++ rest)
            (if dropped x then n else n + 1)
            (i + 1)
            k
  unfolding filter_from
  filter_round rest front gap x dropped n i k hn hi =
      ap (λ y. next (if ltb n i then set buf n y else buf) y) (read nothing front gap rest x i hi)
      ∙ ap (λ b. next b x)
          (unmoved nothing front gap rest x n i hn hi ∙ moved nothing front gap rest x n hn)
    where
      buf : List A
      buf = (front ++ gap) ++ (x ∷ rest)

      next : List A → A → List A × ℕ
      next b y = filter_from nothing dropped b (if dropped y then n else n + 1) (i + 1) k

  filter_from-kept :
      (rest front gap : List A) (dropped : A → Bool) (n i : ℕ)
      → length front ≡ n
      → length (front ++ gap) ≡ i
      → taken (filter_from nothing dropped ((front ++ gap) ++ rest) n i (length rest))
        ≡ front ++ kept (λ x. not (dropped x)) rest
  unfolding filter_from kept
  filter_from-kept [] front gap dropped n i hn hi = front_left nothing front gap n hn
  filter_from-kept (x ∷ rest) front gap dropped n i hn hi =
      ap taken (filter_round rest front gap x dropped n i (length rest) hn hi)
      ∙ elim (Bool-cases (dropped x)) [
        | inl e ↦ rw e (
            ap (λ l. taken (filter_from nothing dropped (l ++ rest) n (i + 1) (length rest)))
              (append_assoc front (x ∷ []) (shift nothing gap x))
            ∙ filter_from-kept rest front (x ∷ shift nothing gap x) dropped n (i + 1) hn (
                ap length (sym (append_assoc front (x ∷ []) (shift nothing gap x)))
                ∙ length-moved nothing front gap x i hi))
        | inr e ↦ rw e (
            filter_from-kept rest (front ++ (x ∷ [])) (shift nothing gap x) dropped (n + 1) (i + 1)
              (length-snoc nothing front x n hn) (length-moved nothing front gap x i hi)
            ∙ append_assoc front (x ∷ []) (kept (λ y. not (dropped y)) rest))
      ]

  -- `Filter` keeps the runes that the function does not drop, in their order, although it moves them
  -- in the slice that it reads.
  pub filter_chars-kept :
      (s : List A) (dropped : A → Bool)
      → filter_chars nothing s dropped ≡ kept (λ x. not (dropped x)) s
  unfolding filter_chars
  filter_chars-kept s dropped = filter_from-kept s [] [] dropped 0 0 refl refl

  module _ (same : A → A → Bool) where
    remove_round :
        (buf : List A) (str x : A) (n i k : ℕ)
        → get_or buf i nothing ≡ x
        → remove_from nothing same str buf n i (suc k) ≡ (
            if same x str
            then remove_from nothing same str buf n (i + 1) k
            else remove_from nothing same str (set buf n x) (n + 1) (i + 1) k)
    unfolding remove_from
    remove_round buf str x n i k h =
        ap
          (λ y.
            if same y str
            then remove_from nothing same str buf n (i + 1) k
            else remove_from nothing same str (set buf n y) (n + 1) (i + 1) k)
          h

    remove_from-kept :
        (rest front gap : List A) (str : A) (n i : ℕ)
        → length front ≡ n
        → length (front ++ gap) ≡ i
        → taken (remove_from nothing same str ((front ++ gap) ++ rest) n i (length rest))
          ≡ front ++ kept (λ x. not (same x str)) rest
    unfolding remove_from kept
    remove_from-kept [] front gap str n i hn hi = front_left nothing front gap n hn
    remove_from-kept (x ∷ rest) front gap str n i hn hi =
        ap taken (
          remove_round ((front ++ gap) ++ (x ∷ rest)) str x n i (length rest)
            (read nothing front gap rest x i hi))
        ∙ elim (Bool-cases (same x str)) [
          | inl e ↦ rw e (
              ap (λ l. taken (remove_from nothing same str l n (i + 1) (length rest))) later
              ∙ remove_from-kept rest front (gap ++ (x ∷ [])) str n (i + 1) hn (
                  ap length (sym (append_assoc front gap (x ∷ [])))
                  ∙ length-snoc nothing (front ++ gap) x i hi))
          | inr e ↦ rw e (
              ap (λ l. taken (remove_from nothing same str l (n + 1) (i + 1) (length rest)))
                (moved nothing front gap rest x n hn)
              ∙ remove_from-kept rest (front ++ (x ∷ [])) (shift nothing gap x) str (n + 1) (i + 1)
                  (length-snoc nothing front x n hn) (length-moved nothing front gap x i hi)
              ∙ append_assoc front (x ∷ []) (kept (λ y. not (same y str)) rest))
        ]
      where
        later : (front ++ gap) ++ (x ∷ rest) ≡ (front ++ (gap ++ (x ∷ []))) ++ rest
        later = simp append_assoc

    module _ (same_iff : (a b : A) → (same a b ≡ true) ↔ (a ≡ b)) where
      kept-none : (out : List A) → kept (λ x. not (contains nothing same [] x)) out ≡ out
      unfolding kept contains
      kept-none [] = refl
      kept-none (x ∷ out) = ap (◌∷◌ x) (kept-none out)

      kept-contains :
          (str : A) (strs out : List A)
          → kept (λ x. not (contains nothing same strs x)) (kept (λ x. not (same x str)) out)
            ≡ kept (λ x. not (contains nothing same (str ∷ strs) x)) out
      unfolding kept contains
      kept-contains str strs [] = refl
      kept-contains str strs (x ∷ out) =
          ground (arith, same_iff x str, same_iff str x, kept-contains str strs out)

      -- `Remove` keeps the strings that `Contains` does not find among those to remove, in their
      -- order. The comparison of strings is equality.
      pub remove-kept :
          (strs out : List A)
          → remove nothing same out strs ≡ kept (λ x. not (contains nothing same strs x)) out
      unfolding remove
      remove-kept [] out = sym (kept-none out)
      remove-kept (str ∷ strs) out =
          ap (λ l. remove nothing same l strs) (remove_from-kept out [] [] str 0 0 refl refl)
          ∙ remove-kept strs (kept (λ x. not (same x str)) out)
          ∙ kept-contains str strs out
